-- ===== src/Exporter/Partition/Metrics/Counts.antt =====
-- exporter/awskinesisexporter/signal_metrics.go: groupMetricsByTags loses no data point.
use opentelemetry_kinesis_st.Base.{
  ℕ, ◌≡◌, ◌∙◌, refl, sym, inl, inr, List, [], ◌∷◌, Str, arith, Bool-cases,
}
use opentelemetry_kinesis_st.Exporter.Emit.{TaggedBatch}
use opentelemetry_kinesis_st.Exporter.Partition.{KeyPlan, resource_only}
use opentelemetry_kinesis_st.Exporter.Partition.Grouping.{
  whole_resource, group_by_resource, group_by_tags,
}
use opentelemetry_kinesis_st.Exporter.Partition.Grouping.Keeps.{HaveOwnKeys}
use opentelemetry_kinesis_st.Exporter.Partition.Metrics.{
  group_metrics_by_leaf, group_metrics_by_tags,
}
use opentelemetry_kinesis_st.Exporter.Partition.Metrics.Entries.{PointWeight, metric_weight}
use opentelemetry_kinesis_st.Exporter.Partition.Metrics.Points.{point_weight}
use opentelemetry_kinesis_st.Exporter.Partition.Metrics.Keeps.{
  metric_groups_weight, metrics_weight, group_metrics_by_leaf-keeps,
}
use opentelemetry_kinesis_st.Exporter.Partition.Metrics.Loops.{metric_input_weight}
use opentelemetry_kinesis_st.Exporter.Partition.Grouping.Tags.{
  ones, no_view, own_weight, group_by_resource-keeps,
}
use opentelemetry_kinesis_st.Exporter.Partition.Weights.{sum_of, sum_of-ext}
use opentelemetry_kinesis_st.Exporter.Signal.{
  ResourceGroup, ScopeGroup, Batch, Metric, each_data_point, count_points, count_scope_points,
  count_data_points,
}

abbrev one : PointWeight (Unit {0})
one key v sc su m dp = 1

-- Sums of the numbers of data points.
metric_ones :
    (ms : List Metric)
    → sum_of (λ m. sum_of (λ dp. 1) (each_data_point m.kind m.points)) ms ≡ count_points ms
unfolding sum_of
metric_ones [] = refl
metric_ones (m ∷ ms) = omega (arith, ones (each_data_point m.kind m.points), metric_ones ms)

scope_ones :
    (ss : List (ScopeGroup Metric))
    → sum_of (λ s. sum_of (λ m. sum_of (λ dp. 1) (each_data_point m.kind m.points)) s.leaves) ss
      ≡ count_scope_points ss
unfolding sum_of
scope_ones [] = refl
scope_ones (s ∷ ss) = omega (arith, metric_ones s.leaves, scope_ones ss)

count_sum :
    (md : Batch Metric) → sum_of (λ r. count_scope_points r.scopes) md ≡ count_data_points md
unfolding sum_of
count_sum [] = refl
count_sum (r ∷ md) = omega (arith, count_sum md)

abbrev pub count_point_groups : List (TaggedBatch (Batch Metric)) → ℕ
count_point_groups gs = sum_of (λ g. count_data_points g.batch) gs

by_leaf-counts :
    (plan : KeyPlan) (md : Batch Metric)
    → count_point_groups (group_metrics_by_leaf plan md) ≡ count_data_points md
unfolding metric_groups_weight metrics_weight metric_weight metric_input_weight point_weight
by_leaf-counts plan md =
    sum_of-ext _ _ (group_metrics_by_leaf plan md)
      (λ g. sym (sum_of-ext _ _ g.batch (λ r. scope_ones r.scopes) ∙ count_sum g.batch))
    ∙ (group_metrics_by_leaf-keeps no_view one plan (λ parts r u. refl) md).0
    ∙ sum_of-ext _ _ md (λ r. scope_ones r.scopes)
    ∙ count_sum md

kept_points :
    (plan : KeyPlan) (parts : List Str) (rm : ResourceGroup Metric)
    → count_scope_points (whole_resource plan parts rm).scopes ≡ count_scope_points rm.scopes
unfolding whole_resource
kept_points plan parts rm = ground arith

by_resource-counts :
    (plan : KeyPlan) (md : Batch Metric)
    → count_point_groups (group_by_resource plan md) ≡ count_data_points md
unfolding own_weight
by_resource-counts plan md =
    sum_of-ext _ _ (group_by_resource plan md) (λ g. sym (count_sum g.batch))
    ∙ (group_by_resource-keeps plan (λ k r. count_scope_points r.scopes) md).0
    ∙ sum_of-ext _ _ md (λ r. kept_points plan _ r)
    ∙ count_sum md

-- For every plan, with or without promotions: the groups that groupMetricsByTags makes hold as many
-- data points together as the batch, and no two of them have the same key.
pub group_metrics_by_tags-counts :
    (plan : KeyPlan) (md : Batch Metric)
    → (count_point_groups (group_metrics_by_tags plan md) ≡ count_data_points md)
      × HaveOwnKeys (group_metrics_by_tags plan md)
unfolding group_metrics_by_tags group_by_tags sum_of
group_metrics_by_tags-counts [] md = (omega arith, (tt, tt))
group_metrics_by_tags-counts (k ∷ p) md = elim (Bool-cases (resource_only (k ∷ p))) [
  | inl e ↦
      rw (e, group_by_tags)
        (by_resource-counts (k ∷ p) md, (group_by_resource-keeps (k ∷ p) (λ _ _. 0) md).1)
  | inr e ↦
      rw (e, group_by_tags)
        (
          by_leaf-counts (k ∷ p) md,
          (group_metrics_by_leaf-keeps no_view one (k ∷ p) (λ parts r u. refl) md).1,
        )
]
