-- ===== src/Exporter/Partition/Metrics/Keeps.antt =====
-- exporter/awskinesisexporter/partition_grouping.go: what groupMetricsByLeaf keeps.
use opentelemetry_kinesis_st.Base.{
  ℕ, suc, ◌≡◌, ◌∙◌, sym, List, [], ◌∷◌, map, Str, str_eq, str_eq_refl, arith,
}
use opentelemetry_kinesis_st.Base.Keyed.{weigh, AreDistinct, AreDistinct-find_or_create}
use opentelemetry_kinesis_st.Exporter.Emit.{TaggedBatch}
use opentelemetry_kinesis_st.Exporter.Partition.{KeyPlan}
use opentelemetry_kinesis_st.Exporter.Partition.Grouping.{promoted_resource}
use opentelemetry_kinesis_st.Exporter.Partition.Grouping.Keeps.{
  weigh-sum_of, HaveOwnKeys, HaveOwnKeys-map, at_index, no_scope,
}
use opentelemetry_kinesis_st.Exporter.Partition.Grouping.Leaves.{str_eq_sound}
use opentelemetry_kinesis_st.Exporter.Partition.Metrics.{
  BucketMetrics, MetricBucket, data_point_ops, Origin, bucket_scope, bucket_metrics, metrics_out,
  tagged_metrics, add_point, add_points, add_shell, add_visited, add_metrics, add_metric_scopes,
  add_metric_resources, group_metrics_by_leaf,
}
use opentelemetry_kinesis_st.Exporter.Partition.Metrics.Entries.{
  PointWeight, metric_weight, metric_entry, scope_entry, resource_entry, bucket_entry,
}
use opentelemetry_kinesis_st.Exporter.Partition.Metrics.Loops.{
  StandAt-self, place_of, no_metric, metric_input_weight, add_resources-weight,
}
use opentelemetry_kinesis_st.Exporter.Partition.Weights.{sum_of, sum_of-map, sum_of-ext}
use opentelemetry_kinesis_st.Exporter.Signal.{
  Resource, ScopeGroup, ResourceGroup, Batch, Metric, DataPoint, each_data_point,
}

module _ {V : Type 0} (view : Resource → Str → V) (f : PointWeight V) where
  unfoldable pub metrics_weight : Str → ResourceGroup Metric → ℕ
  metrics_weight key r =
      sum_of
        (λ s.
          sum_of (metric_weight view f key (view r.resource r.schema_url) s.scope s.schema_url)
            s.leaves)
        r.scopes

  -- All data points of the groups.
  unfoldable pub metric_groups_weight : List (TaggedBatch (Batch Metric)) → ℕ
  unfolding metrics_weight
  metric_groups_weight gs = sum_of (λ g. sum_of (metrics_weight g.key) g.batch) gs

  bucket_metrics-weight :
      (key : Str) (i : ℕ) (d : BucketMetrics)
      → metrics_weight key (bucket_metrics d) ≡ resource_entry view f key i d
  unfolding metrics_weight bucket_metrics bucket_scope resource_entry scope_entry
  bucket_metrics-weight key i d =
      let v = view d.resource d.schema_url in
      sum_of-map (λ s. sum_of (metric_weight view f key v s.scope s.schema_url) s.leaves)
        (λ e. bucket_scope e.1) d.scopes
      ∙ sum_of-ext _ _ d.scopes (λ e.
        sum_of-map (metric_weight view f key v e.1.scope e.1.schema_url) (λ x. x.1) e.1.metrics
        ∙ sym (weigh-sum_of (metric_entry view f key v e.1.scope e.1.schema_url) e.1.metrics))
      ∙ sym (weigh-sum_of (scope_entry view f key v) d.scopes)

  tagged_metrics-weight :
      (m : List (Str × MetricBucket))
      → metric_groups_weight (map tagged_metrics m) ≡ weigh (bucket_entry view f) m
  unfolding metric_groups_weight tagged_metrics metrics_out bucket_entry
  tagged_metrics-weight m =
      sum_of-map (λ g. sum_of (metrics_weight g.key) g.batch) tagged_metrics m
      ∙ sum_of-ext _ _ m (λ e.
        sum_of-map (metrics_weight e.0) (λ x. bucket_metrics x.1) e.1
        ∙ sum_of-ext _ _ e.1 (λ x. bucket_metrics-weight e.0 x.0 x.1)
        ∙ sym (weigh-sum_of (resource_entry view f e.0) e.1))
      ∙ sym (weigh-sum_of (bucket_entry view f) m)

module _ (plan : KeyPlan) where
  add_points-AreDistinct :
      (o : Origin) (m : List (Str × MetricBucket)) (dps : List DataPoint)
      → AreDistinct m
      → AreDistinct (add_points plan o m dps)
  unfolding add_points add_point
  add_points-AreDistinct o m [] h = h
  add_points-AreDistinct o m (dp ∷ dps) h =
      add_points-AreDistinct o (add_point plan o m dp) dps
        (AreDistinct-find_or_create str_eq str_eq_sound str_eq_refl _ _ _ m h)

  add_visited-AreDistinct :
      (o : Origin) (m : List (Str × MetricBucket)) (dps : List DataPoint)
      → AreDistinct m
      → AreDistinct (add_visited plan o m dps)
  unfolding add_visited add_shell
  add_visited-AreDistinct o m [] h =
      AreDistinct-find_or_create str_eq str_eq_sound str_eq_refl _ _ _ m h
  add_visited-AreDistinct o m (dp ∷ dps) h = add_points-AreDistinct o m (dp ∷ dps) h

  add_metrics-AreDistinct :
      (i j k : ℕ) (rm : ResourceGroup Metric) (sm : ScopeGroup Metric)
      (m : List (Str × MetricBucket)) (ms : List Metric)
      → AreDistinct m
      → AreDistinct (add_metrics plan i j k rm sm m ms)
  unfolding add_metrics
  add_metrics-AreDistinct i j k rm sm m [] h = h
  add_metrics-AreDistinct i j k rm sm m (x ∷ ms) h =
      let o : Origin = record { i = i; j = j; k = k; rm = rm; sm = sm; m = x } in
      add_metrics-AreDistinct i j (suc k) rm sm _ ms
        (add_visited-AreDistinct o m (each_data_point x.kind x.points) h)

  add_metric_scopes-AreDistinct :
      (i j : ℕ) (rm : ResourceGroup Metric) (m : List (Str × MetricBucket))
      (sms : List (ScopeGroup Metric))
      → AreDistinct m
      → AreDistinct (add_metric_scopes plan i j rm m sms)
  unfolding add_metric_scopes
  add_metric_scopes-AreDistinct i j rm m [] h = h
  add_metric_scopes-AreDistinct i j rm m (sm ∷ sms) h =
      add_metric_scopes-AreDistinct i (suc j) rm _ sms
        (add_metrics-AreDistinct i j 0 rm sm m sm.leaves h)

  add_metric_resources-AreDistinct :
      (i : ℕ) (m : List (Str × MetricBucket)) (md : Batch Metric)
      → AreDistinct m
      → AreDistinct (add_metric_resources plan i m md)
  unfolding add_metric_resources
  add_metric_resources-AreDistinct i m [] h = h
  add_metric_resources-AreDistinct i m (rm ∷ md) h =
      add_metric_resources-AreDistinct (suc i) _ md
        (add_metric_scopes-AreDistinct i 0 rm m rm.scopes h)

-- For a weight of a data point by the key of its group, a view of its resource with which promotion
-- does not interfere (all of it, if the plan promotes nothing), its scope with the schema URL and its
-- metric without data points: groupMetricsByLeaf gives groups with different keys, in which the data
-- points weigh as much as the input's do in the groups of the keys that the plan gives them, with the
-- attributes that it promotes. So every data point is once in the group of its key, under its
-- resource, scope and metric.
pub group_metrics_by_leaf-keeps :
    {V : Type 0} (view : Resource → Str → V) (f : PointWeight V) (plan : KeyPlan)
    → ((parts : List Str) (r : Resource) (u : Str)
        → view (promoted_resource data_point_ops plan parts r) u ≡ view r u)
    → (md : Batch Metric)
    → (metric_groups_weight view f (group_metrics_by_leaf plan md)
        ≡ metric_input_weight view f plan md)
      × HaveOwnKeys (group_metrics_by_leaf plan md)
unfolding group_metrics_by_leaf tagged_metrics weigh
group_metrics_by_leaf-keeps view f plan unseen md =
    let none_view = view (record { attributes = []; rest = [] }) [] in
    let places = at_index (place_of view) (none_view, λ _. (no_scope, λ _. no_metric)) 0 md in
    let added =
      add_resources-weight view f plan unseen places 0 [] md
        (StandAt-self (place_of view) (none_view, λ _. (no_scope, λ _. no_metric)) 0 md) tt in
    (
      tagged_metrics-weight view f (add_metric_resources plan 0 [] md) ∙ omega (arith, added.0),
      HaveOwnKeys-map (λ e. metrics_out e.1) _ (add_metric_resources-AreDistinct plan 0 [] md tt),
    )
