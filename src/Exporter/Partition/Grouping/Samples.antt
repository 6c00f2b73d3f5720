-- ===== src/Exporter/Partition/Grouping/Samples.antt =====
-- Concrete runs of exporter/awskinesisexporter/partition.go and partition_grouping.go.
use opentelemetry_kinesis_st.Base.{ℕ, ◌≡◌, refl, length, List, [], ◌∷◌, none, Str, str_eq, bytes}
use opentelemetry_kinesis_st.Exporter.Config.{key_source_resource, key_source_datapoint}
use opentelemetry_kinesis_st.Exporter.Partition.{KeyPlan, has_promotion}
use opentelemetry_kinesis_st.Exporter.Partition.Grouping.{
  span_ops, promoted_resource, group_by_leaf, group_by_resource, group_by_tags,
}
use opentelemetry_kinesis_st.Exporter.Partition.Grouping.Keeps.{HaveOwnKeys, group_by_leaf-keeps}
use opentelemetry_kinesis_st.Exporter.Partition.Grouping.Leaves.{input_weight}
use opentelemetry_kinesis_st.Exporter.Partition.Grouping.Tags.{
  own_weight, group_by_resource-keeps, group_by_tags-counts, count_groups,
}
use opentelemetry_kinesis_st.Exporter.Partition.Weights.{sum_of, groups_weight}
use opentelemetry_kinesis_st.Exporter.Signal.{
  Resource, Scope, Span, Batch, count_scopes, count_leaves,
}
use opentelemetry_kinesis_st.Exporter.Text.{str_value}

abbrev by_app_and_user : KeyPlan
by_app_and_user =
    record { source = key_source_resource; name = bytes "app"; promote = []; re = none }
    ∷ record { source = key_source_datapoint; name = bytes "user"; promote = []; re = none }
    ∷ []

abbrev app : Resource
app = record { attributes = (bytes "app", str_value (bytes "x")) ∷ []; rest = [] }

abbrev no_scope_fields : Scope
no_scope_fields = record { attributes = []; rest = [] }

abbrev span_of : Str → Span
span_of user = record {
  attributes = (bytes "user", str_value user) ∷ [];
  events = [];
  links = [];
  rest = [];
}

abbrev three_spans : Batch Span
three_spans =
    record {
      resource = app;
      schema_url = [];
      scopes =
          record {
            scope = no_scope_fields;
            schema_url = [];
            leaves = span_of (bytes "u") ∷ span_of (bytes "v") ∷ span_of (bytes "u") ∷ [];
          }
          ∷ [];
    }
    ∷ []

abbrev whole : Resource → Str → Resource × Str
whole r u = (r, u)

-- A weight by the length of the group's key.
abbrev by_key_length : Str → (Resource × Str) → Scope → Str → Span → ℕ
by_key_length k v s u x = length k

nothing_promoted :
    (parts : List Str) (r : Resource) (u : Str)
    → whole (promoted_resource span_ops by_app_and_user parts r) u ≡ whole r u
unfolding promoted_resource has_promotion str_eq
nothing_promoted parts r u = refl

group_by_leaf-keeps_example :
    (groups_weight whole by_key_length (group_by_leaf span_ops by_app_and_user three_spans)
      ≡ input_weight whole by_key_length span_ops by_app_and_user three_spans)
    × HaveOwnKeys (group_by_leaf span_ops by_app_and_user three_spans)
group_by_leaf-keeps_example =
    group_by_leaf-keeps whole by_key_length span_ops by_app_and_user nothing_promoted three_spans

group_by_resource-keeps_example :
    (sum_of
        (λ gr. sum_of (λ r. count_scopes r.scopes) gr.batch)
        (group_by_resource by_app_and_user three_spans)
      ≡ sum_of (own_weight by_app_and_user (λ k r. count_scopes r.scopes)) three_spans)
    × HaveOwnKeys (group_by_resource by_app_and_user three_spans)
group_by_resource-keeps_example =
    group_by_resource-keeps by_app_and_user (λ k r. count_scopes r.scopes) three_spans

group_by_tags-counts_example :
    (count_groups (group_by_tags (group_by_leaf span_ops) by_app_and_user three_spans)
      ≡ count_leaves three_spans)
    × HaveOwnKeys (group_by_tags (group_by_leaf span_ops) by_app_and_user three_spans)
group_by_tags-counts_example = group_by_tags-counts span_ops by_app_and_user three_spans
