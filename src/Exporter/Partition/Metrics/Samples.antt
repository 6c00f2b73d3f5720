-- ===== src/Exporter/Partition/Metrics/Samples.antt =====
-- Concrete runs of exporter/awskinesisexporter/partition_grouping.go, groupMetricsByLeaf: a metric whose
-- data points go to two groups, and a metric without data points.
use opentelemetry_kinesis_st.Base.{◌≡◌, refl, length, List, [], ◌∷◌, none, Str, str_eq, bytes}
use opentelemetry_kinesis_st.Exporter.Config.{key_source_resource, key_source_datapoint}
use opentelemetry_kinesis_st.Exporter.Partition.{KeyPlan, has_promotion}
use opentelemetry_kinesis_st.Exporter.Partition.Grouping.{promoted_resource}
use opentelemetry_kinesis_st.Exporter.Partition.Grouping.Keeps.{HaveOwnKeys}
use opentelemetry_kinesis_st.Exporter.Partition.Metrics.{data_point_ops, group_metrics_by_leaf}
use opentelemetry_kinesis_st.Exporter.Partition.Metrics.Entries.{PointWeight}
use opentelemetry_kinesis_st.Exporter.Partition.Metrics.Keeps.{
  metric_groups_weight, group_metrics_by_leaf-keeps,
}
use opentelemetry_kinesis_st.Exporter.Partition.Metrics.Loops.{metric_input_weight}
use opentelemetry_kinesis_st.Exporter.Signal.{
  Resource, Batch, Metric, DataPoint, MetricKind, gauge, empty_metric,
}
use opentelemetry_kinesis_st.Exporter.Text.{str_value}

abbrev by_app_and_user : KeyPlan
by_app_and_user =
    record { source = key_source_resource; name = bytes "app"; promote = []; re = none }
    ∷ record { source = key_source_datapoint; name = bytes "user"; promote = []; re = none }
    ∷ []

abbrev point_of : Str → DataPoint
point_of user = record {
  attributes = (bytes "user", str_value user) ∷ [];
  exemplars = [];
  rest = [];
}

abbrev metric_of : Str → MetricKind → List DataPoint → Metric
metric_of name kind points = record {
  name = name;
  metadata = [];
  kind = kind;
  points = points;
  rest = [];
}

abbrev four_points : Batch Metric
four_points =
    record {
      resource = record { attributes = (bytes "app", str_value (bytes "x")) ∷ []; rest = [] };
      schema_url = [];
      scopes =
          record {
            scope = record { attributes = []; rest = [] };
            schema_url = [];
            leaves =
                metric_of (bytes "a") gauge
                  (point_of (bytes "u") ∷ point_of (bytes "v") ∷ point_of (bytes "u") ∷ [])
                ∷ metric_of (bytes "b") empty_metric []
                ∷ metric_of (bytes "c") gauge (point_of (bytes "v") ∷ [])
                ∷ [];
          }
          ∷ [];
    }
    ∷ []

abbrev whole : Resource → Str → Resource × Str
whole r u = (r, u)

-- A weight by the length of the group's key.
abbrev by_key_length : PointWeight (Resource × Str)
by_key_length k v s u m dp = length k

nothing_promoted :
    (parts : List Str) (r : Resource) (u : Str)
    → whole (promoted_resource data_point_ops by_app_and_user parts r) u ≡ whole r u
unfolding promoted_resource has_promotion str_eq
nothing_promoted parts r u = refl

group_metrics_by_leaf-keeps_example :
    (metric_groups_weight whole by_key_length (group_metrics_by_leaf by_app_and_user four_points)
      ≡ metric_input_weight whole by_key_length by_app_and_user four_points)
    × HaveOwnKeys (group_metrics_by_leaf by_app_and_user four_points)
group_metrics_by_leaf-keeps_example =
    group_metrics_by_leaf-keeps whole by_key_length by_app_and_user nothing_promoted four_points
