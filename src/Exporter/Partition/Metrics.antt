-- ===== src/Exporter/Partition/Metrics.antt =====
-- exporter/awskinesisexporter/partition_grouping.go, groupMetricsByLeaf with metricBucket, and
-- groupMetricsByTags of signal_metrics.go. The closure that eachMetricDataPoint hands over appends a
-- data point; a bucket's maps of pointers are its own lists, as for traces.
pub mod Entries
pub mod Points
pub mod Loops
pub mod Keeps
pub mod Counts
mod Samples
use opentelemetry_kinesis_st.Base.{ℕ, suc, List, [], ◌∷◌, ◌++◌, map, Str, str_eq}
use opentelemetry_kinesis_st.Base.Keyed.{find_or_create}
use opentelemetry_kinesis_st.Exporter.Emit.{TaggedBatch}
use opentelemetry_kinesis_st.Exporter.Partition.{KeyPlan, resolve_parts, join_parts}
use opentelemetry_kinesis_st.Exporter.Partition.Grouping.{
  LeafOps, nat_eq, empty_attrs, promoted_leaf, promoted_resource, group_by_tags,
}
use opentelemetry_kinesis_st.Exporter.Signal.{
  Attrs, Resource, Scope, ScopeGroup, ResourceGroup, Batch, Metric, DataPoint, each_data_point,
  copy_metric_shell,
}

-- A destination ScopeMetrics, with its metrics by the index of their origin.
pub record BucketScope : Type 0 where
  pub scope : Scope
  pub schema_url : Str
  pub metrics : List (ℕ × Metric)

pub record BucketMetrics : Type 0 where
  pub resource : Resource
  pub schema_url : Str
  pub scopes : List (ℕ × BucketScope)

abbrev pub MetricBucket : Type 0
MetricBucket = List (ℕ × BucketMetrics)

abbrev pub data_point_ops : LeafOps DataPoint
data_point_ops = record {
  attributes = λ x. x.attributes;
  with_attributes = λ a x. record x { attributes = a };
}

pub append_into : DataPoint → Metric → Metric
append_into dp dst = record dst { points = dst.points ++ dp ∷ [] }

-- Where an entry of the input stands, and the entry.
pub record Origin : Type 0 where
  pub i : ℕ
  pub j : ℕ
  pub k : ℕ
  pub rm : ResourceGroup Metric
  pub sm : ScopeGroup Metric
  pub m : Metric

module _ (o : Origin) (upd : Metric → Metric) where
  pub in_scope : BucketScope → BucketScope
  unfolding copy_metric_shell
  in_scope d = record d {
    metrics = find_or_create nat_eq o.k (copy_metric_shell o.m) upd d.metrics;
  }

  pub in_resource : (Resource → Resource) → BucketMetrics → BucketMetrics
  unfolding in_scope
  in_resource promote d = record {
    resource = promote d.resource;
    schema_url = d.schema_url;
    scopes =
        find_or_create nat_eq o.j
          (record { scope = o.sm.scope; schema_url = o.sm.schema_url; metrics = [] }) in_scope
          d.scopes;
  }

  -- ensureMetric, with what follows on the metric that it returns and on its resource.
  pub ensure_metric : (Resource → Resource) → MetricBucket → MetricBucket
  unfolding in_resource
  ensure_metric promote =
      find_or_create nat_eq o.i
        (record { resource = o.rm.resource; schema_url = o.rm.schema_url; scopes = [] })
        (in_resource promote)

bucket_scope : BucketScope → ScopeGroup Metric
bucket_scope d = record {
  scope = d.scope;
  schema_url = d.schema_url;
  leaves = map (λ e. e.1) d.metrics;
}

bucket_metrics : BucketMetrics → ResourceGroup Metric
unfolding bucket_scope
bucket_metrics d = record {
  resource = d.resource;
  schema_url = d.schema_url;
  scopes = map (λ e. bucket_scope e.1) d.scopes;
}

-- The bucket's out.
pub metrics_out : MetricBucket → Batch Metric
unfolding bucket_metrics
metrics_out b = map (λ e. bucket_metrics e.1) b

pub tagged_metrics : Str × MetricBucket → TaggedBatch (Batch Metric)
unfolding metrics_out
tagged_metrics e = record { key = e.0; batch = metrics_out e.1 }

module _ (plan : KeyPlan) where
  pub point_parts : Origin → DataPoint → List Str
  point_parts o dp = resolve_parts plan o.rm.resource.attributes o.m.name dp.attributes

  -- The body of the closure that is called for each data point.
  pub add_point : Origin → List (Str × MetricBucket) → DataPoint → List (Str × MetricBucket)
  unfolding point_parts append_into ensure_metric promoted_leaf promoted_resource
  add_point o by_key dp =
      let parts = point_parts o dp in
      find_or_create str_eq (join_parts parts) []
        (ensure_metric o (append_into (promoted_leaf data_point_ops plan parts dp))
          (promoted_resource data_point_ops plan parts))
        by_key

  pub add_points : Origin → List (Str × MetricBucket) → List DataPoint → List (Str × MetricBucket)
  unfolding add_point
  add_points o by_key [] = by_key
  add_points o by_key (dp ∷ dps) = add_points o (add_point o by_key dp) dps

  -- A metric with no data points: its shell.
  pub add_shell : Origin → List (Str × MetricBucket) → List (Str × MetricBucket)
  unfolding ensure_metric
  add_shell o by_key =
      find_or_create str_eq
        (join_parts (resolve_parts plan o.rm.resource.attributes o.m.name empty_attrs)) []
        (ensure_metric o (λ d. d) (λ r. r)) by_key

  pub add_visited : Origin → List (Str × MetricBucket) → List DataPoint → List (Str × MetricBucket)
  unfolding add_points add_shell
  add_visited o by_key [] = add_shell o by_key
  add_visited o by_key (dp ∷ dps) = add_points o by_key (dp ∷ dps)

  pub add_metrics :
      ℕ
      → ℕ
      → ℕ
      → ResourceGroup Metric
      → ScopeGroup Metric
      → List (Str × MetricBucket)
      → List Metric
      → List (Str × MetricBucket)
  unfolding add_visited each_data_point
  add_metrics i j k rm sm by_key [] = by_key
  add_metrics i j k rm sm by_key (m ∷ ms) =
      add_metrics i j (suc k) rm sm
        (add_visited (record { i = i; j = j; k = k; rm = rm; sm = sm; m = m }) by_key
          (each_data_point m.kind m.points))
        ms

  pub add_metric_scopes :
      ℕ
      → ℕ
      → ResourceGroup Metric
      → List (Str × MetricBucket)
      → List (ScopeGroup Metric)
      → List (Str × MetricBucket)
  unfolding add_metrics
  add_metric_scopes i j rm by_key [] = by_key
  add_metric_scopes i j rm by_key (sm ∷ sms) =
      add_metric_scopes i (suc j) rm (add_metrics i j 0 rm sm by_key sm.leaves) sms

  pub add_metric_resources :
      ℕ → List (Str × MetricBucket) → Batch Metric → List (Str × MetricBucket)
  unfolding add_metric_scopes
  add_metric_resources i by_key [] = by_key
  add_metric_resources i by_key (rm ∷ rms) =
      add_metric_resources (suc i) (add_metric_scopes i 0 rm by_key rm.scopes) rms

pub group_metrics_by_leaf : KeyPlan → Batch Metric → List (TaggedBatch (Batch Metric))
unfolding add_metric_resources tagged_metrics
group_metrics_by_leaf plan md = map tagged_metrics (add_metric_resources plan 0 [] md)

pub group_metrics_by_tags : KeyPlan → Batch Metric → List (TaggedBatch (Batch Metric))
unfolding group_by_tags group_metrics_by_leaf
group_metrics_by_tags = group_by_tags group_metrics_by_leaf
