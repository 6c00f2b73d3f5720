-- ===== src/Exporter/Split.antt =====
-- exporter/awskinesisexporter/signal_traces.go, signal_logs.go and signal_metrics.go: splitting a
-- batch in half. Traces and logs are split by the same code over other types: here, over any leaf.
pub mod Leaves
pub mod Keeps
pub mod Metrics
mod Samples
use opentelemetry_kinesis_st.Base.{
  ℕ, suc, ◌+◌, ◌/◌, Bool, List, [], ◌∷◌, ◌++◌, Option, none, some, ltb, leb, ◌==◌, if◌then◌else◌,
  length,
}
use opentelemetry_kinesis_st.Exporter.Signal.{
  ScopeGroup, ResourceGroup, Batch, Span, LogRecord, Metric, MetricKind, empty_metric, gauge, sum,
  histogram, exponential_histogram, summary, DataPoint, count_scopes, count_leaves, each_data_point,
  copy_metric_shell,
}

-- The loops of a split: the entries before the `mid`th go to one side, the others to the other,
-- when `seen` entries have been placed.
pub place : {A : Type 0} → ℕ → ℕ → List A → List A × List A
place mid seen [] = ([], [])
place mid seen (x ∷ xs) =
    let (a, b) = place mid (suc seen) xs in if ltb seen mid then (x ∷ a, b) else (a, x ∷ b)

module _ {L : Type 0} where
  -- A scope is made on a side when the first leaf is placed there.
  scope_with : ScopeGroup L → List L → List (ScopeGroup L)
  scope_with ss [] = []
  scope_with ss (x ∷ xs) = record ss { leaves = x ∷ xs } ∷ []

  pub split_scopes : ℕ → ℕ → List (ScopeGroup L) → List (ScopeGroup L) × List (ScopeGroup L)
  unfolding place scope_with
  split_scopes mid seen [] = ([], [])
  split_scopes mid seen (ss ∷ sss) =
      let (da, db) = place mid seen ss.leaves in
      let (a, b) = split_scopes mid (seen + length ss.leaves) sss in
      (scope_with ss da ++ a, scope_with ss db ++ b)

  -- A single resource, its leaves split at `mid`.
  pub split_resource : ℕ → ResourceGroup L → Batch L × Batch L
  unfolding split_scopes
  split_resource mid rs =
      let (a, b) = split_scopes mid 0 rs.scopes in
      (record rs { scopes = a } ∷ [], record rs { scopes = b } ∷ [])

  -- A batch of at most one resource.
  split_alone : Batch L → Option (Batch L × Batch L)
  unfolding split_resource
  split_alone [] = none
  split_alone (rs ∷ rest) =
      if leb (count_leaves (rs ∷ rest)) 1
      then none
      else some (split_resource (count_leaves (rs ∷ rest) / 2) rs)

  -- splitTracesHalf and splitLogsHalf; `none` is a batch that cannot be split.
  unfoldable pub split_half : Batch L → Option (Batch L × Batch L)
  unfolding split_alone
  split_half td = if ltb 1 (length td) then some (place (length td / 2) 0 td) else split_alone td

-- The first metric of a resource, with its scope.
first_metric : List (ScopeGroup Metric) → Option (ScopeGroup Metric × Metric)
first_metric [] = none
first_metric (sm ∷ sms) = elim sm.leaves [ m ∷ _ ↦ some (sm, m) | [] ↦ first_metric sms ]

-- buildMetricShell, with the data points that are appended to the metric that it returns.
build_metric_shell :
    ResourceGroup Metric → ScopeGroup Metric → Metric → List DataPoint → Batch Metric
unfolding copy_metric_shell
build_metric_shell rm sm m dps =
    record rm {
      scopes = record sm { leaves = record (copy_metric_shell m) { points = dps } ∷ [] } ∷ [];
    }
    ∷ []

-- `none` also stands for a resource with no metric, for which it is not called.
split_single_metric_datapoints : ResourceGroup Metric → Option (Batch Metric × Batch Metric)
unfolding build_metric_shell first_metric place each_data_point
split_single_metric_datapoints rm = elim (first_metric rm.scopes) [
  | none ↦ none
  | some (sm, m) ↦
      let dps = each_data_point m.kind m.points in
      if leb (length dps) 1
      then none
      else let (a, b) = place (length dps / 2) 0 dps in
        some (build_metric_shell rm sm m a, build_metric_shell rm sm m b)
]

metric_count : ResourceGroup Metric → ℕ
metric_count rm = count_scopes rm.scopes

-- A batch of at most one resource.
split_alone_metrics : Batch Metric → Option (Batch Metric × Batch Metric)
unfolding split_resource metric_count split_single_metric_datapoints
split_alone_metrics [] = none
split_alone_metrics (rm ∷ rest) =
    if metric_count rm == 0
    then none
    else if metric_count rm == 1
    then split_single_metric_datapoints rm
    else some (split_resource (metric_count rm / 2) rm)

unfoldable pub split_metrics_half : Batch Metric → Option (Batch Metric × Batch Metric)
unfolding place split_alone_metrics
split_metrics_half md =
    if ltb 1 (length md) then some (place (length md / 2) 0 md) else split_alone_metrics md

pub split_traces_half : Batch Span → Option (Batch Span × Batch Span)
unfolding split_half
split_traces_half = split_half

pub split_logs_half : Batch LogRecord → Option (Batch LogRecord × Batch LogRecord)
unfolding split_half
split_logs_half = split_half
