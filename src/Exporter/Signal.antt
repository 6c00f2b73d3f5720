-- ===== src/Exporter/Signal.antt =====
-- The batches of exporter/awskinesisexporter/signal_traces.go, signal_metrics.go and signal_logs.go:
-- pdata's trees, with what the exporter reads of them. `rest` is what it only copies.
use opentelemetry_kinesis_st.Base.{ℕ, ◌+◌, Bool, List, [], ◌∷◌, Str, length}
use opentelemetry_kinesis_st.Base.GoMap.{GoMap}
use opentelemetry_kinesis_st.Exporter.Text.{AttrValue}

abbrev pub Attrs : Type 0
Attrs = GoMap AttrValue

pub record Resource : Type 0 where
  pub attributes : Attrs
  pub rest : List ℕ

pub record Scope : Type 0 where
  pub attributes : Attrs
  pub rest : List ℕ

-- ScopeSpans, ScopeLogs and ScopeMetrics, by what they list.
pub record ScopeGroup (L : Type 0) : Type 0 where
  pub scope : Scope
  pub schema_url : Str
  pub leaves : List L

-- ResourceSpans, ResourceLogs and ResourceMetrics.
pub record ResourceGroup (L : Type 0) : Type 0 where
  pub resource : Resource
  pub schema_url : Str
  pub scopes : List (ScopeGroup L)

-- Traces, Logs and Metrics.
abbrev pub Batch : Type 0 → Type 0
Batch L = List (ResourceGroup L)

-- A span, with the attributes of its events and links.
pub record Span : Type 0 where
  pub attributes : Attrs
  pub events : List Attrs
  pub links : List Attrs
  pub rest : List ℕ

pub record LogRecord : Type 0 where
  pub attributes : Attrs
  pub rest : List ℕ

-- A data point of any kind; those of a summary have no exemplars.
pub record DataPoint : Type 0 where
  pub attributes : Attrs
  pub exemplars : List Attrs
  pub rest : List ℕ

-- MetricType with the settings of each kind: the aggregation temporality, and IsMonotonic.
pub data MetricKind : Type 0 where
  empty_metric gauge : MetricKind
  sum : ℕ → Bool → MetricKind
  histogram exponential_histogram : ℕ → MetricKind
  summary : MetricKind

-- A metric, with its data points behind the settings, none if it is empty; `rest` is its description and unit.
pub record Metric : Type 0 where
  pub name : Str
  pub metadata : Attrs
  pub kind : MetricKind
  pub points : List DataPoint
  pub rest : List ℕ

-- SpanCount and LogRecordCount.
module _ {L : Type 0} where
  abbrev pub count_scopes : List (ScopeGroup L) → ℕ
  count_scopes [] = 0
  count_scopes (x ∷ xs) = length x.leaves + count_scopes xs

  abbrev pub count_leaves : Batch L → ℕ
  count_leaves [] = 0
  count_leaves (x ∷ xs) = count_scopes x.scopes + count_leaves xs

-- The data points that eachMetricDataPoint visits.
unfoldable pub each_data_point : MetricKind → List DataPoint → List DataPoint
each_data_point empty_metric dps = []
each_data_point gauge dps = dps
each_data_point (sum t m) dps = dps
each_data_point (histogram t) dps = dps
each_data_point (exponential_histogram t) dps = dps
each_data_point summary dps = dps

-- The metric without its data points.
unfoldable pub copy_metric_shell : Metric → Metric
copy_metric_shell m = record m { points = [] }

-- DataPointCount.
abbrev pub count_points : List Metric → ℕ
count_points [] = 0
count_points (m ∷ ms) = length (each_data_point m.kind m.points) + count_points ms

abbrev pub count_scope_points : List (ScopeGroup Metric) → ℕ
count_scope_points [] = 0
count_scope_points (s ∷ ss) = count_points s.leaves + count_scope_points ss

abbrev pub count_data_points : Batch Metric → ℕ
count_data_points [] = 0
count_data_points (r ∷ rs) = count_scope_points r.scopes + count_data_points rs
