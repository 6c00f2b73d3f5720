-- ===== src/Exporter/Clamp.antt =====
-- exporter/awskinesisexporter/signal_traces.go, signal_logs.go and signal_metrics.go: the clamp's walk
-- over a batch, and the codecs that adapt the signals to the record pipeline. What the walks have in
-- common is one function, over any leaf. The limit is Go's int, and `none` is a panic.
pub mod Walk
pub mod Points
pub mod Counts
mod Samples
use opentelemetry_kinesis_st.Base.{
  ℕ, ◌+◌, Bool, true, false, if◌then◌else◌, List, [], ◌∷◌, Option, none, some, ℤ, pos, negsuc,
}
use opentelemetry_kinesis_st.Exporter.Oversize.{SignalCodec}
use opentelemetry_kinesis_st.Exporter.Signal.{
  Attrs, ScopeGroup, ResourceGroup, Batch, Span, LogRecord, Metric, MetricKind, empty_metric, gauge,
  sum, histogram, exponential_histogram, summary, DataPoint, count_leaves, count_data_points,
}
use opentelemetry_kinesis_st.Exporter.Split.{split_half, split_metrics_half}
use opentelemetry_kinesis_st.Exporter.Text.{str_value, other_value, clamp_string_attrs}

-- A part and then what is made of it; `none` is a panic.
infixl 5 ◌>>=◌
abbrev pub ◌>>=◌ : {A B : Type 0} → Option A → (A → Option B) → Option B
none >>= f = none
some a >>= f = f a

has_string : Attrs → Bool
has_string [] = false
has_string ((k, str_value s) ∷ m) = true
has_string ((k, other_value t) ∷ m) = has_string m

-- clampStringAttrs in place. Under a negative limit every string is too long, utf8SafeCut returns the
-- limit itself, and the slice panics.
pub clamp_attrs : ℤ → Attrs → Option (Attrs × ℕ)
unfolding has_string
clamp_attrs (pos n) m = clamp_string_attrs m n
clamp_attrs (negsuc n) m = if has_string m then none else some (m, 0)

-- A loop that clamps each entry of a list, and adds the counts up.
pub clamp_each : {A : Type 0} → (A → Option (A × ℕ)) → List A → Option (List A × ℕ)
clamp_each f [] = some ([], 0)
clamp_each f (x ∷ xs) = do (y, n) ← f x; (ys, changed) ← clamp_each f xs; some (y ∷ ys, n + changed)

module _ {L : Type 0} (clamp_leaf : ℤ → L → Option (L × ℕ)) (max_bytes : ℤ) where
  pub clamp_scope : ScopeGroup L → Option (ScopeGroup L × ℕ)
  unfolding clamp_attrs clamp_each
  clamp_scope ss = do
    (attrs, n) ← clamp_attrs max_bytes ss.scope.attributes
    (ls, changed) ← clamp_each (clamp_leaf max_bytes) ss.leaves
    some (record ss { scope = record ss.scope { attributes = attrs }; leaves = ls }, n + changed)

  pub clamp_resource : ResourceGroup L → Option (ResourceGroup L × ℕ)
  unfolding clamp_scope
  clamp_resource rs = do
    (attrs, n) ← clamp_attrs max_bytes rs.resource.attributes
    (sss, changed) ← clamp_each clamp_scope rs.scopes
    some (
      record rs { resource = record rs.resource { attributes = attrs }; scopes = sss },
      n + changed,
    )

  pub clamp_batch : Batch L → Option (Batch L × ℕ)
  unfolding clamp_resource
  clamp_batch td = clamp_each clamp_resource td

-- A span with the attributes of its events and links.
pub clamp_span : ℤ → Span → Option (Span × ℕ)
unfolding clamp_attrs clamp_each
clamp_span max_bytes sp = do
  (attrs, n) ← clamp_attrs max_bytes sp.attributes
  (events, in_events) ← clamp_each (clamp_attrs max_bytes) sp.events
  (links, in_links) ← clamp_each (clamp_attrs max_bytes) sp.links
  some (record sp { attributes = attrs; events = events; links = links }, n + in_events + in_links)

pub clamp_log_record : ℤ → LogRecord → Option (LogRecord × ℕ)
unfolding clamp_attrs
clamp_log_record max_bytes lr = do
  (attrs, n) ← clamp_attrs max_bytes lr.attributes
  some (record lr { attributes = attrs }, n)

-- A data point with its exemplars, which those of a summary have not.
pub clamp_data_point : ℤ → DataPoint → Option (DataPoint × ℕ)
unfolding clamp_attrs clamp_each
clamp_data_point max_bytes dp = do
  (attrs, n) ← clamp_attrs max_bytes dp.attributes
  (exs, changed) ← clamp_each (clamp_attrs max_bytes) dp.exemplars
  some (record dp { attributes = attrs; exemplars = exs }, n + changed)

pub clamp_summary_point : ℤ → DataPoint → Option (DataPoint × ℕ)
unfolding clamp_attrs
clamp_summary_point max_bytes dp = do
  (attrs, n) ← clamp_attrs max_bytes dp.attributes
  some (record dp { attributes = attrs }, n)

-- The switch of clampMetricDataPoints.
pub clamp_points : MetricKind → ℤ → List DataPoint → Option (List DataPoint × ℕ)
unfolding clamp_each clamp_data_point clamp_summary_point
clamp_points empty_metric n dps = some (dps, 0)
clamp_points gauge n dps = clamp_each (clamp_data_point n) dps
clamp_points (sum t m) n dps = clamp_each (clamp_data_point n) dps
clamp_points (histogram t) n dps = clamp_each (clamp_data_point n) dps
clamp_points (exponential_histogram t) n dps = clamp_each (clamp_data_point n) dps
clamp_points summary n dps = clamp_each (clamp_summary_point n) dps

pub clamp_metric_data_points : ℤ → Metric → Option (Metric × ℕ)
unfolding clamp_points
clamp_metric_data_points max_bytes m = do
  (dps, changed) ← clamp_points m.kind max_bytes m.points
  some (record m { points = dps }, changed)

pub truncate_traces_attributes : Batch Span → ℤ → Option (Batch Span × ℕ)
unfolding clamp_batch clamp_span
truncate_traces_attributes td max_bytes = clamp_batch clamp_span max_bytes td

pub truncate_logs_attributes : Batch LogRecord → ℤ → Option (Batch LogRecord × ℕ)
unfolding clamp_batch clamp_log_record
truncate_logs_attributes ld max_bytes = clamp_batch clamp_log_record max_bytes ld

pub truncate_metrics_attributes : Batch Metric → ℤ → Option (Batch Metric × ℕ)
unfolding clamp_batch clamp_metric_data_points
truncate_metrics_attributes md max_bytes = clamp_batch clamp_metric_data_points max_bytes md

-- tracesCodec, logsCodec and metricsCodec, over the encoder's Marshal.
unfoldable pub traces_codec : (Batch Span → Option (List ℕ)) → SignalCodec (Batch Span)
unfolding truncate_traces_attributes split_half
traces_codec marshal = record {
  split_half = split_half;
  truncate_attributes = some truncate_traces_attributes;
  marshal = marshal;
  item_count = λ td. count_leaves td;
}

unfoldable pub logs_codec : (Batch LogRecord → Option (List ℕ)) → SignalCodec (Batch LogRecord)
unfolding truncate_logs_attributes split_half
logs_codec marshal = record {
  split_half = split_half;
  truncate_attributes = some truncate_logs_attributes;
  marshal = marshal;
  item_count = λ ld. count_leaves ld;
}

unfoldable pub metrics_codec : (Batch Metric → Option (List ℕ)) → SignalCodec (Batch Metric)
unfolding truncate_metrics_attributes split_metrics_half
metrics_codec marshal = record {
  split_half = split_metrics_half;
  truncate_attributes = some truncate_metrics_attributes;
  marshal = marshal;
  item_count = λ md. count_data_points md;
}
