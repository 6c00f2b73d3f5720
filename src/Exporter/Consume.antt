-- ===== src/Exporter/Consume.antt =====
-- exporter/awskinesisexporter/exporter.go: the exporter that newExporter builds, and its consumers of
-- traces, metrics and logs. The AWS client, the instruments, the marshalers and the compressors are
-- parameters.
pub mod Starts
pub mod Delivered
mod Samples
use opentelemetry_kinesis_st.Base.{ℕ, List, Option, none, some, Str, ◌⊎◌, inl, inr}
use opentelemetry_kinesis_st.Encoding.{
  Format, Compressor, new_traces_encoder, new_metrics_encoder, new_logs_encoder, new_compressor,
}
use opentelemetry_kinesis_st.Exporter.Clamp.{traces_codec, logs_codec, metrics_codec}
use opentelemetry_kinesis_st.Exporter.Config.{Config}
use opentelemetry_kinesis_st.Exporter.Emit.{KeySource, emit}
use opentelemetry_kinesis_st.Exporter.Partition.{Regexp, KeyPlan, resolve_key_plan}
use opentelemetry_kinesis_st.Exporter.Partition.Grouping.{group_traces_by_tags, group_logs_by_tags}
use opentelemetry_kinesis_st.Exporter.Partition.Metrics.{group_metrics_by_tags}
use opentelemetry_kinesis_st.Exporter.Record.{Env, Outcome}
use opentelemetry_kinesis_st.Exporter.Signal.{Batch, Span, LogRecord, Metric}

-- kinesisExporter, without its logger and its instruments.
pub record KinesisExporter (W : Type 0) : Type 0 where
  pub cfg : Config
  pub key_plan : KeyPlan
  pub client : Env W
  pub traces_enc : Format
  pub metrics_enc : Format
  pub logs_enc : Format
  pub comp : Compressor

-- What newExporter fails with, by the part that could not be built.
pub data NewError : Type 0 where
  no_traces_encoder no_metrics_encoder no_logs_encoder no_compressor no_client : NewError
  no_telemetry no_key_plan : NewError

-- A part or its error, and what is built after it.
infixl 5 ◌>>=◌
abbrev ◌>>=◌ : {A B : Type 0} → NewError ⊎ A → (A → NewError ⊎ B) → NewError ⊎ B
inl e >>= f = inl e
inr a >>= f = f a

abbrev need : {A : Type 0} → NewError → Option A → NewError ⊎ A
need e none = inl e
need e (some a) = inr a

-- newKinesisClient of a region and an endpoint, newExporterTelemetry, and regexp.Compile.
pub record Makers (W : Type 0) : Type 0 where
  pub new_client : Str → Str → Option (Env W)
  pub new_telemetry : Option (Unit {0})
  pub compile : Str → Option Regexp

unfoldable pub new_exporter : {W : Type 0} → Makers W → Config → NewError ⊎ KinesisExporter W
new_exporter makers cfg = do
  t_enc ← need no_traces_encoder (new_traces_encoder cfg.encoding)
  m_enc ← need no_metrics_encoder (new_metrics_encoder cfg.encoding)
  l_enc ← need no_logs_encoder (new_logs_encoder cfg.encoding)
  comp ← need no_compressor (new_compressor cfg.compression)
  client ← need no_client (makers.new_client cfg.region cfg.endpoint)
  _ ← need no_telemetry makers.new_telemetry
  plan ← need no_key_plan (resolve_key_plan makers.compile cfg)
  inr (record {
    cfg = cfg;
    key_plan = plan;
    client = client;
    traces_enc = t_enc;
    metrics_enc = m_enc;
    logs_enc = l_enc;
    comp = comp;
  })

-- The marshalers by their format and the compressors, `none` where they return an error.
pub record Wire : Type 0 where
  pub marshal_traces : Format → Batch Span → Option (List ℕ)
  pub marshal_metrics : Format → Batch Metric → Option (List ℕ)
  pub marshal_logs : Format → Batch LogRecord → Option (List ℕ)
  pub compress : Compressor → List ℕ → Option (List ℕ)

module _ {W : Type 0} (keys : KeySource W) (wire : Wire) (e : KinesisExporter W) where
  unfoldable pub consume_traces : Batch Span → W → Outcome × W
  consume_traces =
      emit e.cfg keys (wire.compress e.comp) (traces_codec (wire.marshal_traces e.traces_enc))
        e.client (group_traces_by_tags e.key_plan)

  unfoldable pub consume_metrics : Batch Metric → W → Outcome × W
  consume_metrics =
      emit e.cfg keys (wire.compress e.comp) (metrics_codec (wire.marshal_metrics e.metrics_enc))
        e.client (group_metrics_by_tags e.key_plan)

  unfoldable pub consume_logs : Batch LogRecord → W → Outcome × W
  consume_logs =
      emit e.cfg keys (wire.compress e.comp) (logs_codec (wire.marshal_logs e.logs_enc)) e.client
        (group_logs_by_tags e.key_plan)
