-- ===== src/Exporter/Consume/Samples.antt =====
-- Concrete runs of exporter/awskinesisexporter/exporter.go: an exporter that keys records by a tag, over
-- a stream that throttles.
use opentelemetry_kinesis_st.Base.{
  ℕ, zero, suc, ◌≡◌, refl, inl, inr, List, [], ◌∷◌, none, some, str_eq, bytes, Bool, false,
}
use opentelemetry_kinesis_st.Encoding.{
  otlp_proto, gzip_codec, new_traces_encoder, new_metrics_encoder, new_logs_encoder, new_compressor,
}
use opentelemetry_kinesis_st.Exporter.Clamp.{traces_codec, logs_codec, metrics_codec}
use opentelemetry_kinesis_st.Exporter.Config.{
  Config, partition_strategy_tag_hash, tag_hash, key_overhead, validate, check_sizes,
  check_strategy, check_oversize, check_policies,
}
use opentelemetry_kinesis_st.Exporter.Consume.{
  KinesisExporter, Makers, Wire, new_exporter, no_client, consume_traces, consume_metrics,
  consume_logs,
}
use opentelemetry_kinesis_st.Exporter.Consume.Delivered.{Consumed, consume-Consumed}
use opentelemetry_kinesis_st.Exporter.Consume.Starts.{Starts, new_exporter-Starts}
use opentelemetry_kinesis_st.Exporter.Partition.{resolve_key_plan}
use opentelemetry_kinesis_st.Exporter.Partition.Plans.{compiles}
use opentelemetry_kinesis_st.Exporter.Record.{Entry}
use opentelemetry_kinesis_st.Exporter.Record.Samples.{slow_stream, stored, slow_stream-IsHonest}
use opentelemetry_kinesis_st.Exporter.Samples.{small_config, stream_keys, stream_keys-HasUuids}
use opentelemetry_kinesis_st.Exporter.Signal.{
  ResourceGroup, Batch, Span, LogRecord, Metric, gauge, count_leaves, count_data_points,
  each_data_point,
}
use opentelemetry_kinesis_st.Exporter.Text.{str_value}

abbrev hashed_config : Config
hashed_config = record small_config {
  partition_key = record {
    strategy = partition_strategy_tag_hash;
    tags = bytes "app" ∷ [];
    keys = [];
    hash = [];
  };
}

abbrev makers : Makers (List Entry × Bool)
makers = record {
  new_client = λ region endpoint. some slow_stream;
  new_telemetry = some tt;
  compile = λ p. none;
}

-- A batch is marshaled to a byte for each item.
abbrev ones : ℕ → List ℕ
ones zero = []
ones (suc n) = 1 ∷ ones n

abbrev wire : Wire
wire = record {
  marshal_traces = λ f td. some (ones (count_leaves td));
  marshal_metrics = λ f md. some (ones (count_data_points md));
  marshal_logs = λ f ld. some (ones (count_leaves ld));
  compress = λ c xs. some xs;
}

abbrev group : {L : Type 0} → List L → ResourceGroup L
group ls = record {
  resource = record { attributes = (bytes "app", str_value (bytes "x")) ∷ []; rest = [] };
  schema_url = [];
  scopes =
      record { scope = record { attributes = []; rest = [] }; schema_url = []; leaves = ls } ∷ [];
}

abbrev spans : Batch Span
spans =
    group (
      record { attributes = []; events = []; links = []; rest = 1 ∷ [] }
      ∷ record { attributes = []; events = []; links = []; rest = 2 ∷ [] }
      ∷ [])
    ∷ []

abbrev logs : Batch LogRecord
logs = group (record { attributes = []; rest = 3 ∷ [] } ∷ []) ∷ []

abbrev metrics : Batch Metric
metrics =
    group (
      record {
        name = bytes "m";
        metadata = [];
        kind = gauge;
        points = record { attributes = []; exemplars = []; rest = 4 ∷ [] } ∷ [];
        rest = [];
      }
      ∷ [])
    ∷ []

abbrev built : KinesisExporter (List Entry × Bool)
built = record {
  cfg = hashed_config;
  key_plan = record { source = bytes "resource"; name = bytes "app"; promote = []; re = none } ∷ [];
  client = slow_stream;
  traces_enc = otlp_proto;
  metrics_enc = otlp_proto;
  logs_enc = otlp_proto;
  comp = gzip_codec;
}

hashed_config_accepted : validate (compiles makers.compile) hashed_config ≡ none
unfolding validate check_sizes check_strategy check_oversize check_policies new_traces_encoder
    new_compressor str_eq key_overhead
hashed_config_accepted = refl

built_by_new_exporter : new_exporter makers hashed_config ≡ inr built
unfolding new_exporter new_traces_encoder new_metrics_encoder new_logs_encoder new_compressor
    resolve_key_plan tag_hash str_eq
built_by_new_exporter = refl

-- Without a client the exporter is not built.
not_built_test :
    new_exporter (record makers { new_client = λ r p. none }) hashed_config ≡ inl no_client
unfolding new_exporter new_traces_encoder new_metrics_encoder new_logs_encoder new_compressor str_eq
not_built_test = refl

new_exporter-Starts_example : Starts makers hashed_config (new_exporter makers hashed_config)
new_exporter-Starts_example = new_exporter-Starts makers hashed_config hashed_config_accepted

consume-Consumed_example :
    Consumed stream_keys wire stored built
      (traces_codec (wire.marshal_traces otlp_proto))
      2
      ([], false)
      (consume_traces stream_keys wire built spans ([], false))
    × Consumed stream_keys wire stored built
        (metrics_codec (wire.marshal_metrics otlp_proto))
        1
        ([], false)
        (consume_metrics stream_keys wire built metrics ([], false))
    × Consumed stream_keys wire stored built
        (logs_codec (wire.marshal_logs otlp_proto))
        1
        ([], false)
        (consume_logs stream_keys wire built logs ([], false))
unfolding each_data_point
consume-Consumed_example =
    consume-Consumed makers hashed_config built stream_keys wire stored ([], false)
      hashed_config_accepted built_by_new_exporter stream_keys-HasUuids (λ u. refl)
      slow_stream-IsHonest spans metrics logs
