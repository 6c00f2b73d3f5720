-- ===== src/Exporter/Consume/Delivered.antt =====
-- exporter/awskinesisexporter/exporter.go: from a batch that the collector hands over to the records
-- in the stream, with the codecs and the groupers of the three signals.
use mathlib.Core.List.Perm
use opentelemetry_kinesis_st.Base.{
  ℕ, ◌<◌, ◌≡◌, refl, subst, ◌∙◌, inr, List, [], ◌∷◌, Option, none, arith, to_ℕ,
}
use opentelemetry_kinesis_st.Exporter.Clamp.{traces_codec, logs_codec, metrics_codec}
use opentelemetry_kinesis_st.Exporter.Clamp.Counts.{codecs-CountsItems}
use opentelemetry_kinesis_st.Exporter.Config.{Config, validate}
use opentelemetry_kinesis_st.Exporter.Config.Validity.{validate_iff}
use opentelemetry_kinesis_st.Exporter.Consume.{
  KinesisExporter, Makers, Wire, new_exporter, consume_traces, consume_metrics, consume_logs,
}
use opentelemetry_kinesis_st.Exporter.Consume.Starts.{IsOf, Starts, new_exporter-Starts}
use opentelemetry_kinesis_st.Exporter.Emit.{TaggedBatch, Emitted, KeySource, emit}
use opentelemetry_kinesis_st.Exporter.Emit.EndToEnd.{emit-Delivers}
use opentelemetry_kinesis_st.Exporter.Emit.Totals.{HasUuids, Ships, group_items}
use opentelemetry_kinesis_st.Exporter.Oversize.{SignalCodec}
use opentelemetry_kinesis_st.Exporter.Oversize.Accounts.{CountsItems}
use opentelemetry_kinesis_st.Exporter.Partition.Grouping.{
  span_ops, log_record_ops, group_traces_by_tags, group_traces_by_leaf, group_logs_by_tags,
  group_logs_by_leaf,
}
use opentelemetry_kinesis_st.Exporter.Partition.Metrics.{group_metrics_by_tags}
use opentelemetry_kinesis_st.Exporter.Partition.Metrics.Counts.{group_metrics_by_tags-counts}
use opentelemetry_kinesis_st.Exporter.Partition.Grouping.Tags.{group_by_tags-counts}
use opentelemetry_kinesis_st.Exporter.Partition.Plans.{compiles}
use opentelemetry_kinesis_st.Exporter.Partition.Weights.{sum_of}
use opentelemetry_kinesis_st.Exporter.Record.{Entry, Outcome}
use opentelemetry_kinesis_st.Exporter.Record.Delivery.{IsHonest, Delivers, Delivers-trans}
use opentelemetry_kinesis_st.Exporter.Signal.{
  Batch, Span, LogRecord, Metric, count_leaves, count_data_points,
}

group_items-sum :
    {T W : Type 0} (cfg : Config) (keys : KeySource W) (compress : List ℕ → Option (List ℕ))
    (sc : SignalCodec T) (gs : List (TaggedBatch T))
    → group_items cfg keys compress sc gs ≡ sum_of (λ g. sc.item_count g.batch) gs
unfolding sum_of
group_items-sum cfg keys compress sc [] = refl
group_items-sum cfg keys compress sc (g ∷ gs) =
    omega (arith, group_items-sum cfg keys compress sc gs)

module _ {W : Type 0} (keys : KeySource W) (wire : Wire) (stored : W → List Entry)
    (e : KinesisExporter W) where
  -- The `n` items of a batch are in the records made of it or in the reported drops, and the outcome
  -- says what the stream has of those records.
  pub record Consumed {T : Type 0} (sc : SignalCodec T) (n : ℕ) (w : W) (r : Outcome × W)
      : Type 0 where
    pub emitted : Emitted
    pub ships : Ships e.cfg keys (wire.compress e.comp) sc n emitted
    pub delivers : Delivers stored w emitted.entries r

  module _ (quiet : (w : W) → stored (keys.new_uuid w).1 ≡ stored w) (uuids : HasUuids keys)
      (honest : IsHonest e.client stored) (positive : 0 < to_ℕ e.cfg.put_records.max_records)
      (limited : 0 < to_ℕ e.cfg.oversize.max_attribute_value_bytes) (w : W) where
    emit-Consumed :
        {T : Type 0} (sc : SignalCodec T) (group_by_tags : T → List (TaggedBatch T)) (b : T) (n : ℕ)
        → CountsItems e.cfg sc
        → sum_of (λ g. sc.item_count g.batch) (group_by_tags b) ≡ n
        → Consumed sc n w (emit e.cfg keys (wire.compress e.comp) sc e.client group_by_tags b w)
    emit-Consumed sc group_by_tags b n laws counted =
        let (em, u, ships, same, delivers) =
          emit-Delivers e.cfg keys (wire.compress e.comp) sc stored quiet e.client group_by_tags b w
            laws uuids honest positive in
        record {
          emitted = em;
          ships =
              subst (λ m. Ships e.cfg keys (wire.compress e.comp) sc m em)
                (group_items-sum e.cfg keys (wire.compress e.comp) sc (group_by_tags b) ∙ counted)
                ships;
          delivers =
              Delivers-trans stored w u em.entries em.entries _ (rw same (Perm.refl _)) delivers;
        }

    consume_traces-Consumed :
        (td : Batch Span)
        → Consumed
            (traces_codec (wire.marshal_traces e.traces_enc))
            (count_leaves td)
            w
            (consume_traces keys wire e td w)
    unfolding consume_traces traces_codec group_traces_by_tags group_traces_by_leaf
    consume_traces-Consumed td =
        emit-Consumed (traces_codec (wire.marshal_traces e.traces_enc))
          (group_traces_by_tags e.key_plan) td (count_leaves td)
          (codecs-CountsItems e.cfg limited (wire.marshal_traces e.traces_enc)
            (wire.marshal_logs e.logs_enc) (wire.marshal_metrics e.metrics_enc)).0
          (group_by_tags-counts span_ops e.key_plan td).0

    consume_metrics-Consumed :
        (md : Batch Metric)
        → Consumed
            (metrics_codec (wire.marshal_metrics e.metrics_enc))
            (count_data_points md)
            w
            (consume_metrics keys wire e md w)
    unfolding consume_metrics metrics_codec
    consume_metrics-Consumed md =
        emit-Consumed (metrics_codec (wire.marshal_metrics e.metrics_enc))
          (group_metrics_by_tags e.key_plan) md (count_data_points md)
          (codecs-CountsItems e.cfg limited (wire.marshal_traces e.traces_enc)
            (wire.marshal_logs e.logs_enc) (wire.marshal_metrics e.metrics_enc)).2
          (group_metrics_by_tags-counts e.key_plan md).0

    consume_logs-Consumed :
        (ld : Batch LogRecord)
        → Consumed
            (logs_codec (wire.marshal_logs e.logs_enc))
            (count_leaves ld)
            w
            (consume_logs keys wire e ld w)
    unfolding consume_logs logs_codec group_logs_by_tags group_logs_by_leaf
    consume_logs-Consumed ld =
        emit-Consumed (logs_codec (wire.marshal_logs e.logs_enc)) (group_logs_by_tags e.key_plan) ld
          (count_leaves ld)
          (codecs-CountsItems e.cfg limited (wire.marshal_traces e.traces_enc)
            (wire.marshal_logs e.logs_enc) (wire.marshal_metrics e.metrics_enc)).1
          (group_by_tags-counts log_record_ops e.key_plan ld).0

-- Take a configuration that Validate accepts, the exporter that newExporter makes of it, UUIDs of 36
-- characters whose drawing stores nothing, and a client that behaves as AWS documents PutRecords.
-- ConsumeTraces, ConsumeMetrics and ConsumeLogs pack each batch, over any encoder and compressor,
-- into records and reported drops that account for every span, data point or log record of it. If
-- the consumer returns nil the stream has stored each of the records exactly once; when records still
-- fail or the context ended, what is stored and a rest that is not empty make up the records; it
-- neither panics nor runs on. Of a call of PutRecords that failed nothing is said.
pub consume-Consumed :
    {W : Type 0} (makers : Makers W) (cfg : Config) (e : KinesisExporter W) (keys : KeySource W)
    (wire : Wire) (stored : W → List Entry) (w : W)
    → validate (compiles makers.compile) cfg ≡ none
    → new_exporter makers cfg ≡ inr e
    → HasUuids keys
    → ((u : W) → stored (keys.new_uuid u).1 ≡ stored u)
    → IsHonest e.client stored
    → (td : Batch Span) (md : Batch Metric) (ld : Batch LogRecord)
    → Consumed keys wire stored e
        (traces_codec (wire.marshal_traces e.traces_enc))
        (count_leaves td)
        w
        (consume_traces keys wire e td w)
      × Consumed keys wire stored e
          (metrics_codec (wire.marshal_metrics e.metrics_enc))
          (count_data_points md)
          w
          (consume_metrics keys wire e md w)
      × Consumed keys wire stored e
          (logs_codec (wire.marshal_logs e.logs_enc))
          (count_leaves ld)
          w
          (consume_logs keys wire e ld w)
consume-Consumed makers cfg e keys wire stored w valid built uuids quiet honest td md ld =
    let started : IsOf makers cfg e =
      subst (Starts makers cfg) built (new_exporter-Starts makers cfg valid) in
    let v = (validate_iff (compiles makers.compile) cfg).0 valid in
    let positive : 0 < to_ℕ e.cfg.put_records.max_records =
      rw started.same_cfg v.sizes.some_records in
    let limited : 0 < to_ℕ e.cfg.oversize.max_attribute_value_bytes =
      rw started.same_cfg v.oversize.some_bytes in
    (
      consume_traces-Consumed keys wire stored e quiet uuids honest positive limited w td,
      consume_metrics-Consumed keys wire stored e quiet uuids honest positive limited w md,
      consume_logs-Consumed keys wire stored e quiet uuids honest positive limited w ld,
    )
