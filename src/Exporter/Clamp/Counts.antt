-- ===== src/Exporter/Clamp/Counts.antt =====
-- exporter/awskinesisexporter/signal_traces.go, signal_logs.go and signal_metrics.go: the codecs keep
-- item counts, as the record pipeline relies on.
use opentelemetry_kinesis_st.Base.{
  ℕ, ◌+◌, ◌≡◌, refl, subst, List, Option, none, some, ℤ, pos, negsuc, ◌<◌, length, to_ℕ, arith,
}
use opentelemetry_kinesis_st.Exporter.Oversize.Accounts.{CountsItems}
use opentelemetry_kinesis_st.Exporter.Signal.{
  Batch, Span, LogRecord, Metric, count_data_points, count_scopes, count_leaves,
}
use opentelemetry_kinesis_st.Exporter.Split.{split_half}
use opentelemetry_kinesis_st.Exporter.Split.Keeps.{IsSplit, split_half-IsSplit}
use opentelemetry_kinesis_st.Exporter.Config.{Config}
use opentelemetry_kinesis_st.Exporter.Clamp.Walk.{
  Keeps, Any, length-clamp_each, clamp_span-Keeps, clamp_log_record-Keeps, clamp_batch-Keeps,
}
use opentelemetry_kinesis_st.Exporter.Clamp.Points.{
  count_data_points-split, count_data_points-clamp,
}
use opentelemetry_kinesis_st.Exporter.Clamp.{
  clamp_batch, clamp_span, clamp_log_record, truncate_traces_attributes, truncate_logs_attributes,
  truncate_metrics_attributes, traces_codec, logs_codec, metrics_codec,
}

module _ {L : Type 0} where
  count_leaves-clamp_batch :
      (clamp_leaf : ℤ → L → Option (L × ℕ)) (n : ℕ)
      → ((x : L) → Keeps Any (clamp_leaf (pos n) x))
      → (td : Batch L)
      → Keeps (λ b. count_leaves b ≡ count_leaves td) (clamp_batch clamp_leaf (pos n) td)
  count_leaves-clamp_batch clamp_leaf n keeps td =
      clamp_batch-Keeps n clamp_leaf length count_scopes count_leaves (λ s ss. refl) (λ r rs. refl)
        (length-clamp_each (clamp_leaf (pos n)) keeps) td

  count_leaves-split_half :
      (b x y : Batch L)
      → split_half b ≡ some (x, y)
      → count_leaves x + count_leaves y ≡ count_leaves b
  count_leaves-split_half b x y e =
      let h : IsSplit b (some (x, y)) = rw e at (split_half-IsSplit b) in h.counted

  -- The promise of a clamp under a limit.
  abbrev KeepsItems : (Batch L → ℕ) → ℤ → (Batch L → ℤ → Option (Batch L × ℕ)) → Type 0
  KeepsItems count limit truncate =
      (b : Batch L) → (r : Batch L × ℕ) × (truncate b limit ≡ some r) × (count r.0 ≡ count b)

  Keeps-some :
      (P : Batch L → Type 0) (o : Option (Batch L × ℕ))
      → Keeps P o
      → (r : Batch L × ℕ) × (o ≡ some r) × P r.0
  Keeps-some P none h = absurd h
  Keeps-some P (some r) h = (r, refl, h)

  -- A codec's clamp is the one that it was given.
  given_clamp-counts :
      (t truncate : Batch L → ℤ → Option (Batch L × ℕ))
      → some t ≡ some truncate
      → (count : Batch L → ℕ) (limit : ℤ) → 0 < to_ℕ limit
      → ((n : ℕ) (b : Batch L) → Keeps (λ a. count a ≡ count b) (t b (pos n)))
      → KeepsItems count limit truncate
  given_clamp-counts t truncate e count (negsuc n) positive h b = absurd (omega (arith, positive))
  given_clamp-counts t truncate e count (pos n) positive h b =
      let q : t ≡ truncate = cc in
      subst (λ u. (r : Batch L × ℕ) × (u b (pos n) ≡ some r) × (count r.0 ≡ count b)) q
        (Keeps-some (λ a. count a ≡ count b) (t b (pos n)) (h n b))

-- The limit of a configuration that Validate accepts.
module _ (cfg : Config) (positive : 0 < to_ℕ cfg.oversize.max_attribute_value_bytes) where
  abbrev limit : ℤ
  limit = cfg.oversize.max_attribute_value_bytes

  traces_codec-CountsItems :
      (marshal : Batch Span → Option (List ℕ)) → CountsItems cfg (traces_codec marshal)
  unfolding traces_codec truncate_traces_attributes
  traces_codec-CountsItems marshal = record {
    on_split = λ b x y e. count_leaves-split_half b x y e;
    on_truncate = λ t e.
        given_clamp-counts truncate_traces_attributes t e count_leaves limit positive
          (λ n b. count_leaves-clamp_batch clamp_span n (clamp_span-Keeps n) b);
  }

  logs_codec-CountsItems :
      (marshal : Batch LogRecord → Option (List ℕ)) → CountsItems cfg (logs_codec marshal)
  unfolding logs_codec truncate_logs_attributes
  logs_codec-CountsItems marshal = record {
    on_split = λ b x y e. count_leaves-split_half b x y e;
    on_truncate = λ t e.
        given_clamp-counts truncate_logs_attributes t e count_leaves limit positive
          (λ n b. count_leaves-clamp_batch clamp_log_record n (clamp_log_record-Keeps n) b);
  }

  metrics_codec-CountsItems :
      (marshal : Batch Metric → Option (List ℕ)) → CountsItems cfg (metrics_codec marshal)
  unfolding metrics_codec truncate_metrics_attributes
  metrics_codec-CountsItems marshal = record {
    on_split = λ b x y e. count_data_points-split b x y e;
    on_truncate = λ t e.
        given_clamp-counts truncate_metrics_attributes t e count_data_points limit positive
          (λ n b. count_data_points-clamp n b);
  }

-- Under a positive limit for attribute values, as Validate has it, the codecs of traces, of logs and
-- of metrics, over any encoder, keep item counts: the halves of a split have the batch's items between
-- them, and the attribute clamp does not panic and leaves their number.
pub codecs-CountsItems :
    (cfg : Config)
    → 0 < to_ℕ cfg.oversize.max_attribute_value_bytes
    → (marshal_traces : Batch Span → Option (List ℕ))
      (marshal_logs : Batch LogRecord → Option (List ℕ))
      (marshal_metrics : Batch Metric → Option (List ℕ))
    → CountsItems cfg (traces_codec marshal_traces)
      × CountsItems cfg (logs_codec marshal_logs)
      × CountsItems cfg (metrics_codec marshal_metrics)
codecs-CountsItems cfg positive t l m = (
  traces_codec-CountsItems cfg positive t,
  logs_codec-CountsItems cfg positive l,
  metrics_codec-CountsItems cfg positive m,
)
