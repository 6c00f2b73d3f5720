-- ===== src/Exporter/Emit/EndToEnd.antt =====
-- exporter/awskinesisexporter/record.go, emit: from a batch's groups to the records in the stream.
use opentelemetry_kinesis_st.Base.{
  ℕ, ◌<◌, ◌≡◌, refl, ◌∙◌, inl, inr, List, [], ◌∷◌, Option, Str, to_ℕ, Option-cases, Bool-cases,
}
use opentelemetry_kinesis_st.Exporter.Config.{Config, tag_hash}
use opentelemetry_kinesis_st.Exporter.Oversize.{SignalCodec, pack_chain}
use opentelemetry_kinesis_st.Exporter.Oversize.Accounts.{CountsItems}
use opentelemetry_kinesis_st.Exporter.Record.{Entry, Env}
use opentelemetry_kinesis_st.Exporter.Record.Delivery.{IsHonest, Delivers}
use opentelemetry_kinesis_st.Exporter.Record.Flush.{flush-Delivers}
use opentelemetry_kinesis_st.Exporter.Emit.{
  TaggedBatch, Emitted, KeySource, partition_key, key_payloads, add_group, emit_groups, emit,
}
use opentelemetry_kinesis_st.Exporter.Emit.Totals.{HasUuids, Ships, group_items, emit_groups-Emits}

module _ {T W : Type 0} (cfg : Config) (keys : KeySource W) (compress : List ℕ → Option (List ℕ))
    (sc : SignalCodec T) (stored : W → List Entry)
    (quiet : (w : W) → stored (keys.new_uuid w).1 ≡ stored w) where
  stored-partition_key :
      (tag_value : Str) (w : W) → stored (partition_key cfg keys tag_value w).1 ≡ stored w
  unfolding partition_key
  stored-partition_key tag_value w = elim (Bool-cases (tag_hash cfg)) [
    | inl e ↦ rw (e, partition_key) refl
    | inr e ↦ rw (e, partition_key) (quiet w)
  ]

  stored-key_payloads :
      (tag_value : Str) (ps : List (List ℕ)) (w : W)
      → stored (key_payloads cfg keys tag_value ps w).1 ≡ stored w
  unfolding key_payloads
  stored-key_payloads tag_value [] w = refl
  stored-key_payloads tag_value (p ∷ ps) w =
      stored-key_payloads tag_value ps (partition_key cfg keys tag_value w).1
      ∙ stored-partition_key tag_value w

  stored-emit_groups :
      (gs : List (TaggedBatch T)) (w : W)
      → stored (emit_groups cfg keys compress sc gs w).1 ≡ stored w
  unfolding emit_groups add_group
  stored-emit_groups [] w = refl
  stored-emit_groups (g ∷ gs) w = elim (Option-cases (pack_chain cfg compress sc g.batch)) [
    | inl e ↦ rw (e, emit_groups) refl
    | inr (r, e) ↦
        rw (e, emit_groups)
          (stored-emit_groups gs (key_payloads cfg keys g.key r.payloads w).1
            ∙ stored-key_payloads g.key r.payloads w)
  ]

  -- For a signal codec whose split and clamp keep item counts, UUIDs of 36 characters whose drawing
  -- stores nothing, a client that behaves as AWS documents PutRecords, and a positive max_records:
  -- emit packs the groups into entries and reported drops that account for every item, and leaves
  -- the stream as flush leaves it with those entries: on nil each is stored exactly once, when
  -- records still fail or the context ended what is stored and a rest that is not empty make up
  -- the entries, and it neither panics nor runs on. Of a failed call nothing is said.
  pub emit-Delivers :
      (env : Env W) (group_by_tags : T → List (TaggedBatch T)) (b : T) (w : W)
      → CountsItems cfg sc
      → HasUuids keys
      → IsHonest env stored
      → 0 < to_ℕ cfg.put_records.max_records
      → (e : Emitted) × (u : W) × Ships cfg keys compress sc
          (group_items cfg keys compress sc (group_by_tags b))
          e
        × (stored u ≡ stored w)
        × Delivers stored u e.entries (emit cfg keys compress sc env group_by_tags b w)
  unfolding emit
  emit-Delivers env group_by_tags b w laws uuids honest positive =
      let gs = group_by_tags b in
      let u = (emit_groups cfg keys compress sc gs w).1 in
      let packed = emit_groups-Emits cfg keys compress sc uuids laws gs w in
      elim (Option-cases (emit_groups cfg keys compress sc gs w).0) [
        | inl f ↦ absurd (rw f at packed)
        | inr (e, f) ↦ (
          e,
          u,
          rw f at packed,
          stored-emit_groups gs w,
          rw (f, emit)
              (flush-Delivers env cfg.put_records.max_records cfg.put_records.max_bytes stored
                honest e.entries u positive),
        )
      ]
