-- ===== src/Exporter/Emit/Limits.antt =====
-- exporter/awskinesisexporter: the limits of the service, from the configuration check through the
-- packing to the requests.
use opentelemetry_kinesis_st.Base.{
  ℕ, ◌+◌, ◌≤◌, ◌<◌, ◌≡◌, ap, sym, ◌∙◌, length-append, Bool, inl, inr, List, [], ◌∷◌, ◌++◌, Option,
  none, some, Str, length, All, arith, to_ℕ, ℤ,
}
use opentelemetry_kinesis_st.Exporter.Config.{Config, key_overhead, validate}
use opentelemetry_kinesis_st.Exporter.Config.Validity.{HasSizes, validate_iff}
use opentelemetry_kinesis_st.Exporter.Oversize.{SignalCodec}
use opentelemetry_kinesis_st.Exporter.Oversize.Accounts.{CountsItems, AreRecords}
use opentelemetry_kinesis_st.Exporter.Record.{Entry, entry_bytes, take_chunk}
use opentelemetry_kinesis_st.Exporter.Record.Chunks.{request_bytes, take_chunk-IsCut}
use opentelemetry_kinesis_st.Exporter.Emit.{TaggedBatch, Emitted, KeySource, emit_groups}
use opentelemetry_kinesis_st.Exporter.Emit.Totals.{
  payloads, HasUuids, Emits, group_items, emit_groups-Emits,
}

-- A record of at most the configured size, key included.
abbrev pub IsInLimit : Config → Entry → Type 0
IsInLimit cfg e = entry_bytes e ≤ to_ℕ cfg.max_record_size

-- The entries of a packing, none if it did not end.
abbrev pub entries_of : Option Emitted → List Entry
entries_of none = []
entries_of (some e) = e.entries

Ships-IsInLimit :
    {T : Type 0} (cfg : Config) (compress : List ℕ → Option (List ℕ)) (sc : SignalCodec T)
    (bs : List T) (es : List Entry)
    → AreRecords cfg compress sc bs (payloads es)
    → All (λ (x : Entry). length x.partition_key ≡ key_overhead cfg) es
    → All (IsInLimit cfg) es
unfolding payloads entry_bytes
Ships-IsInLimit cfg compress sc bs [] h k = tt
Ships-IsInLimit cfg compress sc [] (e ∷ es) h k = absurd h
Ships-IsInLimit cfg compress sc (b ∷ bs) (e ∷ es) h k =
    let (raw, m, c, small) = h.0 in
    (omega (arith, small, k.0), Ships-IsInLimit cfg compress sc bs es h.1 k.1)

-- For a signal codec whose split and clamp keep item counts, and UUIDs of 36 characters: every
-- record that emit hands to flush is within max_record_size, its partition key counted.
pub emit_groups-IsInLimit :
    {T W : Type 0} (cfg : Config) (keys : KeySource W) (compress : List ℕ → Option (List ℕ))
    (sc : SignalCodec T)
    → HasUuids keys
    → CountsItems cfg sc
    → (gs : List (TaggedBatch T)) (w : W)
    → All (IsInLimit cfg) (entries_of (emit_groups cfg keys compress sc gs w).0)
emit_groups-IsInLimit cfg keys compress sc uuids laws gs w =
    go (emit_groups cfg keys compress sc gs w).0
      (emit_groups-Emits cfg keys compress sc uuids laws gs w)
  where
    go :
        (o : Option Emitted)
        → Emits cfg keys compress sc (group_items cfg keys compress sc gs) o
        → All (IsInLimit cfg) (entries_of o)
    go none h = tt
    go (some e) h = Ships-IsInLimit cfg compress sc h.batches e.entries h.records h.keyed

-- The requests that flush sends of the records, cut after cut.
pub data IsRequest (max_records max_bytes : ℤ) : List Entry → List Entry → Type 0 where
  first :
      (e : Entry) (es : List Entry)
      → IsRequest max_records max_bytes (e ∷ es) (take_chunk max_records max_bytes 0 0 (e ∷ es)).0
  later :
      {e : Entry} {es req : List Entry}
      → IsRequest max_records max_bytes (take_chunk max_records max_bytes 0 0 (e ∷ es)).1 req
      → IsRequest max_records max_bytes (e ∷ es) req

All-prefix : (P : Entry → Type 0) (xs ys : List Entry) → All P (xs ++ ys) → All P xs × All P ys
All-prefix P [] ys h = (tt, h)
All-prefix P (x ∷ xs) ys h = let r = All-prefix P xs ys h.1 in ((h.0, r.0), r.1)

single_bytes :
    (n : ℕ) (es : List Entry)
    → All (λ e. entry_bytes e ≤ n) es
    → length es ≤ 1
    → request_bytes es ≤ n
unfolding request_bytes
single_bytes n [] h k = omega arith
single_bytes n (e ∷ []) h k = omega (arith, h.0)
single_bytes n (e ∷ f ∷ es) h k = absurd (omega arith)

cut_in_limits :
    (cfg : Config) (e : Entry) (es : List Entry)
    → HasSizes cfg
    → All (IsInLimit cfg) (e ∷ es)
    → let cut = take_chunk cfg.put_records.max_records cfg.put_records.max_bytes 0 0 (e ∷ es) in
      (0 < length cut.0)
      × (length cut.0 ≤ 500)
      × (request_bytes cut.0 ≤ to_ℕ cfg.put_records.max_bytes)
      × All (IsInLimit cfg) cut.1
cut_in_limits cfg e es sizes h =
    let max = cfg.put_records.max_records in
    let cut = take_chunk max cfg.put_records.max_bytes 0 0 (e ∷ es) in
    let c = take_chunk-IsCut max cfg.put_records.max_bytes e es sizes.some_records in
    let parts = All-prefix (IsInLimit cfg) cut.0 cut.1 (rw c.in_order h) in
    let lengths : length cut.0 + length cut.1 ≡ length (e ∷ es) =
      sym (length-append cut.0 cut.1) ∙ ap length c.in_order in
    (
      omega (arith, c.progress, lengths),
      omega (arith, c.few, sizes.at_most_500),
      elim c.small [
        | inl b ↦ b
        | inr one ↦
            let single = single_bytes (to_ℕ cfg.max_record_size) cut.0 parts.0 one in
            omega (arith, single, sizes.record_fits)
      ],
      parts.1,
    )

-- With a configuration that Validate accepts, every request that flush cuts from records within
-- max_record_size holds 1 to 500 records and at most max_bytes bytes, with no exception for a
-- single record.
pub request_in_limits :
    (compiles : Str → Bool) (cfg : Config) (es req : List Entry)
    → validate compiles cfg ≡ none
    → All (IsInLimit cfg) es
    → IsRequest cfg.put_records.max_records cfg.put_records.max_bytes es req
    → (0 < length req) × (length req ≤ 500) × (request_bytes req ≤ to_ℕ cfg.put_records.max_bytes)
request_in_limits compiles cfg es req v h (first e rest) =
    let (some_records, few, small, _) =
      cut_in_limits cfg e rest ((validate_iff compiles cfg).0 v).sizes h in
    (some_records, few, small)
request_in_limits compiles cfg es req v h (later {e = e} {es = rest} r) =
    let (_, _, _, left) = cut_in_limits cfg e rest ((validate_iff compiles cfg).0 v).sizes h in
    request_in_limits compiles cfg _ req v left r
