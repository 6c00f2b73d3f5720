-- ===== src/Receiver/Batch/Settled.antt =====
-- receiver/awskinesisreceiver/poller_records.go: which records the checkpoint may pass.
use opentelemetry_kinesis_st.Base.{
  ℕ, ◌≡◌, ◌≢◌, refl, Bool, true, false, not, ◌⊎◌, inl, inr, List, [], ◌∷◌, none, some, Str, str_eq,
  bytes, arith, Option-cases, Bool-cases, if◌then◌else◌,
}
use opentelemetry_kinesis_st.Receiver.Batch.{
  Record, RecordResult, record_ok, record_skip, record_retry, ConsumeReply, consumed,
  rejected_permanently, rejected_transiently, PollConfig, Env, consume, maybe_dead_letter,
  handle_record, handle_records,
}

-- What a consumer's answer makes of a decoded record.
abbrev sink_result {ℓ} : {W : Type ℓ} → ConsumeReply × W → RecordResult × W
sink_result (consumed, u) = (record_ok, u)
sink_result (rejected_permanently, u) = (record_skip, u)
sink_result (rejected_transiently, u) = (record_retry, u)

pub RecordResult-cases :
    (r : RecordResult) → (r ≡ record_retry) ⊎ (r ≡ record_ok) ⊎ (r ≡ record_skip)
RecordResult-cases record_retry = inl refl
RecordResult-cases record_ok = inr (inl refl)
RecordResult-cases record_skip = inr (inr refl)

module _ {W D : Type 0} (cfg : PollConfig) (env : Env W D) where
  -- A record is done with, from the world `w` to the world `u`: the consumer took it, or refused it
  -- for good, or its bytes cannot be read and dead-lettering is off, or took them.
  pub data Settled (rec : Record) (w u : W) : Type 0 where
    delivered :
        (raw : List ℕ) (d : D)
        → env.decompress rec.payload ≡ some raw
        → env.unmarshal raw ≡ some d
        → env.consume_downstream d w ≡ (consumed, u)
        → Settled rec w u
    refused :
        (raw : List ℕ) (d : D)
        → env.decompress rec.payload ≡ some raw
        → env.unmarshal raw ≡ some d
        → env.consume_downstream d w ≡ (rejected_permanently, u)
        → Settled rec w u
    unreadable_skipped :
        ((env.decompress rec.payload ≡ none)
          ⊎ ((raw : List ℕ) × (env.decompress rec.payload ≡ some raw) × (env.unmarshal raw ≡ none)))
        → cfg.dead_letter_enabled ≡ false
        → w ≡ u
        → Settled rec w u
    dead_lettered :
        (class : Str)
        → ((env.decompress rec.payload ≡ none)
            ⊎ ((raw : List ℕ) × (env.decompress rec.payload ≡ some raw)
                × (env.unmarshal raw ≡ none)))
        → cfg.dead_letter_enabled ≡ true
        → env.consume_downstream (env.wrap_dead_letter rec class) w ≡ (consumed, u)
        → Settled rec w u

  -- The bytes of the record cannot be decompressed, or not decoded.
  abbrev IsUnreadable : Record → Type 0
  IsUnreadable rec =
      (env.decompress rec.payload ≡ none)
      ⊎ ((raw : List ℕ) × (env.decompress rec.payload ≡ some raw) × (env.unmarshal raw ≡ none))

  letter_off :
      (rec : Record) (class : Str) (w : W)
      → cfg.dead_letter_enabled ≡ false
      → w ≡ (maybe_dead_letter cfg env rec class w).1
  unfolding maybe_dead_letter
  letter_off rec class w h = ground arith

  letter_on :
      (rec : Record) (class : Str) (w : W)
      → cfg.dead_letter_enabled ≡ true
      → (maybe_dead_letter cfg env rec class w).0 ≡ true
      → env.consume_downstream (env.wrap_dead_letter rec class) w
        ≡ (consumed, (maybe_dead_letter cfg env rec class w).1)
  unfolding maybe_dead_letter
  letter_on rec class w h k = ground arith

  letter-Settled :
      (rec : Record) (class : Str) (w : W)
      → IsUnreadable rec
      → (maybe_dead_letter cfg env rec class w).0 ≡ true
      → Settled rec w (maybe_dead_letter cfg env rec class w).1
  letter-Settled rec class w bad h = elim (Bool-cases cfg.dead_letter_enabled) [
    | inr e ↦ unreadable_skipped bad e (letter_off rec class w e)
    | inl e ↦ dead_lettered class bad e (letter_on rec class w e h)
  ]

  -- The result of handleRecord on bytes that cannot be read.
  abbrev unreadable_result : Bool × W → RecordResult × W
  unreadable_result m = (if not m.0 then record_retry else record_skip, m.1)

  unreadable-Settled :
      (rec : Record) (class : Str) (w : W)
      → IsUnreadable rec
      → (unreadable_result (maybe_dead_letter cfg env rec class w)).0 ≢ record_retry
      → Settled rec w (unreadable_result (maybe_dead_letter cfg env rec class w)).1
  unreadable-Settled rec class w bad h = letter-Settled rec class w bad (ground arith)

  handle_undecompressed :
      (rec : Record) (w : W)
      → env.decompress rec.payload ≡ none
      → handle_record cfg env rec w
        ≡ unreadable_result (maybe_dead_letter cfg env rec (bytes "decompress") w)
  unfolding handle_record
  handle_undecompressed rec w e = rw (e, handle_record)

  handle_undecoded :
      (rec : Record) (w : W) (raw : List ℕ)
      → env.decompress rec.payload ≡ some raw
      → env.unmarshal raw ≡ none
      → handle_record cfg env rec w
        ≡ unreadable_result (maybe_dead_letter cfg env rec (bytes "decode") w)
  unfolding handle_record consume
  handle_undecoded rec w raw e f = rw (e, f, handle_record, consume)

  handle_decoded :
      (rec : Record) (w : W) (raw : List ℕ) (d : D)
      → env.decompress rec.payload ≡ some raw
      → env.unmarshal raw ≡ some d
      → handle_record cfg env rec w ≡ sink_result (env.consume_downstream d w)
  unfolding handle_record consume
  handle_decoded rec w raw d e f = rw (e, f, handle_record, consume) (ground arith)

  decoded-Settled :
      (rec : Record) (w : W) (raw : List ℕ) (d : D) (r : ConsumeReply × W)
      → env.decompress rec.payload ≡ some raw
      → env.unmarshal raw ≡ some d
      → env.consume_downstream d w ≡ r
      → (sink_result r).0 ≢ record_retry
      → Settled rec w (sink_result r).1
  decoded-Settled rec w raw d (consumed, u) e f g h = delivered raw d e f g
  decoded-Settled rec w raw d (rejected_permanently, u) e f g h = refused raw d e f g
  decoded-Settled rec w raw d (rejected_transiently, u) e f g h = absurd (h refl)

  -- The checkpoint may pass a record only when the record is done with.
  handle_record-Settled :
      (rec : Record) (w : W)
      → (handle_record cfg env rec w).0 ≢ record_retry
      → Settled rec w (handle_record cfg env rec w).1
  handle_record-Settled rec w h = elim (Option-cases (env.decompress rec.payload)) [
    | inl e ↦
        let eq = handle_undecompressed rec w e in
        rw eq (unreadable-Settled rec (bytes "decompress") w (inl e) (rw eq at h))
    | inr (raw, e) ↦ elim (Option-cases (env.unmarshal raw)) [
      | inl f ↦
          let eq = handle_undecoded rec w raw e f in
          rw eq (unreadable-Settled rec (bytes "decode") w (inr (raw, e, f)) (rw eq at h))
      | inr (d, f) ↦
          let eq = handle_decoded rec w raw d e f in
          rw eq (decoded-Settled rec w raw d (env.consume_downstream d w) e f refl (rw eq at h))
    ]
  ]

  -- The records of a batch up to the first to be retried are done with, one after another, and no
  -- other record is touched; `last` is the last of their sequence numbers that is not empty.
  pub data Handles : List Record → Str → W → Str → List Record → W → Type 0 where
    nothing : {recs : List Record} {seq : Str} {w : W} → Handles recs seq w seq recs w
    one_more :
        {rec : Record} {recs rest : List Record} {seq seq' last : Str} {w v u : W}
        → Settled rec w v
        → seq' ≡ (if str_eq rec.sequence_number [] then seq else rec.sequence_number)
        → Handles recs seq' v last rest u
        → Handles (rec ∷ recs) seq w last rest u

  -- A batch, with the sequence number `seq` so far, leads to `r`: the records up to a point are done
  -- with, and the batch either ended there or stopped at a record to be retried.
  pub record Leads (recs : List Record) (seq : Str) (w : W) (r : Str × Bool × W) : Type 0 where
    pub rest : List Record
    pub reached : W
    pub handled : Handles recs seq w r.0 rest reached
    pub stop :
        ((r.1 ≡ false) × (rest ≡ []) × (reached ≡ r.2))
        ⊎ ((r.1 ≡ true)
            × ((rec : Record) × (tl : List Record) × (rest ≡ rec ∷ tl)
                × (handle_record cfg env rec reached ≡ (record_retry, r.2))))

  Leads-cons :
      (rec : Record) (recs : List Record) (seq : Str) (w v : W) (r : Str × Bool × W)
      → Settled rec w v
      → Leads recs (if str_eq rec.sequence_number [] then seq else rec.sequence_number) v r
      → Leads (rec ∷ recs) seq w r
  Leads-cons rec recs seq w v r s l = record {
    rest = l.rest;
    reached = l.reached;
    handled = one_more s refl l.handled;
    stop = l.stop;
  }

  -- The checkpoint of a batch: whatever the records, the number that runPoll checkpoints is that of
  -- the last record of a prefix of the batch whose records are all done with, in order, and the
  -- batch goes on to its end unless it stops at a record that is to be retried.
  pub handle_records-Leads :
      (recs : List Record) (seq : Str) (w : W)
      → Leads recs seq w (handle_records cfg env recs seq w)
  unfolding handle_records
  handle_records-Leads [] seq w = record {
    rest = [];
    reached = w;
    handled = nothing;
    stop = inl (refl, refl, refl);
  }
  handle_records-Leads (rec ∷ recs) seq w =
      let ih =
        handle_records-Leads recs
          (if str_eq rec.sequence_number [] then seq else rec.sequence_number)
          (handle_record cfg env rec w).1 in
      elim (RecordResult-cases (handle_record cfg env rec w).0) [
        | inl e ↦
            rw (e, handle_records)
              (record {
                rest = rec ∷ recs;
                reached = w;
                handled = nothing;
                stop = inr (refl, (rec, recs, refl, ground (arith, e)));
              })
        | inr (inl e) ↦
            rw (e, handle_records)
              (Leads-cons rec recs seq w (handle_record cfg env rec w).1 _
                (handle_record-Settled rec w (λ k. cc)) ih)
        | inr (inr e) ↦
            rw (e, handle_records)
              (Leads-cons rec recs seq w (handle_record cfg env rec w).1 _
                (handle_record-Settled rec w (λ k. cc)) ih)
      ]
