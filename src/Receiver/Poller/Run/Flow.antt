-- ===== src/Receiver/Poller/Run/Flow.antt =====
-- receiver/awskinesisreceiver/poller.go: what the poller of a closed shard meets, and how it handles
-- the batches then.
use opentelemetry_kinesis_st.Base.{
  ℕ, ◌≤◌, ◌<◌, ◌≡◌, ◌≢◌, refl, All, true, false, inl, inr, List, [], ◌∷◌, Option, some, Str, str_eq,
  arith, Bool-cases, Option-cases, bytes, if◌then◌else◌,
}
use opentelemetry_kinesis_st.Lease.{Lease, ok, checkpoint_shard_end}
use opentelemetry_kinesis_st.Receiver.Batch.{
  Record, RecordsReply, get_output, iterator_expired, get_failed, IteratorRequest, consumed,
  RecordResult, record_ok, record_skip, record_retry, Ctx, PollConfig, Env, handle_record,
  handle_records, maybe_dead_letter, consume,
}
use opentelemetry_kinesis_st.Receiver.Batch.Settled.{RecordResult-cases}

module _ {W D : Type 0} (env : Env W D) (held : Lease → W → Type 0)
    (left : Option Str → W → ℕ) where
  -- From one world to the next a lease stays held, and an iterator does not get further from the end.
  pub record Calm (l : Lease) (w w' : W) : Type 0 where
    pub stays : held l w → held l w'
    pub no_further : (i : Option Str) → left i w' ≤ left i w

  -- A reply of GetRecords uses up some of what `left` counts: it brings the iterator closer to the end
  -- of the shard, or it is one of finitely many failures. After an expired iterator the new one counts.
  -- No record has the sentinel for its sequence number.
  abbrev pub Nears : Str → W → RecordsReply × W → Type 0
  Nears iter w (get_output recs next, w') =
      All (λ rec. rec.sequence_number ≢ checkpoint_shard_end) recs
      × (left next w' < left (some iter) w)
  Nears iter w (get_failed, w') = left (some iter) w' < left (some iter) w
  Nears iter w (iterator_expired, w') =
      (r : IteratorRequest) (i : Option Str)
      → (env.get_shard_iterator r w').0 ≡ some i
      → left i (env.get_shard_iterator r w').1 < left (some iter) w

  -- Nobody asks the poller to stop, the consumers take all, the store accepts the checkpoints of a
  -- lease that is held, and the reads come to the end of the shard.
  pub record Flows : Type 0 where
    pub no_cancel : (w : W) → env.ctx_done w ≡ false
    pub no_drain : (w : W) → env.draining w ≡ false
    pub no_cut : (d : ℕ) (w : W) → (env.wait d w).0 ≡ false
    pub takes : (d : D) (w : W) → (env.consume_downstream d w).0 ≡ consumed
    pub opens :
        (r : IteratorRequest) (w : W) → (i : Option Str) × ((env.get_shard_iterator r w).0 ≡ some i)
    pub accepts :
        (ctx : Ctx) (l : Lease) (seq : Str) (w : W)
        → held l w
        → (l' : Lease) × ((env.store_checkpoint ctx l seq w).0 ≡ ok l')
          × (l'.checkpoint ≡ seq)
          × (seq ≢ checkpoint_shard_end → held l' (env.store_checkpoint ctx l seq w).1)
    pub is_open : (l : Lease) (w : W) → held l w → l.checkpoint ≢ checkpoint_shard_end
    pub reads : (iter : Str) (w : W) → Nears iter w (env.get_records iter w)
    pub on_records : (iter : Str) (l : Lease) (w : W) → held l w → held l (env.get_records iter w).1
    pub on_iterator :
        (r : IteratorRequest) (l : Lease) (w : W) → held l w → held l (env.get_shard_iterator r w).1
    pub on_consume : (d : D) (l : Lease) (w : W) → Calm l w (env.consume_downstream d w).1
    pub on_wait : (d : ℕ) (l : Lease) (w : W) → Calm l w (env.wait d w).1
    pub on_checkpoint :
        (ctx : Ctx) (l : Lease) (seq : Str) (w : W) (i : Option Str)
        → left i (env.store_checkpoint ctx l seq w).1 ≤ left i w

pub nil_ne : [] ≢ checkpoint_shard_end
nil_ne e = absurd (cc)

module _ {W D : Type 0} (cfg : PollConfig) (env : Env W D) (held : Lease → W → Type 0)
    (left : Option Str → W → ℕ) (f : Flows env held left) where
  -- A record that does not have to be read again.
  abbrev IsSettled : RecordResult → Type 0
  IsSettled record_retry = ⊥
  IsSettled record_ok = Unit
  IsSettled record_skip = Unit

  calm : (l : Lease) (w : W) → Calm env held left l w w
  calm l w = record { stays = λ h. h; no_further = λ i. omega arith }

  Calm-trans :
      (l : Lease) (u v w : W)
      → Calm env held left l u v
      → Calm env held left l v w
      → Calm env held left l u w
  Calm-trans l u v w a b = record {
    stays = λ h. b.stays (a.stays h);
    no_further = λ i. omega (arith, a.no_further i, b.no_further i);
  }

  maybe_dead_letter-true :
      (rec : Record) (c : Str) (l : Lease) (w : W)
      → ((maybe_dead_letter cfg env rec c w).0 ≡ true)
        × Calm env held left l w (maybe_dead_letter cfg env rec c w).1
  unfolding maybe_dead_letter
  maybe_dead_letter-true rec c l w = elim (Bool-cases cfg.dead_letter_enabled) [
    | inr e ↦ rw (e, maybe_dead_letter) (refl, calm l w)
    | inl e ↦
        let d = env.wrap_dead_letter rec c in
        rw (e, f.takes d w, maybe_dead_letter) (refl, f.on_consume d l w)
  ]

  handle_record-IsSettled :
      (rec : Record) (l : Lease) (w : W)
      → IsSettled (handle_record cfg env rec w).0
        × Calm env held left l w (handle_record cfg env rec w).1
  unfolding handle_record consume
  handle_record-IsSettled rec l w = elim (Option-cases (env.decompress rec.payload)) [
    | inl e ↦
        let letter = maybe_dead_letter-true rec (bytes "decompress") l w in
        rw (e, letter.0, handle_record) (tt, letter.1)
    | inr (raw, e) ↦ elim (Option-cases (env.unmarshal raw)) [
      | inl g ↦
          let letter = maybe_dead_letter-true rec (bytes "decode") l w in
          rw (e, g, consume, letter.0, handle_record) (tt, letter.1)
      | inr (d, g) ↦ rw (e, g, consume, f.takes d w, handle_record) (tt, f.on_consume d l w)
    ]
  ]

  -- The sequence number after a record.
  advanced-ne :
      (seq s : Str)
      → seq ≢ checkpoint_shard_end
      → s ≢ checkpoint_shard_end
      → (if str_eq s [] then seq else s) ≢ checkpoint_shard_end
  advanced-ne seq s a b = elim (Bool-cases (str_eq s [])) [ inl e ↦ rw e a | inr e ↦ rw e b ]

  pub handle_records-settled :
      (recs : List Record) (seq : Str) (l : Lease) (w : W)
      → All (λ rec. rec.sequence_number ≢ checkpoint_shard_end) recs
      → seq ≢ checkpoint_shard_end
      → ((handle_records cfg env recs seq w).0 ≢ checkpoint_shard_end)
        × ((handle_records cfg env recs seq w).1 ≡ false)
        × Calm env held left l w (handle_records cfg env recs seq w).2
  unfolding handle_records
  handle_records-settled [] seq l w h a = (a, refl, calm l w)
  handle_records-settled (rec ∷ recs) seq l w h a =
      let next = if str_eq rec.sequence_number [] then seq else rec.sequence_number in
      let u = (handle_record cfg env rec w).1 in
      let (ne, all, rest) =
        handle_records-settled recs next l u h.1 (advanced-ne seq rec.sequence_number a h.0) in
      let one = handle_record-IsSettled rec l w in
      elim (RecordResult-cases (handle_record cfg env rec w).0) [
        | inl e ↦ absurd (rw e at one.0)
        | inr (inl e) ↦ rw (e, handle_records) (ne, all, Calm-trans l w u _ one.1 rest)
        | inr (inr e) ↦ rw (e, handle_records) (ne, all, Calm-trans l w u _ one.1 rest)
      ]
