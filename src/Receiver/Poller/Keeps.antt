-- ===== src/Receiver/Poller/Keeps.antt =====
-- receiver/awskinesisreceiver/poller.go, runPoll: the checkpoints that are due in a pass, and the
-- properties that its smaller steps keep.
use opentelemetry_kinesis_st.Base.{
  ℕ, zero, suc, ◌-◌, ◌≡◌, ◌≢◌, ◌||◌, refl, Bool, true, false, not, ◌⊎◌, inl, inr, List, [], ◌∷◌,
  Option, none, some, Str, str_eq, bytes, Option-cases, Bool-cases, if◌then◌else◌,
}
use opentelemetry_kinesis_st.Lease.{
  Lease, Result, ok, err, Error, checkpoint_shard_end, checkpoint_trim_horizon,
}
use opentelemetry_kinesis_st.Receiver.Batch.{
  Record, get_output, IteratorRequest, PollConfig, Env, Ctx, poll_ctx, consume, dead_letter,
  maybe_dead_letter, handle_record, handle_records,
}
use opentelemetry_kinesis_st.Receiver.Poller.{
  Poller, Loop, checkpoint, retry_checkpoint, checkpoint_with_retry, ask_iterator, open_iterator,
  ends_retry, checkpoint_retry_backoff, checkpoint_attempts,
}
use opentelemetry_kinesis_st.Receiver.Batch.Settled.{Handles, RecordResult-cases}

pub Result-cases {ℓ} :
    {A : Type ℓ} (r : Result A) → ((e : Error) × (r ≡ err e)) ⊎ ((a : A) × (r ≡ ok a))
Result-cases (ok a) = inr (a, refl)
Result-cases (err e) = inl (e, refl)

-- A property of a result's second component, whichever way a test goes.
if-case :
    {A B : Type 0} (P : B → Type 0) (b : Bool) (x y : A × B)
    → P x.1
    → P y.1
    → P (if b then x else y).1
if-case P true x y h k = h
if-case P false x y h k = k

module _ {W D : Type 0} (cfg : PollConfig) (env : Env W D) (st : Loop) where
  -- What a pass that starts with the variables `st` may write as the checkpoint: the sentinel of a
  -- shard whose iterator is nil, or the last sequence number of a prefix, done with, of the records
  -- that the stream returned for the pass's iterator.
  pub data IsDue : Str → Type 0 where
    closed : st.iter ≡ none → IsDue checkpoint_shard_end
    settled :
        (iter : Str) (next : Option Str) (recs rest : List Record) (seq : Str) (v w u : W)
        → st.iter ≡ some iter
        → env.get_records iter v ≡ (get_output recs next, w)
        → Handles cfg env recs [] w seq rest u
        → seq ≢ []
        → IsDue seq

  -- `I` holds of the lease and the world, whatever the pass does besides writing checkpoints, and
  -- whenever the store answers a write of a checkpoint that is due.
  pub record Keeps (I : Lease → W → Type 0) : Type 0 where
    pub on_records : (iter : Str) (l : Lease) (w : W) → I l w → I l (env.get_records iter w).1
    pub on_iterator :
        (r : IteratorRequest) (l : Lease) (w : W) → I l w → I l (env.get_shard_iterator r w).1
    pub on_consume : (d : D) (l : Lease) (w : W) → I l w → I l (env.consume_downstream d w).1
    pub on_wait : (d : ℕ) (l : Lease) (w : W) → I l w → I l (env.wait d w).1
    pub on_wait_ctx : (d : ℕ) (l : Lease) (w : W) → I l w → I l (env.wait_ctx d w).1
    pub on_checkpoint :
        (ctx : Ctx) (l l' : Lease) (seq : Str) (w : W)
        → IsDue seq
        → I l w
        → (env.store_checkpoint ctx l seq w).0 ≡ ok l'
        → I l' (env.store_checkpoint ctx l seq w).1
    pub on_refusal :
        (ctx : Ctx) (l : Lease) (e : Error) (seq : Str) (w : W)
        → IsDue seq
        → I l w
        → (env.store_checkpoint ctx l seq w).0 ≡ err e
        → I l (env.store_checkpoint ctx l seq w).1

module _ {W D : Type 0} (cfg : PollConfig) (env : Env W D) (st : Loop) (I : Lease → W → Type 0)
    (k : Keeps cfg env st I) where
  abbrev pub Inv : Poller W → Type 0
  Inv p = I p.leased p.world

  letter-keeps :
      (rec : Record) (c : Str) (l : Lease) (w : W)
      → I l w
      → I l (maybe_dead_letter cfg env rec c w).1
  unfolding maybe_dead_letter
  letter-keeps rec c l w h =
      if-case (I l) (not cfg.dead_letter_enabled) (true, w) (dead_letter cfg env rec c w) h
        (k.on_consume (env.wrap_dead_letter rec c) l w h)

  consume-keeps : (raw : List ℕ) (l : Lease) (w : W) → I l w → I l (consume cfg env raw w).2
  unfolding consume
  consume-keeps raw l w h = elim (Option-cases (env.unmarshal raw)) [
    | inl e ↦ rw (e, consume) h
    | inr (d, e) ↦ rw (e, consume) (k.on_consume d l w h)
  ]

  handle_record-keeps :
      (rec : Record) (l : Lease) (w : W) → I l w → I l (handle_record cfg env rec w).1
  unfolding handle_record
  handle_record-keeps rec l w h = elim (Option-cases (env.decompress rec.payload)) [
    | inl e ↦ rw (e, handle_record) (letter-keeps rec (bytes "decompress") l w h)
    | inr (raw, e) ↦
        rw (e, handle_record)
          (if-case (I l) _ _ _ (letter-keeps rec (bytes "decode") l _ (consume-keeps raw l w h))
            (consume-keeps raw l w h))
  ]

  pub handle_records-keeps :
      (recs : List Record) (seq : Str) (l : Lease) (w : W)
      → I l w
      → I l (handle_records cfg env recs seq w).2
  unfolding handle_records
  handle_records-keeps [] seq l w h = h
  handle_records-keeps (rec ∷ recs) seq l w h =
      let rest =
        handle_records-keeps recs
          (if str_eq rec.sequence_number [] then seq else rec.sequence_number) l
          (handle_record cfg env rec w).1 (handle_record-keeps rec l w h) in
      elim (RecordResult-cases (handle_record cfg env rec w).0) [
        | inl e ↦ rw (e, handle_records) (handle_record-keeps rec l w h)
        | inr (inl e) ↦ rw (e, handle_records) rest
        | inr (inr e) ↦ rw (e, handle_records) rest
      ]

  pub checkpoint-keeps :
      (ctx : Ctx) (seq : Str) (p : Poller W)
      → IsDue cfg env st seq
      → Inv p
      → Inv (checkpoint cfg env ctx seq p).1
  unfolding checkpoint
  checkpoint-keeps ctx seq p due h =
      elim (Result-cases (env.store_checkpoint ctx p.leased seq p.world).0) [
        | inl (e, eq) ↦ rw (eq, checkpoint) (k.on_refusal ctx p.leased e seq p.world due h eq)
        | inr (l, eq) ↦ rw (eq, checkpoint) (k.on_checkpoint ctx p.leased l seq p.world due h eq)
      ]

  retry-keeps :
      (left : ℕ) (e : Option Error) (seq : Str) (p : Poller W)
      → IsDue cfg env st seq
      → Inv p
      → Inv (retry_checkpoint cfg env left e seq p).1
  unfolding retry_checkpoint
  retry-keeps left none seq p due h = h
  retry-keeps zero (some e) seq p due h = h
  retry-keeps (suc left) (some e) seq p due h =
      let waited = k.on_wait_ctx checkpoint_retry_backoff p.leased p.world h in
      let q = record p { world = (env.wait_ctx checkpoint_retry_backoff p.world).1 } in
      let next = checkpoint cfg env poll_ctx seq q in
      let rest =
        retry-keeps left next.0 seq next.1 due (checkpoint-keeps poll_ctx seq q due waited) in
      elim (Bool-cases (ends_retry e)) [
        | inl f ↦ rw (f, retry_checkpoint) h
        | inr f ↦ elim (Bool-cases (env.wait_ctx checkpoint_retry_backoff p.world).0) [
          | inl g ↦ rw (f, g, retry_checkpoint) waited
          | inr g ↦ rw (f, g, retry_checkpoint) rest
        ]
      ]

  pub checkpoint_with_retry-keeps :
      (seq : Str) (p : Poller W)
      → IsDue cfg env st seq
      → Inv p
      → Inv (checkpoint_with_retry cfg env seq p).1
  unfolding checkpoint_with_retry
  checkpoint_with_retry-keeps seq p due h =
      retry-keeps (checkpoint_attempts - 1) (checkpoint cfg env poll_ctx seq p).0 seq _ due
        (checkpoint-keeps poll_ctx seq p due h)

  ask_iterator-keeps :
      (r : IteratorRequest) (p : Poller W) → Inv p → Inv (ask_iterator cfg env r p).1
  unfolding ask_iterator
  ask_iterator-keeps r p h = k.on_iterator r p.leased p.world h

  pub open_iterator-keeps : (p : Poller W) → Inv p → Inv (open_iterator cfg env p).1
  unfolding open_iterator
  open_iterator-keeps p h =
      elim (Bool-cases
        (str_eq p.leased.checkpoint [] || str_eq p.leased.checkpoint checkpoint_trim_horizon)) [
          | inl e ↦ rw (e, open_iterator) (ask_iterator-keeps _ p h)
          | inr e ↦ elim (Bool-cases (str_eq p.leased.checkpoint checkpoint_shard_end)) [
            | inl f ↦ rw (e, f, open_iterator) h
            | inr f ↦ rw (e, f, open_iterator) (ask_iterator-keeps _ p h)
          ]
        ]
