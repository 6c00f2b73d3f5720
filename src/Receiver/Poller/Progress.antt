-- ===== src/Receiver/Poller/Progress.antt =====
-- receiver/awskinesisreceiver/poller.go, runPoll: what one pass of the loop writes to the lease store.
use opentelemetry_kinesis_st.Base.{
  ℕ, ◌≡◌, ◌≢◌, refl, Bool, true, false, inl, inr, List, [], Option, none, some, Str, str_eq,
  str_eq_iff, Option-cases, Bool-cases, if◌then◌else◌, ltb,
}
use opentelemetry_kinesis_st.Lease.{Lease, checkpoint_shard_end}
use opentelemetry_kinesis_st.Receiver.Batch.{
  Record, RecordsReply, get_output, iterator_expired, get_failed, PollConfig, Env, poll_ctx,
  exit_ctx, handle_records,
}
use opentelemetry_kinesis_st.Receiver.Poller.{
  Poller, Loop, checkpoint, checkpoint_with_retry, open_iterator, write_shard_end, wait_then,
  reread, after_checkpoint, handle_batch, reopen_expired, handle_reply, poll_once, poll_pass,
  pacing, stuck_backoff,
}
use opentelemetry_kinesis_st.Receiver.Batch.Settled.{handle_records-Leads}
use opentelemetry_kinesis_st.Receiver.Poller.Keeps.{
  IsDue, closed, settled, Keeps, Inv, handle_records-keeps, checkpoint-keeps,
  checkpoint_with_retry-keeps, open_iterator-keeps,
}

if-keeps : {A : Type 0} (P : A → Type 0) (b : Bool) {x y : A} → P x → P y → P (if b then x else y)
if-keeps P true h k = h
if-keeps P false h k = k

str_ne : (s t : Str) → str_eq s t ≡ false → s ≢ t
unfolding str_eq
str_ne s t e x = cc ((str_eq_iff s t).1 x)

module _ {W D : Type 0} (cfg : PollConfig) (env : Env W D) (st : Loop) (I : Lease → W → Type 0)
    (k : Keeps cfg env st I) where
  write_shard_end-keeps :
      (p : Poller W)
      → st.iter ≡ none
      → Inv cfg env st I k p
      → Inv cfg env st I k (write_shard_end cfg env p)
  unfolding write_shard_end
  write_shard_end-keeps p e h =
      let once = checkpoint-keeps cfg env st I k poll_ctx checkpoint_shard_end p (closed e) h in
      elim (Option-cases (checkpoint cfg env poll_ctx checkpoint_shard_end p).0) [
        | inl f ↦ rw (f, write_shard_end) once
        | inr (x, f) ↦
            rw (f, write_shard_end)
              (if-keeps (Inv cfg env st I k) _
                (checkpoint-keeps cfg env st I k exit_ctx checkpoint_shard_end _ (closed e) once)
                once)
      ]

  wait_then-keeps :
      (d : ℕ) (p : Poller W) (l : Loop)
      → Inv cfg env st I k p
      → Inv cfg env st I k (wait_then cfg env d p l).1
  unfolding wait_then
  wait_then-keeps d p l h = k.on_wait d p.leased p.world h

  reread-keeps :
      (stuck at : ℕ) (p : Poller W)
      → Inv cfg env st I k p
      → Inv cfg env st I k (reread cfg env stuck at p).1
  unfolding reread
  reread-keeps stuck at p h = elim (Option-cases (open_iterator cfg env p).0) [
    | inl e ↦ rw (e, reread) (open_iterator-keeps cfg env st I k p h)
    | inr (i, e) ↦
        rw (e, reread)
          (wait_then-keeps (stuck_backoff cfg stuck) (open_iterator cfg env p).1
            (record { iter = i; stuck_passes = stuck; last_poll = some at })
            (open_iterator-keeps cfg env st I k p h))
  ]

  after_checkpoint-keeps :
      (retry advanced : Bool) (stuck at : ℕ) (next : Option Str) (p : Poller W)
      → Inv cfg env st I k p
      → Inv cfg env st I k (after_checkpoint cfg env retry advanced stuck at next p).1
  unfolding after_checkpoint
  after_checkpoint-keeps retry advanced stuck at next p h = elim (Bool-cases retry) [
    | inl e ↦ rw (e, after_checkpoint) (reread-keeps _ at p h)
    | inr e ↦ rw (e, after_checkpoint) h
  ]

  reopen_expired-keeps :
      (stuck : ℕ) (p : Poller W)
      → Inv cfg env st I k p
      → Inv cfg env st I k (reopen_expired cfg env stuck p).1
  unfolding reopen_expired
  reopen_expired-keeps stuck p h = elim (Option-cases (open_iterator cfg env p).0) [
    | inl e ↦ rw (e, reopen_expired) (open_iterator-keeps cfg env st I k p h)
    | inr (i, e) ↦ rw (e, reopen_expired) (open_iterator-keeps cfg env st I k p h)
  ]

  -- The checkpoint of a batch is due when the stream returned the batch for the pass's iterator.
  batch-IsDue :
      (iter : Str) (next : Option Str) (recs : List Record) (v w : W)
      → st.iter ≡ some iter
      → env.get_records iter v ≡ (get_output recs next, w)
      → (handle_records cfg env recs [] w).0 ≢ []
      → IsDue cfg env st (handle_records cfg env recs [] w).0
  batch-IsDue iter next recs v w e f ne =
      let l = handle_records-Leads cfg env recs [] w in
      settled iter next recs l.rest _ v w l.reached e f l.handled ne

  handle_batch-keeps :
      (recs : List Record) (next : Option Str) (stuck at : ℕ) (p : Poller W)
      → ((handle_records cfg env recs [] p.world).0 ≢ []
          → IsDue cfg env st (handle_records cfg env recs [] p.world).0)
      → Inv cfg env st I k p
      → Inv cfg env st I k (handle_batch cfg env recs next stuck at p).1
  unfolding handle_batch
  handle_batch-keeps recs next stuck at p due h =
      let kept = handle_records-keeps cfg env st I k recs [] p.leased p.world h in
      let q = record p { world = (handle_records cfg env recs [] p.world).2 } in
      let seq = (handle_records cfg env recs [] p.world).0 in
      elim (Bool-cases (str_eq seq [])) [
        | inl e ↦ rw (e, handle_batch) (after_checkpoint-keeps _ false stuck at next q kept)
        | inr e ↦
            let written =
              checkpoint_with_retry-keeps cfg env st I k seq q (due (λ x. str_ne seq [] e x))
                kept in
            elim (Option-cases (checkpoint_with_retry cfg env seq q).0) [
              | inl f ↦
                  rw (e, f, handle_batch) (after_checkpoint-keeps _ true stuck at next _ written)
              | inr (x, f) ↦ rw (e, f, handle_batch) written
            ]
      ]

  handle_reply-keeps :
      (r : RecordsReply) (iter : Str) (stuck at : ℕ) (v : W) (p : Poller W)
      → st.iter ≡ some iter
      → env.get_records iter v ≡ (r, p.world)
      → Inv cfg env st I k p
      → Inv cfg env st I k (handle_reply cfg env r iter stuck at p).1
  unfolding handle_reply
  handle_reply-keeps (get_output recs next) iter stuck at v p e f h =
      handle_batch-keeps recs next stuck at p (batch-IsDue iter next recs v p.world e f) h
  handle_reply-keeps iterator_expired iter stuck at v p e f h =
      elim (Bool-cases (env.ctx_done p.world)) [
        | inl g ↦ rw (g, handle_reply) h
        | inr g ↦ rw (g, handle_reply) (reopen_expired-keeps stuck p h)
      ]
  handle_reply-keeps get_failed iter stuck at v p e f h = elim (Bool-cases (env.ctx_done p.world)) [
    | inl g ↦ rw (g, handle_reply) h
    | inr g ↦
        rw (g, handle_reply)
          (wait_then-keeps cfg.poll_interval p
            (record { iter = some iter; stuck_passes = stuck; last_poll = some at }) h)
  ]

  poll_once-keeps :
      (iter : Str) (stuck : ℕ) (p : Poller W)
      → st.iter ≡ some iter
      → Inv cfg env st I k p
      → Inv cfg env st I k (poll_once cfg env iter stuck p).1
  unfolding poll_once
  poll_once-keeps iter stuck p e h =
      handle_reply-keeps (env.get_records iter p.world).0 iter stuck (env.now p.world) p.world _ e
        refl (k.on_records iter p.leased p.world h)

  polled-keeps :
      (iter : Str) (p : Poller W)
      → st.iter ≡ some iter
      → Inv cfg env st I k p
      → Inv cfg env st I k (poll_pass cfg env st p).1
  unfolding poll_pass
  polled-keeps iter p e h =
      let d = pacing cfg env st.last_poll p.world in
      let waited = k.on_wait d p.leased p.world h in
      let q = record p { world = (env.wait d p.world).1 } in
      elim (Bool-cases (env.ctx_done p.world)) [
        | inl a ↦ rw (a, poll_pass) h
        | inr a ↦ elim (Bool-cases (env.draining p.world)) [
          | inl b ↦ rw (e, a, b, poll_pass) h
          | inr b ↦ elim (Bool-cases (ltb 0 d)) [
            | inr c ↦ rw (e, a, b, c, poll_pass) (poll_once-keeps iter st.stuck_passes p e h)
            | inl c ↦ elim (Bool-cases (env.wait d p.world).0) [
              | inl f ↦ rw (e, a, b, c, f, poll_pass) waited
              | inr f ↦
                  rw (e, a, b, c, f, poll_pass) (poll_once-keeps iter st.stuck_passes q e waited)
            ]
          ]
        ]
      ]

  closed-keeps :
      (p : Poller W)
      → st.iter ≡ none
      → Inv cfg env st I k p
      → Inv cfg env st I k (poll_pass cfg env st p).1
  unfolding poll_pass
  closed-keeps p e h = elim (Bool-cases (env.ctx_done p.world)) [
    | inl a ↦ rw (a, poll_pass) h
    | inr a ↦ rw (e, a, poll_pass) (write_shard_end-keeps p e h)
  ]

  -- A pass of the poll loop keeps every property of the poller's lease and of the world that the
  -- stream, the downstream consumers and the waits keep, and that the lease store keeps when it
  -- answers the write of a checkpoint that is due: no other checkpoint is written.
  pub poll_pass-keeps :
      (p : Poller W) → Inv cfg env st I k p → Inv cfg env st I k (poll_pass cfg env st p).1
  poll_pass-keeps p h = elim (Option-cases st.iter) [
    | inl e ↦ closed-keeps p e h
    | inr (iter, e) ↦ polled-keeps iter p e h
  ]
