-- ===== src/Receiver/Poller/Run/Passes.antt =====
-- receiver/awskinesisreceiver/poller.go, runPoll: on a shard that is closed a pass brings the poller
-- closer to its end.
use opentelemetry_kinesis_st.Base.{
  ℕ, ◌≤◌, ◌<◌, ◌≡◌, ◌≢◌, refl, All, ◌||◌, inl, inr, List, [], Option, none, some, Str, str_eq,
  arith, Bool-cases, ltb, str_eq_iff,
}
use opentelemetry_kinesis_st.Lease.{Lease, checkpoint_trim_horizon, checkpoint_shard_end}
use opentelemetry_kinesis_st.Receiver.Batch.{
  Record, RecordsReply, get_output, iterator_expired, get_failed, IteratorRequest,
  from_trim_horizon, after_sequence_number, poll_ctx, PollConfig, Env, handle_records,
}
use opentelemetry_kinesis_st.Receiver.Poller.{
  Poller, Loop, Next, exits, continues, checkpoint, checkpoint_with_retry, open_iterator, wait_then,
  after_checkpoint, handle_batch, reopen_expired, handle_reply, poll_once, poll_pass, pacing,
}
use opentelemetry_kinesis_st.Receiver.Poller.Run.Flow.{Nears, Flows, nil_ne, handle_records-settled}

module _ {W D : Type 0} (cfg : PollConfig) (env : Env W D) (held : Lease → W → Type 0)
    (left : Option Str → W → ℕ) (f : Flows env held left) where
  -- A pass that goes on, with less than `n` left.
  abbrev pub Advances : ℕ → Next × Poller W → Type 0
  Advances n (exits stops, q) = ⊥
  Advances n (continues st, q) = held q.leased q.world × (left st.iter q.world < n)

  checkpointed :
      (seq : Str) (p : Poller W)
      → seq ≢ checkpoint_shard_end
      → held p.leased p.world
      → ((checkpoint_with_retry cfg env seq p).0 ≡ none)
        × held
            (checkpoint_with_retry cfg env seq p).1.leased
            (checkpoint_with_retry cfg env seq p).1.world
        × ((i : Option Str) → left i (checkpoint_with_retry cfg env seq p).1.world ≤ left i p.world)
  unfolding checkpoint_with_retry checkpoint
  checkpointed seq p ne h =
      let (l, taken, _, kept) = f.accepts poll_ctx p.leased seq p.world h in
      rw (taken, checkpoint, checkpoint_with_retry)
        (refl, kept ne, λ i. f.on_checkpoint poll_ctx p.leased seq p.world i)

  handle_batch-Advances :
      (recs : List Record) (next : Option Str) (stuck at n : ℕ) (p : Poller W)
      → All (λ rec. rec.sequence_number ≢ checkpoint_shard_end) recs
      → held p.leased p.world
      → left next p.world < n
      → Advances n (handle_batch cfg env recs next stuck at p)
  unfolding handle_batch after_checkpoint
  handle_batch-Advances recs next stuck at n p numbered h less =
      let (ne, all, quiet) =
        handle_records-settled cfg env held left f recs [] p.leased p.world numbered nil_ne in
      let seq = (handle_records cfg env recs [] p.world).0 in
      let q = record p { world = (handle_records cfg env recs [] p.world).2 } in
      let kept = quiet.stays h in
      elim (Bool-cases (str_eq seq [])) [
        | inl e ↦ rw (e, all, handle_batch) (kept, omega (arith, quiet.no_further next, less))
        | inr e ↦
            let (fine, still, nearer) = checkpointed seq q ne kept in
            rw (e, fine, all, handle_batch)
              (still, omega (arith, nearer next, quiet.no_further next, less))
      ]

  pub open_iterator-some :
      (p : Poller W)
      → held p.leased p.world
      → (r : IteratorRequest) × (i : Option Str) × ((open_iterator cfg env p).0 ≡ some i)
        × ((open_iterator cfg env p).1 ≡ record p { world = (env.get_shard_iterator r p.world).1 })
        × ((env.get_shard_iterator r p.world).0 ≡ some i)
  unfolding open_iterator
  open_iterator-some p h =
      elim (Bool-cases
        (str_eq p.leased.checkpoint [] || str_eq p.leased.checkpoint checkpoint_trim_horizon)) [
          | inl e ↦
              let r = from_trim_horizon p.leased.shard_id in
              let (i, o) = f.opens r p.world in
              (r, i, rw (e, o, open_iterator) refl, rw (e, open_iterator) refl, o)
          | inr e ↦ elim (Bool-cases (str_eq p.leased.checkpoint checkpoint_shard_end)) [
            | inl g ↦ absurd (f.is_open p.leased p.world h ((str_eq_iff _ _).0 g))
            | inr g ↦
                let r = after_sequence_number p.leased.shard_id p.leased.checkpoint in
                let (i, o) = f.opens r p.world in
                (r, i, rw (e, g, o, open_iterator) refl, rw (e, g, open_iterator) refl, o)
          ]
        ]

  wait_then-Advances :
      (d n : ℕ) (st : Loop) (p : Poller W)
      → held p.leased p.world
      → left st.iter p.world < n
      → Advances n (wait_then cfg env d p st)
  unfolding wait_then
  wait_then-Advances d n st p h less =
      let quiet = f.on_wait d p.leased p.world in
      rw (f.no_cut d p.world, wait_then)
        (quiet.stays h, omega (arith, quiet.no_further st.iter, less))

  handle_reply-Advances :
      (r : RecordsReply) (iter : Str) (stuck at : ℕ) (v : W) (p : Poller W)
      → held p.leased p.world
      → Nears env held left iter v (r, p.world)
      → Advances (left (some iter) v) (handle_reply cfg env r iter stuck at p)
  unfolding handle_reply reopen_expired
  handle_reply-Advances (get_output recs next) iter stuck at v p h near =
      handle_batch-Advances recs next stuck at (left (some iter) v) p near.0 h near.1
  handle_reply-Advances iterator_expired iter stuck at v p h near =
      let (r, i, opened, moved, o) = open_iterator-some p h in
      rw (f.no_cancel p.world, reopen_expired, opened, moved, handle_reply)
        (f.on_iterator r p.leased p.world h, near r i o)
  handle_reply-Advances get_failed iter stuck at v p h near =
      rw (f.no_cancel p.world, handle_reply)
        (wait_then-Advances cfg.poll_interval (left (some iter) v) _ p h near)

  poll_once-Advances :
      (iter : Str) (stuck : ℕ) (p : Poller W)
      → held p.leased p.world
      → Advances (left (some iter) p.world) (poll_once cfg env iter stuck p)
  unfolding poll_once
  poll_once-Advances iter stuck p h =
      handle_reply-Advances (env.get_records iter p.world).0 iter stuck (env.now p.world) p.world _
        (f.on_records iter p.leased p.world h) (f.reads iter p.world)

  Advances-le : (n m : ℕ) (r : Next × Poller W) → n ≤ m → Advances n r → Advances m r
  Advances-le n m (exits stops, q) le a = a
  Advances-le n m (continues st, q) le a = (a.0, omega (arith, le, a.1))

  pub poll_pass-Advances :
      (iter : Str) (st : Loop) (p : Poller W)
      → st.iter ≡ some iter
      → held p.leased p.world
      → Advances (left (some iter) p.world) (poll_pass cfg env st p)
  unfolding poll_pass
  poll_pass-Advances iter st p e h =
      let d = pacing cfg env st.last_poll p.world in
      let q = record p { world = (env.wait d p.world).1 } in
      let quiet = f.on_wait d p.leased p.world in
      elim (Bool-cases (ltb 0 d)) [
        | inr c ↦
            rw (f.no_cancel p.world, e, f.no_drain p.world, c, poll_pass)
              (poll_once-Advances iter st.stuck_passes p h)
        | inl c ↦
            rw (f.no_cancel p.world, e, f.no_drain p.world, c, f.no_cut d p.world, poll_pass)
              (Advances-le _ _ _ (quiet.no_further (some iter))
                (poll_once-Advances iter st.stuck_passes q (quiet.stays h)))
      ]
