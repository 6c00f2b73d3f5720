-- ===== src/Receiver/Poller/Run/Closing.antt =====
-- receiver/awskinesisreceiver/poller.go, runPoll: the poller of a shard that has been closed reads it
-- to its end.
use opentelemetry_kinesis_st.Base.{
  ℕ, zero, suc, ◌≤◌, ◌<◌, ◌≡◌, refl, Bool, true, false, inl, inr, Option, none, some, Str, arith,
  Option-cases,
}
use opentelemetry_kinesis_st.Lease.{Lease, checkpoint_shard_end}
use opentelemetry_kinesis_st.Receiver.Batch.{poll_ctx, PollConfig, Env}
use opentelemetry_kinesis_st.Receiver.Poller.{
  Poller, Loop, Next, exits, continues, checkpoint, write_shard_end, poll_pass,
}
use opentelemetry_kinesis_st.Receiver.Poller.Run.{next_pass, poll_loop, run_poll}
use opentelemetry_kinesis_st.Receiver.Poller.Run.Flow.{Flows}
use opentelemetry_kinesis_st.Receiver.Poller.Run.Passes.{
  Advances, open_iterator-some, poll_pass-Advances,
}

module _ {W D : Type 0} (cfg : PollConfig) (env : Env W D) (held : Lease → W → Type 0)
    (left : Option Str → W → ℕ) (f : Flows env held left) where
  -- The loop has ended by itself, with the sentinel as the lease's checkpoint.
  abbrev pub Closes : Option Bool × Poller W → Type 0
  Closes (none, q) = ⊥
  Closes (some true, q) = ⊥
  Closes (some false, q) = q.leased.checkpoint ≡ checkpoint_shard_end

  checkpoint-ends :
      (p : Poller W)
      → held p.leased p.world
      → ((checkpoint cfg env poll_ctx checkpoint_shard_end p).0 ≡ none)
        × ((checkpoint cfg env poll_ctx checkpoint_shard_end p).1.leased.checkpoint
            ≡ checkpoint_shard_end)
  unfolding checkpoint
  checkpoint-ends p h =
      let (l, taken, same, _) = f.accepts poll_ctx p.leased checkpoint_shard_end p.world h in
      rw (taken, checkpoint) (refl, same)

  write_shard_end-ends :
      (p : Poller W)
      → held p.leased p.world
      → (write_shard_end cfg env p).leased.checkpoint ≡ checkpoint_shard_end
  unfolding write_shard_end
  write_shard_end-ends p h =
      let (fine, same) = checkpoint-ends p h in rw (fine, write_shard_end) same

  closed-Closes :
      (fuel : ℕ) (st : Loop) (p : Poller W)
      → st.iter ≡ none
      → held p.leased p.world
      → Closes (poll_loop cfg env (suc fuel) st p)
  unfolding poll_loop next_pass poll_pass
  closed-Closes fuel st p e h =
      rw (f.no_cancel p.world, e, poll_pass, poll_loop) (write_shard_end-ends p h)

  next_pass-Closes :
      (again : Loop → Poller W → Option Bool × Poller W) (n : ℕ) (r : Next × Poller W)
      → Advances cfg env held left f n r
      → ((st : Loop) (q : Poller W)
          → held q.leased q.world
          → left st.iter q.world < n
          → Closes (again st q))
      → Closes (next_pass cfg env again r)
  unfolding next_pass
  next_pass-Closes again n (exits stops, q) a k = absurd a
  next_pass-Closes again n (continues st, q) a k = k st q a.0 a.1

  poll_loop-Closes :
      (fuel : ℕ) (st : Loop) (p : Poller W)
      → held p.leased p.world
      → left st.iter p.world < fuel
      → Closes (poll_loop cfg env fuel st p)
  unfolding poll_loop
  poll_loop-Closes zero st p h less = absurd (omega (arith, less))
  poll_loop-Closes (suc fuel) st p h less = elim (Option-cases st.iter) [
    | inl e ↦ closed-Closes fuel st p e h
    | inr (iter, e) ↦
        let bound : left (some iter) p.world < suc fuel = rw e at less in
        next_pass-Closes (poll_loop cfg env fuel) (left (some iter) p.world) _
          (poll_pass-Advances cfg env held left f iter st p e h)
          (λ st' q k nearer. poll_loop-Closes fuel st' q k (omega (arith, bound, nearer)))
  ]

  -- Suppose nobody cancels the poller or asks it to drain, the consumers take what they are given,
  -- GetShardIterator answers, the store accepts a checkpoint of a lease that is held, which the
  -- poller's is, no record has SHARD_END for its sequence number, and the shard has been closed, so
  -- that the calls of GetRecords come to its end, with finitely many failures and expired iterators
  -- among them. Then from some number of passes on runPoll, with no tick of the heartbeat in it, has
  -- ended by itself, and the lease that the store returned to it last has the checkpoint SHARD_END.
  pub run_poll-Closes :
      (p : Poller W)
      → held p.leased p.world
      → (n : ℕ) × ((fuel : ℕ) → n ≤ fuel → Closes (run_poll cfg env fuel p))
  unfolding run_poll
  run_poll-Closes p h =
      let (r, i, opened, moved, o) = open_iterator-some cfg env held left f p h in
      let w = (env.get_shard_iterator r p.world).1 in
      (
        suc (left i w),
        λ fuel enough.
            rw (opened, moved, run_poll)
              (poll_loop-Closes fuel (record { iter = i; stuck_passes = 0; last_poll = none })
                (record p { world = w }) (f.on_iterator r p.leased p.world h)
                (omega (arith, enough))),
      )
