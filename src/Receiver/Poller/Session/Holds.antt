-- ===== src/Receiver/Poller/Session/Holds.antt =====
-- receiver/awskinesisreceiver/poller.go, run and runHeartbeat: one writer for each shard, and a
-- heartbeat that finds the lease lost.
use opentelemetry_kinesis_st.Base.{
  ℕ, ◌+◌, ◌<◌, ◌≡◌, refl, ap, ◌∙◌, subst, ◌⊎◌, inl, inr, Option, none, some, Str, arith,
}
use opentelemetry_kinesis_st.Lease.{Error, int64_mod}
use opentelemetry_kinesis_st.Lease.Memory.{MemoryStore}
use opentelemetry_kinesis_st.Lease.Memory.Fencing.{row, Refused, counter_mismatch-Refused}
use opentelemetry_kinesis_st.Lease.Memory.Fencing.Holder.{run-IsFenced}
use opentelemetry_kinesis_st.Receiver.Batch.{PollConfig, Env}
use opentelemetry_kinesis_st.Receiver.Poller.{Poller, heartbeat}
use opentelemetry_kinesis_st.Receiver.Poller.Session.{
  Session, after_beat, beat, write, end_polling, end_run, Step, beats, heeds, writes, ends_polling,
  ends_run, is_cancelled, moves, Reaches, here, next,
}
use opentelemetry_kinesis_st.Receiver.Poller.Session.Fenced.{
  IsBacked, FencedAt, heartbeat-FencedAt, checkpoint-FencedAt, release-FencedAt,
}

after_beat-poller :
    {W : Type 0} (e : Option Error) (p : Poller W) (s : Session W) → (after_beat e p s).poller ≡ p
unfolding after_beat
after_beat-poller none p s = refl
after_beat-poller (some e) p s = ground arith

module _ {W D : Type 0} (cfg : PollConfig) (env : Env W D) (store_of : W → MemoryStore) (k : Str)
    (backed : IsBacked env store_of) where
  beat-poller : (s : Session W) → (beat cfg env s).poller ≡ (heartbeat cfg env s.poller).1
  unfolding beat
  beat-poller s = after_beat-poller (heartbeat cfg env s.poller).0 (heartbeat cfg env s.poller).1 s

  Fenced : ℕ → Poller W → Type 0
  Fenced b p = FencedAt cfg env store_of k backed b p

  idle-Fenced : (b n : ℕ) (p : Poller W) → n ≡ 0 → Fenced b p → Fenced (b + n) p
  idle-Fenced b n p e f = let q : b ≡ b + n = omega arith in subst (λ (c : ℕ). Fenced c p) q f

  Step-FencedAt :
      {s t : Session W} {n : ℕ} (b : ℕ)
      → Step cfg env store_of k s n t
      → b + n < int64_mod
      → Fenced b s.poller
      → Fenced (b + n) t.poller
  unfolding write end_polling end_run Fenced
  Step-FencedAt {s} b (beats e _) h f =
      rw (e, beat-poller s) (heartbeat-FencedAt cfg env store_of k backed b s.poller (rw e at h) f)
  Step-FencedAt {s} {n = n} b (heeds e _) h f = idle-Fenced b n s.poller e f
  Step-FencedAt {s} b (writes ctx seq e _) h f =
      rw e (checkpoint-FencedAt cfg env store_of k backed ctx seq b s.poller (rw e at h) f)
  Step-FencedAt {s} {n = n} b (ends_polling e _) h f = idle-Fenced b n s.poller e f
  Step-FencedAt {s} b (ends_run e _ _ _) h f =
      rw e (release-FencedAt cfg env store_of k backed b s.poller (rw e at h) f)
  Step-FencedAt {s} {n = n} b (is_cancelled e) h f = idle-Fenced b n s.poller e f
  Step-FencedAt {s} b (moves w cs e spared q) h f =
      rw (e, q) (run-IsFenced k b s.poller.leased (store_of s.poller.world) cs f spared (rw e at h))

  Reaches-FencedAt :
      {s t : Session W} {n : ℕ} (b : ℕ)
      → Reaches cfg env store_of k s n t
      → b + n < int64_mod
      → Fenced b s.poller
      → Fenced (b + n) t.poller
  Reaches-FencedAt {s} b here h f = idle-Fenced b 0 s.poller refl f
  Reaches-FencedAt {t = t} b (next {n = n} {m = m} {l = l} r st e) h f =
      let g = Reaches-FencedAt b r (omega arith) f in
      let q : (b + n) + m ≡ b + l = omega arith in
      subst (λ (c : ℕ). Fenced c t.poller) q (Step-FencedAt (b + n) st (omega arith) g)

  -- Over a store that answers as the in-memory store does, or fails with the call carried out or not:
  -- from a session whose row is its lease, and with fewer writes than would wrap the 64-bit counter,
  -- the checkpoints, the heartbeats, the cancellations and the release of a poller, interleaved with
  -- calls by others that do not delete the shard's row, leave the row the poller's lease, or leave
  -- every heartbeat, checkpoint and release under that lease, and every takeover that names an owner,
  -- refused with a conflict and without effect.
  pub Reaches-HeldOrRefused :
      {s t : Session W} (n : ℕ)
      → s.poller.leased.shard_id ≡ k
      → row (store_of s.poller.world) k ≡ some s.poller.leased
      → s.poller.leased.counter + n < int64_mod
      → Reaches cfg env store_of k s n t
      → (row (store_of t.poller.world) k ≡ some t.poller.leased)
        ⊎ Refused t.poller.leased (store_of t.poller.world)
  unfolding Fenced
  Reaches-HeldOrRefused {s} {t} n e held h r =
      let f : Fenced s.poller.leased.counter s.poller = record {
        current = s.poller.leased;
        same_shard = e;
        found = held;
        bounded = omega arith;
        state = inl refl;
      } in
      let g = Reaches-FencedAt s.poller.leased.counter r h f in
      elim g.state [
        | inl x ↦ inl (cc g.found)
        | inr lt ↦ inr (
            counter_mismatch-Refused t.poller.leased g.current (store_of t.poller.world)
              (ap (row (store_of t.poller.world)) g.same_shard ∙ g.found) (omega arith))
      ]
