-- ===== src/Receiver/Poller/Session/Beats.antt =====
-- receiver/awskinesisreceiver/poller.go, runHeartbeat: what one tick does.
use opentelemetry_kinesis_st.Base.{
  ℕ, ◌+◌, ◌<◌, ◌≡◌, inl, inr, true, false, none, some, Str, Bool-cases, not, ◌&&◌, ◌||◌, ◌∙◌, ap,
}
use opentelemetry_kinesis_st.Lease.{
  Lease, Result, ok, err, int64_mod, Error, canceled, fault, lease_conflict,
}
use opentelemetry_kinesis_st.Lease.Memory
use opentelemetry_kinesis_st.Lease.Memory.{MemoryStore}
use opentelemetry_kinesis_st.Lease.Memory.Fencing.{row}
use opentelemetry_kinesis_st.Lease.Memory.Fencing.Holder.{
  accepted, refused, conditional_update-Written,
}
use opentelemetry_kinesis_st.Receiver.Batch.{PollConfig, Env}
use opentelemetry_kinesis_st.Receiver.Poller.{Poller, heartbeat}
use opentelemetry_kinesis_st.Receiver.Poller.Session.{Session, after_beat, beat, stops_beating}
use opentelemetry_kinesis_st.Receiver.Poller.Session.Fenced.{
  IsBacked, FencedAt, Fails, fails_canceled, fails_fault, answered, failed_before, failed_after,
  beaten, beaten-Writes,
}

module _ {W D : Type 0} (env : Env W D) (store_of : W → MemoryStore) (k : Str) where
  -- A tick by what it meets: the lease held, the lease lost, the poll context cancelled meanwhile, or
  -- a store that fails.
  pub data Beats (s t : Session W) : Type 0 where
    keeps_on :
        row (store_of s.poller.world) k ≡ some s.poller.leased
        → row (store_of t.poller.world) k ≡ some t.poller.leased
        → t.poller.leased ≡ beaten s.poller.leased
        → t.cancelled ≡ s.cancelled
        → t.beating ≡ s.beating
        → Beats s t
    gives_up :
        (r : Lease)
        → row (store_of s.poller.world) k ≡ some r
        → s.poller.leased.counter < r.counter
        → store_of t.poller.world ≡ store_of s.poller.world
        → t.poller.leased ≡ s.poller.leased
        → t.cancelled ≡ true
        → t.beating ≡ false
        → Beats s t
    interrupted :
        (env.store_heartbeat s.poller.leased s.poller.world).0 ≡ err canceled
        → t.poller.leased ≡ s.poller.leased
        → t.cancelled ≡ true
        → t.beating ≡ false
        → Beats s t
    tries_again :
        (env.store_heartbeat s.poller.leased s.poller.world).0 ≡ err fault
        → t.poller.leased ≡ s.poller.leased
        → t.cancelled ≡ s.cancelled
        → t.beating ≡ s.beating
        → Beats s t

module _ {W D : Type 0} (cfg : PollConfig) (env : Env W D) (s : Session W) where
  abbrev replied : Result Lease × W
  replied = env.store_heartbeat s.poller.leased s.poller.world

  beat-ok :
      (l' : Lease)
      → replied.0 ≡ ok l'
      → beat cfg env s ≡ record s { poller = record { leased = l'; world = replied.1 } }
  unfolding beat heartbeat
  beat-ok l' q =
      let p : Poller W = record { leased = l'; world = replied.1 } in
      let h : heartbeat cfg env s.poller ≡ (none, p) = rw (q, heartbeat) in
      ap (λ r. after_beat r.0 r.1 s) h

  split_beat :
      (e : Error) (p : Poller W)
      → after_beat (some e) p s ≡ record s {
        poller = p;
        cancelled = stops_beating e || s.cancelled;
        beating = not (stops_beating e) && s.beating;
      }
  unfolding after_beat
  split_beat e p = elim (Bool-cases (stops_beating e)) [
    | inl c ↦ rw (c, after_beat)
    | inr c ↦ rw (c, after_beat)
  ]

  beat-err :
      (e : Error)
      → replied.0 ≡ err e
      → beat cfg env s ≡ record s {
        poller = record { leased = s.poller.leased; world = replied.1 };
        cancelled = stops_beating e || s.cancelled;
        beating = not (stops_beating e) && s.beating;
      }
  unfolding beat heartbeat
  beat-err e q =
      let p : Poller W = record { leased = s.poller.leased; world = replied.1 } in
      let h : heartbeat cfg env s.poller ≡ (some e, p) = rw (q, heartbeat) in
      ap (λ r. after_beat r.0 r.1 s) h ∙ split_beat e p

module _ {W D : Type 0} (cfg : PollConfig) (env : Env W D) (store_of : W → MemoryStore) (k : Str)
    (backed : IsBacked env store_of) where
  failed-Beats :
      (s : Session W) {e : Error}
      → Fails e
      → (env.store_heartbeat s.poller.leased s.poller.world).0 ≡ err e
      → Beats env store_of k s (beat cfg env s)
  unfolding stops_beating
  failed-Beats s fails_canceled q =
      let b = beat-err cfg env s canceled q in interrupted q (rw b) (rw b) (rw b)
  failed-Beats s fails_fault q =
      let b = beat-err cfg env s fault q in tries_again q (rw b) (rw b) (rw b)

  -- A tick of the heartbeat, over a store that answers as the in-memory store does or fails, under a
  -- lease that is its row or that the row's counter has passed, short of a wrap of the 64-bit counter:
  -- if the row is the lease, its counter moves on, the poller has the new row and the session goes on;
  -- if the row's counter is past the lease's, the store stays as it is, the poll context is cancelled
  -- and the goroutine returns; it also does after a cancelled call; after any other failure the lease
  -- and the session stay as they are.
  pub beat-Beats :
      (b : ℕ) (s : Session W)
      → FencedAt cfg env store_of k backed b s.poller
      → b + 1 < int64_mod
      → Beats env store_of k s (beat cfg env s)
  unfolding stops_beating Memory.heartbeat
  beat-Beats b s f h =
      let l = s.poller.leased in
      elim (backed.on_heartbeat l s.poller.world) [
        | failed_before e q t ↦ failed-Beats s e q
        | failed_after e q t ↦ failed-Beats s e q
        | answered q t ↦
            elim (conditional_update-Written k b l beaten (store_of s.poller.world) beaten-Writes h
              f) [
                | accepted s' e held landed c c' ↦
                    let y = beat-ok cfg env s (beaten l) (q ∙ ap (λ m. m.0) e) in
                    keeps_on held (rw y (rw (t, e) landed)) (rw y) (rw y) (rw y)
                | refused r e found lt ↦
                    let y = beat-err cfg env s lease_conflict (q ∙ ap (λ m. m.0) e) in
                    gives_up r found lt (rw y (rw (t, e))) (rw y) (rw y) (rw y)
              ]
      ]
