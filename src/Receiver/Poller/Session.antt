-- ===== src/Receiver/Poller/Session.antt =====
-- receiver/awskinesisreceiver/poller.go, run and runHeartbeat: the poll loop and the heartbeat's
-- goroutine over one lease. leaseMu makes each lease write one step.
pub mod Fenced
pub mod Holds
pub mod Beats
mod Samples
use opentelemetry_kinesis_st.Base.{
  ℕ, ◌+◌, ◌≡◌, Bool, true, false, Option, none, some, Str, length, All, List, if◌then◌else◌,
}
use opentelemetry_kinesis_st.Lease.{
  Lease, Error, lease_conflict, lease_not_found, canceled, fault, empty_owner,
}
use opentelemetry_kinesis_st.Lease.Memory.{MemoryStore}
use opentelemetry_kinesis_st.Lease.Memory.Fencing.{Call, run, Spares}
use opentelemetry_kinesis_st.Receiver.Batch.{PollConfig, Env, Ctx}
use opentelemetry_kinesis_st.Receiver.Poller.{Poller, heartbeat, checkpoint, release}

-- An error after which runHeartbeat calls stop() and returns.
pub stops_beating : Error → Bool
stops_beating canceled = true
stops_beating lease_conflict = true
stops_beating lease_not_found = true
stops_beating empty_owner = false
stops_beating fault = false

-- The goroutines of `run`: whether the poll context is cancelled, and which of runPoll, runHeartbeat
-- and `run` itself have not returned.
pub record Session (W : Type 0) : Type 0 where
  pub poller : Poller W
  pub cancelled : Bool
  pub polling : Bool
  pub beating : Bool
  pub running : Bool

-- What follows the heartbeat's call.
after_beat : {W : Type 0} → Option Error → Poller W → Session W → Session W
unfolding stops_beating
after_beat none p s = record s { poller = p }
after_beat (some e) p s =
    if stops_beating e
    then record s { poller = p; cancelled = true; beating = false }
    else record s { poller = p }

module _ {W D : Type 0} (cfg : PollConfig) (env : Env W D) where
  -- One tick of runHeartbeat, with the poll context that it leaves.
  pub beat : Session W → Session W
  unfolding after_beat
  beat s = let (e, p) = heartbeat cfg env s.poller in after_beat e p s

  -- A checkpoint that runPoll writes, at the end of a batch or of the shard.
  pub write : Ctx → Str → Session W → Session W
  write ctx seq s = record s { poller = (checkpoint cfg env ctx seq s.poller).1 }

  -- runPoll returns, and `run` calls stop().
  pub end_polling : Session W → Session W
  end_polling s = record s { polling = false; cancelled = true }

  -- `run` returns once both have, and releases the lease.
  pub end_run : Session W → Session W
  end_run s = record s { poller = release cfg env s.poller; running = false }

  -- How one call changes a session, with the most writes to the store's row that it can make. Calls
  -- by anybody else reach the store between these steps, and do not delete the shard's row.
  pub data Step (store_of : W → MemoryStore) (k : Str) (s : Session W)
      : ℕ → Session W → Type 0 where
    beats : {n : ℕ} → n ≡ 1 → s.beating ≡ true → Step store_of k s n (beat s)
    heeds :
        {n : ℕ} → n ≡ 0 → s.cancelled ≡ true → Step store_of k s n (record s { beating = false })
    writes :
        {n : ℕ} (ctx : Ctx) (seq : Str)
        → n ≡ 1
        → s.polling ≡ true
        → Step store_of k s n (write ctx seq s)
    ends_polling : {n : ℕ} → n ≡ 0 → s.polling ≡ true → Step store_of k s n (end_polling s)
    ends_run :
        {n : ℕ}
        → n ≡ 1
        → s.polling ≡ false
        → s.beating ≡ false
        → s.running ≡ true
        → Step store_of k s n (end_run s)
    is_cancelled : {n : ℕ} → n ≡ 0 → Step store_of k s n (record s { cancelled = true })
    moves :
        {n : ℕ} (w : W) (cs : List Call)
        → n ≡ length cs
        → All (Spares k) cs
        → store_of w ≡ run (store_of s.poller.world) cs
        → Step store_of k s n (record s { poller = record { leased = s.poller.leased; world = w } })

  pub data Reaches (store_of : W → MemoryStore) (k : Str) (s : Session W)
      : ℕ → Session W → Type 0 where
    here : Reaches store_of k s 0 s
    next :
        {t u : Session W} {n m l : ℕ}
        → Reaches store_of k s n t
        → Step store_of k t m u
        → l ≡ n + m
        → Reaches store_of k s l u
