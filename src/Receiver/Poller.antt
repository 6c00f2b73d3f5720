-- ===== src/Receiver/Poller.antt =====
-- receiver/awskinesisreceiver/poller.go and poller_lease.go: one shard's poller. Logs and metrics
-- are left out.
pub mod Backoff
pub mod Keeps
pub mod Progress
pub mod Session
pub mod Run
use opentelemetry_kinesis_st.Base.{
  ℕ, zero, suc, ◌+◌, ◌-◌, ◌*◌, ◌%◌, ◌^◌, ◌≤◌, ◌<◌, Bool, true, false, not, ◌&&◌, ◌||◌, List, [],
  ◌∷◌, Option, none, some, Str, str_eq, bytes, ltb, leb, ◌==◌, if◌then◌else◌,
}
use opentelemetry_kinesis_st.Lease.{
  Lease, Result, ok, err, Error, lease_conflict, lease_not_found, canceled, fault, empty_owner,
  checkpoint_trim_horizon, checkpoint_shard_end,
}
use opentelemetry_kinesis_st.Receiver.Batch.{
  Record, RecordResult, record_ok, record_skip, record_retry, ConsumeReply, consumed,
  rejected_permanently, rejected_transiently, RecordsReply, get_output, iterator_expired,
  get_failed, IteratorRequest, from_trim_horizon, after_sequence_number, Ctx, poll_ctx, exit_ctx,
  PollConfig, Env, consume, dead_letter, maybe_dead_letter, handle_record, handle_records,
}

-- The poller's lease, and the world.
pub record Poller (W : Type 0) : Type 0 where
  pub leased : Lease
  pub world : W

-- The variables of runPoll's loop; no last poll is Go's zero time.
pub record Loop : Type 0 where
  pub iter : Option Str
  pub stuck_passes : ℕ
  pub last_poll : Option ℕ

-- Nanoseconds.
abbrev pub stuck_backoff_max : ℕ
stuck_backoff_max = 30_000_000_000

abbrev pub checkpoint_attempts : ℕ
checkpoint_attempts = 3

abbrev pub checkpoint_retry_backoff : ℕ
checkpoint_retry_backoff = 100_000_000

-- The shift of stuckBackoff, on an int64's bit pattern.
pub stuck_backoff : PollConfig → ℕ → ℕ
stuck_backoff cfg passes =
    let shift = if ltb 16 (passes - 1) then 16 else passes - 1 in
    let d = (cfg.poll_interval * 2 ^ shift) % 2 ^ 64 in
    if leb passes 1
    then cfg.poll_interval
    else if (d == 0 || leb (2 ^ 63) d) || ltb stuck_backoff_max d
    then stuck_backoff_max
    else d

-- An error after which a checkpoint is not tried again.
pub ends_retry : Error → Bool
ends_retry lease_conflict = true
ends_retry lease_not_found = true
ends_retry canceled = true
ends_retry empty_owner = false
ends_retry fault = false

is_canceled : Error → Bool
is_canceled canceled = true
is_canceled lease_conflict = false
is_canceled lease_not_found = false
is_canceled empty_owner = false
is_canceled fault = false

-- One pass of the loop ends it, with `stop()` called or not, or goes on with the variables.
pub data Next : Type 0 where
  exits : Bool → Next
  continues : Loop → Next

module _ {W D : Type 0} (cfg : PollConfig) (env : Env W D) where
  -- heartbeat of poller_lease.go
  pub heartbeat : Poller W → Option Error × Poller W
  heartbeat p =
      let (r, w) = env.store_heartbeat p.leased p.world in
      elim r [
        | ok updated ↦ (none, record { leased = updated; world = w })
        | err e ↦ (some e, record p { world = w })
      ]

  pub checkpoint : Ctx → Str → Poller W → Option Error × Poller W
  checkpoint ctx seq p =
      let (r, w) = env.store_checkpoint ctx p.leased seq p.world in
      elim r [
        | ok updated ↦ (none, record { leased = updated; world = w })
        | err e ↦ (some e, record p { world = w })
      ]

  pub release : Poller W → Poller W
  release p = record p { world = (env.store_release p.leased p.world).1 }

  -- checkpointWithRetry with `left` more attempts after `e`, the error of the last one. The wait
  -- between attempts ends early with the context.
  retry_checkpoint : ℕ → Option Error → Str → Poller W → Option Error × Poller W
  unfolding checkpoint ends_retry
  retry_checkpoint left none seq p = (none, p)
  retry_checkpoint zero (some e) seq p = (some e, p)
  retry_checkpoint (suc left) (some e) seq p =
      if ends_retry e
      then (some e, p)
      else (let (cut, w) = env.wait_ctx checkpoint_retry_backoff p.world in
          let (e', p') = checkpoint poll_ctx seq (record p { world = w }) in
          let rest = retry_checkpoint left e' seq p' in
          if cut then (some canceled, record p { world = w }) else rest)

  pub checkpoint_with_retry : Str → Poller W → Option Error × Poller W
  unfolding retry_checkpoint
  checkpoint_with_retry seq p =
      let (e, p') = checkpoint poll_ctx seq p in retry_checkpoint (checkpoint_attempts - 1) e seq p'

  ask_iterator : IteratorRequest → Poller W → Option (Option Str) × Poller W
  ask_iterator r p = let (i, w) = env.get_shard_iterator r p.world in (i, record p { world = w })

  -- `none` is an error, and `some none` a nil iterator.
  pub open_iterator : Poller W → Option (Option Str) × Poller W
  unfolding ask_iterator
  open_iterator p =
      if str_eq p.leased.checkpoint [] || str_eq p.leased.checkpoint checkpoint_trim_horizon
      then ask_iterator (from_trim_horizon p.leased.shard_id) p
      else if str_eq p.leased.checkpoint checkpoint_shard_end
      then (none, p)
      else ask_iterator (after_sequence_number p.leased.shard_id p.leased.checkpoint) p

  pub write_shard_end : Poller W → Poller W
  unfolding is_canceled
  write_shard_end p =
      let (e, p') = checkpoint poll_ctx checkpoint_shard_end p in
      elim e [
        | none ↦ p'
        | some x ↦
            if env.ctx_done p'.world || is_canceled x
            then (checkpoint exit_ctx checkpoint_shard_end p').1
            else p'
      ]

  -- waitDurationOrStop, and what follows if it was not cut short.
  wait_then : ℕ → Poller W → Loop → Next × Poller W
  wait_then d p st =
      let (cut, w) = env.wait d p.world in
      (if cut then exits false else continues st, record p { world = w })

  -- A batch that stopped at a record to be retried: read again from the checkpoint after a delay.
  reread : ℕ → ℕ → Poller W → Next × Poller W
  unfolding wait_then
  reread stuck polled_at p =
      let (i, p') = open_iterator p in
      elim i [
        | none ↦ (exits true, p')
        | some iter ↦
            wait_then (stuck_backoff cfg stuck) p'
              (record { iter = iter; stuck_passes = stuck; last_poll = some polled_at })
      ]

  -- The end of a pass, after the checkpoint if one was due.
  after_checkpoint : Bool → Bool → ℕ → ℕ → Option Str → Poller W → Next × Poller W
  unfolding reread
  after_checkpoint retry advanced stuck polled_at next p =
      if retry
      then reread (if advanced then 0 else stuck + 1) polled_at p
      else (continues (record { iter = next; stuck_passes = 0; last_poll = some polled_at }), p)

  -- What runPoll does with the records of one GetRecords call.
  handle_batch : List Record → Option Str → ℕ → ℕ → Poller W → Next × Poller W
  unfolding after_checkpoint
  handle_batch recs next stuck polled_at p =
      let (advance_seq, retry, w) = handle_records cfg env recs [] p.world in
      let q = record p { world = w } in
      if str_eq advance_seq []
      then after_checkpoint retry false stuck polled_at next q
      else (let (e, q') = checkpoint_with_retry advance_seq q in
          elim e [
            | some x ↦ (exits true, q')
            | none ↦ after_checkpoint retry true stuck polled_at next q'
          ])

  reopen_expired : ℕ → Poller W → Next × Poller W
  reopen_expired stuck p =
      let (i, p') = open_iterator p in
      elim i [
        | none ↦ (exits true, p')
        | some iter ↦
            (continues (record { iter = iter; stuck_passes = stuck; last_poll = none }), p')
      ]

  handle_reply : RecordsReply → Str → ℕ → ℕ → Poller W → Next × Poller W
  unfolding handle_batch reopen_expired
  handle_reply (get_output recs next) iter stuck polled_at p =
      handle_batch recs next stuck polled_at p
  handle_reply iterator_expired iter stuck polled_at p =
      if env.ctx_done p.world then (exits false, p) else reopen_expired stuck p
  handle_reply get_failed iter stuck polled_at p =
      if env.ctx_done p.world
      then (exits false, p)
      else wait_then cfg.poll_interval p
          (record { iter = some iter; stuck_passes = stuck; last_poll = some polled_at })

  poll_once : Str → ℕ → Poller W → Next × Poller W
  unfolding handle_reply
  poll_once iter stuck p =
      let (reply, w) = env.get_records iter p.world in
      handle_reply reply iter stuck (env.now p.world) (record p { world = w })

  -- What is left of the poll interval since the last call.
  unfoldable pub pacing : Option ℕ → W → ℕ
  pacing none w = 0
  pacing (some t) w = cfg.poll_interval - (env.now w - t)

  -- One pass of runPoll's loop.
  pub poll_pass : Loop → Poller W → Next × Poller W
  unfolding poll_once
  poll_pass st p = if env.ctx_done p.world then (exits false, p) else elim st.iter [
    | none ↦ (exits false, write_shard_end p)
    | some iter ↦
        if env.draining p.world
        then (exits false, p)
        else if ltb 0 (pacing st.last_poll p.world)
        then (let (cut, w) = env.wait (pacing st.last_poll p.world) p.world in
            if cut
            then (exits false, record p { world = w })
            else poll_once iter st.stuck_passes (record p { world = w }))
        else poll_once iter st.stuck_passes p
  ]
