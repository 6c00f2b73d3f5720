-- ===== src/Receiver/Samples.antt =====
-- Concrete runs of the receiver's poller: a shard of two records, the second of which the consumer
-- rejects.
use opentelemetry_kinesis_st.Base.{
  ℕ, zero, suc, ◌≤◌, true, false, List, [], ◌∷◌, Option, some, none, Str, bytes, arith,
}
use opentelemetry_kinesis_st.Lease.{ok, checkpoint_trim_horizon}
use opentelemetry_kinesis_st.Receiver.Batch.{
  Record, ConsumeReply, consumed, rejected_transiently, get_output, PollConfig, Env, handle_records,
}
use opentelemetry_kinesis_st.Receiver.Batch.Settled.{Leads, handle_records-Leads}
use opentelemetry_kinesis_st.Receiver.Poller.{
  Poller, Loop, poll_pass, stuck_backoff, stuck_backoff_max,
}
use opentelemetry_kinesis_st.Receiver.Poller.Backoff.{stuck_backoff_grows}
use opentelemetry_kinesis_st.Receiver.Poller.Keeps.{IsDue, Keeps}
use opentelemetry_kinesis_st.Receiver.Poller.Progress.{poll_pass-keeps}

abbrev every_second : PollConfig
every_second = record { poll_interval = 1_000_000_000; dead_letter_enabled = true }

abbrev rec : ℕ → Str → Record
rec n seq = record { payload = n ∷ []; sequence_number = seq; partition_key = bytes "k" }

abbrev two_records : List Record
two_records = rec 1 (bytes "41") ∷ rec 2 (bytes "42") ∷ []

abbrev first_byte : List ℕ → Option ℕ
first_byte [] = none
first_byte (x ∷ xs) = some x

abbrev likes : ℕ → ConsumeReply
likes zero = rejected_transiently
likes (suc zero) = consumed
likes (suc (suc n)) = rejected_transiently

-- The world is the list of checkpoints written; a payload is its first byte.
abbrev lone_shard : Env (List Str) ℕ
lone_shard = record {
  store_heartbeat = λ l w. (ok l, w);
  store_checkpoint = λ ctx l seq w. (ok (record l { checkpoint = seq }), seq ∷ w);
  store_release = λ l w. (ok tt, w);
  get_records = λ iter w. (get_output two_records (some (bytes "next")), w);
  get_shard_iterator = λ r w. (some (some (bytes "iter")), w);
  decompress = λ xs. some xs;
  unmarshal = first_byte;
  consume_downstream = λ d w. (likes d, w);
  wrap_dead_letter = λ r class. 1;
  ctx_done = λ w. false;
  draining = λ w. false;
  wait = λ d w. (false, w);
  wait_ctx = λ d w. (false, w);
  now = λ w. 0;
}

handle_records-Leads_example :
    Leads every_second lone_shard two_records [] []
      (handle_records every_second lone_shard two_records [] [])
handle_records-Leads_example = handle_records-Leads every_second lone_shard two_records [] []

stuck_backoff_grows_example :
    (1_000_000_000 ≤ stuck_backoff every_second 2)
    × (stuck_backoff every_second 2 ≤ stuck_backoff every_second 90)
    × (stuck_backoff every_second 90 ≤ stuck_backoff_max)
stuck_backoff_grows_example =
    stuck_backoff_grows every_second 2 90 (omega arith) (omega arith) (omega arith)

abbrev opened : Loop
opened = record { iter = some (bytes "iter"); stuck_passes = 0; last_poll = none }

abbrev at_start : Poller (List Str)
at_start = record {
  leased = record {
    shard_id = bytes "a";
    owner = bytes "w";
    counter = 1;
    checkpoint = checkpoint_trim_horizon;
    parent_ids = [];
  };
  world = [];
}

-- Every checkpoint written is due.
data AllDue : List Str → Type 0 where
  none_written : AllDue []
  one_more :
      {seq : Str} {w : List Str}
      → IsDue every_second lone_shard opened seq
      → AllDue w
      → AllDue (seq ∷ w)

lone_shard-Keeps : Keeps every_second lone_shard opened (λ l w. AllDue w)
lone_shard-Keeps = record {
  on_records = λ iter l w h. h;
  on_iterator = λ r l w h. h;
  on_consume = λ d l w h. h;
  on_wait = λ d l w h. h;
  on_wait_ctx = λ d l w h. h;
  on_checkpoint = λ ctx l l' seq w due h e. one_more due h;
  on_refusal = λ ctx l e seq w due h eq. one_more due h;
}

poll_pass-keeps_example : AllDue (poll_pass every_second lone_shard opened at_start).1.world
poll_pass-keeps_example =
    poll_pass-keeps every_second lone_shard opened (λ l w. AllDue w) lone_shard-Keeps at_start
      none_written
