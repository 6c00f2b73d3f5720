-- ===== src/Receiver/Poller/Session/Samples.antt =====
-- Concrete runs of a poller's goroutines over the in-memory store: a peer takes the lease over.
use opentelemetry_kinesis_st.Base.{
  ℕ, ◌≡◌, ◌⊎◌, refl, true, false, List, [], ◌∷◌, some, Str, bytes, str_eq, arith, inl,
}
use opentelemetry_kinesis_st.Base.GoMap
use opentelemetry_kinesis_st.Lease.{Lease, checkpoint_trim_horizon}
use opentelemetry_kinesis_st.Lease.Memory
use opentelemetry_kinesis_st.Lease.Memory.{MemoryStore}
use opentelemetry_kinesis_st.Lease.Memory.Fencing.{Call, acquires, row, run, Refused}
use opentelemetry_kinesis_st.Receiver.Batch.{Record, consumed, get_output, PollConfig, Env}
use opentelemetry_kinesis_st.Receiver.Poller.Session.{
  Session, beat, write, Reaches, here, next, beats, writes, moves,
}
use opentelemetry_kinesis_st.Receiver.Poller.Session.Fenced.{IsBacked, answered}
use opentelemetry_kinesis_st.Receiver.Poller.Session.Holds.{Reaches-HeldOrRefused}
use opentelemetry_kinesis_st.Receiver.Poller.Session.Beats.{Beats, beat-Beats}
use opentelemetry_kinesis_st.Receiver.Batch.{poll_ctx}

abbrev every_second : PollConfig
every_second = record { poll_interval = 1_000_000_000; dead_letter_enabled = false }

abbrev shard : Str
shard = bytes "a"

abbrev one_record : List Record
one_record =
    record { payload = 1 ∷ []; sequence_number = bytes "41"; partition_key = bytes "k" } ∷ []

-- The world is the lease store; the stream has one record, which the consumer takes.
abbrev over_memory : Env MemoryStore (List ℕ)
over_memory = record {
  store_heartbeat = λ l w. Memory.heartbeat l w;
  store_checkpoint = λ ctx l seq w. Memory.checkpoint l seq w;
  store_release = λ l w. Memory.release l w;
  get_records = λ iter w. (get_output one_record (some (bytes "next")), w);
  get_shard_iterator = λ r w. (some (some (bytes "iter")), w);
  decompress = λ xs. some xs;
  unmarshal = λ xs. some xs;
  consume_downstream = λ d w. (consumed, w);
  wrap_dead_letter = λ r class. [];
  ctx_done = λ w. false;
  draining = λ w. false;
  wait = λ d w. (false, w);
  wait_ctx = λ d w. (false, w);
  now = λ w. 0;
}

abbrev itself : MemoryStore → MemoryStore
itself w = w

over_memory-IsBacked : IsBacked over_memory itself
over_memory-IsBacked = record {
  on_heartbeat = λ l w. answered refl refl;
  on_checkpoint = λ ctx l seq w. answered refl refl;
  on_release = λ l w. answered refl refl;
}

abbrev first_lease : Lease
first_lease = record {
  shard_id = shard;
  owner = bytes "w";
  counter = 1;
  checkpoint = checkpoint_trim_horizon;
  parent_ids = [];
}

abbrev start : Session MemoryStore
start = record {
  poller = record { leased = first_lease; world = record { leases = (shard, first_lease) ∷ [] } };
  cancelled = false;
  polling = true;
  beating = true;
  running = true;
}

abbrev written : Session MemoryStore
written = write every_second over_memory poll_ctx (bytes "41") start

abbrev takeover : List Call
takeover = acquires shard (bytes "v") 2 ∷ []

abbrev taken : Session MemoryStore
taken = record written {
  poller = record { leased = written.poller.leased; world = run written.poller.world takeover };
}

-- A checkpoint, a peer's takeover and a tick of the heartbeat.
start-Reaches :
    Reaches every_second over_memory itself shard start 3 (beat every_second over_memory taken)
unfolding write
start-Reaches =
    next
      (next (next here (writes poll_ctx (bytes "41") refl refl) refl)
        (moves (run written.poller.world takeover) takeover refl (tt, tt) refl) refl)
      (beats refl refl) refl

held_at_start : row start.poller.world shard ≡ some first_lease
unfolding GoMap.get str_eq
held_at_start = refl

Reaches-HeldOrRefused_example :
    (row (beat every_second over_memory taken).poller.world shard
      ≡ some (beat every_second over_memory taken).poller.leased)
    ⊎ Refused
        (beat every_second over_memory taken).poller.leased
        (beat every_second over_memory taken).poller.world
Reaches-HeldOrRefused_example =
    Reaches-HeldOrRefused every_second over_memory itself shard over_memory-IsBacked 3 refl
      held_at_start (omega arith) start-Reaches

beat-Beats_example : Beats over_memory itself shard start (beat every_second over_memory start)
beat-Beats_example =
    beat-Beats every_second over_memory itself shard over_memory-IsBacked 1 start
      (record {
        current = first_lease;
        same_shard = refl;
        found = held_at_start;
        bounded = omega arith;
        state = inl refl;
      })
      (omega arith)
