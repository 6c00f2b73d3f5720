-- ===== src/Receiver/Poller/Run/Samples.antt =====
-- Concrete runs of runPoll: a stream of a few batches after which the shard is closed.
use opentelemetry_kinesis_st.Base.{
  ℕ, zero, suc, ◌+◌, ◌≤◌, ◌≡◌, ◌≢◌, refl, true, false, List, [], ◌∷◌, Option, none, some, Str,
  bytes, arith, if◌then◌else◌, ◌==◌,
}
use opentelemetry_kinesis_st.Lease.{
  Lease, Result, ok, err, lease_conflict, checkpoint_trim_horizon, checkpoint_shard_end,
}
use opentelemetry_kinesis_st.Receiver.Batch.{
  Record, RecordsReply, get_output, consumed, PollConfig, Env,
}
use opentelemetry_kinesis_st.Receiver.Poller.{Poller}
use opentelemetry_kinesis_st.Receiver.Poller.Run.{run_poll}
use opentelemetry_kinesis_st.Receiver.Poller.Run.Closing.{Closes, run_poll-Closes}
use opentelemetry_kinesis_st.Receiver.Poller.Run.Flow.{Calm, Nears, Flows}

-- The row of the lease, and how many more calls the stream answers before the shard is closed.
abbrev World : Type 0
World = Lease × ℕ

abbrev a_record : Record
a_record = record { payload = 1 ∷ []; sequence_number = bytes "41"; partition_key = bytes "k" }

-- Every call but the last one brings a record; the shard is closed with the last one.
abbrev next_reply : Str → World → RecordsReply × World
next_reply iter (l, zero) = (get_output [] none, (l, zero))
next_reply iter (l, suc n) = (get_output (a_record ∷ []) (some iter), (l, n))

abbrev store_seq : Lease → Str → World → Result Lease × World
store_seq l seq (row, n) =
    if l.counter == row.counter
    then (
      ok (record l { checkpoint = seq; counter = l.counter + 1 }),
      (record l { checkpoint = seq; counter = l.counter + 1 }, n),
    )
    else (err lease_conflict, (row, n))

abbrev closing_stream : Env World (List ℕ)
closing_stream = record {
  store_heartbeat = λ l w. (ok l, w);
  store_checkpoint = λ ctx l seq w. store_seq l seq w;
  store_release = λ l w. (ok tt, w);
  get_records = next_reply;
  get_shard_iterator = λ r w. (some (some (bytes "iter")), w);
  decompress = λ xs. some xs;
  unmarshal = λ xs. some xs;
  consume_downstream = λ d w. (consumed, w);
  wrap_dead_letter = λ r class. [];
  ctx_done = λ w. false;
  draining = λ w. false;
  wait = λ d w. (false, w);
  wait_ctx = λ d w. (false, w);
  now = λ w. 0;
}

abbrev Held : Lease → World → Type 0
Held l w = (w.0.counter ≡ l.counter) × (l.checkpoint ≢ checkpoint_shard_end)

abbrev left : Option Str → World → ℕ
left none w = 0
left (some iter) w = w.1 + 1

still : (l : Lease) (w : World) → Calm closing_stream Held left l w w
still l w = record { stays = λ h. h; no_further = λ i. omega arith }

equal : (n : ℕ) → (n == n) ≡ true
equal n = ground arith

written :
    (l : Lease) (seq : Str) (w : World)
    → Held l w
    → (l' : Lease) × ((store_seq l seq w).0 ≡ ok l')
      × (l'.checkpoint ≡ seq)
      × (seq ≢ checkpoint_shard_end → Held l' (store_seq l seq w).1)
written l seq w h =
    let next : Lease = record l { checkpoint = seq; counter = l.counter + 1 } in
    rw (h.0, equal l.counter) (next, refl, refl, λ ne. (refl, ne))

still_held : (iter : Str) (l : Lease) (w : World) → Held l w → Held l (next_reply iter w).1
still_held iter l (row, zero) h = h
still_held iter l (row, suc n) h = h

no_fewer :
    (l : Lease) (seq : Str) (w : World) (i : Option Str) → left i (store_seq l seq w).1 ≤ left i w
no_fewer l seq w none = omega arith
no_fewer l seq w (some iter) = ground arith

numbered : bytes "41" ≢ checkpoint_shard_end
numbered e = absurd (cc)

reads_on : (iter : Str) (w : World) → Nears closing_stream Held left iter w (next_reply iter w)
reads_on iter (l, zero) = (tt, omega arith)
reads_on iter (l, suc n) = ((numbered, tt), omega arith)

closing_stream-Flows : Flows closing_stream Held left
closing_stream-Flows = record {
  no_cancel = λ w. refl;
  no_drain = λ w. refl;
  no_cut = λ d w. refl;
  takes = λ d w. refl;
  opens = λ r w. (some (bytes "iter"), refl);
  accepts = λ ctx l seq w h. written l seq w h;
  is_open = λ l w h. h.1;
  reads = reads_on;
  on_records = λ iter l w h. still_held iter l w h;
  on_iterator = λ r l w h. h;
  on_consume = λ d l w. still l w;
  on_wait = λ d l w. still l w;
  on_checkpoint = λ ctx l seq w i. no_fewer l seq w i;
}

abbrev poller : Poller World
poller =
    let l : Lease = record {
      shard_id = bytes "a";
      owner = bytes "w";
      counter = 1;
      checkpoint = checkpoint_trim_horizon;
      parent_ids = [];
    } in
    record { leased = l; world = (l, 3) }

abbrev every_second : PollConfig
every_second = record { poll_interval = 1_000_000_000; dead_letter_enabled = false }

starts_open : checkpoint_trim_horizon ≢ checkpoint_shard_end
starts_open e = absurd (cc)

run_poll-Closes_example :
    (n : ℕ) × ((fuel : ℕ)
      → n ≤ fuel
      → Closes every_second closing_stream Held left closing_stream-Flows
          (run_poll every_second closing_stream fuel poller))
run_poll-Closes_example =
    run_poll-Closes every_second closing_stream Held left closing_stream-Flows poller
      (refl, starts_open)
