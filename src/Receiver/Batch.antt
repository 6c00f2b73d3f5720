-- ===== src/Receiver/Batch.antt =====
-- receiver/awskinesisreceiver/poller_records.go, the consume methods of sink.go, and what the shard
-- poller uses of the world outside. Logs and metrics are left out.
pub mod Settled
use opentelemetry_kinesis_st.Base.{
  ℕ, zero, suc, ◌+◌, ◌-◌, ◌*◌, ◌%◌, ◌^◌, ◌≤◌, ◌<◌, Bool, true, false, not, ◌&&◌, ◌||◌, List, [],
  ◌∷◌, Option, none, some, Str, str_eq, bytes, ltb, leb, ◌==◌, if◌then◌else◌,
}
use opentelemetry_kinesis_st.Lease.{
  Lease, Result, ok, err, Error, lease_conflict, lease_not_found, canceled, fault, empty_owner,
  checkpoint_trim_horizon, checkpoint_shard_end,
}

-- types.Record; a nil sequence number reads as "".
pub record Record : Type 0 where
  pub payload : List ℕ
  pub sequence_number : Str
  pub partition_key : Str

pub data RecordResult : Type 0 where
  record_ok record_skip record_retry : RecordResult

-- What a downstream consumer returns: nil, a permanent error or another one.
pub data ConsumeReply : Type 0 where
  consumed rejected_permanently rejected_transiently : ConsumeReply

-- What client.GetRecords returns. A nil NextShardIterator is a closed shard.
pub data RecordsReply : Type 0 where
  get_output : List Record → Option Str → RecordsReply
  iterator_expired : RecordsReply
  get_failed : RecordsReply

pub data IteratorRequest : Type 0 where
  from_trim_horizon : Str → IteratorRequest
  after_sequence_number : Str → Str → IteratorRequest

-- The poll context, or the exit context that outlives it.
pub data Ctx : Type 0 where
  poll_ctx exit_ctx : Ctx

pub record PollConfig : Type 0 where
  pub poll_interval : ℕ
  pub dead_letter_enabled : Bool

-- What the poller uses of the world outside, of state `W`: the lease store, the Kinesis client, the
-- codec, the decoder and consumer of its signal (payloads of type `D`), the contexts and the clock.
-- `wait` also ends at a drain request; `wait` and `wait_ctx` say whether they were cut short.
pub record Env (W D : Type 0) : Type 0 where
  pub store_heartbeat : Lease → W → Result Lease × W
  pub store_checkpoint : Ctx → Lease → Str → W → Result Lease × W
  pub store_release : Lease → W → Result (Unit {0}) × W
  pub get_records : Str → W → RecordsReply × W
  pub get_shard_iterator : IteratorRequest → W → Option (Option Str) × W
  pub decompress : List ℕ → Option (List ℕ)
  pub unmarshal : List ℕ → Option D
  pub consume_downstream : D → W → ConsumeReply × W
  pub wrap_dead_letter : Record → Str → D
  pub ctx_done : W → Bool
  pub draining : W → Bool
  pub wait : ℕ → W → Bool × W
  pub wait_ctx : ℕ → W → Bool × W
  pub now : W → ℕ

module _ {W D : Type 0} (cfg : PollConfig) (env : Env W D) where
  -- sink.consume: the result, and whether decoding failed.
  unfoldable pub consume : List ℕ → W → RecordResult × Bool × W
  consume raw w = elim (env.unmarshal raw) [
    | none ↦ (record_skip, true, w)
    | some d ↦
        let (r, w') = env.consume_downstream d w in
        (
          elim r [
            | consumed ↦ record_ok
            | rejected_permanently ↦ record_skip
            | rejected_transiently ↦ record_retry
          ],
          false,
          w',
        )
  ]

  -- sink.deadLetter: whether the wrapper was accepted downstream.
  pub dead_letter : Record → Str → W → Bool × W
  dead_letter rec failure_class w =
      let (r, w') = env.consume_downstream (env.wrap_dead_letter rec failure_class) w in
      (elim r [ consumed ↦ true | _ ↦ false ], w')

  unfoldable pub maybe_dead_letter : Record → Str → W → Bool × W
  unfolding dead_letter
  maybe_dead_letter rec failure_class w =
      if not cfg.dead_letter_enabled then (true, w) else dead_letter rec failure_class w

  unfoldable pub handle_record : Record → W → RecordResult × W
  unfolding consume maybe_dead_letter
  handle_record rec w = elim (env.decompress rec.payload) [
    | none ↦
        let (advance, w') = maybe_dead_letter rec (bytes "decompress") w in
        (if not advance then record_retry else record_skip, w')
    | some raw ↦
        let (result, decode_failed, w') = consume raw w in
        if decode_failed
        then (let (advance, w'') = maybe_dead_letter rec (bytes "decode") w' in
            (if not advance then record_retry else result, w''))
        else (result, w')
  ]

  -- runPoll's loop over a batch: the sequence number to checkpoint, and whether it stopped at a
  -- record to be retried.
  unfoldable pub handle_records : List Record → Str → W → Str × Bool × W
  handle_records [] advance_seq w = (advance_seq, false, w)
  handle_records (rec ∷ recs) advance_seq w =
      let (r, w') = handle_record rec w in
      elim r [
        | record_retry ↦ (advance_seq, true, w')
        | record_ok ↦
            handle_records recs
              (if str_eq rec.sequence_number [] then advance_seq else rec.sequence_number) w'
        | record_skip ↦
            handle_records recs
              (if str_eq rec.sequence_number [] then advance_seq else rec.sequence_number) w'
      ]
