-- ===== src/Exporter/Record.antt =====
-- exporter/awskinesisexporter/record.go: chunked PutRecords calls with in-place retry and backoff.
pub mod Chunks
pub mod Backoff
pub mod Delivery
pub mod Flush
pub mod Samples
use opentelemetry_kinesis_st.Base.{
  ℕ, zero, suc, ◌+◌, ◌-◌, ◌*◌, ◌%◌, ◌^◌, ◌≤◌, ◌<◌, Bool, true, false, not, ◌&&◌, ◌||◌, List, [],
  ◌∷◌, ◌++◌, Option, none, some, Str, ltb, leb, ◌==◌, if◌then◌else◌, length, ℤ, ltb_int, leb_int,
}

-- types.PutRecordsRequestEntry
pub record Entry : Type 0 where
  pub payload : List ℕ
  pub partition_key : Str

-- Data and key bytes, as the request limit counts them.
unfoldable pub entry_bytes : Entry → ℕ
entry_bytes e = length e.payload + length e.partition_key

-- What client.PutRecords fails with.
pub data CallError : Type 0 where
  resource_not_found invalid_argument other_error : CallError

pub data CtxError : Type 0 where
  canceled deadline_exceeded : CtxError

-- A failed call, or FailedRecordCount and the ErrorCode of each record.
pub data PutReply : Type 0 where
  call_failed : CallError → PutReply
  put_output : Option ℕ → List (Option Str) → PutReply

pub data ExportError : Type 0 where
  permanent : CallError → ExportError
  retryable : CallError → ExportError
  still_failing : ℕ → ℕ → ExportError
  ctx_error : CtxError → ExportError

-- `panics` is an index out of range, and `unfinished` a loop that used up its fuel.
pub data Outcome : Type 0 where
  done : Outcome
  failed : ExportError → Outcome
  panics : Outcome
  unfinished : Outcome

-- The Kinesis client, the context and the clock, on the state `W` of the world outside.
-- `until_deadline` is 0 for a deadline that has passed.
pub record Env (W : Type 0) : Type 0 where
  pub put : List Entry → W → PutReply × W
  pub ctx_err : W → Option CtxError
  pub until_deadline : W → Option ℕ
  pub sleep : ℕ → W → Option CtxError × W

pub classify_put_records_error : CallError → ExportError
classify_put_records_error resource_not_found = permanent resource_not_found
classify_put_records_error invalid_argument = permanent invalid_argument
classify_put_records_error other_error = retryable other_error

abbrev pub max_put_attempts : ℕ
max_put_attempts = 5

-- Nanoseconds.
abbrev pub put_backoff_base : ℕ
put_backoff_base = 100_000_000

abbrev pub put_backoff_max : ℕ
put_backoff_max = 2_000_000_000

-- The sign bit of an int64's bit pattern.
abbrev is_negative : ℕ → Bool
is_negative d = leb (2 ^ 63) d

pub backoff_delay : ℕ → ℕ
backoff_delay try =
    let d = (put_backoff_base * 2 ^ try) % 2 ^ 64 in
    if (not (is_negative d) && ltb put_backoff_max d) || (is_negative d || d == 0)
    then put_backoff_max
    else d

-- The records whose result has an error code; `none` where the results outnumber the records and
-- the index is out of range.
pub failed_records : List Entry → List (Option Str) → Option (List Entry)
failed_records attempt [] = some []
failed_records [] (none ∷ rs) = failed_records [] rs
failed_records [] (some code ∷ rs) = none
failed_records (e ∷ es) (none ∷ rs) = failed_records es rs
failed_records (e ∷ es) (some code ∷ rs) = elim (failed_records es rs) [
  | none ↦ none
  | some retry ↦ some (e ∷ retry)
]

-- FailedRecordCount == nil || *FailedRecordCount == 0
pub none_failed : Option ℕ → Bool
none_failed none = true
none_failed (some n) = n == 0

module _ {W : Type 0} (env : Env W) where
  pub sleep_backoff : ℕ → W → Option CtxError × W
  unfolding backoff_delay
  sleep_backoff try w = elim (env.ctx_err w) [
    | some e ↦ (some e, w)
    | none ↦ elim (env.until_deadline w) [
      | none ↦ env.sleep (backoff_delay try) w
      | some t ↦
          if ltb t (backoff_delay try)
          then (some deadline_exceeded, w)
          else env.sleep (backoff_delay try) w
    ]
  ]

  -- After a partial failure: give up, or sleep and try the subset again.
  retry_records : (ℕ → List Entry → W → Outcome × W) → ℕ → List Entry → W → Outcome × W
  retry_records again try [] w = (done, w)
  retry_records again try (e ∷ es) w =
      if leb max_put_attempts (try + 1)
      then (failed (still_failing (length (e ∷ es)) (try + 1)), w)
      else (let (r, w') = sleep_backoff try w in
          elim r [ some c ↦ (failed (ctx_error c), w') | none ↦ again (try + 1) (e ∷ es) w' ])

  -- What one call's reply leads to.
  handle_reply : (ℕ → List Entry → W → Outcome × W) → ℕ → List Entry → PutReply → W → Outcome × W
  unfolding retry_records
  handle_reply again try attempt (call_failed e) w = (failed (classify_put_records_error e), w)
  handle_reply again try attempt (put_output count results) w =
      if none_failed count then (done, w) else elim (failed_records attempt results) [
        | none ↦ (panics, w)
        | some retry ↦ retry_records again try retry w
      ]

  pub put_loop : ℕ → ℕ → List Entry → W → Outcome × W
  unfolding handle_reply
  put_loop zero try attempt w = (unfinished, w)
  put_loop (suc fuel) try [] w = (done, w)
  put_loop (suc fuel) try (e ∷ es) w =
      let (r, w') = env.put (e ∷ es) w in handle_reply (put_loop fuel) try (e ∷ es) r w'

  pub put_records : List Entry → W → Outcome × W
  unfolding put_loop
  put_records records w = put_loop max_put_attempts 0 records w

-- The inner loop of flush, with `taken` records of `bytes` bytes in the chunk so far: the rest of
-- the chunk and what is left after it.
pub take_chunk : ℤ → ℤ → ℕ → ℕ → List Entry → List Entry × List Entry
take_chunk max_records max_bytes taken bytes [] = ([], [])
take_chunk max_records max_bytes taken bytes (e ∷ es) =
    let (chunk, rest) = take_chunk max_records max_bytes (taken + 1) (bytes + entry_bytes e) es in
    if ltb_int taken max_records
    then (if ltb 0 taken && not (leb_int (bytes + entry_bytes e) max_bytes)
        then ([], e ∷ es)
        else (e ∷ chunk, rest))
    else ([], e ∷ es)

module _ {W : Type 0} (env : Env W) (max_records max_bytes : ℤ) where
  -- After one chunk: stop at an error, or go on.
  next_chunk : (List Entry → W → Outcome × W) → List Entry → Outcome × W → Outcome × W
  next_chunk again rest (done, w) = again rest w
  next_chunk again rest (failed e, w) = (failed e, w)
  next_chunk again rest (panics, w) = (panics, w)
  next_chunk again rest (unfinished, w) = (unfinished, w)

  pub flush_loop : ℕ → List Entry → W → Outcome × W
  unfolding next_chunk
  flush_loop zero entries w = (unfinished, w)
  flush_loop (suc fuel) [] w = (done, w)
  flush_loop (suc fuel) (e ∷ es) w = elim (env.ctx_err w) [
    | some c ↦ (failed (ctx_error c), w)
    | none ↦
        let (chunk, rest) = take_chunk max_records max_bytes 0 0 (e ∷ es) in
        next_chunk (flush_loop fuel) rest (put_records env chunk w)
  ]

  pub flush : List Entry → W → Outcome × W
  unfolding flush_loop
  flush entries w = flush_loop (suc (length entries)) entries w
