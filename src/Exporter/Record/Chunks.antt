-- ===== src/Exporter/Record/Chunks.antt =====
-- exporter/awskinesisexporter/record.go: how flush cuts the records into PutRecords requests.
use opentelemetry_kinesis_st.Base.{
  ℕ, zero, suc, ◌+◌, ◌≤◌, ◌<◌, ◌≡◌, ◌≢◌, refl, ap, ◌⊎◌, inl, inr, List, [], ◌∷◌, ◌++◌, none, arith,
  length, ℤ, pos, negsuc, to_ℕ, Bool-cases, length-append, Option-cases,
}
use opentelemetry_kinesis_st.Exporter.Record.{
  Entry, entry_bytes, Env, Outcome, done, failed, panics, unfinished, take_chunk, put_loop,
  put_records, retry_records, sleep_backoff, handle_reply, failed_records, flush_loop, flush,
  next_chunk, max_put_attempts, PutReply, call_failed, put_output, none_failed,
}

-- The bytes of a request.
unfoldable pub request_bytes : List Entry → ℕ
request_bytes [] = 0
request_bytes (e ∷ es) = entry_bytes e + request_bytes es

-- A cut of `entries` into a request and what is left.
pub record IsCut (max_records max_bytes : ℤ) (entries : List Entry) (cut : List Entry × List Entry)
    : Type 0 where
  pub in_order : cut.0 ++ cut.1 ≡ entries
  pub few : length cut.0 ≤ to_ℕ max_records
  pub small : (request_bytes cut.0 ≤ to_ℕ max_bytes) ⊎ (length cut.0 ≤ 1)
  pub progress : length cut.1 < length entries

module _ (max_records max_bytes : ℤ) where
  cut_in_order :
      (taken bytes : ℕ) (es : List Entry)
      → (take_chunk max_records max_bytes taken bytes es).0
          ++ (take_chunk max_records max_bytes taken bytes es).1
        ≡ es
  unfolding take_chunk
  cut_in_order taken bytes [] = refl
  cut_in_order taken bytes (e ∷ es) =
      ground (arith, cut_in_order (taken + 1) (bytes + entry_bytes e) es)

  cut_few :
      (taken bytes : ℕ) (es : List Entry)
      → taken ≤ to_ℕ max_records
      → taken + length (take_chunk max_records max_bytes taken bytes es).0 ≤ to_ℕ max_records
  unfolding take_chunk
  cut_few taken bytes [] h = omega arith
  cut_few taken bytes (e ∷ es) h = ground (arith, cut_few (taken + 1) (bytes + entry_bytes e) es)

  cut_small :
      (taken bytes : ℕ) (es : List Entry)
      → (bytes ≤ to_ℕ max_bytes) ⊎ (taken ≤ 1)
      → (0 < taken ⊎ (bytes ≡ 0))
      → (bytes + request_bytes (take_chunk max_records max_bytes taken bytes es).0 ≤ to_ℕ max_bytes)
        ⊎ (taken + length (take_chunk max_records max_bytes taken bytes es).0 ≤ 1)
  unfolding take_chunk request_bytes
  cut_small taken bytes [] h k = ground arith
  cut_small taken bytes (e ∷ es) h k =
      ground (arith, cut_small (taken + 1) (bytes + entry_bytes e) es)

  cut_progress :
      (bytes : ℕ) (e : Entry) (es : List Entry)
      → 0 < to_ℕ max_records
      → length (take_chunk max_records max_bytes 0 bytes (e ∷ es)).1 ≤ length es
  unfolding take_chunk
  cut_progress bytes e es h = ground (
    arith,
    ap length (cut_in_order 1 (bytes + entry_bytes e) es),
    length-append (take_chunk max_records max_bytes 1 (bytes + entry_bytes e) es).0
        (take_chunk max_records max_bytes 1 (bytes + entry_bytes e) es).1,
  )

-- For a positive max_records: the request that flush sends next holds the first records in order,
-- at most max_records of them and at most max_bytes bytes unless it is a single record, and it is
-- never empty.
pub take_chunk-IsCut :
    (max_records max_bytes : ℤ) (e : Entry) (es : List Entry)
    → 0 < to_ℕ max_records
    → IsCut max_records max_bytes (e ∷ es) (take_chunk max_records max_bytes 0 0 (e ∷ es))
take_chunk-IsCut max_records max_bytes e es h = record {
  in_order = cut_in_order max_records max_bytes 0 0 (e ∷ es);
  few = omega (arith, cut_few max_records max_bytes 0 0 (e ∷ es) (omega arith));
  small =
      ground (arith, cut_small max_records max_bytes 0 0 (e ∷ es) (inr (omega arith)) (inr refl));
  progress = omega (arith, cut_progress max_records max_bytes 0 e es h);
}

module _ {W : Type 0} (env : Env W) (again : ℕ → List Entry → W → Outcome × W) where
  retry_ends :
      (try : ℕ) (es : List Entry) (w : W)
      → ((rs : List Entry) (u : W)
          → try + 1 < max_put_attempts
          → (again (try + 1) rs u).0 ≢ unfinished)
      → (retry_records env again try es w).0 ≢ unfinished
  unfolding retry_records
  retry_ends try [] w h = λ e. cc
  retry_ends try (x ∷ es) w h = ground (arith, h (x ∷ es) (sleep_backoff env try w).1)

  reply_ends :
      (try : ℕ) (es : List Entry) (r : PutReply) (w : W)
      → ((rs : List Entry) (u : W)
          → try + 1 < max_put_attempts
          → (again (try + 1) rs u).0 ≢ unfinished)
      → (handle_reply env again try es r w).0 ≢ unfinished
  unfolding handle_reply
  reply_ends try es (call_failed e) w h = λ k. cc
  reply_ends try es (put_output count rs) w h = elim (Bool-cases (none_failed count)) [
    | inl e ↦ rw e (λ k. cc)
    | inr e ↦ elim (Option-cases (failed_records es rs)) [
      | inl f ↦ rw (e, f, handle_reply) (λ k. cc)
      | inr (retry, f) ↦ rw (e, f, handle_reply) (retry_ends try retry w h)
    ]
  ]

module _ {W : Type 0} (env : Env W) where
  put_records_nil : (w : W) → put_records env [] w ≡ (done, w)
  unfolding put_records put_loop
  put_records_nil w = refl

  put_loop_total :
      (fuel try : ℕ) (es : List Entry) (w : W)
      → 0 < fuel
      → max_put_attempts ≤ fuel + try
      → (put_loop env fuel try es w).0 ≢ unfinished
  unfolding put_loop
  put_loop_total zero try es w h k = absurd (omega arith)
  put_loop_total (suc fuel) try [] w h k = λ e. cc
  put_loop_total (suc fuel) try (x ∷ es) w h k =
      reply_ends env (put_loop env fuel) try (x ∷ es) (env.put (x ∷ es) w).0 (env.put (x ∷ es) w).1
        (λ rs u b. put_loop_total fuel (try + 1) rs u (omega arith) (omega arith))

  -- Five attempts are always enough.
  put_records_total : (es : List Entry) (w : W) → (put_records env es w).0 ≢ unfinished
  unfolding put_records
  put_records_total es w = put_loop_total max_put_attempts 0 es w (omega arith) (omega arith)

cut_nothing :
    (max_records max_bytes : ℤ) (e : Entry) (es : List Entry)
    → to_ℕ max_records ≡ 0
    → take_chunk max_records max_bytes 0 0 (e ∷ es) ≡ ([], e ∷ es)
unfolding take_chunk
cut_nothing (pos m) max_bytes e es h = ground arith
cut_nothing (negsuc m) max_bytes e es h = refl

module _ {W : Type 0} (env : Env W) (max_records max_bytes : ℤ) where
  next_chunk_ends :
      (again : List Entry → W → Outcome × W) (rest : List Entry) (o : Outcome × W)
      → o.0 ≢ unfinished
      → ((w : W) → (again rest w).0 ≢ unfinished)
      → (next_chunk env max_records max_bytes again rest o).0 ≢ unfinished
  unfolding next_chunk
  next_chunk_ends again rest (done, w) h k = k w
  next_chunk_ends again rest (failed e, w) h k = h
  next_chunk_ends again rest (panics, w) h k = h
  next_chunk_ends again rest (unfinished, w) h k = h

  flush_loop_total :
      (fuel : ℕ) (es : List Entry) (w : W)
      → 0 < to_ℕ max_records
      → length es < fuel
      → (flush_loop env max_records max_bytes fuel es w).0 ≢ unfinished
  unfolding flush_loop
  flush_loop_total zero es w m h = absurd (omega arith)
  flush_loop_total (suc fuel) [] w m h = λ e. cc
  flush_loop_total (suc fuel) (x ∷ es) w m h = elim (Option-cases (env.ctx_err w)) [
    | inr (c, e) ↦ rw (e, flush_loop) (λ k. cc)
    | inl e ↦
        let cut = take_chunk max_records max_bytes 0 0 (x ∷ es) in
        let shorter = (take_chunk-IsCut max_records max_bytes x es m).progress in
        rw (e, flush_loop)
          (next_chunk_ends (flush_loop env max_records max_bytes fuel) cut.1
            (put_records env cut.0 w) (put_records_total env cut.0 w)
            (λ u. flush_loop_total fuel cut.1 u m (omega arith)))
  ]

  -- With a positive max_records flush ends, whatever the client and the context do.
  pub flush_total :
      (es : List Entry) (w : W)
      → 0 < to_ℕ max_records
      → (flush env max_records max_bytes es w).0 ≢ unfinished
  unfolding flush
  flush_total es w m = flush_loop_total (suc (length es)) es w m (omega arith)

  -- The configuration check is needed: with none allowed in a request flush never ends.
  flush_loop_stuck :
      (fuel : ℕ) (e : Entry) (es : List Entry) (w : W)
      → to_ℕ max_records ≡ 0
      → ((u : W) → env.ctx_err u ≡ none)
      → (flush_loop env max_records max_bytes fuel (e ∷ es) w).0 ≡ unfinished
  unfolding flush_loop
  flush_loop_stuck zero e es w m c = refl
  flush_loop_stuck (suc fuel) e es w m c =
      rw (c w, flush_loop, cut_nothing max_records max_bytes e es m, put_records_nil env w)
        (flush_loop_stuck fuel e es w m c)
