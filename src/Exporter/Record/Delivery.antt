-- ===== src/Exporter/Record/Delivery.antt =====
-- exporter/awskinesisexporter/record.go: what putRecords and flush leave in the stream.
use mathlib.Core.List.{Perm, perm_middle, append_assoc, append-nil}
use mathlib.Core.List.Perm
use opentelemetry_kinesis_st.Base.{
  ℕ, zero, suc, ◌+◌, ◌≤◌, ◌<◌, ◌≡◌, refl, true, inl, inr, List, [], ◌∷◌, ◌++◌, Option, none, some,
  arith, length, Bool-cases, Option-cases, Str, leb, length-append,
}
use opentelemetry_kinesis_st.Exporter.Record.{
  Entry, Env, Outcome, done, failed, panics, unfinished, ExportError, permanent, retryable,
  still_failing, ctx_error, PutReply, call_failed, put_output, put_loop, put_records, retry_records,
  sleep_backoff, handle_reply, failed_records, none_failed, max_put_attempts, resource_not_found,
  invalid_argument, other_error, classify_put_records_error, backoff_delay,
}

-- The records whose results have no error code, and those whose results have one.
unfoldable pub accepted : List Entry → List (Option Str) → List Entry
accepted [] rs = []
accepted (e ∷ es) [] = []
accepted (e ∷ es) (none ∷ rs) = e ∷ accepted es rs
accepted (e ∷ es) (some c ∷ rs) = accepted es rs

unfoldable pub rejected : List Entry → List (Option Str) → List Entry
rejected [] rs = []
rejected (e ∷ es) [] = []
rejected (e ∷ es) (none ∷ rs) = rejected es rs
rejected (e ∷ es) (some c ∷ rs) = e ∷ rejected es rs

-- What AWS documents of PutRecords, with `stored` the records that the stream has taken in: one
-- result for each record in request order; a record is stored exactly if its result has no error
-- code; FailedRecordCount is 0 or missing only if every record was stored. Waiting stores nothing.
pub record IsHonest {W : Type 0} (env : Env W) (stored : W → List Entry) : Type 0 where
  pub one_result :
      (es : List Entry) (w : W) (c : Option ℕ) (rs : List (Option Str))
      → (env.put es w).0 ≡ put_output c rs
      → length rs ≡ length es
  pub stores :
      (es : List Entry) (w : W) (c : Option ℕ) (rs : List (Option Str))
      → (env.put es w).0 ≡ put_output c rs
      → Perm (stored (env.put es w).1) (stored w ++ accepted es rs)
  pub counts :
      (es : List Entry) (w : W) (c : Option ℕ) (rs : List (Option Str))
      → (env.put es w).0 ≡ put_output c rs
      → none_failed c ≡ true
      → rejected es rs ≡ []
  pub waits : (d : ℕ) (w : W) → stored (env.sleep d w).1 ≡ stored w

failed_records-rejected :
    (es : List Entry) (rs : List (Option Str))
    → length rs ≡ length es
    → failed_records es rs ≡ some (rejected es rs)
unfolding failed_records rejected
failed_records-rejected [] [] h = refl
failed_records-rejected [] (r ∷ rs) h = absurd (omega arith)
failed_records-rejected (e ∷ es) [] h = absurd (omega arith)
failed_records-rejected (e ∷ es) (none ∷ rs) h = failed_records-rejected es rs (omega arith)
failed_records-rejected (e ∷ es) (some c ∷ rs) h = rw (failed_records-rejected es rs (omega arith))

accepted-rejected-perm :
    (es : List Entry) (rs : List (Option Str))
    → length rs ≡ length es
    → Perm (accepted es rs ++ rejected es rs) es
unfolding accepted rejected
accepted-rejected-perm [] rs h = Perm.refl []
accepted-rejected-perm (e ∷ es) [] h = absurd (omega arith)
accepted-rejected-perm (e ∷ es) (none ∷ rs) h =
    Perm.cons e (accepted-rejected-perm es rs (omega arith))
accepted-rejected-perm (e ∷ es) (some c ∷ rs) h =
    Perm.trans (perm_middle (accepted es rs) (rejected es rs))
      (Perm.cons e (accepted-rejected-perm es rs (omega arith)))

module _ {W : Type 0} (stored : W → List Entry) where
  -- What an outcome means for the records `es` that were handed over in the world `w`: all of them
  -- are stored, each once; or the call of PutRecords itself failed; or some rest is not stored.
  abbrev pub Delivers : W → List Entry → Outcome × W → Type 0
  Delivers w es (done, u) = Perm (stored u) (stored w ++ es)
  Delivers w es (failed (permanent e), u) = Unit
  Delivers w es (failed (retryable e), u) = Unit
  Delivers w es (failed (still_failing n tries), u) =
      (rest : List Entry) × (0 < n)
      × (n ≤ length rest)
      × (tries ≡ max_put_attempts)
      × Perm (stored u ++ rest) (stored w ++ es)
  Delivers w es (failed (ctx_error c), u) =
      (rest : List Entry) × (0 < length rest) × Perm (stored u ++ rest) (stored w ++ es)
  Delivers w es (panics, u) = ⊥
  Delivers w es (unfinished, u) = ⊥

  pub Delivers-trans :
      (w v : W) (es fs : List Entry) (r : Outcome × W)
      → Perm (stored v ++ fs) (stored w ++ es)
      → Delivers v fs r
      → Delivers w es r
  Delivers-trans w v es fs (done, u) h d = Perm.trans d h
  Delivers-trans w v es fs (failed (permanent e), u) h d = tt
  Delivers-trans w v es fs (failed (retryable e), u) h d = tt
  Delivers-trans w v es fs (failed (still_failing n t), u) h d =
      (d.0, d.1, d.2, d.3, Perm.trans d.4 h)
  Delivers-trans w v es fs (failed (ctx_error c), u) h d = (d.0, d.1, Perm.trans d.2 h)
  Delivers-trans w v es fs (panics, u) h d = d
  Delivers-trans w v es fs (unfinished, u) h d = d

  -- A chunk that failed leaves the records after it unsent too.
  pub Delivers-extend :
      (w : W) (es fs : List Entry) (x : ExportError) (u : W)
      → Delivers w es (failed x, u)
      → Delivers w (es ++ fs) (failed x, u)
  Delivers-extend w es fs (permanent e) u d = tt
  Delivers-extend w es fs (retryable e) u d = tt
  Delivers-extend w es fs (still_failing n t) u d = (
    d.0 ++ fs,
    d.1,
    omega (arith, d.2, length-append d.0 fs),
    d.3,
    rw (← append_assoc) (rw (← append_assoc) (Perm.append_right fs d.4)),
  )
  Delivers-extend w es fs (ctx_error c) u d = (
    d.0 ++ fs,
    omega (arith, d.1, length-append d.0 fs),
    rw (← append_assoc) (rw (← append_assoc) (Perm.append_right fs d.2)),
  )

module _ {W : Type 0} (env : Env W) (stored : W → List Entry) (honest : IsHonest env stored) where
  stored-sleep_backoff : (try : ℕ) (w : W) → stored (sleep_backoff env try w).1 ≡ stored w
  unfolding sleep_backoff
  stored-sleep_backoff try w = ground (arith, honest.waits (backoff_delay try) w)

  -- The loop's own call, on the subset that is left.
  abbrev Resumes : (ℕ → List Entry → W → Outcome × W) → ℕ → Type 0
  Resumes again try =
      (es : List Entry) (u : W)
      → try + 1 < max_put_attempts
      → Delivers stored u es (again (try + 1) es u)

  retry-Delivers :
      (again : ℕ → List Entry → W → Outcome × W) (try : ℕ) (rest : List Entry) (w : W)
      → try < max_put_attempts
      → Resumes again try
      → Delivers stored w rest (retry_records env again try rest w)
  unfolding retry_records
  retry-Delivers again try [] w b h = rw append-nil (Perm.refl _)
  retry-Delivers again try (x ∷ xs) w b h = elim (Bool-cases (leb max_put_attempts (try + 1))) [
    | inl last ↦ rw last (x ∷ xs, omega arith, omega arith, ground arith, Perm.refl _)
    | inr more ↦
        let same = stored-sleep_backoff try w in
        elim (Option-cases (sleep_backoff env try w).0) [
          | inl e ↦
              rw (more, e, retry_records)
                (Delivers-trans stored w (sleep_backoff env try w).1 (x ∷ xs) (x ∷ xs) _
                  (rw same (Perm.refl _)) (h (x ∷ xs) (sleep_backoff env try w).1 (ground arith)))
          | inr (c, e) ↦ rw (more, e, retry_records) (x ∷ xs, omega arith, rw same (Perm.refl _))
        ]
  ]

  reply-Delivers :
      (again : ℕ → List Entry → W → Outcome × W) (try : ℕ) (es : List Entry) (w : W) (r : PutReply)
      → (env.put es w).0 ≡ r
      → try < max_put_attempts
      → Resumes again try
      → Delivers stored w es (handle_reply env again try es r (env.put es w).1)
  unfolding handle_reply classify_put_records_error
  reply-Delivers again try es w (call_failed resource_not_found) e b h = tt
  reply-Delivers again try es w (call_failed invalid_argument) e b h = tt
  reply-Delivers again try es w (call_failed other_error) e b h = tt
  reply-Delivers again try es w (put_output c rs) e b h =
      let u = (env.put es w).1 in
      let split = accepted-rejected-perm es rs (honest.one_result es w c rs e) in
      let kept : Perm (stored u ++ rejected es rs) (stored w ++ es) =
        Perm.trans (Perm.append_right (rejected es rs) (honest.stores es w c rs e))
          (rw append_assoc (Perm.append_left (stored w) split)) in
      elim (Bool-cases (none_failed c)) [
        | inl f ↦ rw f (rw (honest.counts es w c rs e f, append-nil) at kept)
        | inr f ↦
            rw (f, failed_records-rejected es rs (honest.one_result es w c rs e), handle_reply)
              (Delivers-trans stored w u es (rejected es rs) _ kept
                (retry-Delivers again try (rejected es rs) u b h))
      ]

  put_loop-Delivers :
      (fuel try : ℕ) (es : List Entry) (w : W)
      → 0 < fuel
      → try < max_put_attempts
      → max_put_attempts ≤ fuel + try
      → Delivers stored w es (put_loop env fuel try es w)
  unfolding put_loop
  put_loop-Delivers zero try es w h b k = absurd (omega arith)
  put_loop-Delivers (suc fuel) try [] w h b k = rw append-nil (Perm.refl _)
  put_loop-Delivers (suc fuel) try (x ∷ xs) w h b k =
      reply-Delivers (put_loop env fuel) try (x ∷ xs) w (env.put (x ∷ xs) w).0 refl b
        (λ es u c. put_loop-Delivers fuel (try + 1) es u (omega arith) (omega arith) (omega arith))

  -- putRecords stores every record exactly once when it returns nil. When records still fail after
  -- the last attempt, or the context ends, what is stored and a rest make up the records handed
  -- over, so that no attempt stored a record twice.
  pub put_records-Delivers : (es : List Entry) (w : W) → Delivers stored w es (put_records env es w)
  unfolding put_records
  put_records-Delivers es w =
      put_loop-Delivers max_put_attempts 0 es w (omega arith) (omega arith) (omega arith)
