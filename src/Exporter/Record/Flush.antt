-- ===== src/Exporter/Record/Flush.antt =====
-- exporter/awskinesisexporter/record.go: flush, from the records handed over to those stored.
use mathlib.Core.List.{append_assoc, append-nil}
use mathlib.Core.List.Perm
use opentelemetry_kinesis_st.Base.{
  ℕ, zero, suc, ◌<◌, inl, inr, List, [], ◌∷◌, ◌++◌, arith, length, Option-cases, ℤ, to_ℕ,
}
use opentelemetry_kinesis_st.Exporter.Record.{
  Entry, Env, Outcome, done, failed, panics, unfinished, take_chunk, put_records, flush_loop, flush,
  next_chunk,
}
use opentelemetry_kinesis_st.Exporter.Record.Chunks.{take_chunk-IsCut}
use opentelemetry_kinesis_st.Exporter.Record.Delivery.{
  IsHonest, Delivers, Delivers-trans, Delivers-extend, put_records-Delivers,
}

module _ {W : Type 0} (env : Env W) (max_records max_bytes : ℤ) (stored : W → List Entry)
    (honest : IsHonest env stored) where
  next_chunk-Delivers :
      (again : List Entry → W → Outcome × W) (w : W) (chunk rest : List Entry) (r : Outcome × W)
      → Delivers stored w chunk r
      → ((u : W) → Delivers stored u rest (again rest u))
      → Delivers stored w (chunk ++ rest) (next_chunk env max_records max_bytes again rest r)
  unfolding next_chunk
  next_chunk-Delivers again w chunk rest (done, u) d h =
      Delivers-trans stored w u (chunk ++ rest) rest (again rest u)
        (rw (← append_assoc) (Perm.append_right rest d)) (h u)
  next_chunk-Delivers again w chunk rest (failed e, u) d h =
      Delivers-extend stored w chunk rest e u d
  next_chunk-Delivers again w chunk rest (panics, u) d h = d
  next_chunk-Delivers again w chunk rest (unfinished, u) d h = d

  flush_loop-Delivers :
      (fuel : ℕ) (es : List Entry) (w : W)
      → 0 < to_ℕ max_records
      → length es < fuel
      → Delivers stored w es (flush_loop env max_records max_bytes fuel es w)
  unfolding flush_loop
  flush_loop-Delivers zero es w m h = absurd (omega arith)
  flush_loop-Delivers (suc fuel) [] w m h = rw append-nil (Perm.refl _)
  flush_loop-Delivers (suc fuel) (x ∷ xs) w m h = elim (Option-cases (env.ctx_err w)) [
    | inr (c, e) ↦ rw (e, flush_loop) (x ∷ xs, omega arith, Perm.refl _)
    | inl e ↦
        let cut = take_chunk max_records max_bytes 0 0 (x ∷ xs) in
        let is_cut = take_chunk-IsCut max_records max_bytes x xs m in
        let sent =
          next_chunk-Delivers (flush_loop env max_records max_bytes fuel) w cut.0 cut.1
            (put_records env cut.0 w) (put_records-Delivers env stored honest cut.0 w)
            (λ u. flush_loop-Delivers fuel cut.1 u m (omega (arith, is_cut.progress))) in
        rw (e, flush_loop) (rw is_cut.in_order at sent)
  ]

  -- With a positive max_records and a client as documented, flush returns nil only when every
  -- record is stored exactly once; after an error it reports for records that still fail or for an
  -- ended context, what is stored and a rest that is not empty make up the records handed over; and
  -- it neither panics nor runs on forever.
  pub flush-Delivers :
      (es : List Entry) (w : W)
      → 0 < to_ℕ max_records
      → Delivers stored w es (flush env max_records max_bytes es w)
  unfolding flush
  flush-Delivers es w m = flush_loop-Delivers (suc (length es)) es w m (omega arith)
