-- ===== src/Exporter/Oversize/Conservation.antt =====
-- exporter/awskinesisexporter/oversize.go: what packChain ships and drops of a batch.
use opentelemetry_kinesis_st.Base.{
  ℕ, zero, suc, ◌+◌, ◌<◌, ◌≡◌, refl, true, List, [], ◌∷◌, Option, none, some, Str, str_eq, arith,
  Bool-cases, Option-cases, inl, inr, ltb, ltb_int, ltb→lt, ltb_int→lt, ◌==◌, ℤ, to_ℕ,
}
use opentelemetry_kinesis_st.Exporter.Config.{
  Config, oversize_split_half, oversize_truncate_attrs, oversize_reject,
}
use opentelemetry_kinesis_st.Exporter.Oversize.{
  SignalCodec, Attempt, Packed, try_encode, split_batch, after_encode, pack_split, split_fuel,
  after_truncate, truncate_batch, run_policies, pack_oversize, pack_chain, add_truncated,
}
use opentelemetry_kinesis_st.Exporter.Oversize.Accounts.{
  CountsItems, Ends, drop_all-Accounts, join-Ends, Encodes, try_encode-Encodes, terminal-Accounts,
  shipped-Accounts,
}

module _ {T : Type 0} (cfg : Config) (compress : List ℕ → Option (List ℕ))
    (sc : SignalCodec T) where
  after_encode-Ends :
      (again : T → Option Packed) (b : T) (depth : ℕ) (t : Attempt)
      → Encodes cfg compress sc b t
      → (t.payload ≡ none
          → Ends cfg compress sc (sc.item_count b) (split_batch cfg compress sc again b depth))
      → Ends cfg compress sc (sc.item_count b) (after_encode cfg compress sc again b depth t)
  unfolding after_encode
  after_encode-Ends again b depth t h k = elim (Bool-cases (ltb 0 t.terminal.count)) [
    | inl e ↦ rw e (terminal-Accounts cfg compress sc b t h (ltb→lt _ _ e))
    | inr e ↦ elim (Option-cases t.payload) [
      | inl f ↦ rw (e, f, after_encode) (k f)
      | inr (p, f) ↦ rw (e, f, after_encode) (shipped-Accounts cfg compress sc b p 0 (h.1 p f))
    ]
  ]

  pack_oversize-Ends :
      (b : T) (t : Attempt)
      → Encodes cfg compress sc b t
      → Ends cfg compress sc
          (sc.item_count b)
          (run_policies cfg compress sc cfg.oversize.policies b)
      → Ends cfg compress sc (sc.item_count b) (pack_oversize cfg compress sc b t)
  unfolding pack_oversize
  pack_oversize-Ends b t h k = elim (Bool-cases (ltb 0 t.terminal.count)) [
    | inl e ↦ rw e (terminal-Accounts cfg compress sc b t h (ltb→lt _ _ e))
    | inr e ↦ elim (Option-cases t.payload) [
      | inl f ↦ rw (e, f, pack_oversize) k
      | inr (p, f) ↦ rw (e, f, pack_oversize) (shipped-Accounts cfg compress sc b p 0 (h.1 p f))
    ]
  ]

  add_truncated-Ends :
      (n k : ℕ) (r : Option Packed)
      → Ends cfg compress sc n r
      → Ends cfg compress sc n (add_truncated k r)
  unfolding add_truncated
  add_truncated-Ends n k none h = h
  add_truncated-Ends n k (some r) h = record {
    batches = h.batches;
    records = h.records;
    conserved = h.conserved;
    coalesced = h.coalesced;
  }

  enough :
      (to_ℕ cfg.oversize.max_attempts < split_fuel cfg compress sc + 0)
      × (0 < split_fuel cfg compress sc)
  unfolding split_fuel
  enough = (omega arith, omega arith)

  module _ (laws : CountsItems cfg sc) where
    split_batch-Ends :
        (again : T → Option Packed) (b : T) (depth : ℕ)
        → (ltb_int depth cfg.oversize.max_attempts ≡ true
            → (x : T) → Ends cfg compress sc (sc.item_count x) (again x))
        → Ends cfg compress sc (sc.item_count b) (split_batch cfg compress sc again b depth)
    unfolding split_batch
    split_batch-Ends again b depth h = elim (Bool-cases (ltb_int depth cfg.oversize.max_attempts)) [
      | inr e ↦ rw e (drop_all-Accounts cfg compress sc b _)
      | inl e ↦ elim (Option-cases (sc.split_half b)) [
        | inl f ↦ rw (e, f, split_batch) (drop_all-Accounts cfg compress sc b _)
        | inr ((x, y), f) ↦
            rw (e, f, split_batch, ← laws.on_split b x y f)
              (join-Ends cfg compress sc (sc.item_count x) (sc.item_count y) (again x) (again y)
                (h e x) (h e y))
      ]
    ]

    pack_split-Ends :
        (fuel : ℕ) (b : T) (depth : ℕ)
        → to_ℕ cfg.oversize.max_attempts < fuel + depth
        → 0 < fuel
        → Ends cfg compress sc (sc.item_count b) (pack_split cfg compress sc fuel b depth)
    unfolding pack_split
    pack_split-Ends zero b depth h k = absurd (omega arith)
    pack_split-Ends (suc fuel) b depth h k =
        after_encode-Ends (λ x. pack_split cfg compress sc fuel x (depth + 1)) b depth
          (try_encode cfg compress sc b) (try_encode-Encodes cfg compress sc b)
          (λ _.
            split_batch-Ends (λ x. pack_split cfg compress sc fuel x (depth + 1)) b depth
              (λ more x.
                let below = ltb_int→lt depth cfg.oversize.max_attempts more in
                pack_split-Ends fuel x (depth + 1) (omega arith) (omega arith)))

    after_truncate-Ends :
        (rest : T → Option Packed) (b trimmed : T) (n : ℕ) (t : Attempt)
        → Encodes cfg compress sc trimmed t
        → sc.item_count trimmed ≡ sc.item_count b
        → ((x : T) → Ends cfg compress sc (sc.item_count x) (rest x))
        → Ends cfg compress sc (sc.item_count b) (after_truncate cfg compress sc rest b trimmed n t)
    unfolding after_truncate
    after_truncate-Ends rest b trimmed n t h same k = elim (Bool-cases (ltb 0 t.terminal.count)) [
      | inl e ↦ rw e (add_truncated-Ends (sc.item_count b) n (rest b) (k b))
      | inr e ↦ elim (Option-cases t.payload) [
        | inl f ↦
            rw (e, f, after_truncate, ← same)
              (add_truncated-Ends (sc.item_count trimmed) n (rest trimmed) (k trimmed))
        | inr (p, f) ↦
            rw (e, f, after_truncate, ← same)
              (shipped-Accounts cfg compress sc trimmed p n (h.1 p f))
      ]
    ]

    truncate_batch-Ends :
        (o : Option (T → ℤ → Option (T × ℕ))) (rest : T → Option Packed) (b : T)
        → sc.truncate_attributes ≡ o
        → ((x : T) → Ends cfg compress sc (sc.item_count x) (rest x))
        → Ends cfg compress sc (sc.item_count b) (truncate_batch cfg compress sc o rest b)
    unfolding truncate_batch
    truncate_batch-Ends none rest b e k = k b
    truncate_batch-Ends (some truncate) rest b e k =
        let ((trimmed, n), clamped, same) = laws.on_truncate truncate e b in
        elim (Bool-cases (n == 0)) [
          | inl z ↦ rw (clamped, z, truncate_batch) (k b)
          | inr z ↦
              rw (clamped, z, truncate_batch)
                (after_truncate-Ends rest b trimmed n (try_encode cfg compress sc trimmed)
                  (try_encode-Encodes cfg compress sc trimmed) same k)
        ]

    run_policies-Ends :
        (ps : List Str) (b : T)
        → Ends cfg compress sc (sc.item_count b) (run_policies cfg compress sc ps b)
    unfolding run_policies
    run_policies-Ends [] b = drop_all-Accounts cfg compress sc b _
    run_policies-Ends (p ∷ ps) b = elim (Bool-cases (str_eq p oversize_truncate_attrs)) [
      | inl e ↦ rw e (
          truncate_batch-Ends sc.truncate_attributes (run_policies cfg compress sc ps) b refl
            (λ x. run_policies-Ends ps x))
      | inr e ↦ elim (Bool-cases (str_eq p oversize_split_half)) [
        | inl f ↦ rw (e, f) (pack_split-Ends (split_fuel cfg compress sc) b 0 enough.0 enough.1)
        | inr f ↦ elim (Bool-cases (str_eq p oversize_reject)) [
          | inl g ↦ rw (e, f, g) (drop_all-Accounts cfg compress sc b _)
          | inr g ↦ rw (e, f, g) (run_policies-Ends ps b)
        ]
      ]
    ]

    -- Whatever the policies, the batch and the codec, packChain ends; each payload that it returns
    -- is a compressed batch that fits in a record with its key; the items of those batches and the
    -- dropped items add up to the items of the batch; and no two drops have the same reason.
    pub pack_chain-Ends :
        (b : T) → Ends cfg compress sc (sc.item_count b) (pack_chain cfg compress sc b)
    unfolding pack_chain
    pack_chain-Ends b =
        pack_oversize-Ends b (try_encode cfg compress sc b) (try_encode-Encodes cfg compress sc b)
          (run_policies-Ends cfg.oversize.policies b)
