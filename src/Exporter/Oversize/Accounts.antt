-- ===== src/Exporter/Oversize/Accounts.antt =====
-- exporter/awskinesisexporter/oversize.go: what it means that every item of a batch is accounted
-- for, and the ways in which one step of the packing accounts for them.
use opentelemetry_kinesis_st.Base.{
  ℕ, ◌+◌, ◌≤◌, ◌<◌, ◌≡◌, refl, ◌∙◌, List, [], ◌∷◌, ◌++◌, Option, none, some, Str, arith, Bool-cases,
  Option-cases, inl, inr, length, leb_int→le, subst, ℤ, to_ℕ,
}
use opentelemetry_kinesis_st.Exporter.Config.{Config, key_overhead}
use opentelemetry_kinesis_st.Exporter.Oversize.{
  total, add_reason, SignalCodec, Attempt, Packed, fits, try_encode, drop_all, join,
}
use opentelemetry_kinesis_st.Exporter.Oversize.Drops.{
  total-nil, total-add_reason, total-merge, IsCoalesced, add_reason-IsCoalesced, merge-IsCoalesced,
}

-- What a signal's adapter promises of item counts: a split loses none, and the clamp with the
-- configured limit does not panic and changes none.
pub record CountsItems {T : Type 0} (cfg : Config) (sc : SignalCodec T) : Type 0 where
  pub on_split :
      (b x y : T)
      → sc.split_half b ≡ some (x, y)
      → sc.item_count x + sc.item_count y ≡ sc.item_count b
  pub on_truncate :
      (truncate : T → ℤ → Option (T × ℕ))
      → sc.truncate_attributes ≡ some truncate
      → (b : T)
      → (r : T × ℕ) × (truncate b cfg.oversize.max_attribute_value_bytes ≡ some r)
        × (sc.item_count r.0 ≡ sc.item_count b)

abbrev Small : Config → List ℕ → Type 0
Small cfg p = length p + key_overhead cfg ≤ to_ℕ cfg.max_record_size

module _ {T : Type 0} (cfg : Config) (compress : List ℕ → Option (List ℕ))
    (sc : SignalCodec T) where
  -- The compressed marshaling of a batch, within the record limit.
  abbrev IsRecord : T → List ℕ → Type 0
  IsRecord b payload =
      (raw : List ℕ) × (sc.marshal b ≡ some raw)
      × (compress raw ≡ some payload)
      × (length payload + key_overhead cfg ≤ to_ℕ cfg.max_record_size)

  abbrev pub AreRecords : List T → List (List ℕ) → Type 0
  AreRecords [] [] = Unit
  AreRecords [] (p ∷ ps) = ⊥
  AreRecords (b ∷ bs) [] = ⊥
  AreRecords (b ∷ bs) (p ∷ ps) = IsRecord b p × AreRecords bs ps

  abbrev pub items : List T → ℕ
  items [] = 0
  items (b ∷ bs) = sc.item_count b + items bs

  -- The payloads are records of batches, whose items and the dropped items are those of `n`.
  pub record Accounts (n : ℕ) (r : Packed) : Type 0 where
    pub batches : List T
    pub records : AreRecords batches r.payloads
    pub conserved : items batches + total r.dropped ≡ n
    pub coalesced : IsCoalesced r.dropped

  -- The recursion ended, and accounts for every item.
  abbrev pub Ends : ℕ → Option Packed → Type 0
  Ends n none = ⊥
  Ends n (some r) = Accounts n r

  pub AreRecords-append :
      (cs bs : List T) (ps qs : List (List ℕ))
      → AreRecords cs ps
      → AreRecords bs qs
      → AreRecords (cs ++ bs) (ps ++ qs)
  AreRecords-append [] bs [] qs h k = k
  AreRecords-append [] bs (p ∷ ps) qs h k = absurd h
  AreRecords-append (c ∷ cs) bs [] qs h k = absurd h
  AreRecords-append (c ∷ cs) bs (p ∷ ps) qs h k = (h.0, AreRecords-append cs bs ps qs h.1 k)

  pub items-append : (cs bs : List T) → items (cs ++ bs) ≡ items cs + items bs
  items-append [] bs = omega arith
  items-append (c ∷ cs) bs = omega (arith, items-append cs bs)

  pub drop_all-Accounts :
      (b : T) (reason : Str) → Accounts (sc.item_count b) (drop_all cfg compress sc b reason)
  unfolding drop_all
  drop_all-Accounts b reason = record {
    batches = [];
    records = tt;
    conserved = omega (arith, total-add_reason [] (sc.item_count b) reason, total-nil);
    coalesced = add_reason-IsCoalesced [] (sc.item_count b) reason tt;
  }

  pub join-Ends :
      (m n : ℕ) (a b : Option Packed)
      → Ends m a
      → Ends n b
      → Ends (m + n) (join cfg compress sc a b)
  unfolding join
  join-Ends m n none b h k = h
  join-Ends m n (some a) none h k = k
  join-Ends m n (some a) (some b) h k = record {
    batches = h.batches ++ k.batches;
    records = AreRecords-append h.batches k.batches a.payloads b.payloads h.records k.records;
    conserved = omega (
      arith,
      items-append h.batches k.batches,
      total-merge a.dropped b.dropped,
      h.conserved,
      k.conserved,
    );
    coalesced = merge-IsCoalesced a.dropped b.dropped h.coalesced;
  }

  -- What tryEncode reports: a record that fits, a drop of every item, or neither.
  abbrev pub Encodes : T → Attempt → Type 0
  Encodes b t =
      (0 < t.terminal.count → t.terminal.count ≡ sc.item_count b)
      × ((p : List ℕ) → t.payload ≡ some p → IsRecord b p)

  pub try_encode-Encodes : (b : T) → Encodes b (try_encode cfg compress sc b)
  unfolding try_encode fits
  try_encode-Encodes b = elim (Option-cases (sc.marshal b)) [
    | inl e ↦ rw (e, try_encode) (λ h. refl, λ p f. absurd (cc))
    | inr (raw, e) ↦ elim (Option-cases (compress raw)) [
      | inl f ↦ rw (e, f, try_encode) (λ h. refl, λ p g. absurd (cc))
      | inr (q, f) ↦ elim (Bool-cases (fits cfg compress sc q)) [
        | inl g ↦
            let small = leb_int→le (length q + key_overhead cfg) cfg.max_record_size g in
            rw (e, f, g, try_encode)
              (
                λ h. absurd (omega arith),
                λ p k. let j : q ≡ p = cc in (raw, refl, f ∙ k, subst (Small cfg) j small),
              )
        | inr g ↦ rw (e, f, g, try_encode) (λ h. absurd (omega arith), λ p k. absurd (cc))
      ]
    ]
  ]

  -- A batch that is dropped whole, or shipped as one record.
  pub terminal-Accounts :
      (b : T) (t : Attempt)
      → Encodes b t
      → 0 < t.terminal.count
      → Accounts (sc.item_count b) (record {
        payloads = [];
        dropped = add_reason [] t.terminal.count t.terminal.reason;
        truncated = 0;
      })
  terminal-Accounts b t h some_items = record {
    batches = [];
    records = tt;
    conserved =
        omega (
          arith,
          total-add_reason [] t.terminal.count t.terminal.reason,
          total-nil,
          h.0 some_items,
        );
    coalesced = add_reason-IsCoalesced [] t.terminal.count t.terminal.reason tt;
  }

  pub shipped-Accounts :
      (b : T) (p : List ℕ) (n : ℕ)
      → IsRecord b p
      → Accounts (sc.item_count b) (record { payloads = p ∷ []; dropped = []; truncated = n })
  shipped-Accounts b p n h = record {
    batches = b ∷ [];
    records = (h, tt);
    conserved = omega (arith, total-nil);
    coalesced = tt;
  }
