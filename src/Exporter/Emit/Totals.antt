-- ===== src/Exporter/Emit/Totals.antt =====
-- exporter/awskinesisexporter/record.go, emit: every item of the groups is shipped or reported.
use opentelemetry_kinesis_st.Base.{
  ℕ, zero, suc, ◌+◌, ◌/◌, ◌≡◌, refl, ap, ◌∙◌, List, [], ◌∷◌, ◌++◌, Option, none, some, Str, length,
  All, arith, Option-cases, inl, inr, length-append,
}
use opentelemetry_kinesis_st.Exporter.Config.{Config, key_overhead}
use opentelemetry_kinesis_st.Exporter.Oversize.{SignalCodec, Packed, pack_chain, total}
use opentelemetry_kinesis_st.Exporter.Oversize.Drops.{total-nil, total-append}
use opentelemetry_kinesis_st.Exporter.Oversize.Accounts.{
  CountsItems, AreRecords, items, Accounts, AreRecords-append, items-append,
}
use opentelemetry_kinesis_st.Exporter.Oversize.Conservation.{pack_chain-Ends}
use opentelemetry_kinesis_st.Exporter.Record.{Entry}
use opentelemetry_kinesis_st.Exporter.Emit.{
  TaggedBatch, Emitted, KeySource, hex_pad, partition_key, key_payloads, add_group, emit_groups,
}

length-hex_pad : (width n : ℕ) → length (hex_pad width n) ≡ width
unfolding hex_pad
length-hex_pad zero n = refl
length-hex_pad (suc width) n =
    length-append (hex_pad width (n / 16)) _ ∙ ground (arith, length-hex_pad width (n / 16))

unfoldable pub payloads : List Entry → List (List ℕ)
payloads [] = []
payloads (e ∷ es) = e.payload ∷ payloads es

payloads-append : (a b : List Entry) → payloads (a ++ b) ≡ payloads a ++ payloads b
unfolding payloads
payloads-append [] b = refl
payloads-append (x ∷ a) b = ap (λ t. x.payload ∷ t) (payloads-append a b)

-- What uuid.NewString promises: 36 characters.
pub record HasUuids {W : Type 0} (keys : KeySource W) : Type 0 where
  pub uuid_length : (w : W) → length (keys.new_uuid w).0 ≡ 36

module _ {W : Type 0} (cfg : Config) (keys : KeySource W) (uuids : HasUuids keys) where
  length-partition_key :
      (tag_value : Str) (w : W) → length (partition_key cfg keys tag_value w).0 ≡ key_overhead cfg
  unfolding partition_key key_overhead
  length-partition_key tag_value w =
      ground (arith, length-hex_pad 16 (keys.sum64 tag_value), uuids.uuid_length w)

  payloads-key_payloads :
      (tag_value : Str) (ps : List (List ℕ)) (w : W)
      → payloads (key_payloads cfg keys tag_value ps w).0 ≡ ps
  unfolding payloads key_payloads
  payloads-key_payloads tag_value [] w = refl
  payloads-key_payloads tag_value (p ∷ ps) w =
      ap (λ t. p ∷ t) (payloads-key_payloads tag_value ps (partition_key cfg keys tag_value w).1)

  -- Every entry has a key of the length that the packing allowed for.
  abbrev IsKeyed : List Entry → Type 0
  IsKeyed es = All (λ e. length e.partition_key ≡ key_overhead cfg) es

  key_payloads-IsKeyed :
      (tag_value : Str) (ps : List (List ℕ)) (w : W)
      → IsKeyed (key_payloads cfg keys tag_value ps w).0
  unfolding key_payloads
  key_payloads-IsKeyed tag_value [] w = tt
  key_payloads-IsKeyed tag_value (p ∷ ps) w = (
    length-partition_key tag_value w,
    key_payloads-IsKeyed tag_value ps (partition_key cfg keys tag_value w).1,
  )

module _ {T W : Type 0} (cfg : Config) (keys : KeySource W) (compress : List ℕ → Option (List ℕ))
    (sc : SignalCodec T) where
  abbrev pub group_items : List (TaggedBatch T) → ℕ
  group_items [] = 0
  group_items (g ∷ gs) = sc.item_count g.batch + group_items gs

  -- The entries carry the records of batches, whose items and the reported drops are those of `n`,
  -- and each has a key of the length that the packing allowed for.
  pub record Ships (n : ℕ) (e : Emitted) : Type 0 where
    pub batches : List T
    pub records : AreRecords cfg compress sc batches (payloads e.entries)
    pub conserved : items cfg compress sc batches + total e.reported ≡ n
    pub keyed : All (λ (x : Entry). length x.partition_key ≡ key_overhead cfg) e.entries

  abbrev pub Emits : ℕ → Option Emitted → Type 0
  Emits n none = ⊥
  Emits n (some e) = Ships n e

  All-append : (P : Entry → Type 0) (xs ys : List Entry) → All P xs → All P ys → All P (xs ++ ys)
  All-append P [] ys h k = k
  All-append P (x ∷ xs) ys h k = (h.0, All-append P xs ys h.1 k)

  module _ (uuids : HasUuids keys) where
    add_group-Emits :
        (n m : ℕ) (r : Packed) (tag_value : Str) (again : W → Option Emitted × W) (w : W)
        → Accounts cfg compress sc n r
        → ((u : W) → Emits m (again u).0)
        → Emits (n + m) (add_group cfg keys compress sc r tag_value again w).0
    unfolding add_group
    add_group-Emits n m r tag_value again w h k =
        let es = (key_payloads cfg keys tag_value r.payloads w).0 in
        let u = (key_payloads cfg keys tag_value r.payloads w).1 in
        go es (again u).0 (payloads-key_payloads cfg keys uuids tag_value r.payloads w)
          (key_payloads-IsKeyed cfg keys uuids tag_value r.payloads w) (k u)
      where
        go :
            (es : List Entry) (o : Option Emitted)
            → payloads es ≡ r.payloads
            → All (λ (x : Entry). length x.partition_key ≡ key_overhead cfg) es
            → Emits m o
            → Emits (n + m) (elim o [
              | none ↦ none
              | some e ↦
                  some (record { entries = es ++ e.entries; reported = r.dropped ++ e.reported })
            ])
        go es none p q s = s
        go es (some e) p q s = record {
          batches = h.batches ++ s.batches;
          records =
              rw (payloads-append es e.entries, p)
                (AreRecords-append cfg compress sc h.batches s.batches r.payloads
                  (payloads e.entries) h.records s.records);
          conserved = omega (
            arith,
            items-append cfg compress sc h.batches s.batches,
            total-append r.dropped e.reported,
            h.conserved,
            s.conserved,
          );
          keyed = All-append _ es e.entries q s.keyed;
        }

    -- For a signal codec whose split and clamp keep item counts, and UUIDs of 36 characters: the
    -- packing of all groups ends; each entry carries the compressed marshaling of a batch that fits
    -- in a record, under a key of the length that the packing allowed for; and the items of those
    -- batches and the reported drops add up to the items of the groups.
    pub emit_groups-Emits :
        (laws : CountsItems cfg sc) (gs : List (TaggedBatch T)) (w : W)
        → Emits (group_items gs) (emit_groups cfg keys compress sc gs w).0
    unfolding emit_groups payloads
    emit_groups-Emits laws [] w = record {
      batches = [];
      records = tt;
      conserved = omega (arith, total-nil);
      keyed = tt;
    }
    emit_groups-Emits laws (g ∷ gs) w = elim (Option-cases (pack_chain cfg compress sc g.batch)) [
      | inl e ↦ absurd (rw e at (pack_chain-Ends cfg compress sc laws g.batch))
      | inr (r, e) ↦
          rw (e, emit_groups)
            (add_group-Emits (sc.item_count g.batch) (group_items gs) r g.key
              (emit_groups cfg keys compress sc gs) w
              (rw e at (pack_chain-Ends cfg compress sc laws g.batch))
              (λ u. emit_groups-Emits laws gs u))
    ]
