-- ===== src/Exporter/Text/Total.antt =====
-- exporter/awskinesisexporter/signal.go: clampStringAttrs indexes no string out of range.
use opentelemetry_kinesis_st.Base.{
  ℕ, zero, suc, ◌+◌, ◌<◌, ◌≡◌, refl, inl, inr, List, [], ◌∷◌, some, Str, length, take, leb, arith,
  Bool-cases,
}
use opentelemetry_kinesis_st.Exporter.Text.{
  AttrValue, str_value, other_value, byte_at, rune_start, scan_back, utf8_safe_cut, clamp_value,
  add_entry, clamp_string_attrs,
}

byte_at_in_range : (s : Str) (n : ℕ) → n < length s → (b : ℕ) × (byte_at s n ≡ some b)
unfolding byte_at
byte_at_in_range [] n h = absurd (omega arith)
byte_at_in_range (b ∷ s) zero h = (b, refl)
byte_at_in_range (b ∷ s) (suc n) h = byte_at_in_range s n (omega arith)

scan_back_in_range :
    (left : ℕ) (s : Str) (max_bytes n : ℕ)
    → n < length s
    → (r : ℕ) × (scan_back left s max_bytes n ≡ some r)
unfolding scan_back
scan_back_in_range zero s max_bytes n h = (max_bytes, refl)
scan_back_in_range (suc left) s max_bytes zero h = (max_bytes, refl)
scan_back_in_range (suc left) s max_bytes (suc n) h =
    let (b, e) = byte_at_in_range s (suc n) h in
    let (r, q) = scan_back_in_range left s max_bytes n (omega arith) in
    elim (Bool-cases (rune_start b)) [
      | inl c ↦ (suc n, rw (e, c, scan_back))
      | inr c ↦ (r, rw (e, c, scan_back) q)
    ]

clamp_value_total :
    (max_bytes : ℕ) (v : AttrValue) → (r : AttrValue × ℕ) × (clamp_value max_bytes v ≡ some r)
unfolding clamp_value utf8_safe_cut
clamp_value_total max_bytes (other_value t) = ((other_value t, 0), refl)
clamp_value_total max_bytes (str_value s) = elim (Bool-cases (leb (length s) max_bytes)) [
  | inl e ↦ ((str_value s, 0), rw e)
  | inr e ↦
      let (n, q) = scan_back_in_range 4 s max_bytes max_bytes (ground arith) in
      ((str_value (take n s), 1), rw (e, q, clamp_value))
]

-- Whatever the limit from 0 up and the strings, clampStringAttrs does not panic.
pub clamp_string_attrs_total :
    (m : List (Str × AttrValue)) (max_bytes : ℕ)
    → (r : List (Str × AttrValue) × ℕ) × (clamp_string_attrs m max_bytes ≡ some r)
unfolding clamp_string_attrs add_entry
clamp_string_attrs_total [] max_bytes = (([], 0), refl)
clamp_string_attrs_total ((k, v) ∷ m) max_bytes =
    let (r, e) = clamp_value_total max_bytes v in
    let (t, q) = clamp_string_attrs_total m max_bytes in
    (((k, r.0) ∷ t.0, r.1 + t.1), rw (e, q, add_entry))
