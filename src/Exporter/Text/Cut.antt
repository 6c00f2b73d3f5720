-- ===== src/Exporter/Text/Cut.antt =====
-- exporter/awskinesisexporter/signal.go: utf8SafeCut cuts a string between code points.
use opentelemetry_kinesis_st.Base.{
  ℕ, zero, suc, ◌+◌, ◌-◌, ◌≤◌, ◌<◌, ◌≡◌, refl, false, inl, inr, [], ◌∷◌, some, Str, length, take,
  drop, arith, leb, leb→le, Bool-cases, subst,
}
use opentelemetry_kinesis_st.Base.Utf8.{IsUtf8}
use opentelemetry_kinesis_st.Exporter.Text.Points.{
  Starts, to_points, from_points, cut-Points, drop-Starts, start_near,
}
use opentelemetry_kinesis_st.Exporter.Text.{byte_at, rune_start, scan_back, utf8_safe_cut}

byte_at_inside : (s : Str) (n : ℕ) → n < length s → (b : ℕ) × (byte_at s n ≡ some b)
unfolding byte_at
byte_at_inside [] n h = absurd (omega arith)
byte_at_inside (b ∷ s) zero h = (b, refl)
byte_at_inside (b ∷ s) (suc n) h = byte_at_inside s n (omega arith)

-- The loop finds the last start byte, if one lies among the bytes it looks at.
scan_finds :
    (left : ℕ) (s : Str) (max n d m : ℕ)
    → n < length s
    → d < left
    → d < n
    → Starts s (n - d)
    → m ≤ n
    → Starts s m
    → (r : ℕ) × (scan_back left s max n ≡ some r) × (r ≤ n) × (n ≤ r + d) × Starts s r × (m ≤ r)
unfolding scan_back
scan_finds zero s max n d m l h k st a sm = absurd (omega arith)
scan_finds (suc left) s max zero d m l h k st a sm = absurd (omega arith)
scan_finds (suc left) s max (suc n) zero m l h k st a sm =
    let z : suc n - 0 ≡ suc n = omega arith in
    let (b, e, g) = subst (Starts s) z st in
    (suc n, rw (e, g, scan_back) refl, omega arith, omega arith, (b, e, g), a)
scan_finds (suc left) s max (suc n) (suc d) m l h k st a sm =
    let (b, e) = byte_at_inside s (suc n) l in
    elim (Bool-cases (rune_start b)) [
      | inl f ↦ (suc n, rw (e, f, scan_back) refl, omega arith, omega arith, (b, e, f), a)
      | inr f ↦
          let z : suc n - suc d ≡ n - d = omega arith in
          let (r, q, below, near, found, last) =
            scan_finds left s max n d m (omega arith) (omega arith) (omega arith)
              (subst (Starts s) z st) (skipped s n m b e f a sm) sm in
          (r, rw (e, f, scan_back) q, omega (arith, below), omega (arith, near), found, last)
    ]
  where
    skipped :
        (s : Str) (n m b : ℕ)
        → byte_at s (suc n) ≡ some b
        → rune_start b ≡ false
        → m ≤ suc n
        → Starts s m
        → m ≤ n
    skipped s n m b e f a (c, g, r) = elim (Bool-cases (leb m n)) [
      | inl h ↦ leb→le m n h
      | inr h ↦
          let z : m ≡ suc n = ground arith in
          let w : byte_at s (suc n) ≡ some c = subst (λ x. byte_at s x ≡ some c) z g in absurd (cc)
    ]

-- For a limit of at least four bytes and a longer string of UTF-8, utf8SafeCut stays in range and
-- returns a place at most three bytes below the limit at which the string is cut into two strings of
-- UTF-8; and no place up to the limit after which the string is UTF-8 lies behind it.
pub utf8_safe_cut-IsUtf8 :
    (s : Str) (max_bytes m : ℕ)
    → IsUtf8 s
    → max_bytes < length s
    → 4 ≤ max_bytes
    → m ≤ max_bytes
    → IsUtf8 (drop m s)
    → (n : ℕ) × (utf8_safe_cut s max_bytes ≡ some n)
      × (n ≤ max_bytes)
      × (max_bytes ≤ n + 3)
      × IsUtf8 (take n s)
      × IsUtf8 (drop n s)
      × (m ≤ n)
unfolding utf8_safe_cut
utf8_safe_cut-IsUtf8 s max_bytes m t l h a u =
    let p = to_points s t in
    let (d, near, below, st) = start_near s max_bytes p l in
    let sm = drop-Starts s m (omega arith) (to_points (drop m s) u) in
    let (n, e, low, high, found, last) =
      scan_finds 4 s max_bytes max_bytes d m l (omega (arith, near)) (omega (arith, near)) st a
        sm in
    let (front, back) = cut-Points s n p found in
    (
      n,
      e,
      low,
      omega (arith, high, near),
      from_points (take n s) front,
      from_points (drop n s) back,
      last,
    )
