-- ===== src/Exporter/Text/Points.antt =====
-- exporter/awskinesisexporter/signal.go: where the code points of a string begin, by utf8.RuneStart.
use opentelemetry_kinesis_st.Base.{
  ℕ, zero, suc, ◌+◌, ◌-◌, ◌/◌, ◌%◌, ◌≤◌, ◌<◌, ◌≡◌, refl, ap, sym, ◌∙◌, true, false, inl, inr, [],
  ◌∷◌, ◌++◌, some, Str, length, take, drop, All, arith, leb, ltb, Bool-cases, length-append, subst,
}
use opentelemetry_kinesis_st.Base.Utf8.{encode, IsScalar, IsUtf8, nothing, code_point}
use opentelemetry_kinesis_st.Exporter.Text.{byte_at, rune_start}

-- The bytes of a code point: a start byte and at most three bytes that continue it.
abbrev Shape : Str → Type 0
Shape t =
    (b : ℕ) × (cs : Str) × (t ≡ b ∷ cs)
    × (rune_start b ≡ true)
    × All (λ c. rune_start c ≡ false) cs
    × (length cs ≤ 3)

encode-Shape : (n : ℕ) → IsScalar n → Shape (encode n)
unfolding encode rune_start
encode-Shape n h = elim (Bool-cases (ltb n 0x80)) [
  | inl e ↦ rw e (n, [], refl, ground arith, tt, omega arith)
  | inr e ↦ elim (Bool-cases (ltb n 0x800)) [
    | inl f ↦
        rw (e, f)
          (0xC0 + n / 64, (0x80 + n % 64) ∷ [], refl, ground arith, (ground arith, tt), omega arith)
    | inr f ↦ elim (Bool-cases (ltb n 0x10000)) [
      | inl g ↦
          rw (e, f, g)
            (
              0xE0 + n / 4096,
              (0x80 + n / 64 % 64) ∷ (0x80 + n % 64) ∷ [],
              refl,
              ground arith,
              (ground arith, (ground arith, tt)),
              omega arith,
            )
      | inr g ↦
          rw (e, f, g)
            (
              0xF0 + n / 262144,
              (0x80 + n / 4096 % 64) ∷ (0x80 + n / 64 % 64) ∷ (0x80 + n % 64) ∷ [],
              refl,
              ground arith,
              (ground arith, (ground arith, (ground arith, tt))),
              omega arith,
            )
    ]
  ]
]

-- A string of whole code points, each with its shape.
pub data Points : Str → Type 0 where
  no_point : Points []
  point :
      (n b : ℕ) (cs rest : Str)
      → IsScalar n
      → encode n ≡ b ∷ cs
      → rune_start b ≡ true
      → All (λ c. rune_start c ≡ false) cs
      → length cs ≤ 3
      → Points rest
      → Points (b ∷ cs ++ rest)

pub to_points : (t : Str) → IsUtf8 t → Points t
to_points t nothing = no_point
to_points t (code_point n s sc e u) =
    let (b, cs, q, r, h, k) = encode-Shape n sc in
    subst Points (sym (e ∙ ap (λ x. x ++ s) q)) (point n b cs s sc q r h k (to_points s u))

pub from_points : (t : Str) → Points t → IsUtf8 t
from_points t no_point = nothing
from_points t (point n b cs rest sc q r h k p) =
    code_point n rest sc (ap (λ x. x ++ rest) (sym q)) (from_points rest p)

-- A start byte stands at the place.
abbrev pub Starts : Str → ℕ → Type 0
Starts s n = (b : ℕ) × (byte_at s n ≡ some b) × (rune_start b ≡ true)

byte_at-append : (cs rest : Str) (i : ℕ) → byte_at (cs ++ rest) (length cs + i) ≡ byte_at rest i
unfolding byte_at
byte_at-append [] rest i = let z : 0 + i ≡ i = omega arith in rw z refl
byte_at-append (c ∷ cs) rest i =
    let z : suc (length cs) + i ≡ suc (length cs + i) = omega arith in
    rw z (byte_at-append cs rest i)

-- Past bytes that continue a code point, a start byte lies in the rest.
after_point :
    (cs rest : Str) (m : ℕ)
    → All (λ c. rune_start c ≡ false) cs
    → Starts (cs ++ rest) m
    → (j : ℕ) × Starts rest j
      × (take m (cs ++ rest) ≡ cs ++ take j rest)
      × (drop m (cs ++ rest) ≡ drop j rest)
unfolding byte_at
after_point [] rest m h st = (m, st, refl, refl)
after_point (c ∷ cs) rest zero h (b, e, r) = absurd (ground arith)
after_point (c ∷ cs) rest (suc m) h st =
    let (j, s, e, f) = after_point cs rest m h.1 st in (j, s, ap (λ t. c ∷ t) e, f)

-- Cut at a start byte, a string of whole code points is two of them.
pub cut-Points : (s : Str) (n : ℕ) → Points s → Starts s n → Points (take n s) × Points (drop n s)
unfolding byte_at
cut-Points [] n no_point (b, e, r) = absurd (cc)
cut-Points s zero (point c b cs rest sc q r h k p) st = (no_point, point c b cs rest sc q r h k p)
cut-Points s (suc m) (point c b cs rest sc q r h k p) st =
    let (j, u, e, f) = after_point cs rest m h st in
    let (front, back) = cut-Points rest j p u in
    (
      subst (λ x. Points (b ∷ x)) (sym e) (point c b cs (take j rest) sc q r h k front),
      subst Points (sym f) back,
    )

-- Where the rest of a string is of whole code points, it begins with a start byte.
pub drop-Starts : (s : Str) (m : ℕ) → m < length s → Points (drop m s) → Starts s m
unfolding byte_at
drop-Starts [] m h p = absurd (omega arith)
drop-Starts s zero h (point c b cs rest sc q r k l p) = (b, refl, r)
drop-Starts (b ∷ s) (suc m) h p = drop-Starts s m (omega arith) p

-- Among four bytes in a row there is a start byte.
pub start_near :
    (s : Str) (n : ℕ) → Points s → n < length s → (d : ℕ) × (d ≤ 3) × (d ≤ n) × Starts s (n - d)
unfolding byte_at
start_near s n no_point h = absurd (omega arith)
start_near s n (point c b cs rest sc q r h k t) l = elim (Bool-cases (leb n (length cs))) [
  | inl e ↦
      let z : n - n ≡ 0 = omega arith in
      (n, ground arith, omega arith, subst (Starts s) (sym z) (b, refl, r))
  | inr e ↦
      let j = n - suc (length cs) in
      let past : length cs < n = ground arith in
      let inside : j < length rest = omega (arith, length-append cs rest, past) in
      let (d, near, below, (b', f, g)) = start_near rest j t inside in
      let z : n - d ≡ suc (length cs + (j - d)) = omega (arith, past, below) in
      (
        d,
        near,
        omega (arith, below),
        subst (Starts s) (sym z) (b', byte_at-append cs rest (j - d) ∙ f, g),
      )
]
