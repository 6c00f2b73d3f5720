-- ===== src/Receiver/Worker/Utf8.antt =====
-- utf8.ValidString, as receiver/awskinesisreceiver/workerid.go uses it, against the encoding of code
-- points.
use opentelemetry_kinesis_st.Base.{
  ℕ, ◌+◌, ◌-◌, ◌*◌, ◌≤◌, ◌<◌, ◌≡◌, inl, inr, Bool, true, false, List, [], ◌∷◌, Option, none, some,
  Str, ltb, ◌==◌, if◌then◌else◌, refl, Bool-cases, Option-cases, arith,
}
use opentelemetry_kinesis_st.Base.Utf8.{encode, IsUtf8, nothing, code_point}
use opentelemetry_kinesis_st.Receiver.Worker.Text.{
  valid_string, valid_from, following, following_of_three, following_of_four, between, any_more,
}

abbrev Tail : ℕ → Type 0
Tail c = (0x80 ≤ c) × (c ≤ 0xBF)

one : (b : ℕ) (s : Str) → b < 0x80 → IsUtf8 s → IsUtf8 (b ∷ s)
unfolding encode
one b s h u = code_point b s (inl (omega arith)) (ground arith) u

two : (b c : ℕ) (s : Str) → 0xC2 ≤ b → b ≤ 0xDF → Tail c → IsUtf8 s → IsUtf8 (b ∷ c ∷ s)
unfolding encode
two b c s h k t u =
    let n : ℕ = (b - 0xC0) * 64 + (c - 0x80) in code_point n s (inl (omega arith)) (ground arith) u

three :
    (b c d : ℕ) (s : Str)
    → 0xE0 ≤ b
    → b ≤ 0xEF
    → Tail c
    → Tail d
    → (b ≡ 0xE0 → 0xA0 ≤ c)
    → (b ≡ 0xED → c ≤ 0x9F)
    → IsUtf8 s
    → IsUtf8 (b ∷ c ∷ d ∷ s)
unfolding encode
three b c d s h k t v lo hi u =
    let n : ℕ = (b - 0xE0) * 4096 + (c - 0x80) * 64 + (d - 0x80) in
    code_point n s (ground arith) (ground arith) u

four :
    (b c d e : ℕ) (s : Str)
    → 0xF0 ≤ b
    → b ≤ 0xF4
    → Tail c
    → Tail d
    → Tail e
    → (b ≡ 0xF0 → 0x90 ≤ c)
    → (b ≡ 0xF4 → c ≤ 0x8F)
    → IsUtf8 s
    → IsUtf8 (b ∷ c ∷ d ∷ e ∷ s)
unfolding encode
four b c d e s h k t v w lo hi u =
    let n : ℕ = (b - 0xF0) * 262144 + (c - 0x80) * 4096 + (d - 0x80) * 64 + (e - 0x80) in
    code_point n s (ground arith) (ground arith) u

-- A string is the rest of a code point, in the ranges given, and whole ones.
abbrev Rest : List (ℕ × ℕ) → Str → Type 0
Rest [] s = IsUtf8 s
Rest (r ∷ rs) [] = ⊥
Rest (r ∷ rs) (b ∷ s) = (r.0 ≤ b) × (b ≤ r.1) × Rest rs s

abbrev Closes : ℕ → Str → Option (List (ℕ × ℕ)) → Type 0
Closes b s none = Unit
Closes b s (some rs) = Rest rs s → IsUtf8 (b ∷ s)

close_two : (b : ℕ) (s : Str) → 0xC2 ≤ b → b ≤ 0xDF → Closes b s (some (any_more ∷ []))
close_two b [] h k r = absurd r
close_two b (c ∷ s) h k r = two b c s h k (r.0, r.1) r.2

close_three :
    (b lo hi : ℕ) (s : Str)
    → 0xE0 ≤ b
    → b ≤ 0xEF
    → 0x80 ≤ lo
    → hi ≤ 0xBF
    → (b ≡ 0xE0 → 0xA0 ≤ lo)
    → (b ≡ 0xED → hi ≤ 0x9F)
    → Closes b s (some ((lo, hi) ∷ any_more ∷ []))
close_three b lo hi [] h k p q x y r = absurd r
close_three b lo hi (c ∷ []) h k p q x y r = absurd r.2
close_three b lo hi (c ∷ d ∷ s) h k p q x y r =
    three b c d s h k (omega arith) (omega arith) (λ e. ground (arith, x e))
      (λ e. ground (arith, y e)) r.2.2

close_four :
    (b lo hi : ℕ) (s : Str)
    → 0xF0 ≤ b
    → b ≤ 0xF4
    → 0x80 ≤ lo
    → hi ≤ 0xBF
    → (b ≡ 0xF0 → 0x90 ≤ lo)
    → (b ≡ 0xF4 → hi ≤ 0x8F)
    → Closes b s (some ((lo, hi) ∷ any_more ∷ any_more ∷ []))
close_four b lo hi [] h k p q x y r = absurd r
close_four b lo hi (c ∷ []) h k p q x y r = absurd r.2
close_four b lo hi (c ∷ d ∷ []) h k p q x y r = absurd r.2.2
close_four b lo hi (c ∷ d ∷ e ∷ s) h k p q x y r =
    four b c d e s h k (omega arith) (omega arith) (omega arith) (λ z. ground (arith, x z))
      (λ z. ground (arith, y z)) r.2.2.2

if-Closes :
    (b : ℕ) (s : Str) (t : Bool) (x y : Option (List (ℕ × ℕ)))
    → (t ≡ true → Closes b s x)
    → (t ≡ false → Closes b s y)
    → Closes b s (if t then x else y)
if-Closes b s true x y f g = f refl
if-Closes b s false x y f g = g refl

following_of_four-Closes : (b : ℕ) (s : Str) → Closes b s (following_of_four b)
unfolding following_of_four between
following_of_four-Closes b s =
    if-Closes b s (b == 0xF0) _ _
      (λ h.
        close_four b 0x90 0xBF s (ground arith) (ground arith) (omega arith) (omega arith)
          (λ e. omega arith) (λ e. ground arith))
      λ h1.
        if-Closes b s (between 0xF1 0xF3 b) _ _
          (λ h.
            close_four b 0x80 0xBF s (ground arith) (ground arith) (omega arith) (omega arith)
              (λ e. ground arith) (λ e. ground arith))
          λ h2.
            if-Closes b s (b == 0xF4) _ none
              (λ h.
                close_four b 0x80 0x8F s (ground arith) (ground arith) (omega arith) (omega arith)
                  (λ e. ground arith) (λ e. omega arith))
              (λ h3. tt)

following_of_three-Closes : (b : ℕ) (s : Str) → Closes b s (following_of_three b)
unfolding following_of_three between
following_of_three-Closes b s =
    if-Closes b s (b == 0xE0) _ _
      (λ h.
        close_three b 0xA0 0xBF s (ground arith) (ground arith) (omega arith) (omega arith)
          (λ e. omega arith) (λ e. ground arith))
      λ h1.
        if-Closes b s (b == 0xED) _ _
          (λ h.
            close_three b 0x80 0x9F s (ground arith) (ground arith) (omega arith) (omega arith)
              (λ e. ground arith) (λ e. omega arith))
          λ h2.
            if-Closes b s (between 0xE1 0xEF b) _ _
              (λ h.
                close_three b 0x80 0xBF s (ground arith) (ground arith) (omega arith) (omega arith)
                  (λ e. ground arith) (λ e. ground arith))
              (λ h3. following_of_four-Closes b s)

following-Closes : (b : ℕ) (s : Str) → Closes b s (following b)
unfolding following between
following-Closes b s =
    if-Closes b s (ltb b 0x80) _ _ (λ h r. one b s (ground arith) r)
      λ h1.
        if-Closes b s (between 0xC2 0xDF b) _ _ (λ h. close_two b s (ground arith) (ground arith))
          (λ h2. following_of_three-Closes b s)

valid_from-Rest : (rs : List (ℕ × ℕ)) (s : Str) → valid_from rs s ≡ true → Rest rs s
unfolding valid_from between
valid_from-Rest [] [] h = nothing
valid_from-Rest (r ∷ rs) [] h = cc
valid_from-Rest ((lo, hi) ∷ rs) (b ∷ s) h = elim (Bool-cases (between lo hi b)) [
  | inl e ↦ (ground arith, ground arith, valid_from-Rest rs s (rw e at h))
  | inr e ↦ absurd (cc (rw e at h))
]
valid_from-Rest [] (b ∷ s) h = elim (Option-cases (following b)) [
  | inl e ↦ absurd (cc (rw (e, valid_from) at h))
  | inr (rs, e) ↦
      let c : Closes b s (some rs) = rw e at (following-Closes b s) in
      c (valid_from-Rest rs s (rw (e, valid_from) at h))
]

-- A string that utf8.ValidString accepts is a sequence of encoded code points.
pub valid_string-IsUtf8 : (s : Str) → valid_string s ≡ true → IsUtf8 s
unfolding valid_string
valid_string-IsUtf8 s h = valid_from-Rest [] s h
