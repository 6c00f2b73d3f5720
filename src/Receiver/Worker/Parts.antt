-- ===== src/Receiver/Worker/Parts.antt =====
-- strings.LastIndex and strings.TrimSpace, as receiver/awskinesisreceiver/workerid.go uses them: the
-- part of a text that is left.
use opentelemetry_kinesis_st.Base.{
  ℕ, zero, suc, ◌≡◌, ◌≢◌, refl, sym, ap, subst, ◌∙◌, ◌⊎◌, inl, inr, [], ◌∷◌, ◌++◌, Str, drop, ltb,
  ◌==◌, Bool-cases, arith,
}
use mathlib.Core.List.{reverse, reverse-append, reverse-reverse}
use opentelemetry_kinesis_st.Receiver.Worker.Text.{
  after_last_slash, trim_space, trim_from, space_at_start, space_at_end,
}

abbrev pub NoSlash : Str → Type 0
NoSlash [] = Unit
NoSlash (c ∷ s) = (c ≢ b'/') × NoSlash s

-- The text after the last slash, or all of a text that has none.
pub data IsLastSegment (id text : Str) : Type 0 where
  after_slash : (before : Str) → text ≡ before ++ b'/' ∷ id → NoSlash id → IsLastSegment id text
  whole : text ≡ id → NoSlash id → IsLastSegment id text

after_last_slash_zero : (s : Str) → after_last_slash s ≡ 0 → NoSlash s
unfolding after_last_slash
after_last_slash_zero [] h = tt
after_last_slash_zero (c ∷ s) h = (ground arith, after_last_slash_zero s (ground arith))

NoSlash-zero : (s : Str) → NoSlash s → after_last_slash s ≡ 0
unfolding after_last_slash
NoSlash-zero [] h = refl
NoSlash-zero (c ∷ s) h = let ih = NoSlash-zero s h.1 in ground (arith, h.0)

pub last_segment : (s : Str) → IsLastSegment (drop (after_last_slash s) s) s
unfolding after_last_slash
last_segment [] = whole refl tt
last_segment (c ∷ s) =
    let n = after_last_slash s in
    elim (Bool-cases (ltb 0 n)) [
      | inl e ↦ elim (last_segment s) [
        | after_slash before q ns ↦ rw e (after_slash (c ∷ before) (ap (λ t. c ∷ t) q) ns)
        | whole q ns ↦
            let z : n ≡ 0 = NoSlash-zero s (subst NoSlash (sym q) ns) in absurd (ground arith)
      ]
      | inr e ↦
          let z : n ≡ 0 = ground arith in
          elim (Bool-cases (c == b'/')) [
            | inl f ↦
                let slash : c ≡ b'/' = ground arith in
                rw (e, f) (after_slash [] (rw slash) (after_last_slash_zero s z))
            | inr f ↦ rw (e, f) (whole refl (ground arith, after_last_slash_zero s z))
          ]
    ]

ℕ-cases : (n : ℕ) → (n ≡ 0) ⊎ ((m : ℕ) × (n ≡ suc m))
ℕ-cases zero = inl refl
ℕ-cases (suc m) = inr (m, refl)

-- A part of the text: white space neither starts it, with what follows it, nor ends it.
pub record IsTrimmed (id raw : Str) : Type 0 where
  pub before : Str
  pub after : Str
  pub parts : raw ≡ before ++ (id ++ after)
  pub starts : space_at_start (id ++ after) ≡ 0
  pub ends : space_at_end (reverse id) ≡ 0

trim_from-suffix : (space : Str → ℕ) (n : ℕ) (s : Str) → (a : Str) × (s ≡ a ++ trim_from space n s)
unfolding trim_from
trim_from-suffix space n [] = ([], refl)
trim_from-suffix space (suc n) (b ∷ s) =
    let r = trim_from-suffix space n s in (b ∷ r.0, ap (λ t. b ∷ t) r.1)
trim_from-suffix space zero (b ∷ s) = elim (ℕ-cases (space (b ∷ s))) [
  | inl e ↦ ([], rw (e, trim_from))
  | inr (m, e) ↦
      let r = trim_from-suffix space m s in (b ∷ r.0, rw (e, trim_from) (ap (λ t. b ∷ t) r.1))
]

trim_from_starts :
    (space : Str → ℕ) (n : ℕ) (s : Str) → space [] ≡ 0 → space (trim_from space n s) ≡ 0
unfolding trim_from
trim_from_starts space n [] h = h
trim_from_starts space (suc n) (b ∷ s) h = trim_from_starts space n s h
trim_from_starts space zero (b ∷ s) h = elim (ℕ-cases (space (b ∷ s))) [
  | inl e ↦ rw (e, trim_from) e
  | inr (m, e) ↦ rw (e, trim_from) (trim_from_starts space m s h)
]

pub trim_space-IsTrimmed : (raw : Str) → IsTrimmed (trim_space raw) raw
unfolding trim_space space_at_start space_at_end
trim_space-IsTrimmed raw =
    let mid = trim_from space_at_start 0 raw in
    let back = trim_from space_at_end 0 (reverse mid) in
    let l = trim_from-suffix space_at_start 0 raw in
    let r = trim_from-suffix space_at_end 0 (reverse mid) in
    let m : mid ≡ reverse back ++ reverse r.0 =
      sym (reverse-reverse mid) ∙ ap reverse r.1 ∙ reverse-append r.0 back in
    record {
      before = l.0;
      after = reverse r.0;
      parts = l.1 ∙ ap (λ t. l.0 ++ t) m;
      starts = ap space_at_start (sym m) ∙ trim_from_starts space_at_start 0 raw refl;
      ends =
          ap space_at_end (reverse-reverse back)
          ∙ trim_from_starts space_at_end 0 (reverse mid) refl;
    }
