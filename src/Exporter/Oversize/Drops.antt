-- ===== src/Exporter/Oversize/Drops.antt =====
-- exporter/awskinesisexporter/oversize.go: the list of drops, coalesced by reason.
use opentelemetry_kinesis_st.Base.{
  ℕ, ◌+◌, ◌<◌, ◌≡◌, ◌≢◌, refl, List, [], ◌∷◌, ◌++◌, Str, str_eq, str_eq_iff, arith, All, Bool-cases,
  inl, inr,
}
use opentelemetry_kinesis_st.Exporter.Oversize.{DropOutcome, total, bump_reason, add_reason, merge}

total-bump_reason :
    (count : ℕ) (reason : Str) (d : List DropOutcome)
    → total (bump_reason count reason d) ≡ total d + count
unfolding total bump_reason
total-bump_reason count reason [] = omega arith
total-bump_reason count reason (x ∷ xs) = ground (arith, total-bump_reason count reason xs)

pub total-add_reason :
    (d : List DropOutcome) (count : ℕ) (reason : Str)
    → total (add_reason d count reason) ≡ total d + count
unfolding add_reason
total-add_reason d count reason = ground (arith, total-bump_reason count reason d)

pub total-merge : (d o : List DropOutcome) → total (merge d o) ≡ total d + total o
unfolding merge total
total-merge d [] = omega arith
total-merge d (x ∷ o) =
    omega
      (arith, total-merge (add_reason d x.count x.reason) o, total-add_reason d x.count x.reason)

pub total-nil : total [] ≡ 0
unfolding total
total-nil = refl

-- Each entry drops something, and no two entries have the same reason.
abbrev pub IsCoalesced : List DropOutcome → Type 0
IsCoalesced [] = Unit
IsCoalesced (x ∷ xs) = (0 < x.count) × All (λ y. y.reason ≢ x.reason) xs × IsCoalesced xs

All-bump_reason :
    (r : Str) (count : ℕ) (reason : Str) (d : List DropOutcome)
    → reason ≢ r
    → All (λ y. y.reason ≢ r) d
    → All (λ y. y.reason ≢ r) (bump_reason count reason d)
unfolding bump_reason
All-bump_reason r count reason [] ne h = (ne, tt)
All-bump_reason r count reason (x ∷ xs) ne h = elim (Bool-cases (str_eq x.reason reason)) [
  | inl e ↦ rw e (h.0, h.1)
  | inr e ↦ rw e (h.0, All-bump_reason r count reason xs ne h.1)
]

bump_reason-IsCoalesced :
    (count : ℕ) (reason : Str) (d : List DropOutcome)
    → 0 < count
    → IsCoalesced d
    → IsCoalesced (bump_reason count reason d)
unfolding bump_reason
bump_reason-IsCoalesced count reason [] pos h = (pos, tt, tt)
bump_reason-IsCoalesced count reason (x ∷ xs) pos h = elim (Bool-cases (str_eq x.reason reason)) [
  | inl e ↦ rw e (omega arith, h.1, h.2)
  | inr e ↦ rw e (
    h.0,
    All-bump_reason x.reason count reason xs (λ k. ground (arith, str_eq_iff x.reason reason)) h.1,
    bump_reason-IsCoalesced count reason xs pos h.2,
  )
]

pub add_reason-IsCoalesced :
    (d : List DropOutcome) (count : ℕ) (reason : Str)
    → IsCoalesced d
    → IsCoalesced (add_reason d count reason)
unfolding add_reason
add_reason-IsCoalesced d count reason h = ground (arith, bump_reason-IsCoalesced count reason d)

pub merge-IsCoalesced : (d o : List DropOutcome) → IsCoalesced d → IsCoalesced (merge d o)
unfolding merge
merge-IsCoalesced d [] h = h
merge-IsCoalesced d (x ∷ o) h =
    merge-IsCoalesced (add_reason d x.count x.reason) o
      (add_reason-IsCoalesced d x.count x.reason h)

pub total-append : (a b : List DropOutcome) → total (a ++ b) ≡ total a + total b
unfolding total
total-append [] b = omega arith
total-append (x ∷ a) b = omega (arith, total-append a b)
