-- ===== src/Base/Keyed.antt =====
-- Lists of keys and values in the order in which the keys were first seen: a Go map together with
-- the slice of its keys.
use Prim.Native.Nat.{ℕ, ◌+◌}
use mathlib.Core.Path.{◌≡◌, sym, subst}
use mathlib.Core.Logic.{◌≢◌, inl, inr}
use mathlib.Core.Bool.{Bool, true, false}
use mathlib.Core.List.{List, [], ◌∷◌}
use native.Mathlib.Omega.{arith}
use opentelemetry_kinesis_st.Base.Tests.{if◌then◌else◌, Bool-cases}
use opentelemetry_kinesis_st.Base.Lists.{All}

-- No key stands twice.
abbrev pub AreDistinct {ℓ κ} : {K : Type ℓ} {D : Type κ} → List (K × D) → Type ℓ
AreDistinct [] = Unit
AreDistinct ((k, d) ∷ m) = All (λ e. e.0 ≢ k) m × AreDistinct m

module _ {K D : Type 0} (eq : K → K → Bool) where
  -- Updates the value of the key, which is `fresh` if the key is new.
  unfoldable pub find_or_create : K → D → (D → D) → List (K × D) → List (K × D)
  find_or_create k fresh upd [] = (k, upd fresh) ∷ []
  find_or_create k fresh upd ((j, d) ∷ m) =
      if eq j k then (j, upd d) ∷ m else (j, d) ∷ find_or_create k fresh upd m

-- The sum of the entries' weights.
unfoldable pub weigh : {K D : Type 0} → (K → D → ℕ) → List (K × D) → ℕ
weigh w [] = 0
weigh w ((k, d) ∷ m) = w k d + weigh w m

module _ {K D : Type 0} (eq : K → K → Bool) (eq_sound : (a b : K) → eq a b ≡ true → a ≡ b) where
  -- An update that adds to the weight of its entry adds as much to the weight of the whole.
  pub weigh-find_or_create :
      (w : K → D → ℕ) (P : K → D → Type 0) (k : K) (fresh : D) (upd : D → D) (c : ℕ)
      → w k fresh ≡ 0
      → P k fresh
      → ((d : D) → P k d → w k (upd d) ≡ w k d + c)
      → (m : List (K × D)) → All (λ e. P e.0 e.1) m
      → weigh w (find_or_create eq k fresh upd m) ≡ weigh w m + c
  unfolding weigh find_or_create
  weigh-find_or_create w P k fresh upd c z pf h [] a = omega (arith, h fresh pf)
  weigh-find_or_create w P k fresh upd c z pf h ((j, d) ∷ m) a = elim (Bool-cases (eq j k)) [
    | inl e ↦
        let same : j ≡ k = eq_sound j k e in
        rw (e, find_or_create)
          (omega (arith, subst (λ i. P i d → w i (upd d) ≡ w i d + c) (sym same) (h d) a.0))
    | inr e ↦
        rw (e, find_or_create) (omega (arith, weigh-find_or_create w P k fresh upd c z pf h m a.1))
  ]

  -- What holds of each entry and is kept by the update holds after it.
  pub All-find_or_create :
      (P : K → D → Type 0) (k : K) (fresh : D) (upd : D → D)
      → P k fresh
      → ((d : D) → P k d → P k (upd d))
      → (m : List (K × D)) → All (λ e. P e.0 e.1) m
      → All (λ e. P e.0 e.1) (find_or_create eq k fresh upd m)
  unfolding find_or_create
  All-find_or_create P k fresh upd pf h [] a = (h fresh pf, tt)
  All-find_or_create P k fresh upd pf h ((j, d) ∷ m) a = elim (Bool-cases (eq j k)) [
    | inl e ↦
        let same : j ≡ k = eq_sound j k e in
        rw (e, find_or_create) (subst (λ i. P i d → P i (upd d)) (sym same) (h d) a.0, a.1)
    | inr e ↦ rw (e, find_or_create) (a.0, All-find_or_create P k fresh upd pf h m a.1)
  ]

  -- Other keys than the updated one are as they were.
  other_keys :
      (i k : K) (fresh : D) (upd : D → D) (m : List (K × D))
      → k ≢ i
      → All (λ e. e.0 ≢ i) m
      → All (λ e. e.0 ≢ i) (find_or_create eq k fresh upd m)
  unfolding find_or_create
  other_keys i k fresh upd [] ne a = (ne, tt)
  other_keys i k fresh upd ((j, d) ∷ m) ne a = elim (Bool-cases (eq j k)) [
    | inl e ↦ rw (e, find_or_create) a
    | inr e ↦ rw (e, find_or_create) (a.0, other_keys i k fresh upd m ne a.1)
  ]

  pub AreDistinct-find_or_create :
      ((a : K) → eq a a ≡ true)
      → (k : K) (fresh : D) (upd : D → D) (m : List (K × D)) → AreDistinct m
      → AreDistinct (find_or_create eq k fresh upd m)
  unfolding find_or_create
  AreDistinct-find_or_create eq_refl k fresh upd [] a = (tt, tt)
  AreDistinct-find_or_create eq_refl k fresh upd ((j, d) ∷ m) a = elim (Bool-cases (eq j k)) [
    | inl e ↦ rw (e, find_or_create) a
    | inr e ↦
        let ne : k ≢ j = λ same.
          let f : eq k k ≡ false = subst (λ i. eq i k ≡ false) (sym same) e in
          let g : eq k k ≡ true = eq_refl k in cc in
        rw (e, find_or_create)
          (other_keys j k fresh upd m ne a.0, AreDistinct-find_or_create eq_refl k fresh upd m a.1)
  ]
