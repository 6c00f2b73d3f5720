-- ===== src/Base/GoMap.antt =====
-- Go's `map[string]V`. The order in which `range` visits a map is not specified; `entries` is one
-- such order, and no theorem depends on which.
use mathlib.Core.Path.{◌≡◌, refl}
use mathlib.Core.List.{List, [], ◌∷◌}
use mathlib.Core.Option.{Option, none, some}
use native.Mathlib.Omega.{arith}
use opentelemetry_kinesis_st.Base.Tests.{if◌then◌else◌}
use opentelemetry_kinesis_st.Base.Strings.{Str, str_eq, str_eq_iff}

abbrev pub GoMap {ℓ} : Type ℓ → Type ℓ
GoMap V = List (Str × V)

module _ {ℓ} {V : Type ℓ} where
  -- v, ok := m[k]
  unfoldable pub get : GoMap V → Str → Option V
  get [] k = none
  get ((j, v) ∷ m) k = if str_eq j k then some v else get m k

  -- m[k], with the zero value of V for a missing key
  unfoldable pub get_or : GoMap V → Str → V → V
  unfolding get
  get_or m k d = elim (get m k) [ none ↦ d | some v ↦ v ]

  -- delete(m, k)
  unfoldable pub delete : GoMap V → Str → GoMap V
  delete [] k = []
  delete ((j, v) ∷ m) k = if str_eq j k then delete m k else (j, v) ∷ delete m k

  -- m[k] = v
  unfoldable pub put : GoMap V → Str → V → GoMap V
  unfolding delete
  put m k v = (k, v) ∷ delete m k

  unfoldable pub keys : GoMap V → List Str
  keys [] = []
  keys ((k, v) ∷ m) = k ∷ keys m

  unfoldable pub values : GoMap V → List V
  values [] = []
  values ((k, v) ∷ m) = v ∷ values m

  pub get-delete :
      (m : GoMap V) (k j : Str) → get (delete m k) j ≡ (if str_eq k j then none else get m j)
  unfolding get delete
  get-delete [] k j = ground arith
  get-delete ((i, v) ∷ m) k j =
      ground (arith, get-delete m k j, str_eq_iff i k, str_eq_iff i j, str_eq_iff k j)

  pub get-put :
      (m : GoMap V) (k j : Str) (v : V)
      → get (put m k v) j ≡ (if str_eq k j then some v else get m j)
  unfolding put get
  get-put m k j v = ground (arith, get-delete m k j)

  pub get_or-put :
      (m : GoMap V) (k j : Str) (v d : V)
      → get_or (put m k v) j d ≡ (if str_eq k j then v else get_or m j d)
  unfolding get_or
  get_or-put m k j v d = ground (arith, get-put m k j v)

  pub get_or-delete :
      (m : GoMap V) (k j : Str) (d : V)
      → get_or (delete m k) j d ≡ (if str_eq k j then d else get_or m j d)
  unfolding get_or
  get_or-delete m k j d = ground (arith, get-delete m k j)

  pub get_or-nil : (k : Str) (d : V) → get_or [] k d ≡ d
  unfolding get_or
  get_or-nil k d = refl
