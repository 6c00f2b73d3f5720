-- ===== src/Exporter/Text/Clamped.antt =====
-- exporter/awskinesisexporter/signal.go: what clampStringAttrs leaves of an attribute map.
use opentelemetry_kinesis_st.Base.{
  ℕ, zero, suc, ◌+◌, ◌≤◌, ◌<◌, ◌≡◌, ◌⊎◌, refl, sym, inl, inr, List, [], ◌∷◌, ◌++◌, Option, none,
  some, Str, length, take, drop, take-append-drop, All, arith, leb, leb→le, Bool-cases,
  if◌then◌else◌,
}
use opentelemetry_kinesis_st.Base.Utf8.{IsUtf8}
use opentelemetry_kinesis_st.Exporter.Text.{
  AttrValue, str_value, other_value, clamp_value, add_entry, clamp_string_attrs,
}
use opentelemetry_kinesis_st.Exporter.Text.Cut.{utf8_safe_cut-IsUtf8}

-- A string of UTF-8, or a value that is no string.
abbrev pub IsTextValue : AttrValue → Type 0
IsTextValue (str_value s) = IsUtf8 s
IsTextValue (other_value _) = Unit

-- The string t is s where s is within the limit; else it is UTF-8 that s begins with, within the
-- limit and at most three bytes short of it.
abbrev pub IsCutOf : ℕ → Str → Str → Type 0
IsCutOf max_bytes s t =
    ((length s ≤ max_bytes) × (t ≡ s))
    ⊎ ((max_bytes < length s)
        × (length t ≤ max_bytes)
        × (max_bytes ≤ length t + 3)
        × IsUtf8 t
        × (rest : Str) × (s ≡ t ++ rest)
        × IsUtf8 rest)

-- What becomes of a value: a string is cut, any other value stays.
abbrev pub IsCutValue : ℕ → AttrValue → AttrValue → Type 0
IsCutValue max_bytes (str_value s) (str_value t) = IsCutOf max_bytes s t
IsCutValue max_bytes (str_value s) (other_value t) = ⊥
IsCutValue max_bytes (other_value s) (str_value t) = ⊥
IsCutValue max_bytes (other_value s) (other_value t) = t ≡ s

-- Entry by entry, in order: the key stays, and the value is what becomes of it.
abbrev pub AreCut : ℕ → List (Str × AttrValue) → List (Str × AttrValue) → Type 0
AreCut max_bytes [] [] = Unit
AreCut max_bytes [] (e ∷ m') = ⊥
AreCut max_bytes (e ∷ m) [] = ⊥
AreCut max_bytes ((k, v) ∷ m) ((k', v') ∷ m') =
    (k' ≡ k) × IsCutValue max_bytes v v' × AreCut max_bytes m m'

-- 1 for a string that is too long.
abbrev too_long : ℕ → AttrValue → ℕ
too_long max_bytes (str_value s) = if leb (length s) max_bytes then 0 else 1
too_long max_bytes (other_value _) = 0

-- The strings of a map that are too long.
abbrev pub long_strings : ℕ → List (Str × AttrValue) → ℕ
long_strings max_bytes [] = 0
long_strings max_bytes ((k, v) ∷ m) = too_long max_bytes v + long_strings max_bytes m

length-take : (n : ℕ) (s : Str) → n ≤ length s → length (take n s) ≡ n
length-take zero s h = refl
length-take (suc n) [] h = omega arith
length-take (suc n) (b ∷ s) h = omega (arith, length-take n s (omega arith))

abbrev ValueClamped : ℕ → AttrValue → ℕ → Option (AttrValue × ℕ) → Type 0
ValueClamped max_bytes v n none = ⊥
ValueClamped max_bytes v n (some (v', changed)) = IsCutValue max_bytes v v' × (changed ≡ n)

clamp_value-ValueClamped :
    (max_bytes : ℕ) (v : AttrValue)
    → 4 ≤ max_bytes
    → IsTextValue v
    → ValueClamped max_bytes v (too_long max_bytes v) (clamp_value max_bytes v)
unfolding clamp_value
clamp_value-ValueClamped max_bytes (other_value _) h t = (refl, refl)
clamp_value-ValueClamped max_bytes (str_value s) h t =
    elim (Bool-cases (leb (length s) max_bytes)) [
      | inl e ↦ rw e (inl (leb→le _ _ e, refl), refl)
      | inr e ↦
          let long : max_bytes < length s = ground arith in
          let (n, q, low, high, front, back, _) =
            utf8_safe_cut-IsUtf8 s max_bytes 0 t long h (omega arith) t in
          let size = length-take n s (omega (arith, low, long)) in
          rw (e, q, clamp_value)
            (
              inr (
                long,
                omega (arith, size, low),
                omega (arith, size, high),
                front,
                drop n s,
                sym (take-append-drop n s),
                back,
              ),
              refl,
            )
    ]

-- No panic; the entries are cut, and the count is that of the strings that were too long.
abbrev pub MapClamped : ℕ → List (Str × AttrValue) → Option (List (Str × AttrValue) × ℕ) → Type 0
MapClamped max_bytes m none = ⊥
MapClamped max_bytes m (some (m', changed)) =
    AreCut max_bytes m m' × (changed ≡ long_strings max_bytes m)

add_entry-MapClamped :
    (max_bytes : ℕ) (k : Str) (v : AttrValue) (m : List (Str × AttrValue))
    (c : Option (AttrValue × ℕ)) (r : Option (List (Str × AttrValue) × ℕ))
    → ValueClamped max_bytes v (too_long max_bytes v) c
    → MapClamped max_bytes m r
    → MapClamped max_bytes ((k, v) ∷ m) (add_entry k c r)
unfolding add_entry
add_entry-MapClamped max_bytes k v m none r h g = absurd h
add_entry-MapClamped max_bytes k v m (some (u, n)) none h g = absurd g
add_entry-MapClamped max_bytes k v m (some (u, n)) (some (m', changed)) h g =
    ((refl, h.0, g.0), omega (arith, h.1, g.1))

-- With a limit of at least four bytes, on a map whose strings are UTF-8: clampStringAttrs never
-- panics; it keeps the keys in order, the values that are no strings and the strings within the
-- limit; of a longer string it leaves UTF-8 that the string begins with, within the limit and at
-- most three bytes short of it; and it counts the strings that were too long.
pub clamp_string_attrs-MapClamped :
    (m : List (Str × AttrValue)) (max_bytes : ℕ)
    → 4 ≤ max_bytes
    → All (λ e. IsTextValue e.1) m
    → MapClamped max_bytes m (clamp_string_attrs m max_bytes)
unfolding clamp_string_attrs
clamp_string_attrs-MapClamped [] max_bytes h t = (tt, refl)
clamp_string_attrs-MapClamped ((k, v) ∷ m) max_bytes h t =
    add_entry-MapClamped max_bytes k v m (clamp_value max_bytes v) (clamp_string_attrs m max_bytes)
      (clamp_value-ValueClamped max_bytes v h t.0) (clamp_string_attrs-MapClamped m max_bytes h t.1)
