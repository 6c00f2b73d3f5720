-- ===== src/Exporter/Text.antt =====
-- exporter/awskinesisexporter/signal.go: clamping string attributes at the end of a code point. An
-- attribute map is a list of keys and values; of a value that is no string the text that AsString
-- gives is kept. The limit is from 0 up.
pub mod Points
pub mod Cut
pub mod Clamped
pub mod Total
mod Samples
use opentelemetry_kinesis_st.Base.{
  ℕ, zero, suc, ◌+◌, Bool, not, ◌&&◌, List, [], ◌∷◌, Option, none, some, Str, ltb, leb,
  if◌then◌else◌, length, take,
}

pub data AttrValue : Type 0 where
  str_value : Str → AttrValue
  other_value : Str → AttrValue

-- s[n], or `none` for the panic out of range.
unfoldable pub byte_at : Str → ℕ → Option ℕ
byte_at [] n = none
byte_at (b ∷ bs) zero = some b
byte_at (b ∷ bs) (suc n) = byte_at bs n

-- utf8.RuneStart: not of the form 10xxxxxx.
unfoldable pub rune_start : ℕ → Bool
rune_start b = not (leb 128 b && ltb b 192)

-- The loop of utf8SafeCut, with `left` more bytes to look at.
unfoldable pub scan_back : ℕ → Str → ℕ → ℕ → Option ℕ
scan_back zero s max_bytes n = some max_bytes
scan_back (suc left) s max_bytes zero = some max_bytes
scan_back (suc left) s max_bytes (suc n) =
    let rest = scan_back left s max_bytes n in
    elim (byte_at s (suc n)) [ none ↦ none | some b ↦ if rune_start b then some (suc n) else rest ]

unfoldable pub utf8_safe_cut : Str → ℕ → Option ℕ
utf8_safe_cut s max_bytes = scan_back 4 s max_bytes max_bytes

-- The value, and how many strings were clamped.
unfoldable pub clamp_value : ℕ → AttrValue → Option (AttrValue × ℕ)
clamp_value max_bytes (other_value t) = some (other_value t, 0)
clamp_value max_bytes (str_value s) =
    if leb (length s) max_bytes
    then some (str_value s, 0)
    else elim (utf8_safe_cut s max_bytes) [ none ↦ none | some n ↦ some (str_value (take n s), 1) ]

-- What one clamped entry adds to the rest of the map.
unfoldable pub add_entry :
    Str
    → Option (AttrValue × ℕ)
    → Option (List (Str × AttrValue) × ℕ)
    → Option (List (Str × AttrValue) × ℕ)
add_entry k none rest = none
add_entry k (some (v, n)) none = none
add_entry k (some (v, n)) (some (m, changed)) = some ((k, v) ∷ m, n + changed)

unfoldable pub clamp_string_attrs : List (Str × AttrValue) → ℕ → Option (List (Str × AttrValue) × ℕ)
unfolding add_entry
clamp_string_attrs [] max_bytes = some ([], 0)
clamp_string_attrs ((k, v) ∷ m) max_bytes =
    add_entry k (clamp_value max_bytes v) (clamp_string_attrs m max_bytes)
