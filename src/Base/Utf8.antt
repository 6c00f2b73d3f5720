-- ===== src/Base/Utf8.antt =====
-- UTF-8, as Go's package unicode/utf8 has it: the encoding of code points, and the strings of whole
-- ones.
use opentelemetry_kinesis_st.Base.{
  ℕ, ◌+◌, ◌/◌, ◌%◌, ◌<◌, ◌≡◌, ◌⊎◌, [], ◌∷◌, ◌++◌, Str, ltb, if◌then◌else◌,
}

-- The bytes of a code point.
unfoldable pub encode : ℕ → Str
encode n =
    if ltb n 0x80
    then n ∷ []
    else if ltb n 0x800
    then (0xC0 + n / 64) ∷ (0x80 + n % 64) ∷ []
    else if ltb n 0x10000
    then (0xE0 + n / 4096) ∷ (0x80 + n / 64 % 64) ∷ (0x80 + n % 64) ∷ []
    else (0xF0 + n / 262144) ∷ (0x80 + n / 4096 % 64) ∷ (0x80 + n / 64 % 64) ∷ (0x80 + n % 64) ∷ []

-- A code point that is no surrogate.
abbrev pub IsScalar : ℕ → Type 0
IsScalar n = (n < 0xD800) ⊎ ((0xDFFF < n) × (n < 0x110000))

-- A sequence of encoded code points.
pub data IsUtf8 : Str → Type 0 where
  nothing : IsUtf8 []
  code_point : {t : Str} (n : ℕ) (s : Str) → IsScalar n → t ≡ encode n ++ s → IsUtf8 s → IsUtf8 t
