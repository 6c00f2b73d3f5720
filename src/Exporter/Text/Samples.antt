-- ===== src/Exporter/Text/Samples.antt =====
-- A string of two code points of four bytes each, cut between them, and inside the first where the
-- limit is below four bytes.
use opentelemetry_kinesis_st.Base.{
  ℕ, ◌+◌, ◌≤◌, ◌≡◌, refl, inr, List, [], ◌∷◌, some, Str, bytes, take, drop, arith,
}
use opentelemetry_kinesis_st.Base.Utf8.{encode, IsUtf8, nothing, code_point}
use opentelemetry_kinesis_st.Exporter.Text.{
  AttrValue, str_value, other_value, rune_start, byte_at, scan_back, utf8_safe_cut,
  clamp_string_attrs,
}
use opentelemetry_kinesis_st.Exporter.Text.Cut.{utf8_safe_cut-IsUtf8}
use opentelemetry_kinesis_st.Exporter.Text.Clamped.{MapClamped, clamp_string_attrs-MapClamped}

abbrev faces : Str
faces = 240 ∷ 159 ∷ 152 ∷ 128 ∷ 240 ∷ 159 ∷ 152 ∷ 129 ∷ []

abbrev second : Str
second = 240 ∷ 159 ∷ 152 ∷ 129 ∷ []

second-IsUtf8 : IsUtf8 second
unfolding encode
second-IsUtf8 = code_point 0x1F601 [] (inr (omega arith, omega arith)) refl nothing

faces-IsUtf8 : IsUtf8 faces
unfolding encode
faces-IsUtf8 = code_point 0x1F600 second (inr (omega arith, omega arith)) refl second-IsUtf8

utf8_safe_cut-IsUtf8_example :
    (n : ℕ) × (utf8_safe_cut faces 7 ≡ some n)
    × (n ≤ 7)
    × (7 ≤ n + 3)
    × IsUtf8 (take n faces)
    × IsUtf8 (drop n faces)
    × (4 ≤ n)
utf8_safe_cut-IsUtf8_example =
    utf8_safe_cut-IsUtf8 faces 7 4 faces-IsUtf8 (omega arith) (omega arith) (omega arith)
      second-IsUtf8

cut_between : utf8_safe_cut faces 7 ≡ some 4
unfolding utf8_safe_cut scan_back byte_at rune_start
cut_between = refl

cut_inside : utf8_safe_cut faces 3 ≡ some 3
unfolding utf8_safe_cut scan_back byte_at rune_start
cut_inside = refl

abbrev attrs : List (Str × AttrValue)
attrs = (bytes "face", str_value faces) ∷ (bytes "n", other_value (bytes "7")) ∷ []

clamp_string_attrs-MapClamped_example : MapClamped 7 attrs (clamp_string_attrs attrs 7)
clamp_string_attrs-MapClamped_example =
    clamp_string_attrs-MapClamped attrs 7 (omega arith) (faces-IsUtf8, (tt, tt))
