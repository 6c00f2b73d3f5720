-- ===== src/Receiver/Worker/Text.antt =====
-- The standard library's functions on strings that receiver/awskinesisreceiver/workerid.go uses, on
-- bytes.
use opentelemetry_kinesis_st.Base.{
  ℕ, zero, suc, ◌==◌, Bool, true, false, ◌&&◌, ◌||◌, List, [], ◌∷◌, Option, none, some, Str, ltb,
  leb, if◌then◌else◌, ◌≡◌, refl,
}
use mathlib.Core.List.{reverse}

-- strings.LastIndex(s, "/") + 1, which is 0 if there is none.
unfoldable pub after_last_slash : Str → ℕ
after_last_slash [] = 0
after_last_slash (c ∷ s) =
    let n = after_last_slash s in if ltb 0 n then suc n else if c == b'/' then 1 else 0

unfoldable pub between : ℕ → ℕ → ℕ → Bool
between lo hi b = leb lo b && leb b hi

-- unicode.IsSpace of a code point of one, two or three bytes; there is none of four.
space1 : ℕ → Bool
unfolding between
space1 a = between 9 13 a || a == 32

space2 : ℕ → ℕ → Bool
space2 a b = a == 0xC2 && (b == 0x85 || b == 0xA0)

space3 : ℕ → ℕ → ℕ → Bool
unfolding between
space3 a b c =
    (a == 0xE1 && b == 0x9A && c == 0x80)
    || (a == 0xE2 && b == 0x80 && (between 0x80 0x8A c || c == 0xA8 || c == 0xA9 || c == 0xAF))
    || (a == 0xE2 && b == 0x81 && c == 0x9F)
    || (a == 0xE3 && b == 0x80 && c == 0x80)

-- The bytes of the space at the start of a string.
unfoldable pub space_at_start : Str → ℕ
unfolding space1 space2 space3
space_at_start [] = 0
space_at_start (a ∷ []) = if space1 a then 1 else 0
space_at_start (a ∷ b ∷ []) = if space1 a then 1 else if space2 a b then 2 else 0
space_at_start (a ∷ b ∷ c ∷ s) =
    if space1 a then 1 else if space2 a b then 2 else if space3 a b c then 3 else 0

-- The same at the end, on the bytes backwards.
unfoldable pub space_at_end : Str → ℕ
unfolding space1 space2 space3
space_at_end [] = 0
space_at_end (a ∷ []) = if space1 a then 1 else 0
space_at_end (b ∷ a ∷ []) = if space1 b then 1 else if space2 a b then 2 else 0
space_at_end (c ∷ b ∷ a ∷ s) =
    if space1 c then 1 else if space2 b c then 2 else if space3 a b c then 3 else 0

-- A string after its first `n` bytes and the spaces that follow them.
unfoldable pub trim_from : (Str → ℕ) → ℕ → Str → Str
trim_from space n [] = []
trim_from space (suc n) (b ∷ s) = trim_from space n s
trim_from space zero (b ∷ s) = elim (space (b ∷ s)) [ zero ↦ b ∷ s | suc n ↦ trim_from space n s ]

-- strings.TrimSpace
unfoldable pub trim_space : Str → Str
unfolding trim_from space_at_start space_at_end
trim_space s = reverse (trim_from space_at_end 0 (reverse (trim_from space_at_start 0 s)))

abbrev pub any_more : ℕ × ℕ
any_more = (0x80, 0xBF)

-- The ranges of the bytes that follow the first byte of a code point of four bytes, of three or
-- four, and of any.
unfoldable pub following_of_four : ℕ → Option (List (ℕ × ℕ))
unfolding between
following_of_four b =
    if b == 0xF0
    then some ((0x90, 0xBF) ∷ any_more ∷ any_more ∷ [])
    else if between 0xF1 0xF3 b
    then some (any_more ∷ any_more ∷ any_more ∷ [])
    else if b == 0xF4
    then some ((0x80, 0x8F) ∷ any_more ∷ any_more ∷ [])
    else none

unfoldable pub following_of_three : ℕ → Option (List (ℕ × ℕ))
unfolding following_of_four
following_of_three b =
    if b == 0xE0
    then some ((0xA0, 0xBF) ∷ any_more ∷ [])
    else if b == 0xED
    then some ((0x80, 0x9F) ∷ any_more ∷ [])
    else if between 0xE1 0xEF b
    then some (any_more ∷ any_more ∷ [])
    else following_of_four b

unfoldable pub following : ℕ → Option (List (ℕ × ℕ))
unfolding following_of_three
following b =
    if ltb b 0x80
    then some []
    else if between 0xC2 0xDF b
    then some (any_more ∷ [])
    else following_of_three b

-- Whether a string is the rest of a code point, whose bytes' ranges are given, and whole ones.
unfoldable pub valid_from : List (ℕ × ℕ) → Str → Bool
unfolding following between
valid_from [] [] = true
valid_from (r ∷ rs) [] = false
valid_from ((lo, hi) ∷ rs) (b ∷ s) = if between lo hi b then valid_from rs s else false
valid_from [] (b ∷ s) = elim (following b) [ none ↦ false | some rs ↦ valid_from rs s ]

-- utf8.ValidString
unfoldable pub valid_string : Str → Bool
unfolding valid_from
valid_string s = valid_from [] s

trim_space_test :
    trim_space (9 ∷ b'a' ∷ 32 ∷ b'b' ∷ 0xE2 ∷ 0x80 ∷ 0xA8 ∷ 10 ∷ []) ≡ b'a' ∷ 32 ∷ b'b' ∷ []
unfolding trim_space
trim_space_test = refl
