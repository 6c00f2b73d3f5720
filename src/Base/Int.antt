-- ===== src/Base/Int.antt =====
-- Go's `int` where the program compares a size with a configured value that may be negative.
use Prim.Native.Nat.{ℕ, ◌≤◌, ◌<◌}
use mathlib.Core.Path.{◌≡◌}
use mathlib.Core.Bool.{Bool, true, false}
use native.Mathlib.Omega.{arith}
use opentelemetry_kinesis_st.Base.Tests.{ltb, leb}

-- `negsuc n` is -(n + 1).
pub data ℤ : Type 0 where
  pos : ℕ → ℤ
  negsuc : ℕ → ℤ

-- n < z
abbrev pub ltb_int : ℕ → ℤ → Bool
ltb_int n (pos m) = ltb n m
ltb_int n (negsuc m) = false

-- n <= z
abbrev pub leb_int : ℕ → ℤ → Bool
leb_int n (pos m) = leb n m
leb_int n (negsuc m) = false

abbrev pub to_ℕ : ℤ → ℕ
to_ℕ (pos m) = m
to_ℕ (negsuc m) = 0

pub leb_int→le : (n : ℕ) (z : ℤ) → leb_int n z ≡ true → n ≤ to_ℕ z
leb_int→le n (pos m) h = ground arith
leb_int→le n (negsuc m) h = ground arith

-- z <= n
abbrev pub int_leb : ℤ → ℕ → Bool
int_leb (pos m) n = leb m n
int_leb (negsuc m) n = true

-- a <= b
abbrev pub int_le_int : ℤ → ℤ → Bool
int_le_int (pos a) b = leb_int a b
int_le_int (negsuc a) (pos b) = true
int_le_int (negsuc a) (negsuc b) = leb b a

pub ltb_int→lt : (n : ℕ) (z : ℤ) → ltb_int n z ≡ true → n < to_ℕ z
ltb_int→lt n (pos m) h = ground arith
ltb_int→lt n (negsuc m) h = ground arith
