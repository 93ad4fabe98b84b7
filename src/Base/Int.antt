-- ===== src/Base/Int.antt =====
-- Python's integers, where they may be negative, over the native numbers.
use Prim.Native.Nat.{ℕ, suc, ◌+◌, ◌-◌, ◌<◌, ◌≤◌}
use mathlib.Core.Path.{◌≡◌}
use mathlib.Core.Bool.{Bool, true, false}
use mathlib.Core.Option.{Option, none, some}
use native.Mathlib.Omega.{arith}
use spac.Base.Tests.{ltb, leb, if◌then◌else◌}

-- `negsuc n` is -(n + 1).
pub data ℤ : Type 0 where
  pos : ℕ → ℤ
  negsuc : ℕ → ℤ

-- The cell of a list of length `n` that the subscript names: a negative one counts from the end,
-- and `none` is IndexError.
abbrev pub py_index : ℕ → ℤ → Option ℕ
py_index n (pos i) = if ltb i n then some i else none
py_index n (negsuc i) = if ltb i n then some (n - suc i) else none

pub py_index-lt : (n : ℕ) (z : ℤ) {i : ℕ} → py_index n z ≡ some i → i < n
py_index-lt n (pos j) h = ground arith
py_index-lt n (negsuc j) h = ground arith

-- n <= z
abbrev pub leb_ℤ : ℕ → ℤ → Bool
leb_ℤ n (pos m) = leb n m
leb_ℤ n (negsuc m) = false

pub leb_ℤ-mono : (m n : ℕ) (z : ℤ) → m ≤ n → leb_ℤ n z ≡ true → leb_ℤ m z ≡ true
leb_ℤ-mono m n (pos k) h e = ground arith
leb_ℤ-mono m n (negsuc k) h e = cc

-- The parts of an integer, and a - b of natural numbers.
abbrev pub pos_part : ℤ → ℕ
pos_part (pos n) = n
pos_part (negsuc n) = 0

abbrev pub neg_part : ℤ → ℕ
neg_part (pos n) = 0
neg_part (negsuc n) = suc n

abbrev pub sub_ℕ : ℕ → ℕ → ℤ
sub_ℕ a b = if leb b a then pos (a - b) else negsuc (b - a - 1)

infixl 65 ◌+ℤ◌
abbrev pub ◌+ℤ◌ : ℤ → ℤ → ℤ
a +ℤ b = sub_ℕ (pos_part a + pos_part b) (neg_part a + neg_part b)
