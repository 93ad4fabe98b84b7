-- ===== src/Base/Bits.antt =====
-- The native `bit_or` of a number with all its ones above a digit and one with all below.
use Prim.Native.Nat.{
  ℕ, zero, suc, ◌+◌, ◌*◌, ◌/◌, ◌%◌, ◌^◌, ◌≤◌, ◌<◌, max, bit_or, digits, bit_or-bitwise,
}
use mathlib.Core.Path.{◌≡◌, refl, ap}
use native.Mathlib.Nat.{pow-suc}
use native.Mathlib.Omega.{arith}

abbrev or_digits : ℕ → ℕ → ℕ → ℕ
or_digits n a b = digits (λ b. b) max n a b

or_digits_fuel : (n m a b : ℕ) → a ≤ n → a ≤ m → or_digits n a b ≡ or_digits m a b
or_digits_fuel zero zero a b p q = refl
or_digits_fuel zero (suc m) zero b p q = refl
or_digits_fuel zero (suc m) (suc a) b p q = absurd (omega arith)
or_digits_fuel (suc n) zero zero b p q = refl
or_digits_fuel (suc n) zero (suc a) b p q = absurd (omega arith)
or_digits_fuel (suc n) (suc m) zero b p q = refl
or_digits_fuel (suc n) (suc m) (suc a) b p q =
    omega (arith, or_digits_fuel n m (suc a / 2) (b / 2) (omega arith) (omega arith))

zero-bit_or : (b : ℕ) → bit_or 0 b ≡ b
zero-bit_or b = bit_or-bitwise 0 b

bit_or_step : (a b : ℕ) → bit_or a b ≡ bit_or (a / 2) (b / 2) * 2 + max (a % 2) (b % 2)
bit_or_step zero b = omega (arith, zero-bit_or b, zero-bit_or (b / 2))
bit_or_step (suc a) b = omega (
  arith,
  bit_or-bitwise (suc a) b,
  bit_or-bitwise (suc a / 2) (b / 2),
  or_digits_fuel a (suc a / 2) (suc a / 2) (b / 2) (omega arith) (omega arith),
)

bit_or-zero_fuel : (n a : ℕ) → a ≤ n → bit_or a 0 ≡ a
bit_or-zero_fuel n zero h = refl
bit_or-zero_fuel zero (suc a) h = absurd (omega arith)
bit_or-zero_fuel (suc n) (suc a) h =
    omega (arith, bit_or_step (suc a) 0, bit_or-zero_fuel n (suc a / 2) (omega arith))

bit_or-halves : (a b q r : ℕ) → a ≡ 2 * q → bit_or q (b / 2) ≡ r → bit_or a b ≡ r * 2 + b % 2
bit_or-halves a b q r e h =
    let half : a / 2 ≡ q = omega arith in
    let even : a % 2 ≡ 0 = omega arith in
    omega (arith, bit_or_step a b, ap (λ x. bit_or x (b / 2)) half, h)

pub bit_or-disjoint : (k h l : ℕ) → l < 2 ^ k → bit_or (h * 2 ^ k) l ≡ h * 2 ^ k + l
bit_or-disjoint zero h l p =
    let e : l ≡ 0 = omega arith in
    let f : h * 2 ^ 0 ≡ h = omega arith in
    rw (e, f) (omega (arith, bit_or-zero_fuel h h (omega arith)))
bit_or-disjoint (suc k) h l p =
    let double : 2 ^ suc k ≡ 2 ^ k * 2 = pow-suc 2 k in
    let a : h * 2 ^ suc k ≡ 2 * (h * 2 ^ k) = omega (arith, ap (λ (t : ℕ). h * t) double) in
    omega (
      arith,
      bit_or-halves (h * 2 ^ suc k) l (h * 2 ^ k) (h * 2 ^ k + l / 2) a
          (bit_or-disjoint k h (l / 2) (omega (arith, double))),
      a,
    )

pub bit_or-above : (k x h l : ℕ) → x ≡ h * 2 ^ k → l < 2 ^ k → bit_or x l ≡ x + l
bit_or-above k x h l e p = rw e (bit_or-disjoint k h l p)
