-- ===== src/Dse/Powers.antt =====
-- dse_scanner.py: `next_power_of_2` is the least power of two that is large enough.
use native.Mathlib.Numerals.{unary_clauses}
use spac.Base.{
  ℕ, zero, suc, ◌-◌, ◌*◌, ◌/◌, ◌^◌, ◌≤◌, ◌<◌, ◌≡◌, ◌≢◌, ◌⊎◌, inl, inr, refl, leb, ◌==◌, arith,
  Bool-cases,
}
use spac.Dse.{bit_length, next_power_of_2}

double : (k : ℕ) → 2 ^ suc k ≡ 2 * 2 ^ k
double k = simp unary_clauses (omega arith)

bit_length_zero : (rounds : ℕ) → bit_length rounds 0 ≡ 0
unfolding bit_length
bit_length_zero zero = refl
bit_length_zero (suc k) = refl

-- The number lies below the power of its bits, and not below the power before.
bit_length_bounds :
    (rounds x : ℕ)
    → x ≤ rounds
    → (x < 2 ^ bit_length rounds x) × (x ≢ 0 → 2 ^ bit_length rounds x ≤ 2 * x)
unfolding bit_length
bit_length_bounds zero x h = (omega (arith, h), λ n. absurd (omega (arith, h, n)))
bit_length_bounds (suc k) x h = elim (Bool-cases (x == 0)) [
  | inl e ↦ let z : x ≡ 0 = ground (arith, e) in rw e (omega (arith, z), λ n. absurd (n z))
  | inr e ↦
      let n : x ≢ 0 = ground (arith, e) in
      let ih = bit_length_bounds k (x / 2) (omega (arith, h, n)) in
      let d = double (bit_length k (x / 2)) in
      let low : 2 * 2 ^ bit_length k (x / 2) ≤ 2 * x = elim (Bool-cases (x / 2 == 0)) [
        | inl f ↦
            let z : x / 2 ≡ 0 = ground (arith, f) in rw (z, bit_length_zero k) (omega (arith, n))
        | inr f ↦ let m : x / 2 ≢ 0 = ground (arith, f) in omega (arith, ih.1 m)
      ] in
      rw e (omega (arith, ih.0, d), λ m. omega (arith, d, low))
]

-- The size for a peak is the least one, or a power of two that holds the peak and is less than twice
-- as much.
pub next_power_of_2_fits :
    (x minimum : ℕ)
    → (x ≤ next_power_of_2 x minimum)
      × (minimum ≤ next_power_of_2 x minimum)
      × ((next_power_of_2 x minimum ≡ minimum) ⊎ (next_power_of_2 x minimum < 2 * x))
unfolding next_power_of_2
next_power_of_2_fits x minimum = elim (Bool-cases (leb x minimum)) [
  | inl e ↦ let l : x ≤ minimum = ground (arith, e) in rw e (l, omega arith, inl refl)
  | inr e ↦
      let l : minimum < x = ground (arith, e) in
      let b = bit_length_bounds (x - 1) (x - 1) (omega arith) in
      rw e (
        omega (arith, l, b.0),
        omega (arith, l, b.0),
        elim (Bool-cases (x - 1 == 0)) [
          | inl f ↦ let z : x - 1 ≡ 0 = ground (arith, f) in inr (rw z (omega (arith, l)))
          | inr f ↦ let n : x - 1 ≢ 0 = ground (arith, f) in inr (omega (arith, b.1 n, l))
        ],
      )
]
