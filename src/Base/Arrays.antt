-- ===== src/Base/Arrays.antt =====
-- Python's lists of a fixed length (one cell for each port) as functions on the index, their sums,
-- and `range`.
use Prim.Native.Nat.{ℕ, zero, suc, ◌+◌, ◌<◌, ◌≤◌}
use mathlib.Core.Path.{◌≡◌, refl}
use mathlib.Core.Logic.{◌≢◌, inl, inr}
use mathlib.Core.List.{List, [], ◌∷◌, ◌++◌}
use native.Mathlib.Omega.{arith}
use spac.Base.Tests.{if◌then◌else◌, ◌==◌, Bool-cases}
use mathlib.Core.Bool.{true}
use spac.Base.Lists.{
  All, All-append, All-map, member, Distinct, Distinct-append_one, member-above, member-append_left,
  member-append_right,
}

-- a[i] = v
abbrev pub update {ℓ} : {A : Type ℓ} → (ℕ → A) → ℕ → A → ℕ → A
update f i v j = if i == j then v else f j

-- a[i][j] = v
abbrev pub update2 {ℓ} : {A : Type ℓ} → (ℕ → ℕ → A) → ℕ → ℕ → A → ℕ → ℕ → A
update2 f i j v = update f i (update (f i) j v)

-- sum(f(i) for i in range(n))
abbrev pub sum_range : ℕ → (ℕ → ℕ) → ℕ
sum_range zero f = 0
sum_range (suc n) f = sum_range n f + f n

pub sum_range-cong :
    (n : ℕ) (f g : ℕ → ℕ) → ((i : ℕ) → i < n → f i ≡ g i) → sum_range n f ≡ sum_range n g
sum_range-cong zero f g h = refl
sum_range-cong (suc n) f g h =
    omega (arith, sum_range-cong n f g (λ i p. h i (omega arith)), h n (omega arith))

pub sum_range-zero : (n : ℕ) (f : ℕ → ℕ) → ((i : ℕ) → i < n → f i ≡ 0) → sum_range n f ≡ 0
sum_range-zero zero f h = refl
sum_range-zero (suc n) f h =
    omega (arith, sum_range-zero n f (λ i p. h i (omega arith)), h n (omega arith))

-- Two arrays that differ in one cell only.
pub sum_range-change :
    (n i : ℕ) (f g : ℕ → ℕ)
    → i < n
    → ((j : ℕ) → i ≢ j → g j ≡ f j)
    → sum_range n g + f i ≡ sum_range n f + g i
sum_range-change zero i f g p h = absurd (omega arith)
sum_range-change (suc n) i f g p h = elim (Bool-cases (i == n)) [
  | inl e ↦
      let e' : i ≡ n = ground arith in
      let same : sum_range n g ≡ sum_range n f =
        sum_range-cong n g f (λ j q. h j (λ x. omega arith)) in
      rw e' (omega arith)
  | inr d ↦
      let d' : i ≢ n = ground arith in
      omega (arith, sum_range-change n i f g (ground arith) h, h n d')
]

-- range(n)
abbrev pub range : ℕ → List ℕ
range zero = []
range (suc n) = range n ++ (n ∷ [])

pub range-lt : (n : ℕ) → All (λ i. i < n) (range n)
range-lt zero = tt
range-lt (suc n) =
    All-append (λ i. i < suc n) (range n) (n ∷ [])
      (All-map (λ i. i < n) (λ i. i < suc n) (λ i h. omega arith) (range n) (range-lt n))
      (omega arith, tt)

-- The sum of a square of n by n cells.
abbrev pub sum_grid : ℕ → (ℕ → ℕ → ℕ) → ℕ
sum_grid n f = sum_range n (λ i. sum_range n (f i))

-- The measures of the cells of an array of arrays, after a write to one cell.
module _ {ℓ} {A : Type ℓ} (m : A → ℕ) (n : ℕ) (f : ℕ → ℕ → A) (i j : ℕ) (v : A) where
  pub row-update2 :
      j < n
      → sum_range n (λ k. m (update2 f i j v i k)) + m (f i j) ≡ sum_range n (λ k. m (f i k)) + m v
  row-update2 h = ground (
    arith,
    sum_range-change n j (λ k. m (f i k)) (λ k. m (update2 f i j v i k)) h (λ k d. ground arith),
  )

  pub column-update2 :
      i < n
      → sum_range n (λ k. m (update2 f i j v k j)) + m (f i j) ≡ sum_range n (λ k. m (f k j)) + m v
  column-update2 h = ground (
    arith,
    sum_range-change n i (λ k. m (f k j)) (λ k. m (update2 f i j v k j)) h (λ k d. ground arith),
  )

  pub column-update2_ne :
      (d : ℕ) → j ≢ d → sum_range n (λ k. m (update2 f i j v k d)) ≡ sum_range n (λ k. m (f k d))
  column-update2_ne d h = sum_range-cong n _ _ (λ k p. ground arith)

  pub sum_grid-update2 :
      i < n
      → j < n
      → sum_grid n (λ a b. m (update2 f i j v a b)) + m (f i j)
        ≡ sum_grid n (λ a b. m (f a b)) + m v
  sum_grid-update2 h k = omega (
    arith,
    row-update2 k,
    sum_range-change n i (λ a. sum_range n (λ b. m (f a b)))
        (λ a. sum_range n (λ b. m (update2 f i j v a b))) h
        (λ a d. sum_range-cong n _ _ (λ b p. ground arith)),
  )

pub range-Distinct : (n : ℕ) → Distinct (range n)
range-Distinct zero = tt
range-Distinct (suc n) =
    Distinct-append_one n (range n) (range-Distinct n)
      (member-above n n (range n) (omega arith) (range-lt n))

pub member-range : (i n : ℕ) → i < n → member i (range n) ≡ true
member-range i zero h = absurd (omega arith)
member-range i (suc n) h = elim (Bool-cases (i == n)) [
  | inl e ↦ member-append_right i (range n) (n ∷ []) (ground arith)
  | inr d ↦ member-append_left i (range n) (n ∷ []) (member-range i n (ground arith))
]

pub sum_range_mono : (n : ℕ) (f g : ℕ → ℕ) → ((i : ℕ) → f i ≤ g i) → sum_range n f ≤ sum_range n g
sum_range_mono zero f g h = omega arith
sum_range_mono (suc n) f g h = omega (arith, sum_range_mono n f g h, h n)
