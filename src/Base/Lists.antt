-- ===== src/Base/Lists.antt =====
-- Lists measured and indexed by native numbers, under the library's names.
use Prim.Native.Nat.{ℕ, zero, suc, ◌+◌, ◌<◌, ◌≤◌}
use mathlib.Core.Path.{◌≡◌, refl}
use mathlib.Core.Bool.{Bool, true, false}
use mathlib.Core.List.{List, [], ◌∷◌, ◌++◌}
use mathlib.Core.Option.{Option, none, some}
use native.Mathlib.Omega.{arith}
use spac.Base.Tests.{if◌then◌else◌, ◌==◌}

module _ {ℓ} {A : Type ℓ} where
  abbrev pub length : List A → ℕ
  length [] = 0
  length (x ∷ xs) = suc (length xs)

  abbrev pub get_elem? : List A → ℕ → Option A
  get_elem? [] i = none
  get_elem? (x ∷ xs) zero = some x
  get_elem? (x ∷ xs) (suc i) = get_elem? xs i

  pub length-append : (xs ys : List A) → length (xs ++ ys) ≡ length xs + length ys
  length-append [] ys = omega arith
  length-append (x ∷ xs) ys = omega (arith, length-append xs ys)

  -- A predicate at every element.
  abbrev pub All {κ} : (A → Type κ) → List A → Type κ
  All P [] = Unit
  All P (x ∷ xs) = P x × All P xs

  pub All-append {κ} : (P : A → Type κ) (xs ys : List A) → All P xs → All P ys → All P (xs ++ ys)
  All-append P [] ys hx hy = hy
  All-append P (x ∷ xs) ys hx hy = (hx.0, All-append P xs ys hx.1 hy)

  pub All-map {κ κ'} :
      (P : A → Type κ) (Q : A → Type κ') (f : (a : A) → P a → Q a) (xs : List A)
      → All P xs
      → All Q xs
  All-map P Q f [] h = tt
  All-map P Q f (x ∷ xs) h = (f x h.0, All-map P Q f xs h.1)

-- Whether a number occurs in a list, Python's `in`.
abbrev pub member : ℕ → List ℕ → Bool
member a [] = false
member a (x ∷ xs) = if x == a then true else member a xs

-- No number occurs twice.
abbrev pub Distinct : List ℕ → Type 0
Distinct [] = Unit {0}
Distinct (x ∷ xs) = (member x xs ≡ false) × Distinct xs

pub member-append_false :
    (a : ℕ) (xs ys : List ℕ)
    → member a xs ≡ false
    → member a ys ≡ false
    → member a (xs ++ ys) ≡ false
member-append_false a [] ys h k = k
member-append_false a (x ∷ xs) ys h k = ground (arith, member-append_false a xs ys)

-- A list of numbers below a bound has no number at or above it.
pub member-above : (a n : ℕ) (xs : List ℕ) → n ≤ a → All (λ x. x < n) xs → member a xs ≡ false
member-above a n [] h k = refl
member-above a n (x ∷ xs) h k = ground (arith, member-above a n xs h k.1)

pub Distinct-append_one :
    (a : ℕ) (xs : List ℕ) → Distinct xs → member a xs ≡ false → Distinct (xs ++ a ∷ [])
Distinct-append_one a [] d h = (refl, tt)
Distinct-append_one a (x ∷ xs) d h = (
  member-append_false x xs (a ∷ []) d.0 (ground arith),
  Distinct-append_one a xs d.1 (ground arith),
)

pub member-append_left : (a : ℕ) (xs ys : List ℕ) → member a xs ≡ true → member a (xs ++ ys) ≡ true
member-append_left a [] ys h = cc
member-append_left a (x ∷ xs) ys h = ground (arith, member-append_left a xs ys)

pub member-append_right : (a : ℕ) (xs ys : List ℕ) → member a ys ≡ true → member a (xs ++ ys) ≡ true
member-append_right a [] ys h = h
member-append_right a (x ∷ xs) ys h = ground (arith, member-append_right a xs ys)

-- Lists with no number in common.
pub Distinct-append :
    (xs ys : List ℕ)
    → Distinct xs
    → Distinct ys
    → All (λ y. member y xs ≡ false) ys
    → Distinct (xs ++ ys)
Distinct-append [] ys d e a = e
Distinct-append (x ∷ xs) ys d e a = (
  member-append_false x xs ys d.0 (apart x xs ys a),
  Distinct-append xs ys d.1 e (
      All-map (λ y. member y (x ∷ xs) ≡ false) (λ y. member y xs ≡ false) (λ y h. ground arith) ys
        a),
)
  where
    apart : (x : ℕ) (xs ys : List ℕ) → All (λ y. member y (x ∷ xs) ≡ false) ys → member x ys ≡ false
    apart x xs [] b = refl
    apart x xs (y ∷ ys) b = ground (arith, apart x xs ys b.1)
