-- ===== src/Dse/Fit.antt =====
-- dse_scanner.py: the sizes that are computed fit the configuration and hold the peaks.
use spac.Base.{
  ℕ, zero, suc, ◌+◌, ◌*◌, ◌≤◌, ◌<◌, ◌≡◌, ◌⊎◌, inl, refl, ap, ◌∙◌, Bool, true, false, List, [], ◌∷◌,
  ◌++◌, Option, some, ltb, ◌==◌, if◌then◌else◌, arith, length, length-append, get_elem?, ℤ, pos,
  negsuc, not,
}
use spac.Config.{
  SwitchConfig, all_nonneg, validate_voq_sizes, get_voq_size, size_at, BufferType,
  one_buffer_per_port, n_buffers_per_port, voq_index, expected_length,
}
use spac.Dse.{
  or_zero, size_for, each_port, each_pair, pair_size, next_power_of_2, compute_optimized_voq_sizes,
}
use spac.Dse.Powers.{next_power_of_2_fits}

get_elem?-append_left {ℓ} :
    {A : Type ℓ} (xs ys : List A) (i : ℕ) → i < length xs → get_elem? (xs ++ ys) i ≡ get_elem? xs i
get_elem?-append_left [] ys i h = absurd (omega (arith, h))
get_elem?-append_left (x ∷ xs) ys zero h = refl
get_elem?-append_left (x ∷ xs) ys (suc i) h = get_elem?-append_left xs ys i (omega (arith, h))

get_elem?-append_right {ℓ} :
    {A : Type ℓ} (xs ys : List A) (n i : ℕ)
    → length xs ≡ n
    → get_elem? (xs ++ ys) (n + i) ≡ get_elem? ys i
get_elem?-append_right [] ys n i h = let e : n + i ≡ i = omega (arith, h) in ap (get_elem? ys) e
get_elem?-append_right (x ∷ xs) ys zero i h = absurd (omega (arith, h))
get_elem?-append_right (x ∷ xs) ys (suc n) i h =
    let e : suc n + i ≡ suc (n + i) = omega arith in
    ap (get_elem? (x ∷ (xs ++ ys))) e ∙ get_elem?-append_right xs ys n i (omega (arith, h))

length-each_port : (f : ℕ → ℤ) (k rounds : ℕ) → length (each_port f k rounds) ≡ rounds
unfolding each_port
length-each_port f k zero = refl
length-each_port f k (suc rounds) = omega (arith, length-each_port f (k + 1) rounds)

get_elem?-each_port :
    (f : ℕ → ℤ) (k rounds i : ℕ)
    → i < rounds
    → get_elem? (each_port f k rounds) i ≡ some (f (k + i))
unfolding each_port
get_elem?-each_port f k zero i h = absurd (omega (arith, h))
get_elem?-each_port f k (suc rounds) zero h =
    let e : k ≡ k + 0 = omega arith in ap (λ j. some (f j)) e
get_elem?-each_port f k (suc rounds) (suc i) h =
    let e : k + 1 + i ≡ k + suc i = omega arith in
    get_elem?-each_port f (k + 1) rounds i (omega (arith, h)) ∙ ap (λ j. some (f j)) e

length-each_pair : (f : ℕ → ℕ → ℤ) (n k rounds : ℕ) → length (each_pair f n k rounds) ≡ rounds * n
unfolding each_pair
length-each_pair f n k zero = omega arith
length-each_pair f n k (suc rounds) =
    let e : suc rounds * n ≡ n + rounds * n = grind arith in
    length-append (each_port (f k) 0 n) (each_pair f n (k + 1) rounds)
    ∙ omega (arith, e, length-each_port (f k) 0 n, length-each_pair f n (k + 1) rounds)

get_elem?-each_pair :
    (f : ℕ → ℕ → ℤ) (n k rounds i j : ℕ)
    → i < rounds
    → j < n
    → get_elem? (each_pair f n k rounds) (i * n + j) ≡ some (f (k + i) j)
unfolding each_pair
get_elem?-each_pair f n k zero i j h l = absurd (omega (arith, h))
get_elem?-each_pair f n k (suc rounds) zero j h l =
    let e : 0 * n + j ≡ j = omega arith in
    let z : k ≡ k + 0 = omega arith in
    ap (get_elem? (each_pair f n k (suc rounds))) e
    ∙ get_elem?-append_left (each_port (f k) 0 n) (each_pair f n (k + 1) rounds) j
        (omega (arith, l, length-each_port (f k) 0 n))
    ∙ get_elem?-each_port (f k) 0 n j l
    ∙ (let y : 0 + j ≡ j = omega arith in ap (λ x. some (f k x)) y)
    ∙ ap (λ x. some (f x j)) z
get_elem?-each_pair f n k (suc rounds) (suc i) j h l =
    let e : suc i * n + j ≡ n + (i * n + j) = grind arith in
    let z : k + 1 + i ≡ k + suc i = omega arith in
    ap (get_elem? (each_pair f n k (suc rounds))) e
    ∙ get_elem?-append_right (each_port (f k) 0 n) (each_pair f n (k + 1) rounds) n (i * n + j)
        (length-each_port (f k) 0 n)
    ∙ get_elem?-each_pair f n (k + 1) rounds i j (omega (arith, h)) l
    ∙ ap (λ x. some (f x j)) z

all_nonneg-append :
    (xs ys : List ℤ) → all_nonneg xs ≡ true → all_nonneg ys ≡ true → all_nonneg (xs ++ ys) ≡ true
unfolding all_nonneg
all_nonneg-append [] ys h k = k
all_nonneg-append (pos x ∷ xs) ys h k = all_nonneg-append xs ys h k
all_nonneg-append (negsuc x ∷ xs) ys h k = absurd (cc)

-- Sizes that are not negative.
abbrev IsSize : ℤ → Type 0
IsSize z = (m : ℕ) × (z ≡ pos m)

all_nonneg-each_port :
    (f : ℕ → ℤ) (k rounds : ℕ) → ((i : ℕ) → IsSize (f i)) → all_nonneg (each_port f k rounds) ≡ true
unfolding each_port all_nonneg
all_nonneg-each_port f k zero h = refl
all_nonneg-each_port f k (suc rounds) h =
    ap (λ z. all_nonneg (z ∷ each_port f (k + 1) rounds)) (h k).1
    ∙ all_nonneg-each_port f (k + 1) rounds h

all_nonneg-each_pair :
    (f : ℕ → ℕ → ℤ) (n k rounds : ℕ)
    → ((i j : ℕ) → IsSize (f i j))
    → all_nonneg (each_pair f n k rounds) ≡ true
unfolding each_pair all_nonneg
all_nonneg-each_pair f n k zero h = refl
all_nonneg-each_pair f n k (suc rounds) h =
    all_nonneg-append (each_port (f k) 0 n) (each_pair f n (k + 1) rounds)
      (all_nonneg-each_port (f k) 0 n (h k)) (all_nonneg-each_pair f n (k + 1) rounds h)

pair_size-IsSize :
    (minimum : ℕ) (peaks : ℕ → ℕ → Option ℕ) (i j : ℕ) → IsSize (pair_size minimum peaks i j)
unfolding pair_size size_for
pair_size-IsSize minimum peaks i j =
    elim (i == j) as (λ b. IsSize (if b then pos 0 else size_for minimum (or_zero (peaks i j)))) [
      | true ↦ (0, refl)
      | false ↦ (_, refl)
    ]

compute_optimized_voq_sizes-valid :
    (peaks : ℕ → ℕ → Option ℕ) (t : BufferType) (n minimum : ℕ)
    → (length (compute_optimized_voq_sizes peaks t n minimum) ≡ expected_length t n)
      × (all_nonneg (compute_optimized_voq_sizes peaks t n minimum) ≡ true)
unfolding compute_optimized_voq_sizes expected_length size_for
compute_optimized_voq_sizes-valid peaks one_buffer_per_port n minimum = (
  length-each_port (λ dst. size_for minimum (or_zero (peaks 0 dst))) 0 n,
  all_nonneg-each_port (λ dst. size_for minimum (or_zero (peaks 0 dst))) 0 n (λ i. (_, refl)),
)
compute_optimized_voq_sizes-valid peaks n_buffers_per_port n minimum = (
  length-each_pair (pair_size minimum peaks) n 0 n,
  all_nonneg-each_pair (pair_size minimum peaks) n 0 n (pair_size-IsSize minimum peaks),
)

-- The peak of a queue, and whether packets come into it.
abbrev pub peak_of : (ℕ → ℕ → Option ℕ) → BufferType → ℕ → ℕ → ℕ
peak_of peaks one_buffer_per_port src dst = or_zero (peaks 0 dst)
peak_of peaks n_buffers_per_port src dst = or_zero (peaks src dst)

abbrev pub is_used : BufferType → ℕ → ℕ → Bool
is_used one_buffer_per_port src dst = true
is_used n_buffers_per_port src dst = not (src == dst)

compute_optimized_voq_sizes-size_for :
    (peaks : ℕ → ℕ → Option ℕ) (t : BufferType) (n minimum src dst : ℕ)
    → src < n
    → dst < n
    → is_used t src dst ≡ true
    → get_elem? (compute_optimized_voq_sizes peaks t n minimum) (voq_index t n src dst)
      ≡ some (size_for minimum (peak_of peaks t src dst))
unfolding compute_optimized_voq_sizes voq_index pair_size
compute_optimized_voq_sizes-size_for peaks one_buffer_per_port n minimum src dst h k u =
    let e : 0 + dst ≡ dst = omega arith in
    get_elem?-each_port (λ d. size_for minimum (or_zero (peaks 0 d))) 0 n dst k
    ∙ ap (λ d. some (size_for minimum (or_zero (peaks 0 d)))) e
compute_optimized_voq_sizes-size_for peaks n_buffers_per_port n minimum src dst h k u =
    let e : 0 + src ≡ src = omega arith in
    let ne : (src == dst) ≡ false = ground (arith, u) in
    get_elem?-each_pair (pair_size minimum peaks) n 0 n src dst h k
    ∙ ap (λ s. some (pair_size minimum peaks s dst)) e
    ∙ ap (λ b. some (if b then pos 0 else size_for minimum (or_zero (peaks src dst)))) ne

size_for_fits :
    (minimum peak : ℕ)
    → (size : ℕ) × (size_for minimum peak ≡ pos size)
      × (peak ≤ size)
      × (minimum ≤ size)
      × ((size ≡ minimum) ⊎ (size < 2 * peak))
unfolding size_for
size_for_fits minimum zero = (minimum, refl, omega arith, omega arith, inl refl)
size_for_fits minimum (suc peak) =
    let p = next_power_of_2_fits (suc peak) minimum in
    let e : ltb 0 (suc peak) ≡ true = ground arith in
    (
      next_power_of_2 (suc peak) minimum,
      ap (λ b. pos (if b then next_power_of_2 (suc peak) minimum else minimum)) e,
      p.0,
      p.1,
      p.2,
    )

-- A configuration with the sizes that are computed from the peaks of a run is accepted, and gives
-- each queue that packets come into room for its peak and at least the minimum: the minimum itself,
-- or less than twice the peak.
pub compute_optimized_voq_sizes_fit :
    (c : SwitchConfig) (peaks : ℕ → ℕ → Option ℕ) (minimum src dst : ℕ)
    → c.voq_sizes ≡ some (compute_optimized_voq_sizes peaks c.buffer_type c.num_ports minimum)
    → src < c.num_ports
    → dst < c.num_ports
    → is_used c.buffer_type src dst ≡ true
    → let peak = peak_of peaks c.buffer_type src dst in
      (validate_voq_sizes c ≡ true)
      × (size : ℕ) × (get_voq_size c src dst ≡ pos size)
      × (peak ≤ size)
      × (minimum ≤ size)
      × ((size ≡ minimum) ⊎ (size < 2 * peak))
unfolding validate_voq_sizes get_voq_size size_at
compute_optimized_voq_sizes_fit c peaks minimum src dst e h k u =
    let v = compute_optimized_voq_sizes-valid peaks c.buffer_type c.num_ports minimum in
    let found =
      compute_optimized_voq_sizes-size_for peaks c.buffer_type c.num_ports minimum src dst h k u in
    let f = size_for_fits minimum (peak_of peaks c.buffer_type src dst) in
    (ground (arith, e, v.0, v.1), f.0, ground (arith, e, found, f.1), f.2, f.3, f.4)
