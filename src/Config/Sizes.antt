-- ===== src/Config/Sizes.antt =====
-- config.py: what the buffer sizes that a configuration gives are.
use spac.Base.{
  ℕ, zero, suc, ◌+◌, ◌*◌, ◌<◌, ◌≡◌, refl, ap, ◌∙◌, inl, inr, true, false, List, [], ◌∷◌, some, ℤ,
  pos, negsuc, ltb, ◌==◌, if◌then◌else◌, length, get_elem?, Bool-cases, arith,
}
use spac.Config.{
  SwitchConfig, BufferType, one_buffer_per_port, n_buffers_per_port, voq_index, size_at,
  get_voq_size, expected_length, all_nonneg, valid_sizes, validate_voq_sizes, replace_at,
  override_sizes, replicate, expected_len, expand_voq_sizes,
}

-- Every port, or pair of ports, has a place in a list of the expected length.
voq_index-lt :
    (t : BufferType) (n src dst : ℕ)
    → src < n
    → dst < n
    → voq_index t n src dst < expected_length t n
unfolding voq_index expected_length
voq_index-lt one_buffer_per_port n src dst h k = k
voq_index-lt n_buffers_per_port n src dst h k = grind arith

get_elem?-lt {ℓ} :
    {A : Type ℓ} (xs : List A) (i : ℕ) → i < length xs → (a : A) × (get_elem? xs i ≡ some a)
get_elem?-lt [] i h = absurd (omega arith)
get_elem?-lt (x ∷ xs) zero h = (x, refl)
get_elem?-lt (x ∷ xs) (suc i) h = get_elem?-lt xs i (omega arith)

all_nonneg-get :
    (xs : List ℤ) (i : ℕ) {z : ℤ}
    → all_nonneg xs ≡ true
    → get_elem? xs i ≡ some z
    → (m : ℕ) × (z ≡ pos m)
unfolding all_nonneg
all_nonneg-get [] i h e = cc
all_nonneg-get (pos m ∷ xs) zero h e = (m, ground arith)
all_nonneg-get (pos m ∷ xs) (suc i) h e = all_nonneg-get xs i h e
all_nonneg-get (negsuc m ∷ xs) i h e = cc

-- The place of a queue in `voq_sizes`, as `SwitchConfig` documents it: the entry i is that of output
-- port i, or the entry s * N + d is that of the queue from input port s to output port d.
abbrev pub place : BufferType → ℕ → ℕ → ℕ → ℕ
place one_buffer_per_port n src dst = dst
place n_buffers_per_port n src dst = src * n + dst

voq_index-place : (t : BufferType) (n src dst : ℕ) → voq_index t n src dst ≡ place t n src dst
unfolding voq_index
voq_index-place one_buffer_per_port n src dst = refl
voq_index-place n_buffers_per_port n src dst = refl

-- In a configuration with a list of sizes that `validate_voq_sizes` accepts, the size of every
-- queue is the entry of the list at its output port, if there is one buffer for each output port, or
-- at s * N + d, for the queue from s to d, and is not negative.
pub get_voq_size-valid :
    (c : SwitchConfig) (sizes : List ℤ) (src dst : ℕ)
    → c.voq_sizes ≡ some sizes
    → validate_voq_sizes c ≡ true
    → src < c.num_ports
    → dst < c.num_ports
    → (m : ℕ) × (get_voq_size c src dst ≡ pos m)
      × (get_elem? sizes (place c.buffer_type c.num_ports src dst) ≡ some (pos m))
unfolding validate_voq_sizes get_voq_size size_at
get_voq_size-valid c sizes src dst e v hs hd =
    let inside = voq_index-lt c.buffer_type c.num_ports src dst hs hd in
    let there = voq_index-place c.buffer_type c.num_ports src dst in
    let (z, found) =
      get_elem?-lt sizes (voq_index c.buffer_type c.num_ports src dst) (ground arith) in
    let (m, same) = all_nonneg-get sizes _ {z = z} (ground arith) found in
    (m, ground arith, ground (arith, ap (get_elem? sizes) there))

-- The last value that a dictionary gives for a key, or else the default.
abbrev pub value_of : ℕ → ℤ → List (ℤ × ℤ) → ℤ
value_of key default [] = default
value_of key default ((pos k, v) ∷ raw) = value_of key (if k == key then v else default) raw
value_of key default ((negsuc k, v) ∷ raw) = value_of key default raw

length-replace_at : (xs : List ℤ) (i : ℕ) (v : ℤ) → length (replace_at xs i v) ≡ length xs
unfolding replace_at
length-replace_at [] i v = refl
length-replace_at (x ∷ xs) zero v = refl
length-replace_at (x ∷ xs) (suc i) v = ap suc (length-replace_at xs i v)

get_elem?-replace_at :
    (xs : List ℤ) (k i : ℕ) (v x : ℤ)
    → get_elem? xs i ≡ some x
    → get_elem? (replace_at xs k v) i ≡ some (if k == i then v else x)
unfolding replace_at
get_elem?-replace_at [] k i v x h = absurd (cc)
get_elem?-replace_at (y ∷ xs) zero zero v x h = refl
get_elem?-replace_at (y ∷ xs) zero (suc i) v x h = ground arith
get_elem?-replace_at (y ∷ xs) (suc k) zero v x h = ground arith
get_elem?-replace_at (y ∷ xs) (suc k) (suc i) v x h =
    ground (arith, get_elem?-replace_at xs k i v x h)

-- What the loop over the pairs makes of a list of the expected length: its length stays, and each
-- entry is the last value for its place.
override_sizes_lem :
    (raw : List (ℤ × ℤ)) (n : ℕ) (xs : List ℤ) (i : ℕ) (x : ℤ)
    → length xs ≡ n
    → i < n
    → get_elem? xs i ≡ some x
    → (length (override_sizes n xs raw) ≡ n)
      × (get_elem? (override_sizes n xs raw) i ≡ some (value_of i x raw))
unfolding override_sizes
override_sizes_lem [] n xs i x l h e = (l, e)
override_sizes_lem ((negsuc k, v) ∷ raw) n xs i x l h e = override_sizes_lem raw n xs i x l h e
override_sizes_lem ((pos k, v) ∷ raw) n xs i x l h e = elim (Bool-cases (ltb k n)) [
  | inl y ↦ rw y (
      override_sizes_lem raw n (replace_at xs k v) i (if k == i then v else x)
        (length-replace_at xs k v ∙ l) h (get_elem?-replace_at xs k i v x e))
  | inr d ↦
      let other : (k == i) ≡ false = ground arith in
      rw (d, other) (override_sizes_lem raw n xs i x l h e)
]

replicate_lem :
    (n i : ℕ) (v : ℤ)
    → i < n
    → (length (replicate n v) ≡ n) × (get_elem? (replicate n v) i ≡ some v)
unfolding replicate
replicate_lem zero i v h = absurd (omega arith)
replicate_lem (suc zero) zero v h = (refl, refl)
replicate_lem (suc (suc n)) zero v h = (ap suc (replicate_lem (suc n) 0 v (omega arith)).0, refl)
replicate_lem (suc n) (suc i) v h = let r = replicate_lem n i v (omega arith) in (ap suc r.0, r.1)

-- The length that `load_config` gives a list is the one that `validate_voq_sizes` wants.
expected_len-expected_length : (t : BufferType) (n : ℕ) → expected_len t n ≡ expected_length t n
unfolding expected_len expected_length
expected_len-expected_length one_buffer_per_port n = refl
expected_len-expected_length n_buffers_per_port n = refl

expand_voq_sizes_lem :
    (t : BufferType) (n src dst : ℕ) (default : ℤ) (raw : List (ℤ × ℤ))
    → src < n
    → dst < n
    → (length (expand_voq_sizes t n default raw) ≡ expected_length t n)
      × (get_elem? (expand_voq_sizes t n default raw) (place t n src dst)
          ≡ some (value_of (place t n src dst) default raw))
unfolding expand_voq_sizes
expand_voq_sizes_lem t n src dst default raw hs hd =
    let len = expected_len t n in
    let same = expected_len-expected_length t n in
    let there = voq_index-place t n src dst in
    let inside : place t n src dst < len = omega (arith, same, voq_index-lt t n src dst hs hd) in
    let start = replicate_lem len (place t n src dst) default inside in
    let r =
      override_sizes_lem raw len (replicate len default) (place t n src dst) default start.0 inside
        start.1 in
    (r.0 ∙ same, r.1)

-- In a configuration with the list that `load_config` expands from a dictionary and a default size,
-- the size of every queue is the last that the dictionary gives for its place, the output port or
-- s * N + d, or else the default, and `validate_voq_sizes` accepts the
-- configuration just when the list has no negative size.
pub get_voq_size-expand_voq_sizes :
    (c : SwitchConfig) (default : ℤ) (raw : List (ℤ × ℤ)) (src dst : ℕ)
    → c.voq_sizes ≡ some (expand_voq_sizes c.buffer_type c.num_ports default raw)
    → src < c.num_ports
    → dst < c.num_ports
    → (get_voq_size c src dst ≡ value_of (place c.buffer_type c.num_ports src dst) default raw)
      × (validate_voq_sizes c ≡ all_nonneg (expand_voq_sizes c.buffer_type c.num_ports default raw))
unfolding get_voq_size size_at validate_voq_sizes valid_sizes
get_voq_size-expand_voq_sizes c default raw src dst e hs hd =
    let r = expand_voq_sizes_lem c.buffer_type c.num_ports src dst default raw hs hd in
    let there = voq_index-place c.buffer_type c.num_ports src dst in
    (ground (arith, e, there, r.1), ground (arith, e, r.0))
