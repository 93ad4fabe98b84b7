-- ===== src/Config.antt =====
-- simulator/src/config.py: the switch configuration and its buffer sizes.
pub mod Latency
pub mod Sizes
use spac.Base.{
  ℕ, zero, suc, ◌+◌, ◌*◌, Bool, true, false, List, [], ◌∷◌, Option, none, some, ℤ, pos, negsuc, ltb,
  ◌==◌, if◌then◌else◌, length, get_elem?,
}

pub data HashModuleType : Type 0 where
  multi_bank_hash full_lookup_table : HashModuleType

pub data BufferType : Type 0 where
  one_buffer_per_port n_buffers_per_port : BufferType

pub data SchedulerType : Type 0 where
  round_robin islip edrrm : SchedulerType

-- `SwitchConfig`, the fields that the switch reads. `voq_sizes` and `global_voq_size` come from a
-- YAML file as they are, so they may be negative.
pub record SwitchConfig : Type 0 where
  pub num_ports : ℕ
  pub addr_length : ℕ
  pub hash_bits : ℕ
  pub axis_data_width : ℕ
  pub hash_module_type : HashModuleType
  pub buffer_type : BufferType
  pub scheduler_type : SchedulerType
  pub max_queue_depth_log : ℕ
  pub global_voq_size : ℤ
  pub voq_sizes : Option (List ℤ)

-- The subscript of `voq_sizes` that `get_voq_size` reads.
unfoldable pub voq_index : BufferType → ℕ → ℕ → ℕ → ℕ
voq_index one_buffer_per_port n src dst = dst
voq_index n_buffers_per_port n src dst = src * n + dst

-- `voq_sizes[idx]` where it exists, and the global size otherwise.
unfoldable pub size_at : ℤ → Option (List ℤ) → ℕ → ℤ
size_at default none idx = default
size_at default (some sizes) idx = elim (get_elem? sizes idx) [ some size ↦ size | none ↦ default ]

-- `get_voq_size`
unfoldable pub get_voq_size : SwitchConfig → ℕ → ℕ → ℤ
unfolding size_at voq_index
get_voq_size c src dst =
    size_at c.global_voq_size c.voq_sizes (voq_index c.buffer_type c.num_ports src dst)

-- `expected_length` of `validate_voq_sizes`
unfoldable pub expected_length : BufferType → ℕ → ℕ
expected_length one_buffer_per_port n = n
expected_length n_buffers_per_port n = n * n

-- not any(size < 0 for size in voq_sizes)
unfoldable pub all_nonneg : List ℤ → Bool
all_nonneg [] = true
all_nonneg (pos size ∷ sizes) = all_nonneg sizes
all_nonneg (negsuc size ∷ sizes) = false

valid_sizes : SwitchConfig → Option (List ℤ) → Bool
valid_sizes c none = true
valid_sizes c (some sizes) =
    if length sizes == expected_length c.buffer_type c.num_ports then all_nonneg sizes else false

-- `validate_voq_sizes`
unfoldable pub validate_voq_sizes : SwitchConfig → Bool
unfolding valid_sizes expected_length all_nonneg
validate_voq_sizes c = valid_sizes c c.voq_sizes

-- voq_sizes_list[idx] = value
unfoldable pub replace_at : List ℤ → ℕ → ℤ → List ℤ
replace_at [] i v = []
replace_at (x ∷ xs) zero v = v ∷ xs
replace_at (x ∷ xs) (suc i) v = x ∷ replace_at xs i v

-- The loop over the pairs, with `expected_len`. The keys stand as `int(key)`.
unfoldable pub override_sizes : ℕ → List ℤ → List (ℤ × ℤ) → List ℤ
override_sizes n sizes [] = sizes
override_sizes n sizes ((pos idx, value) ∷ raw) =
    override_sizes n (if ltb idx n then replace_at sizes idx value else sizes) raw
override_sizes n sizes ((negsuc idx, value) ∷ raw) = override_sizes n sizes raw

-- `expected_len` of `load_config`
unfoldable pub expected_len : BufferType → ℕ → ℕ
expected_len one_buffer_per_port n = n
expected_len n_buffers_per_port n = n * n

-- [default_size] * expected_len
unfoldable pub replicate : ℕ → ℤ → List ℤ
replicate zero v = []
replicate (suc n) v = v ∷ replicate n v

-- The branch of `load_config` for a dictionary `voq_sizes` of the YAML file: each pair overwrites one
-- entry of the list of default sizes, and a key out of range is passed over.
unfoldable pub expand_voq_sizes : BufferType → ℕ → ℤ → List (ℤ × ℤ) → List ℤ
unfolding replicate override_sizes replace_at expected_len
expand_voq_sizes buffer_type n default raw =
    let len = expected_len buffer_type n in override_sizes len (replicate len default) raw
