-- ===== src/Config/Latency.antt =====
-- config.py: `LatencyEstimator` and `BusBandwidthModel`, and `calculate_transfer_cycles` and
-- `can_achieve_line_rate` of pipeline_common.py.
use spac.Base.{
  ℕ, zero, suc, ◌+◌, ◌-◌, ◌*◌, ◌/◌, ◌≤◌, ◌<◌, ◌≡◌, max, Bool, List, [], ◌∷◌, Option, none, some,
  ◌==◌, leb, if◌then◌else◌, arith,
}
use spac.Config.{
  HashModuleType, multi_bank_hash, full_lookup_table, SchedulerType, round_robin, islip, edrrm,
}

-- A table of Python, `{key: value, …}`.
lookup_table : List (ℕ × ℕ) → ℕ → Option ℕ
lookup_table [] n = none
lookup_table ((k, v) ∷ rest) n = if k == n then some v else lookup_table rest n

or_fallback : Option ℕ → ℕ → ℕ
or_fallback none d = d
or_fallback (some v) d = v

abbrev fl_table : List (ℕ × ℕ)
fl_table = (2, 2) ∷ (4, 3) ∷ (8, 5) ∷ (10, 4) ∷ (12, 4) ∷ (14, 4) ∷ (16, 5) ∷ (24, 5) ∷ (32, 6) ∷ []

abbrev mb_table : List (ℕ × ℕ)
mb_table =
    (2, 4) ∷ (4, 4) ∷ (8, 6) ∷ (10, 6) ∷ (12, 6) ∷ (14, 7) ∷ (16, 7) ∷ (24, 9) ∷ (32, 12) ∷ []

-- `estimate_rx_latency`, `estimate_rx_ii`
unfoldable pub estimate_rx_latency : ℕ → ℕ
estimate_rx_latency n = 2

unfoldable pub estimate_rx_ii : ℕ → ℕ
estimate_rx_ii n = 1

-- `estimate_hash_latency`
unfoldable pub estimate_hash_latency : HashModuleType → ℕ → ℕ
unfolding lookup_table or_fallback
estimate_hash_latency full_lookup_table n = or_fallback (lookup_table fl_table n) ((n + 1) / 2 + 1)
estimate_hash_latency multi_bank_hash n = or_fallback (lookup_table mb_table n) (max 4 (n + 2))

-- `estimate_hash_ii`
unfoldable pub estimate_hash_ii : HashModuleType → ℕ
estimate_hash_ii full_lookup_table = 1
estimate_hash_ii multi_bank_hash = 3

-- `estimate_scheduler_ii`
unfoldable pub estimate_scheduler_ii : SchedulerType → ℕ
estimate_scheduler_ii islip = 4
estimate_scheduler_ii edrrm = 2
estimate_scheduler_ii round_robin = 1

-- math.ceil(a / b), where the quotient of Python's floats is exact enough (a below 2 ^ 53).
unfoldable pub ceil_div : ℕ → ℕ → ℕ
ceil_div a b = (a + b - 1) / b

-- `calculate_transfer_cycles`: the bytes of a packet over a bus of so many bits.
unfoldable pub calculate_transfer_cycles : ℕ → ℕ → ℕ
unfolding ceil_div
calculate_transfer_cycles size_bytes bus_width_bits =
    max 1 (ceil_div (size_bytes * 8) bus_width_bits)

-- `can_achieve_line_rate` of pipeline_common.py
unfoldable pub can_achieve_line_rate : ℕ → ℕ → Bool
can_achieve_line_rate transfer_cycles module_ii = leb module_ii transfer_cycles

-- The quotient rounded up: enough multiples, and no more than any other count that is enough.
ceil_div_lem : (a w k : ℕ) → 0 < w → a ≤ k * w → (a ≤ ceil_div a w * w) × (ceil_div a w ≤ k)
unfolding ceil_div
ceil_div_lem a w k h e = (grind arith, grind arith)

covers_max : (a q w : ℕ) → a ≤ q * w → a ≤ max 1 q * w
covers_max a zero w h = omega arith
covers_max a (suc q) w h = rw (max_one q) h
  where
    max_one : (q : ℕ) → max 1 (suc q) ≡ suc q
    max_one q = omega arith

-- On a bus with at least one line, the cycles of a transfer carry the whole packet, are at least
-- one, and are no more than any other count of cycles, at least one, that carries it.
pub calculate_transfer_cycles-least :
    (size width k : ℕ)
    → 0 < width
    → 0 < k
    → size * 8 ≤ k * width
    → (size * 8 ≤ calculate_transfer_cycles size width * width)
      × (0 < calculate_transfer_cycles size width)
      × (calculate_transfer_cycles size width ≤ k)
unfolding calculate_transfer_cycles
calculate_transfer_cycles-least size width k h p e = (
  covers_max (size * 8) (ceil_div (size * 8) width) width (ceil_div_lem (size * 8) width k h e).0,
  omega arith,
  omega (arith, (ceil_div_lem (size * 8) width k h e).1),
)
