-- ===== src/Dse.antt =====
-- tools/dse_scanning_graph/dse_scanner.py: the buffer sizes that the second phase of the design space
-- exploration takes from the peaks of a run.
pub mod Powers
pub mod Fit
use spac.Base.{
  ℕ, zero, suc, ◌+◌, ◌-◌, ◌*◌, ◌/◌, ◌%◌, ◌^◌, List, [], ◌∷◌, ◌++◌, map, Option, none, some, ltb,
  leb, ◌==◌, if◌then◌else◌, ℤ, pos,
}
use spac.Config.{BufferType, one_buffer_per_port, n_buffers_per_port}

-- Python's `bit_length`, with the rounds that are left; a number has no more bits than its value.
unfoldable pub bit_length : ℕ → ℕ → ℕ
bit_length zero x = 0
bit_length (suc k) x = let rest = bit_length k (x / 2) in if x == 0 then 0 else suc rest

-- `next_power_of_2`
unfoldable pub next_power_of_2 : ℕ → ℕ → ℕ
unfolding bit_length
next_power_of_2 x minimum = if leb x minimum then minimum else 2 ^ bit_length (x - 1) (x - 1)

-- peak_sizes.get(key, 0)
abbrev pub or_zero : Option ℕ → ℕ
or_zero none = 0
or_zero (some peak) = peak

-- next_power_of_2(peak, min_voq_size) if peak > 0 else min_voq_size
unfoldable pub size_for : ℕ → ℕ → ℤ
unfolding next_power_of_2
size_for minimum peak = pos (if ltb 0 peak then next_power_of_2 peak minimum else minimum)

-- A loop over the ports from one on, with the rounds that are left.
unfoldable pub each_port : (ℕ → ℤ) → ℕ → ℕ → List ℤ
each_port f k zero = []
each_port f k (suc rounds) = f k ∷ each_port f (k + 1) rounds

unfoldable pub each_pair : (ℕ → ℕ → ℤ) → ℕ → ℕ → ℕ → List ℤ
unfolding each_port
each_pair f n k zero = []
each_pair f n k (suc rounds) = each_port (f k) 0 n ++ each_pair f n (k + 1) rounds

-- The body of the loops over the pairs: a packet does not leave by the port it came in by.
unfoldable pub pair_size : ℕ → (ℕ → ℕ → Option ℕ) → ℕ → ℕ → ℤ
unfolding size_for
pair_size minimum peaks src dst =
    if src == dst then pos 0 else size_for minimum (or_zero (peaks src dst))

-- `compute_optimized_voq_sizes` for a dictionary. The keys are ports for one buffer per port, and
-- pairs of ports for the other organization; a port is written here as the pair of 0 and itself.
unfoldable pub compute_optimized_voq_sizes : (ℕ → ℕ → Option ℕ) → BufferType → ℕ → ℕ → List ℤ
unfolding each_port each_pair pair_size size_for
compute_optimized_voq_sizes peaks one_buffer_per_port n minimum =
    each_port (λ dst. size_for minimum (or_zero (peaks 0 dst))) 0 n
compute_optimized_voq_sizes peaks n_buffers_per_port n minimum =
    each_pair (pair_size minimum peaks) n 0 n

-- `compute_optimized_voq_sizes` for a list, which is read in order.
unfoldable pub sizes_from : ℕ → ℕ → ℕ → List ℕ → List ℤ
unfolding size_for
sizes_from minimum n i [] = []
sizes_from minimum n i (p ∷ peaks) =
    (if i / n == i % n then pos 0 else size_for minimum p) ∷ sizes_from minimum n (i + 1) peaks

abbrev take : ℕ → List ℕ → List ℕ
take zero xs = []
take (suc n) [] = []
take (suc n) (x ∷ xs) = x ∷ take n xs

unfoldable pub compute_optimized_voq_sizes_of_list : List ℕ → BufferType → ℕ → ℕ → List ℤ
unfolding sizes_from size_for
compute_optimized_voq_sizes_of_list peaks one_buffer_per_port n minimum =
    map (size_for minimum) (take n peaks)
compute_optimized_voq_sizes_of_list peaks n_buffers_per_port n minimum =
    sizes_from minimum n 0 peaks
