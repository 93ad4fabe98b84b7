-- ===== src/Tests/Dse.antt =====
-- Tests of the sizes of the buffers, for a switch with two ports.
use spac.Base.{
  ℕ, zero, suc, ◌≤◌, ◌<◌, ◌*◌, ◌≡◌, ◌⊎◌, refl, true, [], ◌∷◌, Option, none, some, pos, arith,
}
use spac.Config.{SwitchConfig, n_buffers_per_port, get_voq_size, validate_voq_sizes}
use spac.Dse.{compute_optimized_voq_sizes, compute_optimized_voq_sizes_of_list}
use spac.Dse.Fit.{compute_optimized_voq_sizes_fit}
use spac.Tests.{config_for}

-- From port 0 to port 1 at most 200 bytes waited, and nothing the other way.
abbrev peaks : ℕ → ℕ → Option ℕ
peaks zero (suc d) = some 200
peaks s d = none

abbrev sized : SwitchConfig
sized = record (config_for n_buffers_per_port) {
  voq_sizes = some (compute_optimized_voq_sizes peaks n_buffers_per_port 2 64);
}

sizes_of_peaks :
    compute_optimized_voq_sizes peaks n_buffers_per_port 2 64
    ≡ pos 0 ∷ pos 256 ∷ pos 64 ∷ pos 0 ∷ []
unfolding compute_optimized_voq_sizes
sizes_of_peaks = refl

sizes_of_list :
    compute_optimized_voq_sizes_of_list (0 ∷ 200 ∷ 0 ∷ 0 ∷ []) n_buffers_per_port 2 64
    ≡ pos 0 ∷ pos 256 ∷ pos 64 ∷ pos 0 ∷ []
unfolding compute_optimized_voq_sizes_of_list
sizes_of_list = refl

compute_optimized_voq_sizes_fit_example :
    (validate_voq_sizes sized ≡ true)
    × (size : ℕ) × (get_voq_size sized 0 1 ≡ pos size)
    × (200 ≤ size)
    × (64 ≤ size)
    × ((size ≡ 64) ⊎ (size < 2 * 200))
compute_optimized_voq_sizes_fit_example =
    compute_optimized_voq_sizes_fit sized peaks 64 0 1 refl (omega arith) (omega arith) refl
