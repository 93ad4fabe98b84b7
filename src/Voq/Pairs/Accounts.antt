-- ===== src/Voq/Pairs/Accounts.antt =====
-- buffer_voq.py: the storing loop of `NBuffersPerPortBuffer` keeps its accounts.
use spac.Base.{
  ℕ, ◌+◌, ◌≤◌, ◌<◌, ◌≡◌, refl, ◌⊎◌, true, false, List, [], ◌∷◌, ◌++◌, arith, length, sum_grid, All,
  member, Distinct, leb_ℤ, length-append, sum_grid-update2,
}
use spac.Voq.Entry.{VoqEntry, packet_size, queue_bytes, has_room, queue_bytes-append}
use spac.Voq.Pairs.{PairBuffer, store, store_all}

abbrev pub packets : PairBuffer → ℕ
packets b = sum_grid b.num_ports (λ s d. length (b.voq s d))

-- The account of each pair is what waits in its queue, within its limit if anything does, and no
-- more than its peak.
pub record Accounts (b : PairBuffer) : Type 0 where
  pub counted : (s d : ℕ) → b.voq_used_bytes s d ≡ queue_bytes (b.voq s d)
  pub peaked : (s d : ℕ) → b.voq_used_bytes s d ≤ b.voq_peak_bytes s d
  pub within :
      (s d : ℕ)
      → (b.voq_used_bytes s d ≡ 0) ⊎ (leb_ℤ (b.voq_used_bytes s d) (b.voq_limits_bytes s d) ≡ true)

store-Accounts :
    (b : PairBuffer) (e : VoqEntry) (p : ℕ)
    → leb_ℤ (b.voq_used_bytes e.input_port p + packet_size e) (b.voq_limits_bytes e.input_port p)
      ≡ true
    → Accounts b
    → Accounts (store b e p)
unfolding store
store-Accounts b e p room v = record {
  counted =
      λ s d. ground (arith, v.counted s d, queue_bytes-append (b.voq e.input_port p) (e ∷ []));
  peaked = λ s d. ground (arith, v.peaked s d);
  within = λ s d. ground (arith, v.within s d);
}

-- A write for another port leaves the test for room as it was.
has_room-store :
    (b : PairBuffer) (e : VoqEntry) (p : ℕ) (ports : List ℕ)
    → member p ports ≡ false
    → has_room
        (b.voq_limits_bytes e.input_port)
        ((store b e p).voq_used_bytes e.input_port)
        (packet_size e)
        ports
      ≡ has_room
          (b.voq_limits_bytes e.input_port)
          (b.voq_used_bytes e.input_port)
          (packet_size e)
          ports
unfolding store has_room
has_room-store b e p [] h = refl
has_room-store b e p (q ∷ ports) h = ground (arith, has_room-store b e p ports)

pub store_all-Accounts :
    (ports : List ℕ) (b : PairBuffer) (e : VoqEntry)
    → Distinct ports
    → has_room
        (b.voq_limits_bytes e.input_port)
        (b.voq_used_bytes e.input_port)
        (packet_size e)
        ports
      ≡ true
    → Accounts b
    → Accounts (store_all b e ports)
unfolding store_all has_room
store_all-Accounts [] b e d r v = v
store_all-Accounts (p ∷ ports) b e d r v =
    store_all-Accounts ports (store b e p) e d.1 (ground (arith, has_room-store b e p ports))
      (store-Accounts b e p (ground arith) v)

-- What the storing loop leaves alone.
pub record SameCounts (b c : PairBuffer) : Type 0 where
  pub num_ports : c.num_ports ≡ b.num_ports
  pub word_size_bytes : c.word_size_bytes ≡ b.word_size_bytes
  pub total_dropped : c.total_dropped ≡ b.total_dropped
  pub total_dropped_overflow : c.total_dropped_overflow ≡ b.total_dropped_overflow
  pub current_occupancy : c.current_occupancy ≡ b.current_occupancy
  pub peak_occupancy : c.peak_occupancy ≡ b.peak_occupancy

pub store_all-SameCounts :
    (ports : List ℕ) (b : PairBuffer) (e : VoqEntry) → SameCounts b (store_all b e ports)
unfolding store_all
store_all-SameCounts [] b e = ground arith
store_all-SameCounts (p ∷ ports) b e = ground (arith, store_all-SameCounts ports (store b e p) e)

pub packets-store_all :
    (ports : List ℕ) (b : PairBuffer) (e : VoqEntry)
    → e.input_port < b.num_ports
    → All (λ p. p < b.num_ports) ports
    → packets (store_all b e ports) ≡ packets b + length ports
unfolding store_all store
packets-store_all [] b e h a = omega arith
packets-store_all (p ∷ ports) b e h a = omega (
  arith,
  packets-store_all ports (store b e p) e h a.1,
  sum_grid-update2 length b.num_ports b.voq e.input_port p (b.voq e.input_port p ++ e ∷ []) h a.0,
  length-append (b.voq e.input_port p) (e ∷ []),
)
