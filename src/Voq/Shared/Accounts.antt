-- ===== src/Voq/Shared/Accounts.antt =====
-- buffer_voq.py: the storing loop of `OneBufferPerPortBuffer` keeps its accounts.
use spac.Base.{
  ℕ, ◌+◌, ◌≤◌, ◌<◌, ◌≡◌, ◌⊎◌, inl, inr, true, List, [], ◌∷◌, ◌++◌, arith, length, sum_range,
  sum_grid, All, Distinct, leb_ℤ, ◌==◌, length-append, column-update2, column-update2_ne,
  sum_grid-update2, Bool-cases,
}
use spac.Voq.Entry.{queue_bytes-append, VoqEntry, packet_size, queue_bytes, has_room}
use spac.Voq.Shared.{SharedBuffer, store, store_all}
use spac.Voq.Ports.{has_room-update}

-- The bytes and the packets that wait for an output port, from all input ports.
abbrev pub port_bytes : SharedBuffer → ℕ → ℕ
port_bytes b d = sum_range b.num_ports (λ s. queue_bytes (b.voq s d))

abbrev pub packets : SharedBuffer → ℕ
packets b = sum_grid b.num_ports (λ s d. length (b.voq s d))

-- The part of the invariant that each round of the storing loop keeps.
pub record Accounts (b : SharedBuffer) : Type 0 where
  pub counted : (d : ℕ) → b.port_used_bytes d ≡ port_bytes b d
  pub peaked : (d : ℕ) → b.port_used_bytes d ≤ b.port_peak_bytes d

module _ (b : SharedBuffer) (e : VoqEntry) (p : ℕ) (inside : e.input_port < b.num_ports) where
  store-counted :
      Accounts b
      → (d : ℕ)
      → (store b e (packet_size e) p).port_used_bytes d ≡ port_bytes (store b e (packet_size e) p) d
  unfolding store
  store-counted v d = elim (Bool-cases (p == d)) [
    | inl hit ↦ ground (
      arith,
      v.counted d,
      column-update2 queue_bytes b.num_ports b.voq e.input_port d (b.voq e.input_port d ++ e ∷ [])
          inside,
      queue_bytes-append (b.voq e.input_port d) (e ∷ []),
    )
    | inr miss ↦ ground (
      arith,
      v.counted d,
      column-update2_ne queue_bytes b.num_ports b.voq e.input_port p
          (b.voq e.input_port p ++ e ∷ []) d,
    )
  ]

  store-Accounts : Accounts b → Accounts (store b e (packet_size e) p)
  store-Accounts v = record {
    counted = store-counted v;
    peaked = λ d. unfold store in ground (arith, v.peaked d);
  }

  store-packets : p < b.num_ports → packets (store b e (packet_size e) p) ≡ packets b + 1
  unfolding store
  store-packets h = omega (
    arith,
    sum_grid-update2 length b.num_ports b.voq e.input_port p (b.voq e.input_port p ++ e ∷ []) inside
        h,
    length-append (b.voq e.input_port p) (e ∷ []),
  )

-- No port holds more than its limit, where it holds anything.
abbrev pub Within : SharedBuffer → Type 0
Within b =
    (d : ℕ)
    → (b.port_used_bytes d ≡ 0) ⊎ (leb_ℤ (b.port_used_bytes d) (b.port_limits_bytes d) ≡ true)

-- What the storing loop leaves alone.
pub record SameCounts (b c : SharedBuffer) : Type 0 where
  pub num_ports : c.num_ports ≡ b.num_ports
  pub word_size_bytes : c.word_size_bytes ≡ b.word_size_bytes
  pub port_limits_bytes : c.port_limits_bytes ≡ b.port_limits_bytes
  pub total_enqueued : c.total_enqueued ≡ b.total_enqueued
  pub total_dequeued : c.total_dequeued ≡ b.total_dequeued
  pub total_dropped : c.total_dropped ≡ b.total_dropped
  pub total_dropped_overflow : c.total_dropped_overflow ≡ b.total_dropped_overflow
  pub current_occupancy : c.current_occupancy ≡ b.current_occupancy
  pub peak_occupancy : c.peak_occupancy ≡ b.peak_occupancy
  pub peak_memory_used : c.peak_memory_used ≡ b.peak_memory_used

pub store_all-SameCounts :
    (ports : List ℕ) (b : SharedBuffer) (e : VoqEntry) (size : ℕ)
    → SameCounts b (store_all b e size ports)
unfolding store_all
store_all-SameCounts [] b e size = ground arith
store_all-SameCounts (p ∷ ports) b e size =
    ground (arith, store_all-SameCounts ports (store b e size p) e size)

pub store_all-Accounts :
    (ports : List ℕ) (b : SharedBuffer) (e : VoqEntry)
    → e.input_port < b.num_ports
    → Accounts b
    → Accounts (store_all b e (packet_size e) ports)
unfolding store_all
store_all-Accounts [] b e h v = v
store_all-Accounts (p ∷ ports) b e h v =
    store_all-Accounts ports (store b e (packet_size e) p) e h (store-Accounts b e p h v)

pub packets-store_all :
    (ports : List ℕ) (b : SharedBuffer) (e : VoqEntry)
    → e.input_port < b.num_ports
    → All (λ p. p < b.num_ports) ports
    → packets (store_all b e (packet_size e) ports) ≡ packets b + length ports
unfolding store_all
packets-store_all [] b e h a = omega arith
packets-store_all (p ∷ ports) b e h a = omega (
  arith,
  packets-store_all ports (store b e (packet_size e) p) e h a.1,
  store-packets b e p h a.0,
)

store-Within :
    (b : SharedBuffer) (e : VoqEntry) (size p : ℕ)
    → leb_ℤ (b.port_used_bytes p + size) (b.port_limits_bytes p) ≡ true
    → Within b
    → Within (store b e size p)
unfolding store
store-Within b e size p room w d = elim (Bool-cases (p == d)) [
  | inl hit ↦ inr (ground arith)
  | inr miss ↦ ground (arith, w d)
]

pub store_all-Within :
    (ports : List ℕ) (b : SharedBuffer) (e : VoqEntry) (size : ℕ)
    → Distinct ports
    → has_room b.port_limits_bytes b.port_used_bytes size ports ≡ true
    → Within b
    → Within (store_all b e size ports)
unfolding store_all has_room
store_all-Within [] b e size d r w = w
store_all-Within (p ∷ ports) b e size d r w =
    store_all-Within ports (store b e size p) e size d.1
      (ground (
        arith,
        has_room-update b.port_limits_bytes b.port_used_bytes size p (b.port_used_bytes p + size)
            ports,
      ))
      (store-Within b e size p (ground arith) w)
