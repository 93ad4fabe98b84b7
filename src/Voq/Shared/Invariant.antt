-- ===== src/Voq/Shared/Invariant.antt =====
-- buffer_voq.py: the accounts of `OneBufferPerPortBuffer` agree with its queues.
use spac.Base.{
  ℕ, ◌-◌, ◌*◌, ◌≤◌, ◌<◌, ◌≡◌, refl, ap, subst, inl, inr, Bool, true, false, List, [], ◌∷◌, Option,
  none, some, arith, length, update, sum_range, sum_grid, ◌==◌, column-update2, column-update2_ne,
  sum_grid-update2, sum_range-zero, Bool-cases, Option-cases, sum_range_mono, leb_ℤ-mono, ltb,
  ltb→lt,
}
use spac.Voq.Entry.{VoqEntry, Arrival, packet_size, queue_bytes, new_entry, has_room}
use spac.Voq.Shared.{
  SharedBuffer, init, reset, store_all, count_enqueued, count_dropped, enqueue_to, enqueue_packet,
  pop_front, dequeue_packet,
}
use spac.Voq.Ports.{IsPortList, get_output_ports-IsPortList}
use spac.Voq.Entry.{get_output_ports}
use spac.Config.{SwitchConfig}
use spac.Voq.Shared.Accounts.{
  packets, Accounts, Within, store_all-SameCounts, store_all-Accounts, packets-store_all,
  store_all-Within,
}

-- The accounts agree with the queues, no port is over its limit, and the peaks are bounds.
pub record IsValid (b : SharedBuffer) : Type 0 where
  pub accounts : Accounts b
  pub within : Within b
  pub occupied : b.current_occupancy ≡ packets b
  pub peak : b.current_occupancy ≤ b.peak_occupancy
  pub memory : sum_range b.num_ports b.port_used_bytes ≤ b.peak_memory_used
  pub drops : b.total_dropped ≡ b.total_dropped_overflow

packets_none : (n : ℕ) → sum_grid n (λ s d. 0) ≡ 0
packets_none n = sum_range-zero n _ (λ i h. sum_range-zero n _ (λ j k. refl))

-- A new buffer is valid.
pub init-IsValid : (c : SwitchConfig) → IsValid (init c)
unfolding init
init-IsValid c = record {
  accounts = record {
    counted = λ d. omega (arith, sum_range-zero c.num_ports (λ s. 0) (λ i h. refl));
    peaked = λ d. omega arith;
  };
  within = λ d. inl refl;
  occupied = omega (arith, packets_none c.num_ports);
  peak = omega arith;
  memory = omega (arith, sum_range-zero c.num_ports (λ s. 0) (λ i h. refl));
  drops = refl;
}

-- So is one after `reset`.
pub reset-IsValid : (b : SharedBuffer) → IsValid (reset b)
unfolding reset
reset-IsValid b = record {
  accounts = record {
    counted = λ d. omega (arith, sum_range-zero b.num_ports (λ s. 0) (λ i h. refl));
    peaked = λ d. omega arith;
  };
  within = λ d. inl refl;
  occupied = omega (arith, packets_none b.num_ports);
  peak = omega arith;
  memory = omega (arith, sum_range-zero b.num_ports (λ s. 0) (λ i h. refl));
  drops = refl;
}

stored-IsValid :
    (b : SharedBuffer) (a : Arrival) (ports : List ℕ)
    → IsPortList b.num_ports ports
    → a.input_port < b.num_ports
    → has_room b.port_limits_bytes b.port_used_bytes (length a.data_words * b.word_size_bytes) ports
      ≡ true
    → IsValid b
    → IsValid (
        count_enqueued
          (store_all b
            (new_entry b.word_size_bytes a)
            (length a.data_words * b.word_size_bytes)
            ports)
          (length ports))
unfolding count_enqueued
stored-IsValid b a ports l h r v =
    let e = new_entry b.word_size_bytes a in
    let same = store_all-SameCounts ports b e (packet_size e) in
    let accounts' = store_all-Accounts ports b e h v.accounts in
    record {
      accounts = record { counted = accounts'.counted; peaked = accounts'.peaked };
      within = store_all-Within ports b e (packet_size e) l.distinct r v.within;
      occupied =
          omega (arith, packets-store_all ports b e h l.inside, same.current_occupancy, v.occupied);
      peak = omega arith;
      memory = omega arith;
      drops = omega (arith, same.total_dropped, same.total_dropped_overflow, v.drops);
    }

dropped-IsValid : (b : SharedBuffer) → IsValid b → IsValid (count_dropped b)
unfolding count_dropped
dropped-IsValid b v = record {
  accounts = record { counted = v.accounts.counted; peaked = v.accounts.peaked };
  within = v.within;
  occupied = v.occupied;
  peak = v.peak;
  memory = v.memory;
  drops = omega (arith, v.drops);
}

-- The three ways that `enqueue_to` ends.
enqueue_to_cases {ℓ} :
    (P : Option (Bool × SharedBuffer) → Type ℓ) (b : SharedBuffer) (a : Arrival) (ports : List ℕ)
    → P none
    → P (some (false, count_dropped b))
    → (a.input_port < b.num_ports
        → has_room b.port_limits_bytes b.port_used_bytes
            (length a.data_words * b.word_size_bytes)
            ports
          ≡ true
        → P (
            some (
              true,
              count_enqueued
                  (store_all b
                    (new_entry b.word_size_bytes a)
                    (length a.data_words * b.word_size_bytes)
                    ports)
                  (length ports),
            )))
    → P (enqueue_to b a ports)
unfolding enqueue_to
enqueue_to_cases P b a ports bad full room =
    let size = length a.data_words * b.word_size_bytes in
    elim (Bool-cases (has_room b.port_limits_bytes b.port_used_bytes size ports)) [
      | inr no_room ↦ rw no_room full
      | inl has ↦ elim (Bool-cases (ltb a.input_port b.num_ports)) [
        | inl inside ↦ rw (has, inside) (room (ltb→lt _ _ inside) has)
        | inr outside ↦ rw (has, outside) bad
      ]
    ]

-- What holds of the buffer that an operation returns, if it returns.
abbrev pub After {ℓ} : {A : Type 0} {B : Type 0} → (B → Type ℓ) → Option (A × B) → Type ℓ
After P none = Unit
After P (some (r, b)) = P b

enqueue_to-IsValid :
    (b : SharedBuffer) (a : Arrival) (ports : List ℕ)
    → IsPortList b.num_ports ports
    → IsValid b
    → After IsValid (enqueue_to b a ports)
enqueue_to-IsValid b a ports l v =
    enqueue_to_cases (After IsValid) b a ports tt (dropped-IsValid b v)
      (λ h r. stored-IsValid b a ports l h r v)

-- `enqueue_packet` keeps the invariant, whether it stores the packet or drops it.
pub enqueue_packet-IsValid :
    (b : SharedBuffer) (a : Arrival) {done : Bool} {b' : SharedBuffer}
    → IsValid b
    → enqueue_packet b a ≡ some (done, b')
    → IsValid b'
unfolding enqueue_packet
enqueue_packet-IsValid b a {done} {b'} v h =
    elim (Option-cases (get_output_ports b.num_ports a.input_port a.metadata)) [
      | inl bad ↦ ground arith
      | inr (ports, good) ↦
          let l = get_output_ports-IsPortList b.num_ports a.input_port a.metadata good in
          let e : enqueue_to b a ports ≡ some (done, b') = ground arith in
          subst (After IsValid) e (enqueue_to-IsValid b a ports l v)
    ]

pop_front-IsValid :
    (b : SharedBuffer) (s d : ℕ) (q : List VoqEntry)
    → s < b.num_ports
    → d < b.num_ports
    → b.voq s d ≡ q
    → IsValid b
    → IsValid (pop_front b s d q).1
unfolding pop_front
pop_front-IsValid b s d [] hs hd e v = v
pop_front-IsValid b s d (x ∷ q) hs hd e v = record {
  accounts = record {
    counted = λ p. elim (Bool-cases (d == p)) [
      | inl hit ↦ ground (
        arith,
        v.accounts.counted p,
        column-update2 queue_bytes b.num_ports b.voq s p q hs,
        ap queue_bytes e,
      )
      | inr miss ↦
          ground
            (arith, v.accounts.counted p, column-update2_ne queue_bytes b.num_ports b.voq s d q p)
    ];
    peaked = λ p. ground (arith, v.accounts.peaked p);
  };
  within = λ p. ground (
    arith,
    v.within p,
    leb_ℤ-mono (b.port_used_bytes p - packet_size x) (b.port_used_bytes p) (b.port_limits_bytes p),
  );
  occupied =
      omega (arith, sum_grid-update2 length b.num_ports b.voq s d q hs hd, v.occupied, ap length e);
  peak = omega arith;
  memory = omega (
    arith,
    sum_range_mono b.num_ports (update b.port_used_bytes d (b.port_used_bytes d - packet_size x))
        b.port_used_bytes (λ p. ground arith),
  );
  drops = omega arith;
}

-- `dequeue_packet` keeps the invariant.
pub dequeue_packet-IsValid :
    (b : SharedBuffer) (s d : ℕ) {r : Option VoqEntry} {b' : SharedBuffer}
    → IsValid b
    → dequeue_packet b s d ≡ some (r, b')
    → IsValid b'
unfolding dequeue_packet
dequeue_packet-IsValid b s d {r} {b'} v h =
    let popped : pop_front b s d (b.voq s d) ≡ (r, b') = ground arith in
    rw (← ap (λ (t : Option VoqEntry × SharedBuffer). t.1) popped)
      (pop_front-IsValid b s d (b.voq s d) (ground arith) (ground arith) refl v)
