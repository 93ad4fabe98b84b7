-- ===== src/Voq/Pairs/Invariant.antt =====
-- buffer_voq.py: every operation of `NBuffersPerPortBuffer` keeps the accounts of its pairs.
use spac.Base.{
  ℕ, ◌-◌, ◌≤◌, ◌<◌, ◌≡◌, refl, ap, subst, inl, inr, Bool, true, List, [], ◌∷◌, Option, some, arith,
  length, sum_grid, leb_ℤ-mono, sum_grid-update2, sum_range-zero, Bool-cases, Option-cases,
}
use spac.Config.{SwitchConfig}
use spac.Voq.Entry.{
  VoqEntry, Arrival, packet_size, queue_bytes, new_entry, has_room, get_output_ports,
}
use spac.Voq.Ports.{IsPortList, get_output_ports-IsPortList}
use spac.Voq.Pairs.{
  PairBuffer, init, reset, store_all, count_enqueued, count_dropped, enqueue_packet, pop_front,
  dequeue_packet,
}
use spac.Voq.Pairs.Accounts.{
  packets, Accounts, store_all-Accounts, store_all-SameCounts, packets-store_all,
}

pub record IsValid (b : PairBuffer) : Type 0 where
  pub accounts : Accounts b
  pub occupied : b.current_occupancy ≡ packets b
  pub peak : b.current_occupancy ≤ b.peak_occupancy
  pub drops : b.total_dropped ≡ b.total_dropped_overflow

packets_none : (n : ℕ) → sum_grid n (λ s d. 0) ≡ 0
packets_none n = sum_range-zero n _ (λ i h. sum_range-zero n _ (λ j k. refl))

-- A new buffer is valid.
pub init-IsValid : (c : SwitchConfig) → IsValid (init c)
unfolding init
init-IsValid c = record {
  accounts = record {
    counted = λ s d. refl;
    peaked = λ s d. omega arith;
    within = λ s d. inl refl;
  };
  occupied = omega (arith, packets_none c.num_ports);
  peak = omega arith;
  drops = refl;
}

-- So is one after `reset`.
pub reset-IsValid : (b : PairBuffer) → IsValid (reset b)
unfolding reset
reset-IsValid b = record {
  accounts = record {
    counted = λ s d. refl;
    peaked = λ s d. omega arith;
    within = λ s d. inl refl;
  };
  occupied = omega (arith, packets_none b.num_ports);
  peak = omega arith;
  drops = refl;
}

stored-IsValid :
    (b : PairBuffer) (a : Arrival) (ports : List ℕ)
    → let e = new_entry b.word_size_bytes a in
      IsPortList b.num_ports ports
      → a.input_port < b.num_ports
      → has_room
          (b.voq_limits_bytes a.input_port)
          (b.voq_used_bytes a.input_port)
          (packet_size e)
          ports
        ≡ true
      → IsValid b
      → IsValid (count_enqueued (store_all b e ports) (length ports))
unfolding count_enqueued
stored-IsValid b a ports l h r v =
    let e = new_entry b.word_size_bytes a in
    let same = store_all-SameCounts ports b e in
    let accounts' = store_all-Accounts ports b e l.distinct r v.accounts in
    record {
      accounts = record {
        counted = accounts'.counted;
        peaked = accounts'.peaked;
        within = accounts'.within;
      };
      occupied =
          omega (arith, packets-store_all ports b e h l.inside, same.current_occupancy, v.occupied);
      peak = omega arith;
      drops = omega (arith, same.total_dropped, same.total_dropped_overflow, v.drops);
    }

dropped-IsValid : (b : PairBuffer) → IsValid b → IsValid (count_dropped b)
unfolding count_dropped
dropped-IsValid b v = record {
  accounts = record {
    counted = v.accounts.counted;
    peaked = v.accounts.peaked;
    within = v.accounts.within;
  };
  occupied = v.occupied;
  peak = v.peak;
  drops = omega (arith, v.drops);
}

-- `enqueue_packet` keeps the invariant, whether it stores the packet or drops it.
pub enqueue_packet-IsValid_of_pairs :
    (b : PairBuffer) (a : Arrival) {done : Bool} {b' : PairBuffer}
    → IsValid b
    → enqueue_packet b a ≡ some (done, b')
    → IsValid b'
unfolding enqueue_packet
enqueue_packet-IsValid_of_pairs b a {done} {b'} v h =
    elim (Option-cases (get_output_ports b.num_ports a.input_port a.metadata)) [
      | inl bad ↦ ground arith
      | inr (ports, good) ↦
          let l = get_output_ports-IsPortList b.num_ports a.input_port a.metadata good in
          let e = new_entry b.word_size_bytes a in
          elim (Bool-cases (
            has_room (b.voq_limits_bytes a.input_port) (b.voq_used_bytes a.input_port)
              (packet_size e) ports)) [
                | inl room ↦
                    let same : count_enqueued (store_all b e ports) (length ports) ≡ b' =
                      ground arith in
                    subst IsValid same (stored-IsValid b a ports l (ground arith) room v)
                | inr full ↦
                    let same : count_dropped b ≡ b' = ground arith in
                    subst IsValid same (dropped-IsValid b v)
              ]
    ]

pop_front-IsValid :
    (b : PairBuffer) (s d : ℕ) (q : List VoqEntry)
    → s < b.num_ports
    → d < b.num_ports
    → b.voq s d ≡ q
    → IsValid b
    → IsValid (pop_front b s d q).1
unfolding pop_front
pop_front-IsValid b s d [] hs hd e v = v
pop_front-IsValid b s d (x ∷ q) hs hd e v = record {
  accounts = record {
    counted = λ s' d'. ground (arith, v.accounts.counted s' d', ap queue_bytes e);
    peaked = λ s' d'. ground (arith, v.accounts.peaked s' d');
    within = λ s' d'. ground (
      arith,
      v.accounts.within s' d',
      leb_ℤ-mono (b.voq_used_bytes s' d' - packet_size x) (b.voq_used_bytes s' d')
          (b.voq_limits_bytes s' d'),
    );
  };
  occupied =
      omega (arith, sum_grid-update2 length b.num_ports b.voq s d q hs hd, v.occupied, ap length e);
  peak = omega arith;
  drops = v.drops;
}

-- `dequeue_packet` keeps the invariant.
pub dequeue_packet-IsValid_of_pairs :
    (b : PairBuffer) (s d : ℕ) {r : Option VoqEntry} {b' : PairBuffer}
    → IsValid b
    → dequeue_packet b s d ≡ some (r, b')
    → IsValid b'
unfolding dequeue_packet
dequeue_packet-IsValid_of_pairs b s d {r} {b'} v h =
    let popped : pop_front b s d (b.voq s d) ≡ (r, b') = ground arith in
    rw (← ap (λ (t : Option VoqEntry × PairBuffer). t.1) popped)
      (pop_front-IsValid b s d (b.voq s d) (ground arith) (ground arith) refl v)
