-- ===== src/Voq/Pairs/Contents.antt =====
-- buffer_voq.py: `NBuffersPerPortBuffer` as an implementation of the interface.
use spac.Base.{
  ℕ, ◌<◌, ◌≡◌, Bool, true, false, List, [], ◌∷◌, Option, some, arith, Distinct, Option-cases,
  update2, inl, inr,
}
use spac.Voq.Entry.{VoqEntry, Arrival, new_entry, get_output_ports}
use spac.Voq.Ports.{get_output_ports-IsPortList}
use spac.Voq.Interface.{VoqBuffer, append_to, first, rest}
use spac.Voq.Pairs.{PairBuffer, store, store_all, enqueue_packet, pop_front, dequeue_packet}
use spac.Voq.Pairs.Accounts.{store_all-SameCounts}

voq-store_all :
    (ports : List ℕ) (b : PairBuffer) (e : VoqEntry) (src dst : ℕ)
    → Distinct ports
    → (store_all b e ports).voq src dst ≡ append_to b.voq e.input_port ports e src dst
unfolding store_all
voq-store_all [] b e src dst d = ground arith
voq-store_all (p ∷ ports) b e src dst d =
    ground (arith, voq-store_all ports (store b e p) e src dst d.1)

module _ (b b' : PairBuffer) (a : Arrival) where
  -- A stored packet stands at the end of its queues, and no other queue has changed.
  pub enqueue_packet-stored_of_pairs :
      (ports : List ℕ) (src dst : ℕ)
      → get_output_ports b.num_ports a.input_port a.metadata ≡ some ports
      → enqueue_packet b a ≡ some (true, b')
      → b'.voq src dst ≡ append_to b.voq a.input_port ports (new_entry b.word_size_bytes a) src dst
  unfolding enqueue_packet
  enqueue_packet-stored_of_pairs ports src dst g h =
      let l = get_output_ports-IsPortList b.num_ports a.input_port a.metadata g in
      ground (arith, voq-store_all ports b (new_entry b.word_size_bytes a) src dst l.distinct)

  pub enqueue_packet-dropped :
      (src dst : ℕ) → enqueue_packet b a ≡ some (false, b') → b'.voq src dst ≡ b.voq src dst
  unfolding enqueue_packet
  enqueue_packet-dropped src dst h = ground arith

  pub enqueue_packet-kept :
      (done : Bool)
      → enqueue_packet b a ≡ some (done, b')
      → (b'.num_ports ≡ b.num_ports) × (b'.word_size_bytes ≡ b.word_size_bytes)
  unfolding enqueue_packet
  enqueue_packet-kept done h =
      elim (Option-cases (get_output_ports b.num_ports a.input_port a.metadata)) [
        | inl bad ↦ ground arith
        | inr (ports, good) ↦
            ground (arith, store_all-SameCounts ports b (new_entry b.word_size_bytes a))
      ]

pub dequeue_packet-total :
    (b : PairBuffer) (src dst : ℕ)
    → src < b.num_ports
    → dst < b.num_ports
    → (b' : PairBuffer) × (dequeue_packet b src dst ≡ some (first (b.voq src dst), b'))
unfolding dequeue_packet
dequeue_packet-total b src dst h k = ((pop_front b src dst (b.voq src dst)).1, ground arith)

module _ (b b' : PairBuffer) (src dst : ℕ) (r : Option VoqEntry)
    (h : dequeue_packet b src dst ≡ some (r, b')) where
  pub dequeue_packet-popped :
      (s d : ℕ) → b'.voq s d ≡ update2 b.voq src dst (rest (b.voq src dst)) s d
  unfolding dequeue_packet
  dequeue_packet-popped s d = ground arith

  pub dequeue_packet-first : r ≡ first (b.voq src dst)
  unfolding dequeue_packet
  dequeue_packet-first = ground arith

  pub dequeue_packet-kept : (b'.num_ports ≡ b.num_ports) × (b'.word_size_bytes ≡ b.word_size_bytes)
  unfolding dequeue_packet
  dequeue_packet-kept = ground arith

abbrev pub pair_voq : VoqBuffer PairBuffer
pair_voq = record {
  num_ports = λ b. b.num_ports;
  word_size_bytes = λ b. b.word_size_bytes;
  queue = λ b. b.voq;
  enqueue_packet = enqueue_packet;
  dequeue_packet = dequeue_packet;
  enqueue-stored = enqueue_packet-stored_of_pairs;
  enqueue-dropped = enqueue_packet-dropped;
  enqueue-kept = enqueue_packet-kept;
  dequeue-total = dequeue_packet-total;
  dequeue-popped = λ b b' src dst s d r h. dequeue_packet-popped b b' src dst r h s d;
  dequeue-first = dequeue_packet-first;
  dequeue-kept = dequeue_packet-kept;
}
