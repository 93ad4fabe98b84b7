-- ===== src/Tests/Voq.antt =====
-- Tests of the buffers.
use spac.Base.{◌≡◌, refl, true, false, List, [], ◌∷◌, Option, none, some, arith}
use spac.Config.{get_voq_size, one_buffer_per_port, n_buffers_per_port}
use spac.Packet.{Metadata}
use spac.Voq.Entry.{get_output_ports}
use spac.Voq.Interface.{VoqBuffer}
use spac.Voq.Shared.{SharedBuffer}
use spac.Voq.Pairs.{PairBuffer}
use spac.Voq.Shared as Shared
use spac.Voq.Pairs as Pairs
use spac.Voq.Shared.Invariant as Shared_invariant
use spac.Voq.Pairs.Invariant as Pairs_invariant
use spac.Voq.Shared.Contents.{shared_voq}
use spac.Voq.Pairs.Contents.{pair_voq}
use spac.Voq.History.{History, Call, arrive, serve, InOrder, run}
use spac.Voq.Fifo.{unused, run-InOrder_of_shared, run-InOrder_of_pairs}
use spac.Voq.Limits.{enqueue_packet_full, enqueue_packet_hairpin}
use spac.Tests.{config_for, to_port, arrival}

abbrev shared : SharedBuffer
shared = Shared.init (config_for one_buffer_per_port)

abbrev pairs : PairBuffer
pairs = Pairs.init (config_for n_buffers_per_port)

-- What a call left, or `b` if it raised an exception.
abbrev after {ℓ ℓ'} : {A : Type ℓ} {B : Type ℓ'} → B → Option (A × B) → B
after b none = b
after b (some r) = r.1

-- Two packets fit into an account of 128 bytes, and a third is dropped.
three_arrivals :
    (after pairs (
      Pairs.enqueue_packet
        (after pairs (
          Pairs.enqueue_packet
            (after pairs (Pairs.enqueue_packet pairs (arrival 0 1)))
            (arrival 0 1)))
        (arrival 0 1))).total_dropped
    ≡ 1
unfolding Pairs.enqueue_packet Pairs.init get_voq_size
three_arrivals = refl

enqueue_packet-IsValid_example :
    Shared_invariant.IsValid (after shared (Shared.enqueue_packet shared (arrival 0 1)))
unfolding Shared.enqueue_packet Shared.init get_voq_size
enqueue_packet-IsValid_example =
    Shared_invariant.enqueue_packet-IsValid shared (arrival 0 1)
      (Shared_invariant.init-IsValid (config_for one_buffer_per_port)) refl

dequeue_packet-IsValid_example : Shared_invariant.IsValid (
    after shared
      (Shared.dequeue_packet (after shared (Shared.enqueue_packet shared (arrival 0 1))) 0 1))
unfolding Shared.enqueue_packet Shared.dequeue_packet Shared.init get_voq_size
dequeue_packet-IsValid_example =
    Shared_invariant.dequeue_packet-IsValid
      (after shared (Shared.enqueue_packet shared (arrival 0 1))) 0 1 enqueue_packet-IsValid_example
      refl

enqueue_packet-IsValid_of_pairs_example :
    Pairs_invariant.IsValid (after pairs (Pairs.enqueue_packet pairs (arrival 0 1)))
unfolding Pairs.enqueue_packet Pairs.init get_voq_size
enqueue_packet-IsValid_of_pairs_example =
    Pairs_invariant.enqueue_packet-IsValid_of_pairs pairs (arrival 0 1)
      (Pairs_invariant.init-IsValid (config_for n_buffers_per_port)) refl

dequeue_packet-IsValid_of_pairs_example : Pairs_invariant.IsValid (
    after pairs (Pairs.dequeue_packet (after pairs (Pairs.enqueue_packet pairs (arrival 0 1))) 0 1))
unfolding Pairs.enqueue_packet Pairs.dequeue_packet Pairs.init get_voq_size
dequeue_packet-IsValid_of_pairs_example =
    Pairs_invariant.dequeue_packet-IsValid_of_pairs
      (after pairs (Pairs.enqueue_packet pairs (arrival 0 1))) 0 1
      enqueue_packet-IsValid_of_pairs_example refl

abbrev to_all : Metadata
to_all = record (to_port 0) { broadcast = true }

abbrev calls : List Call
calls = arrive (arrival 0 1) ∷ arrive (arrival 1 0) ∷ serve 0 1 ∷ []

abbrev last_history : {B : Type 0} (v : VoqBuffer B) → History v → Option (History v) → History v
last_history v h none = h
last_history v h (some h') = h'

abbrev shared_history : History shared_voq
shared_history = unused shared_voq shared

abbrev pair_history : History pair_voq
pair_history = unused pair_voq pairs

run-InOrder_of_shared_example :
    InOrder shared_voq
      (last_history shared_voq shared_history (run shared_voq shared_history calls))
unfolding run Shared.init Shared.enqueue_packet Shared.dequeue_packet get_output_ports get_voq_size
run-InOrder_of_shared_example = run-InOrder_of_shared (config_for one_buffer_per_port) calls refl

run-InOrder_of_pairs_example :
    InOrder pair_voq (last_history pair_voq pair_history (run pair_voq pair_history calls))
unfolding run Pairs.init Pairs.enqueue_packet Pairs.dequeue_packet get_output_ports get_voq_size
run-InOrder_of_pairs_example = run-InOrder_of_pairs (config_for n_buffers_per_port) calls refl

-- A packet of one word does not fit beside 128 bytes.
abbrev full_shared : SharedBuffer
full_shared = record shared { port_used_bytes = λ p. 128 }

enqueue_packet_full_example :
    Shared.enqueue_packet full_shared (arrival 0 1)
    ≡ some (false, record full_shared { total_dropped = 1; total_dropped_overflow = 1 })
unfolding Shared.init get_voq_size get_output_ports
enqueue_packet_full_example =
    enqueue_packet_full full_shared (arrival 0 1) (1 ∷ []) 1 refl refl refl

enqueue_packet_hairpin_example :
    Pairs.enqueue_packet pairs (arrival 1 1)
    ≡ some (false, record pairs { total_dropped = 1; total_dropped_overflow = 1 })
unfolding Pairs.init
enqueue_packet_hairpin_example =
    enqueue_packet_hairpin (config_for n_buffers_per_port) pairs (arrival 1 1) refl refl refl
      (omega arith) (omega arith) (omega arith)
