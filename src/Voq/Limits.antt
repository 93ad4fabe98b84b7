-- ===== src/Voq/Limits.antt =====
-- buffer_voq.py: which packets `enqueue_packet` drops.
use spac.Base.{
  ℕ, ◌+◌, ◌*◌, ◌<◌, ◌≡◌, refl, ◌∙◌, true, false, List, [], ◌∷◌, some, ℤ, pos, length, member, leb_ℤ,
  lt→ltb, ap, ==_refl, arith,
}
use spac.Config.{SwitchConfig}
use spac.Voq.Entry.{Arrival, has_room, get_output_ports}
use spac.Voq.Shared.{SharedBuffer}
use spac.Voq.Pairs.{PairBuffer}
use spac.Voq.Shared as Shared
use spac.Voq.Pairs as Pairs

-- One port without room is enough.
has_room_full :
    (limits : ℕ → ℤ) (used : ℕ → ℕ) (size p : ℕ) (ports : List ℕ)
    → member p ports ≡ true
    → leb_ℤ (used p + size) (limits p) ≡ false
    → has_room limits used size ports ≡ false
unfolding has_room
has_room_full limits used size p [] m f = cc
has_room_full limits used size p (q ∷ ports) m f =
    ground (arith, has_room_full limits used size p ports)

-- A packet that one of its output ports has no room for is stored at none of them: it is dropped,
-- and only the counters of drops change.
pub enqueue_packet_full :
    (b : SharedBuffer) (a : Arrival) (ports : List ℕ) (p : ℕ)
    → get_output_ports b.num_ports a.input_port a.metadata ≡ some ports
    → member p ports ≡ true
    → leb_ℤ (b.port_used_bytes p + length a.data_words * b.word_size_bytes) (b.port_limits_bytes p)
      ≡ false
    → Shared.enqueue_packet b a
      ≡ some (
        false,
        record b {
          total_dropped = b.total_dropped + 1;
          total_dropped_overflow = b.total_dropped_overflow + 1;
        },
      )
unfolding Shared.enqueue_packet
enqueue_packet_full b a ports p g m f =
    rw
      (
        g,
        has_room_full b.port_limits_bytes b.port_used_bytes
            (length a.data_words * b.word_size_bytes) p ports m f,
      )
      refl

own_limit :
    (c : SwitchConfig) (b : PairBuffer) (p : ℕ)
    → b.voq_limits_bytes ≡ Pairs.limit_of c
    → b.voq_limits_bytes p p ≡ pos 0
unfolding Pairs.limit_of
own_limit c b p l = ap (λ f. f p p) l ∙ rw (==_refl p) refl

size_positive : (m n : ℕ) → 0 < m → 0 < n → 0 < m * n
size_positive m n h k = grind arith

no_room :
    (limits : ℕ → ℤ) (used : ℕ → ℕ) (size p : ℕ)
    → limits p ≡ pos 0
    → 0 < size
    → has_room limits used size (p ∷ []) ≡ false
unfolding has_room
no_room limits used size p l s = rw l (ground arith)

-- The queue of a port to itself holds nothing: a buffer with a queue for each pair of ports, whose
-- limits come from the configuration, drops a packet that is to leave by the port it came in by,
-- if that packet has a word and words have bytes.
pub enqueue_packet_hairpin :
    (c : SwitchConfig) (b : PairBuffer) (a : Arrival)
    → b.voq_limits_bytes ≡ Pairs.limit_of c
    → a.metadata.broadcast ≡ false
    → a.metadata.dst_port ≡ pos a.input_port
    → a.input_port < b.num_ports
    → 0 < length a.data_words
    → 0 < b.word_size_bytes
    → Pairs.enqueue_packet b a
      ≡ some (
        false,
        record b {
          total_dropped = b.total_dropped + 1;
          total_dropped_overflow = b.total_dropped_overflow + 1;
        },
      )
unfolding Pairs.enqueue_packet
enqueue_packet_hairpin c b a l u d i w s =
    let limit = own_limit c b a.input_port l in
    let size = size_positive (length a.data_words) b.word_size_bytes w s in
    let full : has_room (b.voq_limits_bytes a.input_port) (b.voq_used_bytes a.input_port)
          (length a.data_words * b.word_size_bytes) (a.input_port ∷ [])
        ≡ false =
      no_room (b.voq_limits_bytes a.input_port) (b.voq_used_bytes a.input_port)
        (length a.data_words * b.word_size_bytes) a.input_port limit size in
    rw (u, d, lt→ltb a.input_port b.num_ports i, full) refl
