-- ===== src/Voq/Pairs.antt =====
-- buffer_voq.py: `NBuffersPerPortBuffer`, one byte account for each pair of ports.
pub mod Accounts
pub mod Invariant
pub mod Contents
use spac.Base.{
  ℕ, ◌+◌, ◌-◌, ◌*◌, ◌/◌, max, Bool, true, false, List, [], ◌∷◌, ◌++◌, Option, none, some, ℤ, pos,
  ltb, if◌then◌else◌, ◌==◌, length, update2, sum_range, ◌>>=◌,
}
use spac.Config.{SwitchConfig, get_voq_size}
use spac.Voq.Entry.{VoqEntry, Arrival, packet_size, new_entry, get_output_ports, has_room}

pub record PairBuffer : Type 0 where
  pub num_ports : ℕ
  pub word_size_bytes : ℕ
  pub voq : ℕ → ℕ → List VoqEntry
  pub voq_limits_bytes : ℕ → ℕ → ℤ
  pub voq_used_bytes : ℕ → ℕ → ℕ
  pub voq_peak_bytes : ℕ → ℕ → ℕ
  pub total_enqueued : ℕ
  pub total_dequeued : ℕ
  pub total_dropped : ℕ
  pub total_dropped_overflow : ℕ
  pub current_occupancy : ℕ
  pub peak_occupancy : ℕ

-- The limit that `__init__` gives a pair: none for a port and itself.
unfoldable pub limit_of : SwitchConfig → ℕ → ℕ → ℤ
limit_of c src dst = if src == dst then pos 0 else get_voq_size c src dst

-- `__init__`
unfoldable pub init : SwitchConfig → PairBuffer
unfolding limit_of
init c = record {
  num_ports = c.num_ports;
  word_size_bytes = c.axis_data_width / 8;
  voq = λ src dst. [];
  voq_limits_bytes = limit_of c;
  voq_used_bytes = λ src dst. 0;
  voq_peak_bytes = λ src dst. 0;
  total_enqueued = 0;
  total_dequeued = 0;
  total_dropped = 0;
  total_dropped_overflow = 0;
  current_occupancy = 0;
  peak_occupancy = 0;
}

-- `reset`
unfoldable pub reset : PairBuffer → PairBuffer
reset b = record b {
  voq = λ src dst. [];
  voq_used_bytes = λ src dst. 0;
  voq_peak_bytes = λ src dst. 0;
  total_enqueued = 0;
  total_dequeued = 0;
  total_dropped = 0;
  total_dropped_overflow = 0;
  current_occupancy = 0;
  peak_occupancy = 0;
}

-- One round of the storing loop of `enqueue_packet`.
unfoldable pub store : PairBuffer → VoqEntry → ℕ → PairBuffer
store b e dst = record b {
  voq = update2 b.voq e.input_port dst (b.voq e.input_port dst ++ e ∷ []);
  voq_used_bytes =
      update2 b.voq_used_bytes e.input_port dst (b.voq_used_bytes e.input_port dst + packet_size e);
  voq_peak_bytes =
      update2 b.voq_peak_bytes e.input_port dst (
        max (b.voq_peak_bytes e.input_port dst)
          (b.voq_used_bytes e.input_port dst + packet_size e));
}

unfoldable pub store_all : PairBuffer → VoqEntry → List ℕ → PairBuffer
unfolding store
store_all b e [] = b
store_all b e (dst ∷ ports) = store_all (store b e dst) e ports

-- The counters after the storing loop, at `copies` output ports.
unfoldable pub count_enqueued : PairBuffer → ℕ → PairBuffer
count_enqueued b copies = record b {
  total_enqueued = b.total_enqueued + 1;
  current_occupancy = b.current_occupancy + copies;
  peak_occupancy = max b.peak_occupancy (b.current_occupancy + copies);
}

unfoldable pub count_dropped : PairBuffer → PairBuffer
count_dropped b = record b {
  total_dropped = b.total_dropped + 1;
  total_dropped_overflow = b.total_dropped_overflow + 1;
}

-- What `enqueue_packet` does once the output ports are known. The input port is the first
-- subscript of the loop that looks for a full queue.
unfoldable pub enqueue_to : PairBuffer → Arrival → List ℕ → Option (Bool × PairBuffer)
unfolding has_room store_all count_enqueued count_dropped
enqueue_to b a ports =
    let e = new_entry b.word_size_bytes a in
    if ltb a.input_port b.num_ports
    then (if has_room (b.voq_limits_bytes a.input_port) (b.voq_used_bytes a.input_port)
          (packet_size e) ports
        then some (true, count_enqueued (store_all b e ports) (length ports))
        else some (false, count_dropped b))
    else none

-- `enqueue_packet`
unfoldable pub enqueue_packet : PairBuffer → Arrival → Option (Bool × PairBuffer)
unfolding enqueue_to get_output_ports
enqueue_packet b a =
    get_output_ports b.num_ports a.input_port a.metadata >>= λ ports. enqueue_to b a ports

-- The account of a pair after a packet has left; `-` stops at 0, as `max(0, …)` makes it. The
-- occupancy is never 0 here, by the invariant of `Invariant`.
unfoldable pub pop_front : PairBuffer → ℕ → ℕ → List VoqEntry → Option VoqEntry × PairBuffer
pop_front b src dst [] = (none, b)
pop_front b src dst (e ∷ q) = (
  some e,
  record b {
    voq = update2 b.voq src dst q;
    voq_used_bytes = update2 b.voq_used_bytes src dst (b.voq_used_bytes src dst - packet_size e);
    total_dequeued = b.total_dequeued + 1;
    current_occupancy = b.current_occupancy - 1;
  },
)

-- `dequeue_packet`
unfoldable pub dequeue_packet : PairBuffer → ℕ → ℕ → Option (Option VoqEntry × PairBuffer)
unfolding pop_front
dequeue_packet b src dst =
    if ltb src b.num_ports
    then (if ltb dst b.num_ports then some (pop_front b src dst (b.voq src dst)) else none)
    else none

-- `get_total_occupancy`
unfoldable pub get_total_occupancy : PairBuffer → ℕ
get_total_occupancy b =
    sum_range b.num_ports (λ src. sum_range b.num_ports (λ dst. length (b.voq src dst)))
