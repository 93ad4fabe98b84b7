-- ===== src/Voq/Shared.antt =====
-- buffer_voq.py: `OneBufferPerPortBuffer`, one byte account for each output port.
pub mod Accounts
pub mod Invariant
pub mod Contents
use spac.Base.{
  ℕ, ◌+◌, ◌-◌, ◌*◌, ◌/◌, max, Bool, true, false, List, [], ◌∷◌, ◌++◌, Option, none, some, ℤ, ltb,
  if◌then◌else◌, length, update, update2, sum_range, ◌>>=◌,
}
use spac.Config.{SwitchConfig, get_voq_size}
use spac.Voq.Entry.{VoqEntry, Arrival, packet_size, new_entry, get_output_ports, has_room, without}

pub record SharedBuffer : Type 0 where
  pub num_ports : ℕ
  pub word_size_bytes : ℕ
  pub port_limits_bytes : ℕ → ℤ
  pub port_used_bytes : ℕ → ℕ
  pub port_peak_bytes : ℕ → ℕ
  pub voq : ℕ → ℕ → List VoqEntry
  pub total_enqueued : ℕ
  pub total_dequeued : ℕ
  pub total_dropped : ℕ
  pub total_dropped_overflow : ℕ
  pub current_occupancy : ℕ
  pub peak_occupancy : ℕ
  pub peak_memory_used : ℕ

-- `reset`
unfoldable pub reset : SharedBuffer → SharedBuffer
reset b = record b {
  voq = λ src dst. [];
  port_used_bytes = λ p. 0;
  port_peak_bytes = λ p. 0;
  total_enqueued = 0;
  total_dequeued = 0;
  total_dropped = 0;
  total_dropped_overflow = 0;
  current_occupancy = 0;
  peak_occupancy = 0;
  peak_memory_used = 0;
}

-- `__init__`
unfoldable pub init : SwitchConfig → SharedBuffer
init c = record {
  num_ports = c.num_ports;
  word_size_bytes = c.axis_data_width / 8;
  port_limits_bytes = λ dst. get_voq_size c 0 dst;
  port_used_bytes = λ p. 0;
  port_peak_bytes = λ p. 0;
  voq = λ src dst. [];
  total_enqueued = 0;
  total_dequeued = 0;
  total_dropped = 0;
  total_dropped_overflow = 0;
  current_occupancy = 0;
  peak_occupancy = 0;
  peak_memory_used = 0;
}

-- One round of the storing loop of `enqueue_packet`.
unfoldable pub store : SharedBuffer → VoqEntry → ℕ → ℕ → SharedBuffer
store b e size p = record b {
  voq = update2 b.voq e.input_port p (b.voq e.input_port p ++ e ∷ []);
  port_used_bytes = update b.port_used_bytes p (b.port_used_bytes p + size);
  port_peak_bytes =
      update b.port_peak_bytes p (max (b.port_peak_bytes p) (b.port_used_bytes p + size));
}

unfoldable pub store_all : SharedBuffer → VoqEntry → ℕ → List ℕ → SharedBuffer
unfolding store
store_all b e size [] = b
store_all b e size (p ∷ ports) = store_all (store b e size p) e size ports

-- The counters after the storing loop, at `copies` output ports.
unfoldable pub count_enqueued : SharedBuffer → ℕ → SharedBuffer
count_enqueued b copies = record b {
  total_enqueued = b.total_enqueued + 1;
  current_occupancy = b.current_occupancy + copies;
  peak_occupancy = max b.peak_occupancy (b.current_occupancy + copies);
  peak_memory_used = max b.peak_memory_used (sum_range b.num_ports b.port_used_bytes);
}

unfoldable pub count_dropped : SharedBuffer → SharedBuffer
count_dropped b = record b {
  total_dropped = b.total_dropped + 1;
  total_dropped_overflow = b.total_dropped_overflow + 1;
}

-- What `enqueue_packet` does once the output ports are known. The input port is a subscript first
-- in the storing loop, before that changes anything.
unfoldable pub enqueue_to : SharedBuffer → Arrival → List ℕ → Option (Bool × SharedBuffer)
unfolding has_room store_all count_enqueued count_dropped
enqueue_to b a ports =
    let size = length a.data_words * b.word_size_bytes in
    let stored = store_all b (new_entry b.word_size_bytes a) size ports in
    if has_room b.port_limits_bytes b.port_used_bytes size ports
    then (if ltb a.input_port b.num_ports
        then some (true, count_enqueued stored (length ports))
        else none)
    else some (false, count_dropped b)

-- `enqueue_packet`
unfoldable pub enqueue_packet : SharedBuffer → Arrival → Option (Bool × SharedBuffer)
unfolding enqueue_to get_output_ports
enqueue_packet b a =
    get_output_ports b.num_ports a.input_port a.metadata >>= λ ports. enqueue_to b a ports

-- The account of a port after a packet has left; `-` stops at 0, as `max(0, …)` makes it. The
-- occupancy is never 0 here, by the invariant of `Invariant`.
unfoldable pub pop_front : SharedBuffer → ℕ → ℕ → List VoqEntry → Option VoqEntry × SharedBuffer
pop_front b src dst [] = (none, b)
pop_front b src dst (e ∷ q) = (
  some e,
  record b {
    voq = update2 b.voq src dst q;
    total_dequeued = b.total_dequeued + 1;
    current_occupancy = b.current_occupancy - 1;
    port_used_bytes = update b.port_used_bytes dst (b.port_used_bytes dst - packet_size e);
  },
)

-- `dequeue_packet`
unfoldable pub dequeue_packet : SharedBuffer → ℕ → ℕ → Option (Option VoqEntry × SharedBuffer)
unfolding pop_front
dequeue_packet b src dst =
    if ltb src b.num_ports
    then (if ltb dst b.num_ports then some (pop_front b src dst (b.voq src dst)) else none)
    else none

-- `get_total_occupancy`
unfoldable pub get_total_occupancy : SharedBuffer → ℕ
get_total_occupancy b =
    sum_range b.num_ports (λ src. sum_range b.num_ports (λ dst. length (b.voq src dst)))
