-- ===== src/Voq/Entry.antt =====
-- buffer_voq.py: `VOQEntry`, and the ports that a packet goes to.
use spac.Base.{
  ℕ, ◌+◌, ◌*◌, Bool, List, [], ◌∷◌, Option, none, some, ◌==◌, if◌then◌else◌, length, range,
  py_index, ◌>>=◌, ℤ, leb_ℤ, false, true, ◌++◌, ◌≡◌, arith,
}
use spac.Packet.{Metadata, AxisWord}

-- `VOQEntry`; `retries` and `backoff_cycles` stay 0 and are left out.
pub record VoqEntry : Type 0 where
  pub input_port : ℕ
  pub metadata : Metadata
  pub data_words : List AxisWord
  pub trace_id : Option ℕ
  pub word_size_bytes : ℕ
  pub arrival_time : ℕ
  pub switch_arrival_time : ℕ
  pub enqueue_cycle : ℕ
  pub accumulated_latency_cycles : ℕ

-- `packet_size`, which is `memory_size` too
abbrev pub packet_size : VoqEntry → ℕ
packet_size e = length e.data_words * e.word_size_bytes

-- The bytes of a queue.
abbrev pub queue_bytes : List VoqEntry → ℕ
queue_bytes [] = 0
queue_bytes (e ∷ q) = packet_size e + queue_bytes q

pub queue_bytes-append :
    (q r : List VoqEntry) → queue_bytes (q ++ r) ≡ queue_bytes q + queue_bytes r
queue_bytes-append [] r = omega arith
queue_bytes-append (e ∷ q) r = omega (arith, queue_bytes-append q r)

-- The arguments of `enqueue_packet`.
pub record Arrival : Type 0 where
  pub input_port : ℕ
  pub metadata : Metadata
  pub data_words : List AxisWord
  pub current_time : ℕ
  pub trace_id : Option ℕ
  pub switch_arrival_time : Option ℕ
  pub accumulated_latency_cycles : ℕ
  pub current_cycle : ℕ

-- x if x is not None else d
abbrev pub value_or : Option ℕ → ℕ → ℕ
value_or none d = d
value_or (some x) d = x

-- The entry that `enqueue_packet` makes.
abbrev pub new_entry : ℕ → Arrival → VoqEntry
new_entry word_size a = record {
  input_port = a.input_port;
  metadata = a.metadata;
  data_words = a.data_words;
  trace_id = a.trace_id;
  word_size_bytes = word_size;
  arrival_time = a.current_time;
  switch_arrival_time = value_or a.switch_arrival_time a.current_time;
  enqueue_cycle = a.current_cycle;
  accumulated_latency_cycles = a.accumulated_latency_cycles;
}

-- [p for p in ports if p != input_port]
unfoldable pub without : ℕ → List ℕ → List ℕ
without input [] = []
without input (p ∷ ports) = if p == input then without input ports else p ∷ without input ports

-- `_get_output_ports`, with the subscript that the caller makes of a unicast packet's port: it is
-- the first thing that the caller does with it, so an IndexError leaves the buffer as it was.
unfoldable pub get_output_ports : ℕ → ℕ → Metadata → Option (List ℕ)
unfolding without
get_output_ports n input m =
    if m.broadcast
    then some (without input (range n))
    else (py_index n m.dst_port >>= λ p. some (p ∷ []))

-- The loop that looks for a full queue: no port lacks room for `size` more bytes.
unfoldable pub has_room : (ℕ → ℤ) → (ℕ → ℕ) → ℕ → List ℕ → Bool
has_room limits used size [] = true
has_room limits used size (p ∷ ports) =
    if leb_ℤ (used p + size) (limits p) then has_room limits used size ports else false
