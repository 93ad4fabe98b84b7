-- ===== src/Rx.antt =====
-- simulator/src/rx_engine.py: `RxEngine`, the state machine that parses the words of an input port.
pub mod Parse
pub mod Frames
pub mod Ports
use spac.Base.{
  ℕ, zero, suc, ◌+◌, ◌-◌, ◌*◌, ◌/◌, ◌%◌, ◌^◌, Bool, true, false, List, [], ◌∷◌, ◌++◌, Option, none,
  some, ℤ, pos, negsuc, ◌==◌, if◌then◌else◌, length,
}
use spac.Config.Latency.{estimate_rx_ii}
use spac.Packet.{Metadata, AxisWord, Packet}

pub data State : Type 0 where
  header consume : State

pub record RxEngine : Type 0 where
  pub num_ports : ℕ
  pub current_state : State
  pub processing_cycles : ℕ
  pub input_queue : List AxisWord
  pub output_data_queue : List AxisWord
  pub output_meta_queue : List Metadata
  pub current_packet_metadata : Option Metadata
  pub current_trace_id : Option ℕ
  pub current_arrival_time : ℕ
  pub current_packet_word_count : ℕ
  pub packet_complete : Bool
  pub arrival_time_queue : List ℕ
  pub packets_processed : ℕ
  pub bytes_processed : ℕ
  pub cycles_active : ℕ

-- `__init__`, for a switch with so many ports
unfoldable pub init : ℕ → RxEngine
init n = record {
  num_ports = n;
  current_state = header;
  processing_cycles = 0;
  input_queue = [];
  output_data_queue = [];
  output_meta_queue = [];
  current_packet_metadata = none;
  current_trace_id = none;
  current_arrival_time = 0;
  current_packet_word_count = 0;
  packet_complete = false;
  arrival_time_queue = [];
  packets_processed = 0;
  bytes_processed = 0;
  cycles_active = 0;
}

-- `reset`, which leaves the three counters as they are
unfoldable pub reset : RxEngine → RxEngine
reset e = record e {
  current_state = header;
  processing_cycles = 0;
  current_packet_metadata = none;
  current_trace_id = none;
  current_arrival_time = 0;
  current_packet_word_count = 0;
  packet_complete = false;
  input_queue = [];
  output_data_queue = [];
  output_meta_queue = [];
  arrival_time_queue = [];
}

-- `enqueue_packet`
unfoldable pub enqueue_packet : RxEngine → Packet → RxEngine
enqueue_packet e p = record e {
  arrival_time_queue = e.arrival_time_queue ++ p.arrival_time ∷ [];
  input_queue = e.input_queue ++ p.payload;
}

-- The fields of a header word: `>> k` is `/ 2 ^ k`, and a mask of k ones is `% 2 ^ k`.
unfoldable pub broadcast_of : ℕ → Bool
broadcast_of x = x / 2 ^ 31 % 2 == 1

unfoldable pub dst_of : ℕ → ℕ
dst_of x = x / 2 ^ 8 % 2 ^ 4

unfoldable pub src_of : ℕ → ℕ
src_of x = x / 2 ^ 12 % 2 ^ 4

unfoldable pub trace_id_of : ℕ → ℕ
trace_id_of x = x / 2 ^ 16 % 2 ^ 15

-- The metadata that `_process_header` makes; its fields pass the checks of `Metadata`.
unfoldable pub header_metadata : ℕ → Metadata
unfolding broadcast_of dst_of src_of
header_metadata x = record {
  src_addr = src_of x;
  dst_addr = if broadcast_of x then negsuc 0 else pos (dst_of x);
  dst_port = negsuc 0;
  pkt_len = 64;
  broadcast = broadcast_of x;
  valid = true;
}

-- if self.arrival_time_queue: self.current_arrival_time_ns = self.arrival_time_queue.popleft()
unfoldable pub take_arrival : RxEngine → List ℕ → RxEngine
take_arrival e [] = e
take_arrival e (t ∷ times) = record e { current_arrival_time = t; arrival_time_queue = times }

-- The end of `_process_header`
unfoldable pub finish_header : RxEngine → Bool → RxEngine
finish_header e true = record e {
  packet_complete = true;
  packets_processed = e.packets_processed + 1;
  bytes_processed = e.bytes_processed + 64;
}
finish_header e false = record e { current_state = consume }

-- `_process_header`, with the words that are left behind the first
unfoldable pub process_header : RxEngine → AxisWord → List AxisWord → RxEngine
unfolding take_arrival finish_header header_metadata trace_id_of
process_header e w rest =
    let t = take_arrival e e.arrival_time_queue in
    finish_header
      (record t {
        input_queue = rest;
        current_trace_id = some (trace_id_of w.payload);
        current_packet_metadata = some (header_metadata w.payload);
        current_packet_word_count = 1;
        output_meta_queue = e.output_meta_queue ++ header_metadata w.payload ∷ [];
        output_data_queue = e.output_data_queue ++ w ∷ [];
        packet_complete = false;
      })
      w.last

-- The end of `_process_consume`
unfoldable pub finish_consume : RxEngine → Bool → RxEngine
finish_consume e true = record e {
  packet_complete = true;
  current_state = header;
  packets_processed = e.packets_processed + 1;
  bytes_processed = e.bytes_processed + e.current_packet_word_count * 64;
}
finish_consume e false = e

-- `_process_consume`
unfoldable pub process_consume : RxEngine → AxisWord → List AxisWord → RxEngine
unfolding finish_consume
process_consume e w rest =
    finish_consume
      (record e {
        input_queue = rest;
        current_packet_word_count = e.current_packet_word_count + 1;
        output_data_queue = e.output_data_queue ++ w ∷ [];
      })
      w.last

-- The state machine's step, with its words.
unfoldable pub dispatch : State → RxEngine → AxisWord → List AxisWord → RxEngine
unfolding process_header process_consume
dispatch header e w rest = process_header e w rest
dispatch consume e w rest = process_consume e w rest

-- `process_cycle` on an engine with a word in its input queue.
unfoldable pub active_cycle : RxEngine → ℕ → AxisWord → List AxisWord → RxEngine
unfolding dispatch estimate_rx_ii
active_cycle e zero w rest =
    let done = dispatch e.current_state (record e { cycles_active = e.cycles_active + 1 }) w rest in
    record done { processing_cycles = estimate_rx_ii e.num_ports - 1 }
active_cycle e (suc k) w rest = record e {
  cycles_active = e.cycles_active + 1;
  processing_cycles = k;
}

unfoldable pub cycle_on : RxEngine → List AxisWord → RxEngine × Bool
unfolding active_cycle
cycle_on e [] = (e, false)
cycle_on e (w ∷ rest) = (active_cycle e e.processing_cycles w rest, true)

-- `process_cycle`
unfoldable pub process_cycle : RxEngine → RxEngine × Bool
unfolding cycle_on
process_cycle e = cycle_on e e.input_queue

-- `get_output_data` and `get_output_metadata`
unfoldable pub get_output_data : RxEngine → List AxisWord × RxEngine
get_output_data e = (e.output_data_queue, record e { output_data_queue = [] })

unfoldable pub get_output_metadata : RxEngine → List Metadata × RxEngine
get_output_metadata e = (e.output_meta_queue, record e { output_meta_queue = [] })

-- `has_pending_work`
unfoldable pub has_pending_work : RxEngine → Bool
has_pending_work e =
    if length e.input_queue == 0 then (if e.processing_cycles == 0 then false else true) else true
