-- ===== src/Switch/HashStage.antt =====
-- switch_core.py: `_process_hash_stage` and `_process_buffer_enqueue`.
pub mod Order
pub mod Enqueue
use spac.Base.{
  ℕ, zero, suc, ◌+◌, ◌-◌, Bool, true, false, not, ◌&&◌, ◌||◌, List, [], ◌∷◌, ◌++◌, map, Option,
  none, some, ltb, leb, ◌==◌, if◌then◌else◌, range, get_elem?, ◌>>=◌,
}
use spac.Packet.{Metadata}
use spac.Pipeline.Stage.{ModulePipelineState}
use spac.Hash.Engine.{HashEngine, process_metadata}
use spac.Voq.Entry.{Arrival}
use spac.Voq.Interface.{VoqBuffer}
use spac.Switch.{
  Item, HashState, Activity, idle, receiving, processing, transmitting, waiting_ii, waiting_output,
  note, begin, transfer_of,
}

-- What the stage changes.
pub record HashSide : Type 0 where
  pub hash_state : HashState
  pub hash_engine : HashEngine
  pub rx_to_hash_queue : List Item
  pub hash_to_buffer_queue : List Item
  pub active : Bool

-- The first part of the stage: the output goes to the buffer's queue, if the buffer accepts it.
unfoldable pub send_pending : ℕ → HashSide → Option Item → HashSide
unfolding note transfer_of
send_pending bus s none = s
send_pending bus s (some item) = record s {
  hash_to_buffer_queue = s.hash_to_buffer_queue ++ item ∷ [];
  hash_state = note transmitting (record s.hash_state {
    output_ready = false;
    output_pending = none;
    output_busy = true;
    output_transfer_remaining = transfer_of bus item;
  });
  active = true;
}

unfoldable pub output_part : ℕ → Bool → HashSide → HashSide
unfolding send_pending note
output_part bus accepts s =
    let m = s.hash_state in
    if m.output_ready
    then (if accepts
        then send_pending bus s m.output_pending
        else record s { hash_state = note waiting_output m; active = true })
    else if m.output_busy
    then record s { hash_state = note transmitting m; active = true }
    else s

-- meta_list: the metadata at its port, and nothing else.
unfoldable pub only_port : ℕ → ℕ → Metadata → List (Option Metadata)
only_port n port m = map (λ p. if p == port then some m else none) (range n)

-- processed[port_id]
unfoldable pub result_of : Option (Option Metadata) → Option Metadata
result_of none = none
result_of (some r) = r

-- An item that waits one cycle more.
unfoldable pub wait_longer : Item → Item
wait_longer item = record item { ii_wait_cycles = item.ii_wait_cycles + 1 }

-- An item with its metadata resolved goes to the output, after the latency.
unfoldable pub start_item : HashState → Item → HashState
unfolding note
start_item state item =
    let m = note processing (record state { ii_counter = state.ii }) in
    if leb m.latency 1
    then record m { output_ready = true; output_pending = some item }
    else record m {
      processing = true;
      processing_remaining = m.latency - 1;
      processing_data = some item;
    }

-- The answer of the lookup for the first item of the queue.
unfoldable pub resolved : HashSide → Item → List Item → Option Metadata → HashSide
unfolding start_item wait_longer note
resolved s item items none = record s {
  rx_to_hash_queue = wait_longer item ∷ items;
  hash_state = note waiting_ii s.hash_state;
  active = true;
}
resolved s item items (some meta) = record s {
  rx_to_hash_queue = items;
  hash_state = start_item s.hash_state (record item { metadata = meta });
  active = true;
}

unfoldable pub look_up : ℕ → HashSide → Item → List Item → HashSide
unfolding resolved only_port result_of
look_up n s item items =
    let r = process_metadata s.hash_engine (only_port n item.port_id item.metadata) in
    resolved (record s { hash_engine = r.1 }) item items (result_of (get_elem? r.0 item.port_id))

-- The second part for a stage that does not process and has no output.
unfoldable pub next_item : ℕ → HashSide → List Item → HashSide
unfolding look_up wait_longer note
next_item n s [] = record s { hash_state = note idle s.hash_state }
next_item n s (item ∷ items) =
    if ltb 0 s.hash_state.ii_counter
    then record s {
      rx_to_hash_queue = wait_longer item ∷ items;
      hash_state = note waiting_ii s.hash_state;
      active = true;
    }
    else look_up n s item items

-- The branch of a stage that processes. It has cycles left, so `-` does not stop at 0.
unfoldable pub process_on : HashSide → HashSide
unfolding note
process_on s =
    let m = note processing s.hash_state in
    let left = m.processing_remaining - 1 in
    record s {
      hash_state =
          if left == 0
          then record m {
            processing_remaining = left;
            processing = false;
            output_ready = true;
            output_pending = m.processing_data;
            processing_data = none;
          }
          else record m { processing_remaining = left };
      active = true;
    }

unfoldable pub work_part : ℕ → HashSide → HashSide
unfolding process_on next_item
work_part n s =
    let m = s.hash_state in
    if m.processing
    then process_on s
    else if not m.output_ready && not m.output_busy
    then next_item n s s.rx_to_hash_queue
    else s

-- `_process_hash_stage`, for whether the buffer's stage accepts an input
unfoldable pub hash_stage : ℕ → ℕ → Bool → HashSide → HashSide
unfolding output_part work_part begin
hash_stage n bus accepts s =
    work_part n
      (output_part bus accepts (record s { hash_state = begin s.hash_state; active = false }))

-- What `_process_buffer_enqueue` passes to the buffer.
unfoldable pub arrival_of : Item → ℕ → ℕ → Arrival
arrival_of item time cycle = record {
  input_port = item.port_id;
  metadata = item.metadata;
  data_words = item.data_words;
  current_time = time;
  trace_id = item.trace_id;
  switch_arrival_time = some item.switch_arrival_time;
  accumulated_latency_cycles = item.ii_wait_cycles;
  current_cycle = cycle;
}

-- What `_process_buffer_enqueue` changes.
pub record BufferSide (B : Type 0) : Type 0 where
  pub buffer_state : HashState
  pub voq_buffer : B
  pub hash_to_buffer_queue : List Item
  pub packets_dropped : ℕ
  pub dropped_per_port : ℕ → ℕ
  pub packets_processed : ℕ
  pub active : Bool

-- The queues of the buffer hold a packet.
unfoldable pub any_queue : {A : Type 0} → (ℕ → List A) → List ℕ → Bool
any_queue queue [] = false
any_queue queue (p ∷ ports) = elim (queue p) [ [] ↦ any_queue queue ports | x ∷ q ↦ true ]

unfoldable pub any_row : {A : Type 0} → (ℕ → ℕ → List A) → List ℕ → List ℕ → Bool
unfolding any_queue
any_row queue rows [] = false
any_row queue rows (p ∷ ports) = any_queue (queue p) rows || any_row queue rows ports

module _ {B : Type 0} (v : VoqBuffer B) where
  -- `has_backlogged_packets`
  unfoldable pub has_backlogged_packets : B → Bool
  unfolding any_row
  has_backlogged_packets b = any_row (v.queue b) (range (v.num_ports b)) (range (v.num_ports b))

  -- The result of the buffer's `enqueue_packet`.
  unfoldable pub enqueued : BufferSide B → Item → List Item → Bool → B → BufferSide B
  unfolding note
  enqueued s item items true b = record s {
    voq_buffer = b;
    hash_to_buffer_queue = items;
    buffer_state = note receiving s.buffer_state;
    packets_processed = s.packets_processed + 1;
    active = true;
  }
  enqueued s item items false b = record s {
    voq_buffer = b;
    hash_to_buffer_queue = items;
    packets_dropped = s.packets_dropped + 1;
    dropped_per_port =
        λ p. if p == item.port_id then s.dropped_per_port p + 1 else s.dropped_per_port p;
  }

  unfoldable pub enqueue_first : ℕ → ℕ → BufferSide B → List Item → Option (BufferSide B)
  unfolding enqueued arrival_of has_backlogged_packets note
  enqueue_first time cycle s [] = some (
      if has_backlogged_packets s.voq_buffer
      then record s { buffer_state = note processing s.buffer_state; active = true }
      else record s { buffer_state = note idle s.buffer_state })
  enqueue_first time cycle s (item ∷ items) =
      v.enqueue_packet s.voq_buffer (arrival_of item time cycle) >>= λ r.
      some (enqueued s item items r.0 r.1)

  -- `_process_buffer_enqueue`
  unfoldable pub buffer_stage : ℕ → ℕ → BufferSide B → Option (BufferSide B)
  unfolding enqueue_first begin
  buffer_stage time cycle s =
      enqueue_first time cycle
        (record s { buffer_state = begin s.buffer_state; packets_processed = 0; active = false })
        s.hash_to_buffer_queue
