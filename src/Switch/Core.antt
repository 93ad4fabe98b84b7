-- ===== src/Switch/Core.antt =====
-- switch_core.py: the state of `SwitchCore`, and its operations but the cycle.
use spac.Base.{
  ℕ, ◌+◌, ◌-◌, ◌%◌, false, List, [], ◌∷◌, Option, none, some, ltb, if◌then◌else◌, update, pos,
  ◌>>=◌,
}
use spac.Config.{SwitchConfig}
use spac.Config.Latency.{
  estimate_rx_latency, estimate_rx_ii, estimate_hash_latency, estimate_hash_ii,
  estimate_scheduler_ii,
}
use spac.Packet.{Packet, TraceEntry, from_trace_entry}
use spac.Pipeline.{no_activity}
use spac.Pipeline.Stage.{ModulePipelineState, can_accept_input, count_down}
use spac.Pipeline.Stage as Stage
use spac.Rx.{RxEngine}
use spac.Rx.Ports as Ports
use spac.Hash.{RoutingTable, insert}
use spac.Hash.Engine.{HashEngine}
use spac.Hash.Engine as Engine
use spac.Scheduler.Choice.{AnyScheduler, create_scheduler, end_cycle}
use spac.Scheduler.Choice as Choice
use spac.Switch.{tick_output, Item, RxState, HashState, SchedulerStageState, OutputState}
use spac.Switch.OutputStage.{Sent}

-- `SwitchCore`, with its attributes. The bandwidth figures, which only the report reads, are left
-- out.
pub record SwitchCore (B : Type 0) : Type 0 where
  pub num_ports : ℕ
  pub bus_width_bits : ℕ
  pub cycle_time : ℕ
  pub rx_engines : ℕ → RxEngine
  pub hash_engine : HashEngine
  pub voq_buffer : B
  pub scheduler : AnyScheduler
  pub rx_states : ℕ → RxState
  pub hash_state : HashState
  pub buffer_state : HashState
  pub scheduler_state : SchedulerStageState
  pub output_states : ℕ → OutputState
  pub rx_to_hash_queue : List Item
  pub hash_to_buffer_queue : List Item
  pub pending_ii_wait : ℕ
  pub current_cycle : ℕ
  pub current_time : ℕ
  pub active_packets : List (ℕ × Packet)
  pub packets_received : ℕ
  pub packets_dropped : ℕ
  pub rx_per_port : ℕ → ℕ
  pub dropped_per_port : ℕ → ℕ
  pub sent : Sent
  pub peak_buffer_occupancy : ℕ
  pub scheduling_cycles : ℕ
  pub idle_cycles : ℕ
  pub total_active_cycles : ℕ
  pub total_data_transfer_cycles : ℕ
  pub total_decision_wait_cycles : ℕ
  pub first_packet_arrival_time : Option ℕ

-- The dictionary `stats` of a cycle.
pub record CycleStats : Type 0 where
  pub packets_processed : ℕ
  pub packets_scheduled : ℕ
  pub packets_transmitted : ℕ
  pub buffer_occupancy : ℕ

abbrev pub nothing_sent : Sent
nothing_sent = record {
  total_latency = pos 0;
  latency_per_port = λ p. pos 0;
  packets_transmitted = 0;
  tx_per_port = λ p. 0;
  total_bits_transferred = 0;
  last_packet_transmit_time = none;
  line_rate_achieved_cycles = 0;
  line_rate_missed_cycles = 0;
}

-- ModulePipelineState(latency, ii, bus_width_bits)
unfoldable pub stage_of : {P A : Type 0} → ℕ → ℕ → ℕ → ModulePipelineState P A
stage_of latency ii bus = record {
  latency = latency;
  ii = ii;
  bus_width_bits = bus;
  ii_counter = 0;
  input_busy = false;
  input_transfer_remaining = 0;
  input_data = none;
  processing = false;
  processing_remaining = 0;
  processing_data = none;
  output_busy = false;
  output_transfer_remaining = 0;
  output_data = none;
  output_ready = false;
  output_pending = none;
  next_ready = false;
  next_data = none;
  stats = no_activity;
}

-- The first of two times that is there.
abbrev pub or_now : Option ℕ → ℕ → Option ℕ
or_now none t = some t
or_now (some u) t = some u

-- self.active_packets[packet.trace_id] = packet
abbrev pub remember : List (ℕ × Packet) → Option ℕ → Packet → List (ℕ × Packet)
remember packets none p = packets
remember packets (some t) p = insert t p packets

module _ {B : Type 0} where
  -- `__init__`. The new buffer and the scheduler's latency, a regression on floating-point numbers,
  -- are arguments.
  unfoldable pub init : SwitchConfig → RoutingTable → B → ℕ → ℕ → SwitchCore B
  unfolding stage_of create_scheduler estimate_rx_latency estimate_rx_ii estimate_hash_latency
      estimate_hash_ii estimate_scheduler_ii
  init c routes buffer scheduler_latency cycle_time =
      let n = c.num_ports in
      let bus = c.axis_data_width in
      record {
        num_ports = n;
        bus_width_bits = bus;
        cycle_time = cycle_time;
        rx_engines = Ports.init c;
        hash_engine = Engine.init c routes;
        voq_buffer = buffer;
        scheduler = create_scheduler c;
        rx_states = λ p. stage_of (estimate_rx_latency n) (estimate_rx_ii n) bus;
        hash_state =
            stage_of (estimate_hash_latency c.hash_module_type n)
              (estimate_hash_ii c.hash_module_type) bus;
        buffer_state = stage_of 1 1 bus;
        scheduler_state = stage_of scheduler_latency (estimate_scheduler_ii c.scheduler_type) bus;
        output_states = λ p. stage_of 1 1 bus;
        rx_to_hash_queue = [];
        hash_to_buffer_queue = [];
        pending_ii_wait = 0;
        current_cycle = 0;
        current_time = 0;
        active_packets = [];
        packets_received = 0;
        packets_dropped = 0;
        rx_per_port = λ p. 0;
        dropped_per_port = λ p. 0;
        sent = nothing_sent;
        peak_buffer_occupancy = 0;
        scheduling_cycles = 0;
        idle_cycles = 0;
        total_active_cycles = 0;
        total_data_transfer_cycles = 0;
        total_decision_wait_cycles = 0;
        first_packet_arrival_time = none;
      }

  -- `reset`, for a buffer with the method `clear`
  unfoldable pub reset : (B → B) → SwitchCore B → SwitchCore B
  reset clear s = record s {
    rx_engines = Ports.reset s.rx_engines;
    hash_engine = Engine.reset s.hash_engine;
    voq_buffer = clear s.voq_buffer;
    scheduler = Choice.reset s.scheduler;
    current_cycle = 0;
    current_time = 0;
    active_packets = [];
    rx_states = λ p. Stage.reset (s.rx_states p);
    hash_state = Stage.reset s.hash_state;
    buffer_state = Stage.reset s.buffer_state;
    scheduler_state = Stage.reset s.scheduler_state;
    output_states = λ p. Stage.reset (s.output_states p);
    packets_received = 0;
    packets_dropped = 0;
    rx_per_port = λ p. 0;
    dropped_per_port = λ p. 0;
    sent = nothing_sent;
    peak_buffer_occupancy = 0;
    scheduling_cycles = 0;
    idle_cycles = 0;
    total_active_cycles = 0;
    total_data_transfer_cycles = 0;
    total_decision_wait_cycles = 0;
    first_packet_arrival_time = none;
    pending_ii_wait = 0;
    rx_to_hash_queue = [];
    hash_to_buffer_queue = [];
  }

  -- `receive_packet`; a port that there is not is only logged.
  unfoldable pub receive_packet : SwitchCore B → ℕ → Packet → SwitchCore B
  receive_packet s port p =
      if ltb port s.num_ports
      then record s {
        rx_engines = Ports.enqueue_packet s.num_ports s.rx_engines port p;
        packets_received = s.packets_received + 1;
        rx_per_port = update s.rx_per_port port (s.rx_per_port port + 1);
        first_packet_arrival_time = or_now s.first_packet_arrival_time s.current_time;
        active_packets = remember s.active_packets p.trace_id p;
      }
      else s

  -- `set_global_time`
  unfoldable pub set_global_time : SwitchCore B → ℕ → SwitchCore B
  set_global_time s time = record s { current_time = time }

  -- `inject_trace_entries`; the width of the bus is that of the configuration.
  unfoldable pub inject_trace_entries : SwitchCore B → List TraceEntry → Option (SwitchCore B)
  unfolding receive_packet from_trace_entry
  inject_trace_entries s [] = some s
  inject_trace_entries s (e ∷ entries) =
      from_trace_entry e.time e.src_addr e.dst_addr e.header_size e.body_size e.trace_id
        s.bus_width_bits
      >>= λ p. inject_trace_entries (receive_packet s (e.src_addr % s.num_ports) p) entries

  -- `_tick_all_modules`
  unfoldable pub tick_all_modules : SwitchCore B → SwitchCore B
  unfolding tick_output
  tick_all_modules s = record s {
    rx_states = λ p. if ltb p s.num_ports then tick_output (s.rx_states p) else s.rx_states p;
    hash_state = tick_output s.hash_state;
    scheduler_state = record s.scheduler_state { ii_counter = s.scheduler_state.ii_counter - 1 };
  }
