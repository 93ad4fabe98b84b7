-- ===== src/Tests/Switch.antt =====
-- Tests of the switch core, on a switch with two ports.
use spac.Base.{
  ℕ, ◌≡◌, refl, Bool, true, false, List, [], ◌∷◌, none, some, arith, ◌==◌, if◌then◌else◌, max,
}
use spac.Config.{one_buffer_per_port}
use spac.Config as Config
use spac.Packet.{AxisWord}
use spac.Voq.Entry.{VoqEntry}
use spac.Config.Latency.{calculate_transfer_cycles}
use spac.Voq.Shared.{SharedBuffer}
use spac.Voq.Shared as Shared
use spac.Voq.Shared.Contents.{shared_voq}
use spac.Rx.{RxEngine, header_metadata, trace_id_of}
use spac.Rx as Rx
use spac.Rx.Ports as Ports
use spac.Scheduler.Choice.{scheduler_of}
use spac.Hash.Engine as Engine
use spac.Switch.{Item, RxState, SchedulerStageState, OutputState}
use spac.Switch.RxStage.Steps.{HasItem, port_cycles}
use spac.Switch.RxStage.Whole.{Taken, port_cycles-frame}
use spac.Switch.RxStage.Merge.{port_cycles_merge}
use spac.Switch.HashStage.{HashSide, hash_stage, BufferSide, buffer_stage}
use spac.Switch.HashStage.Order.{IsValid, loads, hash_stage-Keeps}
use spac.Switch.SchedulerStage.{SchedulerSide, scheduler_stage}
use spac.Switch.SchedulerStage.Dispatch.{IsDispatched, scheduler_stage-IsDispatched}
use spac.Switch.OutputStage.{Transmitted, OutputSide, packet_of, output_ports}
use spac.Switch.OutputStage.Delivered.{IsServed, sent_by, output_ports-IsServed}
use spac.Switch.Core.{SwitchCore, CycleStats, stage_of, nothing_sent}
use spac.Switch.Core as Core
use spac.Switch.Cycle.{process_cycle}
use spac.Switch.Cycle.Resend.{IsStuck, process_cycle_resends}
use spac.Switch.Pending.{has_pending_work}
use spac.Switch.Pending.Quiet.{process_cycle_quiet}
use spac.Tests.{to_port, loaded, waiting, config_for}

abbrev rx_stage : RxState
rx_stage = stage_of 2 1 512

abbrev word : Bool → AxisWord
word last = record { payload = 77824; last = last }

-- An engine with words that arrived at times 5 and 6.
abbrev engine : List AxisWord → RxEngine
engine words = record (Rx.init 2) { input_queue = words; arrival_time_queue = 5 ∷ 6 ∷ [] }

port_cycles-frame_example :
    Taken
      (port_cycles 512 true 0 2 rx_stage (engine (word false ∷ word true ∷ word true ∷ [])))
      (record {
        port_id = 0;
        metadata = header_metadata 77824;
        data_words = word false ∷ word true ∷ [];
        trace_id = some (trace_id_of 77824);
        switch_arrival_time = 5;
        ii_wait_cycles = 0;
      })
      (word true ∷ [])
unfolding Rx.init stage_of
port_cycles-frame_example =
    port_cycles-frame 512 0 5 (6 ∷ []) true rx_stage
      (engine (word false ∷ word true ∷ word true ∷ [])) (word false) (word true) []
      (word true ∷ []) (record { busy = refl; empty = refl; rests = refl })
      (record { at_state = refl; ready = refl; input = refl; words = refl; metas = refl }) refl
      (refl, refl) (omega arith)

port_cycles_merge_example :
    let r = port_cycles 512 true 0 2 rx_stage (engine (word true ∷ word true ∷ [])) in
    HasItem r.0 (record {
      port_id = 0;
      metadata = header_metadata 77824;
      data_words = word true ∷ word true ∷ [];
      trace_id = some (trace_id_of 77824);
      switch_arrival_time = 5;
      ii_wait_cycles = 0;
    })
    × (r.1.input_queue ≡ [])
    × (r.1.output_meta_queue ≡ header_metadata 77824 ∷ [])
unfolding Rx.init stage_of
port_cycles_merge_example =
    port_cycles_merge 512 0 5 6 [] true rx_stage (engine (word true ∷ word true ∷ [])) (word true)
      (word true) [] (record { busy = refl; empty = refl; rests = refl }) refl
      (record { at_state = refl; ready = refl; input = refl; words = refl; metas = refl }) refl refl
      refl

-- One packet at the lookup, and one behind it.
abbrev item : ℕ → Item
item port = record {
  port_id = port;
  metadata = header_metadata 77824;
  data_words = word true ∷ [];
  trace_id = some 1;
  switch_arrival_time = 5;
  ii_wait_cycles = 0;
}

abbrev lookup : HashSide
lookup = record {
  hash_state = record (stage_of 2 1 512) {
    processing = true;
    processing_remaining = 1;
    processing_data = some (item 0);
  };
  hash_engine = Engine.init (config_for one_buffer_per_port) [];
  rx_to_hash_queue = item 1 ∷ [];
  hash_to_buffer_queue = [];
  active = false;
}

hash_stage-Keeps_example :
    IsValid (hash_stage 2 512 true lookup).hash_state
    × (loads (hash_stage 2 512 true lookup) ≡ loads lookup)
unfolding stage_of
hash_stage-Keeps_example =
    hash_stage-Keeps 2 512 true lookup (record { ready = refl; works = refl; one = refl })

-- A packet for each of two outputs, the second of which is busy.
abbrev pending : List (ℕ × VoqEntry)
pending = (0, waiting 1 0) ∷ (1, waiting 0 1) ∷ []

abbrev free : OutputState
free = stage_of 1 1 512

abbrev outputs : ℕ → OutputState
outputs p =
    if p == 1
    then record free {
      input_busy = true;
      input_transfer_remaining = 3;
      input_data = some (waiting 1 1);
    }
    else free

abbrev scheduler : SchedulerStageState
scheduler = record (stage_of 2 1 512) { output_ready = true; output_pending = some pending }

abbrev side : SchedulerSide SharedBuffer
side = record {
  state = scheduler;
  scheduler = scheduler_of Config.islip 2;
  voq_buffer = loaded;
  output_states = outputs;
  pending_ii_wait = 0;
  scheduling_cycles = 0;
  packets_scheduled = 0;
  active = false;
}

scheduler_stage-IsDispatched_example :
    (t : SchedulerSide SharedBuffer) × (scheduler_stage shared_voq 512 side ≡ some t)
    × IsDispatched 512 pending side t
unfolding stage_of
scheduler_stage-IsDispatched_example =
    scheduler_stage-IsDispatched shared_voq 512 side (0, waiting 1 0) ((1, waiting 0 1) ∷ [])
      (record { rests = refl; ready = refl; pending = refl }) (refl, (refl, tt))

abbrev sending : OutputSide
sending = record { output_states = outputs; sent = nothing_sent; transmitted = []; active = false }

output_ports-IsServed_example : IsServed 7 1 sending (output_ports 512 1 7 (0 ∷ 1 ∷ []) sending)
output_ports-IsServed_example = output_ports-IsServed 512 1 7 2 1 sending (omega arith)

abbrev new_switch : SharedBuffer → SwitchCore SharedBuffer
new_switch b = Core.init (config_for one_buffer_per_port) [] b 2 4

-- A switch that is stuck: the packet for port 0 is dispatched at each cycle, until port 1 is free.
abbrev stuck : SwitchCore SharedBuffer
stuck = record (new_switch loaded) { scheduler_state = scheduler; output_states = outputs }

abbrev cycle : CycleStats × List Transmitted × SwitchCore SharedBuffer
cycle = elim (process_cycle shared_voq stuck 0) [
  | some r ↦ r
  | none ↦ (
    record {
      packets_processed = 0;
      packets_scheduled = 0;
      packets_transmitted = 0;
      buffer_occupancy = 0;
    },
    [],
    stuck,
  )
]

process_cycle_resends_example :
    (sent_by 0 cycle.1 ≡ packet_of (waiting 1 0) (max stuck.current_time 0) ∷ [])
    × IsStuck cycle.2 0 1 2 (waiting 1 0) (waiting 0 1)
unfolding Core.init stage_of process_cycle calculate_transfer_cycles Ports.init Rx.init
process_cycle_resends_example =
    process_cycle_resends shared_voq stuck cycle.2 0 0 1 1 (waiting 1 0) (waiting 0 1) cycle.0
      cycle.1 refl
      (record {
        rests = refl;
        ready = refl;
        pending = refl;
        free = refl;
        busy = refl;
        remaining = refl;
        ports = (omega arith, omega arith);
        short = refl;
      })
      refl

abbrev idle_switch : SwitchCore SharedBuffer
idle_switch = new_switch (record loaded { voq = λ s d. [] })

process_cycle_quiet_example :
    (stats : CycleStats) × (s' : SwitchCore SharedBuffer) × (process_cycle shared_voq idle_switch 9
      ≡ some (stats, [], s'))
    × (has_pending_work shared_voq s' ≡ false)
    × (s'.sent ≡ idle_switch.sent)
    × (s'.packets_dropped ≡ idle_switch.packets_dropped)
    × (s'.voq_buffer ≡ idle_switch.voq_buffer)
unfolding Core.init has_pending_work Rx.has_pending_work Ports.init Rx.init
process_cycle_quiet_example = process_cycle_quiet shared_voq idle_switch 9 refl

-- A packet for port 1 that the lookup has done with.
abbrev resolved : Item
resolved = record (item 0) { metadata = to_port 1 }

abbrev buffer_side : BufferSide SharedBuffer
buffer_side = record {
  buffer_state = stage_of 1 1 512;
  voq_buffer = loaded;
  hash_to_buffer_queue = resolved ∷ [];
  packets_dropped = 0;
  dropped_per_port = λ p. 0;
  packets_processed = 0;
  active = false;
}

abbrev buffered : BufferSide SharedBuffer
buffered = elim (buffer_stage shared_voq 9 3 buffer_side) [ some t ↦ t | none ↦ buffer_side ]
