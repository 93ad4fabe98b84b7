-- ===== src/Switch/Cycle.antt =====
-- switch_core.py: `process_cycle` of `SwitchCore`.
pub mod Stages
pub mod Resend
use spac.Base.{
  ℕ, zero, suc, ◌+◌, ◌-◌, ◌%◌, max, Bool, true, false, not, ◌&&◌, ◌||◌, List, [], ◌∷◌, Option, none,
  some, ltb, ◌==◌, if◌then◌else◌, length, range, update, sum_range, pos, ◌>>=◌,
}
use spac.Config.{SwitchConfig}
use spac.Config.Latency.{
  estimate_rx_latency, estimate_rx_ii, estimate_hash_latency, estimate_hash_ii,
  estimate_scheduler_ii,
}
use spac.Packet.{Packet}
use spac.Voq.Interface.{VoqBuffer}
use spac.Pipeline.{no_activity}
use spac.Pipeline.Stage.{ModulePipelineState, can_accept_input, count_down}
use spac.Pipeline.Stage as Stage
use spac.Rx.{RxEngine}
use spac.Rx as Rx
use spac.Rx.Ports as Ports
use spac.Hash.{RoutingTable, insert}
use spac.Hash.Engine.{HashEngine}
use spac.Hash.Engine as Engine
use spac.Scheduler.Choice.{AnyScheduler, create_scheduler, end_cycle}
use spac.Scheduler.Choice as Choice
use spac.Switch.{Item, RxState, HashState, SchedulerStageState, OutputState}
use spac.Switch.RxStage.{RxSide, rx_ports}
use spac.Switch.HashStage.{HashSide, hash_stage, BufferSide, buffer_stage, has_backlogged_packets}
use spac.Switch.SchedulerStage.{SchedulerSide, scheduler_stage}
use spac.Switch.OutputStage.{Sent, Transmitted, OutputSide, output_ports}
use spac.Switch.Core.{SwitchCore, CycleStats, tick_all_modules}

-- A test holds of one of the ports that are left.
unfoldable pub any_port : (ℕ → Bool) → List ℕ → Bool
any_port test [] = false
any_port test (p ∷ ports) = test p || any_port test ports

module _ {B : Type 0} where
  -- `_check_any_transferring`
  unfoldable pub check_any_transferring : SwitchCore B → Bool
  unfolding any_port
  check_any_transferring s =
      any_port (λ p. (s.rx_states p).output_busy) (range s.num_ports)
      || (s.hash_state.output_busy
          || any_port (λ p. (s.output_states p).input_busy || (s.output_states p).output_busy)
              (range s.num_ports))

  -- The stages of `process_cycle` write back what they change. Each also says whether it was active.
  unfoldable pub run_rx : SwitchCore B → Bool × SwitchCore B
  unfolding rx_ports can_accept_input
  run_rx s =
      let r =
        rx_ports s.bus_width_bits (can_accept_input s.hash_state) (range s.num_ports) (record {
          rx_states = s.rx_states;
          rx_engines = s.rx_engines;
          rx_to_hash_queue = s.rx_to_hash_queue;
          active = false;
        }) in
      (
        r.active,
        record s {
          rx_states = r.rx_states;
          rx_engines = r.rx_engines;
          rx_to_hash_queue = r.rx_to_hash_queue;
        },
      )

  unfoldable pub run_hash : SwitchCore B → Bool × SwitchCore B
  unfolding hash_stage can_accept_input
  run_hash s =
      let r = hash_stage s.num_ports s.bus_width_bits (can_accept_input s.buffer_state) (record {
        hash_state = s.hash_state;
        hash_engine = s.hash_engine;
        rx_to_hash_queue = s.rx_to_hash_queue;
        hash_to_buffer_queue = s.hash_to_buffer_queue;
        active = false;
      }) in
      (
        r.active,
        record s {
          hash_state = r.hash_state;
          hash_engine = r.hash_engine;
          rx_to_hash_queue = r.rx_to_hash_queue;
          hash_to_buffer_queue = r.hash_to_buffer_queue;
        },
      )

  unfoldable pub run_output : SwitchCore B → Bool × List Transmitted × SwitchCore B
  unfolding output_ports
  run_output s =
      let r =
        output_ports s.bus_width_bits s.scheduler_state.ii s.current_time (range s.num_ports)
          (record {
            output_states = s.output_states;
            sent = s.sent;
            transmitted = [];
            active = false;
          }) in
      (r.active, r.transmitted, record s { output_states = r.output_states; sent = r.sent })

  module _ (v : VoqBuffer B) where
    unfoldable pub run_buffer : SwitchCore B → Option (Bool × ℕ × SwitchCore B)
    unfolding buffer_stage
    run_buffer s = do
      r ← buffer_stage v s.current_time s.current_cycle (record {
        buffer_state = s.buffer_state;
        voq_buffer = s.voq_buffer;
        hash_to_buffer_queue = s.hash_to_buffer_queue;
        packets_dropped = s.packets_dropped;
        dropped_per_port = s.dropped_per_port;
        packets_processed = 0;
        active = false;
      })
      some (
        r.active,
        r.packets_processed,
        record s {
          buffer_state = r.buffer_state;
          voq_buffer = r.voq_buffer;
          hash_to_buffer_queue = r.hash_to_buffer_queue;
          packets_dropped = r.packets_dropped;
          dropped_per_port = r.dropped_per_port;
        },
      )

    unfoldable pub run_scheduler : SwitchCore B → Option (Bool × ℕ × SwitchCore B)
    unfolding scheduler_stage
    run_scheduler s = do
      r ← scheduler_stage v s.bus_width_bits (record {
        state = s.scheduler_state;
        scheduler = s.scheduler;
        voq_buffer = s.voq_buffer;
        output_states = s.output_states;
        pending_ii_wait = s.pending_ii_wait;
        scheduling_cycles = s.scheduling_cycles;
        packets_scheduled = 0;
        active = false;
      })
      some (
        r.active,
        r.packets_scheduled,
        record s {
          scheduler_state = r.state;
          scheduler = r.scheduler;
          voq_buffer = r.voq_buffer;
          output_states = r.output_states;
          pending_ii_wait = r.pending_ii_wait;
          scheduling_cycles = r.scheduling_cycles;
        },
      )

    -- `get_total_occupancy` of the buffer
    unfoldable pub occupancy : B → ℕ
    occupancy b =
        sum_range (v.num_ports b) (λ i. sum_range (v.num_ports b) (λ j. length (v.queue b i j)))

    -- The counters at the end of `process_cycle`, and the next cycle's time.
    unfoldable pub close_cycle : Bool → SwitchCore B → SwitchCore B
    unfolding occupancy check_any_transferring has_backlogged_packets end_cycle
    close_cycle any_active s =
        let transferring = check_any_transferring s in
        let waiting = has_backlogged_packets v s.voq_buffer && not transferring in
        record s {
          peak_buffer_occupancy = max s.peak_buffer_occupancy (occupancy s.voq_buffer);
          total_data_transfer_cycles =
              if transferring
              then s.total_data_transfer_cycles + 1
              else s.total_data_transfer_cycles;
          total_decision_wait_cycles =
              if waiting then s.total_decision_wait_cycles + 1 else s.total_decision_wait_cycles;
          total_active_cycles =
              if any_active then s.total_active_cycles + 1 else s.total_active_cycles;
          idle_cycles = if any_active then s.idle_cycles else s.idle_cycles + 1;
          scheduler = end_cycle s.scheduler;
          current_cycle = s.current_cycle + 1;
          current_time = s.current_time + s.cycle_time;
        }

    -- `process_cycle`, at a global time
    unfoldable pub process_cycle :
        SwitchCore B → ℕ → Option (CycleStats × List Transmitted × SwitchCore B)
    unfolding tick_all_modules run_rx run_hash run_buffer run_scheduler run_output close_cycle
    process_cycle s global_time = do
      let s0 = tick_all_modules (record s { current_time = max s.current_time global_time })
      let (rx_active, s1) = run_rx s0
      let (hash_active, s2) = run_hash s1
      (buffer_active, processed, s3) ← run_buffer s2
      (scheduler_active, scheduled, s4) ← run_scheduler s3
      let (output_active, transmitted, s5) = run_output s4
      let any_active =
          rx_active || (hash_active || (buffer_active || (scheduler_active || output_active)))
      some (
        record {
          packets_processed = processed;
          packets_scheduled = scheduled;
          packets_transmitted = length transmitted;
          buffer_occupancy = occupancy s5.voq_buffer;
        },
        transmitted,
        close_cycle any_active s5,
      )
