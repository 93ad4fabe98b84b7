-- ===== src/Switch/Pending.antt =====
-- switch_core.py: `has_pending_work` of `SwitchCore`.
pub mod Parts
pub mod Quiet
use spac.Base.{
  ℕ, zero, suc, ◌+◌, ◌-◌, ◌%◌, max, Bool, true, false, not, ◌&&◌, ◌||◌, List, [], ◌∷◌, Option, none,
  some, ltb, ◌==◌, if◌then◌else◌, length, range, update, sum_range, pos, ◌>>=◌,
}
use spac.Config.{SwitchConfig}
use spac.Config.Latency.{
  estimate_rx_latency, estimate_rx_ii, estimate_hash_latency, estimate_hash_ii,
  estimate_scheduler_ii,
}
use spac.Packet.{Packet}
use spac.Voq.Interface.{VoqBuffer}
use spac.Pipeline.{no_activity}
use spac.Pipeline.Stage.{ModulePipelineState, can_accept_input, count_down}
use spac.Pipeline.Stage as Stage
use spac.Rx.{RxEngine}
use spac.Rx as Rx
use spac.Rx.Ports as Ports
use spac.Hash.{RoutingTable, insert}
use spac.Hash.Engine.{HashEngine}
use spac.Hash.Engine as Engine
use spac.Scheduler.Choice.{AnyScheduler, create_scheduler, end_cycle}
use spac.Scheduler.Choice as Choice
use spac.Switch.{Item, RxState, HashState, SchedulerStageState, OutputState}
use spac.Switch.RxStage.{RxSide, rx_ports}
use spac.Switch.HashStage.{HashSide, hash_stage, BufferSide, buffer_stage, has_backlogged_packets}
use spac.Switch.SchedulerStage.{SchedulerSide, scheduler_stage}
use spac.Switch.OutputStage.{Sent, Transmitted, OutputSide, output_ports}
use spac.Switch.Core.{SwitchCore}
use spac.Switch.Cycle.{any_port}

unfoldable pub is_empty : List Item → Bool
is_empty [] = true
is_empty (i ∷ is) = false

module _ {B : Type 0} where
  -- What `has_pending_work` reads of a port, and of the rest.
  unfoldable pub rx_pending : SwitchCore B → ℕ → Bool
  rx_pending s p =
      let m = s.rx_states p in
      Rx.has_pending_work (s.rx_engines p) || (m.input_busy || (m.processing || m.output_ready))

  unfoldable pub hash_pending : SwitchCore B → Bool
  unfolding is_empty
  hash_pending s =
      let m = s.hash_state in
      m.input_busy
      || (m.processing || (m.output_ready || (m.output_busy || not (is_empty s.rx_to_hash_queue))))

  -- `has_pending_work`
  unfoldable pub has_pending_work : VoqBuffer B → SwitchCore B → Bool
  unfolding any_port rx_pending hash_pending is_empty has_backlogged_packets
  has_pending_work v s =
      any_port (rx_pending s) (range s.num_ports)
      || (hash_pending s
          || (not (is_empty s.hash_to_buffer_queue)
              || (has_backlogged_packets v s.voq_buffer
                  || ((s.scheduler_state.processing || s.scheduler_state.output_ready)
                      || any_port (λ p. (s.output_states p).input_busy) (range s.num_ports)))))
