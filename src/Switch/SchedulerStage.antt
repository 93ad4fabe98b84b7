-- ===== src/Switch/SchedulerStage.antt =====
-- switch_core.py: `_process_scheduler_stage`.
pub mod Dispatch
use spac.Base.{
  ℕ, zero, suc, ◌+◌, ◌-◌, ◌*◌, Bool, true, false, ◌&&◌, List, [], ◌∷◌, Option, none, some, ltb, leb,
  ◌==◌, if◌then◌else◌, length, update, ◌>>=◌,
}
use spac.Voq.Entry.{VoqEntry, packet_size}
use spac.Voq.Interface.{VoqBuffer}
use spac.Config.Latency.{calculate_transfer_cycles}
use spac.Pipeline.Stage.{ModulePipelineState}
use spac.Scheduler.{SchedulerMatch, Work, process_matches}
use spac.Scheduler.Choice.{AnyScheduler, base_of, with_base, schedule_cycle}
use spac.Switch.{
  SchedulerStageState, OutputState, Activity, idle, processing, transmitting, waiting_ii,
  waiting_output, note, begin,
}
use spac.Switch.HashStage.{has_backlogged_packets}

-- What the stage changes.
pub record SchedulerSide (B : Type 0) : Type 0 where
  pub state : SchedulerStageState
  pub scheduler : AnyScheduler
  pub voq_buffer : B
  pub output_states : ℕ → OutputState
  pub pending_ii_wait : ℕ
  pub scheduling_cycles : ℕ
  pub packets_scheduled : ℕ
  pub active : Bool

-- An output stage that takes an entry from the scheduler.
unfoldable pub take_entry : ℕ → OutputState → VoqEntry → OutputState
unfolding calculate_transfer_cycles
take_entry bus m e = record m {
  input_busy = true;
  input_data = some e;
  input_transfer_remaining = calculate_transfer_cycles (packet_size e) bus;
}

-- The loop over the pending transmissions: the output stages afterwards, and `all_dispatched`.
unfoldable pub dispatch : ℕ → List (ℕ × VoqEntry) → (ℕ → OutputState) → (ℕ → OutputState) × Bool
unfolding take_entry
dispatch bus [] outputs = (outputs, true)
dispatch bus ((o, e) ∷ ts) outputs =
    let busy = (outputs o).input_busy in
    let rest =
      dispatch bus ts (if busy then outputs else update outputs o (take_entry bus (outputs o) e)) in
    (rest.0, if busy then false else rest.1)

-- len(processing_data) if processing_data else 0
unfoldable pub length_of : Option (List (ℕ × VoqEntry)) → ℕ
length_of none = 0
length_of (some ts) = length ts

module _ {B : Type 0} where
  -- The branch of a stage that processes. It has cycles left, so `-` does not stop at 0.
  unfoldable pub process_on : SchedulerSide B → SchedulerSide B
  unfolding length_of note
  process_on s =
      let m = note processing s.state in
      let left = m.processing_remaining - 1 in
      if left == 0
      then record s {
        state = record m { processing_remaining = left; processing = false; output_ready = true };
        packets_scheduled = length_of m.processing_data;
        active = true;
      }
      else record s { state = record m { processing_remaining = left }; active = true }

  -- The branch of a stage with transmissions for the outputs.
  unfoldable pub dispatch_pending : ℕ → SchedulerSide B → List (ℕ × VoqEntry) → SchedulerSide B
  unfolding dispatch note
  dispatch_pending bus s ts =
      let (outputs, all_dispatched) = dispatch bus ts s.output_states in
      record s {
        output_states = outputs;
        state =
            if all_dispatched
            then note transmitting (record s.state { output_ready = false; output_pending = none })
            else note waiting_output s.state;
        active = true;
      }

  -- What follows `process_matches`.
  unfoldable pub start_transmissions : SchedulerSide B → List (ℕ × VoqEntry) → SchedulerSide B
  unfolding note
  start_transmissions s [] = record s { state = note processing s.state; active = true }
  start_transmissions s (t ∷ ts) =
      let m = note processing (record s.state { ii_counter = s.state.ii }) in
      let started = record s {
        pending_ii_wait = 0;
        scheduling_cycles = s.scheduling_cycles + 1;
        active = true;
      } in
      if leb m.latency 1
      then record started {
        state = record m { output_ready = true; output_pending = some (t ∷ ts) };
        packets_scheduled = length (t ∷ ts);
      }
      else record started {
        state = record m {
          processing = true;
          processing_remaining = m.latency - 1;
          processing_data = some (t ∷ ts);
          output_pending = some (t ∷ ts);
        };
      }

  module _ (v : VoqBuffer B) where
    -- `schedule_cycle` and `process_matches`
    unfoldable pub transmit_matches :
        SchedulerSide B → List SchedulerMatch → AnyScheduler → Option (SchedulerSide B)
    unfolding start_transmissions base_of with_base note
    transmit_matches s [] scheduler =
        some (record s { scheduler = scheduler; state = note processing s.state; active = true })
    transmit_matches s (m ∷ ms) scheduler =
        process_matches v (base_of scheduler) s.voq_buffer (m ∷ ms) >>= λ w. some (
          start_transmissions
            (record s { scheduler = with_base scheduler w.state; voq_buffer = w.buffer })
            w.transmissions)

    -- The branches of a stage without a pending output.
    unfoldable pub schedule : SchedulerSide B → Option (SchedulerSide B)
    unfolding transmit_matches note
    schedule s =
        if has_backlogged_packets v s.voq_buffer
        then (if ltb 0 s.state.ii_counter
            then some (record s {
              state = note waiting_ii s.state;
              pending_ii_wait = s.pending_ii_wait + 1;
              active = true;
            })
            else (let r = schedule_cycle v s.scheduler s.voq_buffer in transmit_matches s r.0 r.1))
        else some (record s { state = note idle s.state })

    -- if output_ready and output_pending; an empty list counts as none.
    unfoldable pub dispatch_or_schedule :
        ℕ → SchedulerSide B → Bool → Option (List (ℕ × VoqEntry)) → Option (SchedulerSide B)
    unfolding dispatch_pending schedule
    dispatch_or_schedule bus s true (some (t ∷ ts)) = some (dispatch_pending bus s (t ∷ ts))
    dispatch_or_schedule bus s true (some []) = schedule s
    dispatch_or_schedule bus s true none = schedule s
    dispatch_or_schedule bus s false pending = schedule s

    -- `_process_scheduler_stage`
    unfoldable pub scheduler_stage : ℕ → SchedulerSide B → Option (SchedulerSide B)
    unfolding process_on dispatch_or_schedule begin
    scheduler_stage bus side =
        let s = record side { state = begin side.state; packets_scheduled = 0; active = false } in
        if s.state.processing
        then some (process_on s)
        else dispatch_or_schedule bus s s.state.output_ready s.state.output_pending
