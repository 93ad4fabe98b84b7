-- ===== src/Switch.antt =====
-- simulator/src/switch_core.py: `SwitchCore`. This module holds what its stages share; each stage is
-- a child module. `accumulated_latency_cycles` of a packet that waits in a queue is read nowhere in
-- the program, and what the stages add to it there is left out.
pub mod RxStage
pub mod HashStage
pub mod SchedulerStage
pub mod OutputStage
pub mod Core
pub mod Cycle
pub mod Pending
use spac.Base.{ℕ, ◌+◌, ◌-◌, ◌*◌, Bool, true, false, List, [], ◌∷◌, Option, none, some, length}
use spac.Packet.{Metadata, AxisWord}
use spac.Voq.Entry.{VoqEntry}
use spac.Config.Latency.{calculate_transfer_cycles}
use spac.Pipeline.{ModuleActivityStats}
use spac.Pipeline.Stage.{ModulePipelineState, count_down}

-- A packet on its way from a receive engine to the buffer, the tuple of the two queues.
pub record Item : Type 0 where
  pub port_id : ℕ
  pub metadata : Metadata
  pub data_words : List AxisWord
  pub trace_id : Option ℕ
  pub switch_arrival_time : ℕ
  pub ii_wait_cycles : ℕ

-- A packet whose words still come in, the list `processing_data` of a receive stage.
pub record Parsing : Type 0 where
  pub port_id : ℕ
  pub metadata : Metadata
  pub data_words : List AxisWord
  pub trace_id : Option ℕ
  pub switch_arrival_time : ℕ
  pub packet_complete : Bool

abbrev pub RxState : Type 0
RxState = ModulePipelineState Parsing Item

abbrev pub HashState : Type 0
HashState = ModulePipelineState Item Item

-- The stage of the scheduler holds the pairs of `process_matches`.
abbrev pub SchedulerStageState : Type 0
SchedulerStageState = ModulePipelineState (List (ℕ × VoqEntry)) (List (ℕ × VoqEntry))

abbrev pub OutputState : Type 0
OutputState = ModulePipelineState VoqEntry VoqEntry

-- The counters of `ModuleActivityStats`, but the total.
pub data Activity : Type 0 where
  idle receiving processing transmitting waiting_ii waiting_output : Activity

-- stats.<activity>_cycles += 1
unfoldable pub count : Activity → ModuleActivityStats → ModuleActivityStats
count idle s = record s { idle_cycles = s.idle_cycles + 1 }
count receiving s = record s { receiving_cycles = s.receiving_cycles + 1 }
count processing s = record s { processing_cycles = s.processing_cycles + 1 }
count transmitting s = record s { transmitting_cycles = s.transmitting_cycles + 1 }
count waiting_ii s = record s { waiting_ii_cycles = s.waiting_ii_cycles + 1 }
count waiting_output s = record s { waiting_output_cycles = s.waiting_output_cycles + 1 }

module _ {P A : Type 0} where
  unfoldable pub note : Activity → ModulePipelineState P A → ModulePipelineState P A
  unfolding count
  note k m = record m { stats = count k m.stats }

  -- stats.total_cycles += 1
  unfoldable pub begin : ModulePipelineState P A → ModulePipelineState P A
  begin m = record m { stats = record m.stats { total_cycles = m.stats.total_cycles + 1 } }

-- calculate_transfer_cycles(len(output_data[2]) * 64, self.bus_width_bits)
unfoldable pub transfer_of : ℕ → Item → ℕ
unfolding calculate_transfer_cycles
transfer_of bus item = calculate_transfer_cycles (length item.data_words * 64) bus

-- The part of `_tick_all_modules` for a receive stage and the lookup's stage.
unfoldable pub tick_output : {P A : Type 0} → ModulePipelineState P A → ModulePipelineState P A
unfolding count_down
tick_output m =
    let output = count_down m.output_busy m.output_transfer_remaining in
    record m {
      ii_counter = m.ii_counter - 1;
      output_busy = output.0;
      output_transfer_remaining = output.1;
    }
