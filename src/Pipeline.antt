-- ===== src/Pipeline.antt =====
-- simulator/src/pipeline_common.py: the timing state of a pipeline stage and of its transfers.
pub mod Timing
pub mod Stage
use spac.Base.{
  ℕ, zero, suc, ◌+◌, ◌-◌, Bool, true, false, Option, none, some, ltb, ◌==◌, leb, not, ◌&&◌,
  if◌then◌else◌,
}
use spac.Config.Latency.{calculate_transfer_cycles}

-- `TransferState`. A transfer that is active has cycles left, so `-` does not stop at 0.
pub record TransferState (A : Type 0) : Type 0 where
  pub is_active : Bool
  pub total_cycles : ℕ
  pub remaining_cycles : ℕ
  pub data_size_bytes : ℕ
  pub item : Option A

-- `ModuleActivityStats`
pub record ModuleActivityStats : Type 0 where
  pub total_cycles : ℕ
  pub idle_cycles : ℕ
  pub receiving_cycles : ℕ
  pub processing_cycles : ℕ
  pub transmitting_cycles : ℕ
  pub waiting_ii_cycles : ℕ
  pub waiting_output_cycles : ℕ

-- The defaults of the fields, and `reset`
abbrev pub no_activity : ModuleActivityStats
no_activity = record {
  total_cycles = 0;
  idle_cycles = 0;
  receiving_cycles = 0;
  processing_cycles = 0;
  transmitting_cycles = 0;
  waiting_ii_cycles = 0;
  waiting_output_cycles = 0;
}

-- `active_cycles`
unfoldable pub active_cycles : ModuleActivityStats → ℕ
active_cycles s = s.receiving_cycles + s.processing_cycles + s.transmitting_cycles

-- `busy_cycles`
unfoldable pub busy_cycles : ModuleActivityStats → ℕ
unfolding active_cycles
busy_cycles s = active_cycles s + s.waiting_ii_cycles + s.waiting_output_cycles

-- `PipelineStageState`
pub record PipelineStageState (A : Type 0) : Type 0 where
  pub latency : ℕ
  pub ii : ℕ
  pub bus_width_bits : ℕ
  pub ii_counter : ℕ
  pub processing_counter : ℕ
  pub has_processing_data : Bool
  pub processing_data : Option A
  pub next_decision_ready : Bool
  pub next_decision_data : Option A
  pub input_transfer : TransferState A
  pub output_transfer : TransferState A
  pub output_ready : Bool
  pub output_data : Option A
  pub stats : ModuleActivityStats

module _ {A : Type 0} where
  -- `TransferState.start_transfer`
  unfoldable pub start_transfer : TransferState A → A → ℕ → ℕ → TransferState A
  unfolding calculate_transfer_cycles
  start_transfer t item size_bytes bus_width_bits = record t {
    is_active = true;
    item = some item;
    data_size_bytes = size_bytes;
    total_cycles = calculate_transfer_cycles size_bytes bus_width_bits;
    remaining_cycles = calculate_transfer_cycles size_bytes bus_width_bits;
  }

  -- `TransferState.tick`
  unfoldable pub tick : TransferState A → Bool × TransferState A
  tick t =
      if not t.is_active
      then (false, t)
      else if t.remaining_cycles - 1 == 0
      then (true, record t { remaining_cycles = t.remaining_cycles - 1; is_active = false })
      else (false, record t { remaining_cycles = t.remaining_cycles - 1 })

  -- `TransferState.reset`, and the defaults of the fields
  abbrev pub no_transfer : TransferState A
  no_transfer = record {
    is_active = false;
    total_cycles = 0;
    remaining_cycles = 0;
    data_size_bytes = 0;
    item = none;
  }

  -- `PipelineStageState.can_accept_input`
  unfoldable pub can_accept_input : PipelineStageState A → Bool
  can_accept_input s =
      (s.ii_counter == 0) && (not s.input_transfer.is_active && not s.next_decision_ready)

  -- `PipelineStageState.can_output`
  unfoldable pub can_output : PipelineStageState A → Bool
  can_output s = s.output_ready && not s.output_transfer.is_active

  -- `PipelineStageState.start_input`
  unfoldable pub start_input : PipelineStageState A → A → ℕ → PipelineStageState A
  unfolding start_transfer
  start_input s item size_bytes = record s {
    input_transfer = start_transfer s.input_transfer item size_bytes s.bus_width_bits;
    ii_counter = s.ii;
  }

  -- `PipelineStageState.start_output`
  unfoldable pub start_output : PipelineStageState A → A → ℕ → PipelineStageState A
  unfolding start_transfer
  start_output s item size_bytes = record s {
    output_transfer = start_transfer s.output_transfer item size_bytes s.bus_width_bits;
    output_ready = false;
    output_data = none;
  }

  -- `PipelineStageState.tick_ii`; the guard is what keeps `-` from 0.
  unfoldable pub tick_ii : PipelineStageState A → PipelineStageState A
  tick_ii s = if ltb 0 s.ii_counter then record s { ii_counter = s.ii_counter - 1 } else s

  -- `PipelineStageState.tick_processing`
  unfoldable pub tick_processing : PipelineStageState A → Bool × PipelineStageState A
  tick_processing s =
      if s.has_processing_data && ltb 0 s.processing_counter
      then (
        s.processing_counter - 1 == 0,
        record s { processing_counter = s.processing_counter - 1 },
      )
      else (false, s)

  -- `PipelineStageState.reset`
  unfoldable pub reset : PipelineStageState A → PipelineStageState A
  reset s = record s {
    ii_counter = 0;
    processing_counter = 0;
    has_processing_data = false;
    processing_data = none;
    next_decision_ready = false;
    next_decision_data = none;
    input_transfer = no_transfer;
    output_transfer = no_transfer;
    output_ready = false;
    output_data = none;
    stats = no_activity;
  }
