-- ===== src/Tests/Pipeline.antt =====
-- Tests of the stages' timing.
use spac.Base.{ℕ, ◌≡◌, refl, false, none, arith}
use spac.Config.Latency.{calculate_transfer_cycles}
use spac.Pipeline.{TransferState, no_transfer, no_activity}
use spac.Pipeline.Stage.{ModulePipelineState, can_accept_input, start_input, start_input-accepts}
use spac.Pipeline.Stage as Stage

abbrev idle : TransferState ℕ
idle = no_transfer

abbrev stage : ModulePipelineState ℕ ℕ
stage = record {
  latency = 2;
  ii = 4;
  bus_width_bits = 512;
  ii_counter = 0;
  input_busy = false;
  input_transfer_remaining = 0;
  input_data = none;
  processing = false;
  processing_remaining = 0;
  processing_data = none;
  output_busy = false;
  output_transfer_remaining = 0;
  output_data = none;
  output_ready = false;
  output_pending = none;
  next_ready = false;
  next_data = none;
  stats = no_activity;
}

start_input-accepts_example : can_accept_input (Stage.ticks 3 (start_input stage 7 100)) ≡ false
unfolding calculate_transfer_cycles
start_input-accepts_example = start_input-accepts 3 100 stage 7 (omega arith) refl
