-- ===== src/Pipeline/Stage.antt =====
-- simulator/src/switch_core.py: `ModulePipelineState`, the stages that the switch ticks.
use spac.Base.{
  ℕ, zero, suc, ◌-◌, ◌<◌, ◌≡◌, refl, max, Bool, true, false, not, ◌&&◌, ◌||◌, Option, none, some,
  ltb, leb, ◌==◌, if◌then◌else◌, arith,
}
use spac.Config.Latency.{calculate_transfer_cycles}
use spac.Pipeline.{ModuleActivityStats, no_activity}
use spac.Pipeline.Timing.{cycles-positive}

-- `ModulePipelineState`; the name is left out. What a stage processes may be of another type than what
-- goes in and out.
pub record ModulePipelineState (P A : Type 0) : Type 0 where
  pub latency : ℕ
  pub ii : ℕ
  pub bus_width_bits : ℕ
  pub ii_counter : ℕ
  pub input_busy : Bool
  pub input_transfer_remaining : ℕ
  pub input_data : Option A
  pub processing : Bool
  pub processing_remaining : ℕ
  pub processing_data : Option P
  pub output_busy : Bool
  pub output_transfer_remaining : ℕ
  pub output_data : Option A
  pub output_ready : Bool
  pub output_pending : Option A
  pub next_ready : Bool
  pub next_data : Option A
  pub stats : ModuleActivityStats

-- One of the three counters of `tick`: whether its part is still busy, the cycles left, and whether
-- the part ends in this cycle. A part that is busy has cycles left.
unfoldable pub count_down : Bool → ℕ → Bool × ℕ × Bool
count_down busy remaining =
    if busy
    then (if remaining - 1 == 0 then (false, remaining - 1, true) else (true, remaining - 1, false))
    else (false, remaining, false)

module _ {P A : Type 0} where
  -- `can_accept_input`
  unfoldable pub can_accept_input : ModulePipelineState P A → Bool
  can_accept_input m = (m.ii_counter == 0) && (not m.input_busy && not m.next_ready)

  -- `has_output`
  unfoldable pub has_output : ModulePipelineState P A → Bool
  has_output m = m.output_ready || m.next_ready

  -- `tick`
  unfoldable pub tick : ModulePipelineState P A → (Bool × Bool × Bool) × ModulePipelineState P A
  unfolding count_down
  tick m =
      let input = count_down m.input_busy m.input_transfer_remaining in
      let process = count_down m.processing m.processing_remaining in
      let output = count_down m.output_busy m.output_transfer_remaining in
      (
        (input.2, process.2, output.2),
        record m {
          ii_counter = if ltb 0 m.ii_counter then m.ii_counter - 1 else m.ii_counter;
          input_busy = input.0;
          input_transfer_remaining = input.1;
          processing = process.0;
          processing_remaining = process.1;
          output_busy = output.0;
          output_transfer_remaining = output.1;
        },
      )

  -- `start_input`
  unfoldable pub start_input : ModulePipelineState P A → A → ℕ → ModulePipelineState P A
  unfolding calculate_transfer_cycles
  start_input m item size_bytes = record m {
    input_busy = true;
    input_data = some item;
    input_transfer_remaining = calculate_transfer_cycles size_bytes m.bus_width_bits;
    ii_counter = m.ii;
  }

  -- `start_processing`
  unfoldable pub start_processing : ModulePipelineState P A → P → ModulePipelineState P A
  start_processing m item = record m {
    processing = true;
    processing_data = some item;
    processing_remaining = m.latency;
  }

  -- `start_output`
  unfoldable pub start_output : ModulePipelineState P A → A → ℕ → ModulePipelineState P A
  unfolding calculate_transfer_cycles
  start_output m item size_bytes = record m {
    output_busy = true;
    output_data = some item;
    output_transfer_remaining = calculate_transfer_cycles size_bytes m.bus_width_bits;
    output_ready = false;
    output_pending = none;
  }

  -- `set_output_ready`
  unfoldable pub set_output_ready : ModulePipelineState P A → A → ModulePipelineState P A
  set_output_ready m item =
      if m.output_busy
      then record m { next_ready = true; next_data = some item }
      else record m { output_ready = true; output_pending = some item }

  -- `reset`
  unfoldable pub reset : ModulePipelineState P A → ModulePipelineState P A
  reset m = record m {
    ii_counter = 0;
    input_busy = false;
    input_transfer_remaining = 0;
    input_data = none;
    processing = false;
    processing_remaining = 0;
    processing_data = none;
    output_busy = false;
    output_transfer_remaining = 0;
    output_data = none;
    output_ready = false;
    output_pending = none;
    next_ready = false;
    next_data = none;
    stats = no_activity;
  }

  -- So many calls of `tick`.
  unfoldable pub ticks : ℕ → ModulePipelineState P A → ModulePipelineState P A
  ticks zero m = m
  ticks (suc k) m = ticks k (tick m).1

  -- The input of a stage: its transfer is busy as long as it has cycles left.
  record Waits (m : ModulePipelineState P A) (ii left : ℕ) : Type 0 where
    counter : m.ii_counter ≡ ii
    remaining : m.input_transfer_remaining ≡ left
    busy : m.input_busy ≡ ltb 0 left
    ready : m.next_ready ≡ false

  tick-Waits :
      (m : ModulePipelineState P A) (ii left : ℕ)
      → Waits m ii left
      → Waits (tick m).1 (ii - 1) (left - 1)
  unfolding tick count_down
  tick-Waits m ii left w = record {
    counter = ground (arith, w.counter);
    remaining = ground (arith, w.remaining, w.busy);
    busy = ground (arith, w.remaining, w.busy);
    ready = w.ready;
  }

  ticks-Waits :
      (k : ℕ) (m : ModulePipelineState P A) (ii left : ℕ)
      → Waits m ii left
      → can_accept_input (ticks k m) ≡ (leb ii k && leb left k)
  unfolding ticks can_accept_input
  ticks-Waits zero m ii left w = ground (arith, w.counter, w.busy, w.ready)
  ticks-Waits (suc k) m ii left w =
      ground (arith, ticks-Waits k (tick m).1 (ii - 1) (left - 1) (tick-Waits m ii left w))

  -- A stage without a result held back, once it has taken an input on a bus with at least one line,
  -- takes the next one after its initiation interval and the cycles of the transfer, whichever is
  -- longer, and not before.
  pub start_input-accepts :
      (k size : ℕ) (m : ModulePipelineState P A) (item : A)
      → 0 < m.bus_width_bits
      → m.next_ready ≡ false
      → can_accept_input (ticks k (start_input m item size))
        ≡ leb (max m.ii (calculate_transfer_cycles size m.bus_width_bits)) k
  unfolding start_input
  start_input-accepts k size m item w n =
      let cycles = calculate_transfer_cycles size m.bus_width_bits in
      let some_cycle = cycles-positive size m.bus_width_bits in
      let waits : Waits (start_input m item size) m.ii cycles = record {
        counter = refl;
        remaining = refl;
        busy = ground arith;
        ready = n;
      } in
      ground (arith, ticks-Waits k (start_input m item size) m.ii cycles waits)
