-- ===== src/Pipeline/Timing.antt =====
-- pipeline_common.py: how long a transfer takes.
use spac.Base.{ℕ, zero, suc, ◌-◌, ◌<◌, ◌≡◌, ltb, ◌==◌, arith}
use spac.Config.Latency.{calculate_transfer_cycles}
use spac.Pipeline.{TransferState, start_transfer, tick}

pub cycles-positive : (size width : ℕ) → 0 < calculate_transfer_cycles size width
unfolding calculate_transfer_cycles
cycles-positive size width = omega arith

module _ {A : Type 0} where
  -- A transfer is active as long as it has cycles left.
  abbrev pub IsInStep : TransferState A → Type 0
  IsInStep t = t.is_active ≡ ltb 0 t.remaining_cycles

  -- So many calls of `tick`.
  unfoldable pub ticks : ℕ → TransferState A → TransferState A
  ticks zero t = t
  ticks (suc k) t = ticks k (tick t).1

  pub tick_lem :
      (t : TransferState A)
      → IsInStep t
      → IsInStep (tick t).1
        × ((tick t).1.remaining_cycles ≡ t.remaining_cycles - 1)
        × ((tick t).0 ≡ (t.remaining_cycles == 1))
  unfolding tick
  tick_lem t s = ground (arith, s)

  pub ticks_lem :
      (k : ℕ) (t : TransferState A)
      → IsInStep t
      → IsInStep (ticks k t) × ((ticks k t).remaining_cycles ≡ t.remaining_cycles - k)
  unfolding ticks
  ticks_lem zero t s = (s, omega arith)
  ticks_lem (suc k) t s =
      let h = tick_lem t s in let r = ticks_lem k (tick t).1 h.0 in (r.0, omega (arith, r.1, h.1))

  -- A transfer ends at the tick that makes as many as its cycles, and at no other, on a bus with
  -- at least one line.
  pub tick-done :
      (k size width : ℕ) (t : TransferState A) (item : A)
      → 0 < width
      → (tick (ticks k (start_transfer t item size width))).0
        ≡ (suc k == calculate_transfer_cycles size width)
  unfolding start_transfer
  tick-done k size width t item w =
      let started = start_transfer t item size width in
      let some_cycle = cycles-positive size width in
      let r = ticks_lem k started (ground arith) in
      ground (arith, (tick_lem (ticks k started) r.0).2, r.1)
