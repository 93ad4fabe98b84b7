-- ===== src/Scheduler/RoundRobin.antt =====
-- scheduler_base.py: `RoundRobinScheduler`.
pub mod Visit
pub mod Order
pub mod Matches
pub mod Fairness
pub mod Service
use spac.Base.{
  ℕ, zero, suc, ◌+◌, ◌%◌, Bool, List, [], ◌∷◌, Option, none, some, ltb, if◌then◌else◌, length,
  update,
}
use spac.Voq.Interface.{VoqBuffer}
use spac.Scheduler.{SchedulerMatch, SchedulerState, count_cycle}
use spac.Scheduler as Scheduler
use spac.Scheduler.Arbiter.{scan}

pub record RoundRobin : Type 0 where
  pub base : SchedulerState
  pub open base use {num_ports, output_busy}
  pub input_pointers : ℕ → ℕ
  pub output_pointer : ℕ

-- `__init__` and `reset`
unfoldable pub init : ℕ → RoundRobin
unfolding Scheduler.init
init n = record { base = Scheduler.init n; input_pointers = λ p. 0; output_pointer = 0 }

-- What `_find_ready_input` does with the end of its scan.
unfoldable pub pick : RoundRobin → ℕ → Option ℕ → Option ℕ × RoundRobin
pick s out none = (none, s)
pick s out (some i) =
    (some i, record s { input_pointers = update s.input_pointers out ((i + 1) % s.num_ports) })

-- The match of an output port, if it has one.
unfoldable pub add_match : Option ℕ → ℕ → List SchedulerMatch → List SchedulerMatch
add_match none out ms = ms
add_match (some i) out ms = record { input_port = i; output_port = out } ∷ ms

module _ {B : Type 0} (v : VoqBuffer B) where
  -- self.voq_buffer.get_queue_length(in_port, output_port) > 0
  abbrev pub has_packets : B → ℕ → ℕ → Bool
  has_packets b out i = ltb 0 (length (v.queue b i out))

  -- `_find_ready_input`
  unfoldable pub find_ready_input : RoundRobin → B → ℕ → Option ℕ × RoundRobin
  unfolding pick scan
  find_ready_input s b out =
      pick s out (scan (has_packets b out) s.num_ports (s.input_pointers out) 0 s.num_ports)

  -- The body of the loop of `schedule_cycle`.
  unfoldable pub visit : RoundRobin → B → ℕ → Option ℕ × RoundRobin
  unfolding find_ready_input
  visit s b out = if s.output_busy out then (none, s) else find_ready_input s b out

  -- The loop, from an offset on with so many rounds left.
  unfoldable pub visit_from : RoundRobin → B → ℕ → ℕ → List SchedulerMatch × RoundRobin
  unfolding visit add_match
  visit_from s b offset zero = ([], s)
  visit_from s b offset (suc rounds) =
      let out = (s.output_pointer + offset) % s.num_ports in
      let r = visit s b out in
      let later = visit_from r.1 b (offset + 1) rounds in (add_match r.0 out later.0, later.1)

  -- `schedule_cycle`
  unfoldable pub schedule_cycle : RoundRobin → B → List SchedulerMatch × RoundRobin
  unfolding visit_from count_cycle
  schedule_cycle s b =
      let r = visit_from s b 0 s.num_ports in
      (
        r.0,
        record r.1 {
          base = count_cycle r.1.base r.0;
          output_pointer = (r.1.output_pointer + 1) % s.num_ports;
        },
      )
