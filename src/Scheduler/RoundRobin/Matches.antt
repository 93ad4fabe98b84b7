-- ===== src/Scheduler/RoundRobin/Matches.antt =====
-- scheduler_base.py: which output ports a round-robin cycle serves.
use native.Mathlib.Nat.{mod-lt}
use spac.Base.{ℕ, ◌+◌, ◌<◌, ◌≡◌, refl, ap, true, false, arith, All, member, Distinct}
use spac.Voq.Interface.{VoqBuffer}
use spac.Scheduler.Process.{count_cycle-num_ports}
use spac.Scheduler.{outputs, SchedulerState, count_cycle}
use spac.Scheduler.Arbiter.{distance-lt}
use spac.Scheduler.RoundRobin.{RoundRobin, init, has_packets, visit_from, schedule_cycle}
use spac.Scheduler.RoundRobin.Visit.{
  IsValid, IsServable, visit_from-Keeps, visit_from-IsValid, visit_from-IsServable,
}
use spac.Scheduler.RoundRobin.Order.{visit_from-Distinct, visit_from_complete}

module _ {B : Type 0} (v : VoqBuffer B) where
  -- A cycle serves each output port at most once, and only with a packet that waits for it at an
  -- output that is free, if the pointers name ports.
  pub schedule_cycle-IsServable :
      (s : RoundRobin) (b : B)
      → IsValid s
      → All (IsServable v s b) (schedule_cycle v s b).0
        × Distinct (outputs (schedule_cycle v s b).0)
  unfolding schedule_cycle
  schedule_cycle-IsServable s b w = (
    visit_from-IsServable v s.num_ports s b 0 w,
    visit_from-Distinct v s.num_ports s.num_ports s.output_pointer s b 0 refl refl w.output
        (omega arith),
  )

  -- A cycle leaves no output port unserved that is free and that a packet waits for.
  pub schedule_cycle_complete :
      (s : RoundRobin) (b : B) (d i : ℕ)
      → IsValid s
      → d < s.num_ports
      → i < s.num_ports
      → s.output_busy d ≡ false
      → has_packets v b d i ≡ true
      → member d (outputs (schedule_cycle v s b).0) ≡ true
  unfolding schedule_cycle
  schedule_cycle_complete s b d i w hd hi f r =
      visit_from_complete v s.num_ports s.num_ports s.output_pointer s b 0 d i refl refl w.output hd
        hi (omega arith) (omega (arith, distance-lt s.num_ports s.output_pointer d w.output hd)) w f
        r

  -- A cycle keeps the pointers at ports.
  pub schedule_cycle-IsValid :
      (s : RoundRobin) (b : B) → IsValid s → IsValid (schedule_cycle v s b).1
  unfolding schedule_cycle count_cycle
  schedule_cycle-IsValid s b w =
      let t = (visit_from v s b 0 s.num_ports).1 in
      let k = visit_from-Keeps v s.num_ports s b 0 in
      let w' = visit_from-IsValid v s.num_ports s b 0 w in
      let same = ap (λ (u : SchedulerState). u.num_ports) k.base in
      let kept = count_cycle-num_ports t.base (visit_from v s b 0 s.num_ports).0 in
      record {
        some_port = omega (arith, kept, w'.some_port);
        inputs = λ p. omega (arith, kept, w'.inputs p);
        output = omega (arith, kept, same, mod-lt (t.output_pointer + 1) w.some_port);
      }

-- A new round-robin scheduler is valid, if it has a port.
pub init-IsValid : (n : ℕ) → 0 < n → IsValid (init n)
unfolding init
init-IsValid n h = record { some_port = h; inputs = λ p. h; output = h }
