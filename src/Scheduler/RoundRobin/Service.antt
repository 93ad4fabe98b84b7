-- ===== src/Scheduler/RoundRobin/Service.antt =====
-- scheduler_base.py: a cycle of `RoundRobinScheduler` and the transmissions that follow.
use spac.Base.{
  ℕ, ◌<◌, ◌≡◌, ap, ◌∙◌, true, false, List, [], ◌∷◌, some, arith, length, All, member, ltb→lt,
}
use spac.Voq.Interface.{VoqBuffer}
use spac.Scheduler.{SchedulerMatch, SchedulerState, Work, process_matches}
use spac.Scheduler.Process.{ports_of, count_cycle_kept, count_cycle-num_ports}
use spac.Scheduler.Delivery.{IsReady, process_matches-sends}
use spac.Scheduler.RoundRobin.{RoundRobin, has_packets, visit_from, schedule_cycle}
use spac.Scheduler.RoundRobin.Visit.{IsValid, IsServable, visit_from-Keeps}
use spac.Scheduler.RoundRobin.Matches.{schedule_cycle-IsServable, schedule_cycle_complete}

module _ {B : Type 0} (v : VoqBuffer B) where
  -- Until matches are processed, a cycle leaves the outputs, the backoffs and the number of ports as
  -- they were.
  schedule_cycle_kept :
      (s : RoundRobin) (b : B)
      → let t = (schedule_cycle v s b).1.base in
        (t.output_busy ≡ s.base.output_busy)
        × (t.backoff_counters ≡ s.base.backoff_counters)
        × (t.num_ports ≡ s.num_ports)
  unfolding schedule_cycle
  schedule_cycle_kept s b =
      let r = visit_from v s b 0 s.num_ports in
      let k = visit_from-Keeps v s.num_ports s b 0 in
      let c = count_cycle_kept r.1.base r.0 in
      (
        c.0 ∙ ap (λ (u : SchedulerState). u.output_busy) k.base,
        c.1 ∙ ap (λ (u : SchedulerState). u.backoff_counters) k.base,
        count_cycle-num_ports r.1.base r.0 ∙ ap (λ (u : SchedulerState). u.num_ports) k.base,
      )

  servable-IsReady :
      (s : RoundRobin) (b : B) (t : SchedulerState) (ms : List SchedulerMatch)
      → s.num_ports ≡ v.num_ports b
      → t.output_busy ≡ s.base.output_busy
      → t.num_ports ≡ s.num_ports
      → All (IsServable v s b) ms
      → All (IsReady v (record { state = t; buffer = b; transmissions = [] })) ms
  servable-IsReady s b t [] n k l a = tt
  servable-IsReady s b t (m ∷ ms) n k l a = (
    record {
      input_in = omega (arith, n, a.0.input_in);
      output_in = omega (arith, n, a.0.output_in);
      output_known = omega (arith, l, a.0.output_in);
      free = ap (λ f. f m.output_port) k ∙ a.0.free;
      waiting = ltb→lt 0 (length (v.queue b m.input_port m.output_port)) a.0.waiting;
    },
    servable-IsReady s b t ms n k l a.1,
  )

  -- A round-robin cycle is work-conserving: with pointers at ports, as many ports as the buffer and
  -- no pair backed off, `process_matches` returns on the cycle's matches, and each output port that
  -- was free and that a packet waited for is sent one.
  pub process_matches-schedule_cycle :
      (s : RoundRobin) (b : B) (d i : ℕ)
      → IsValid s
      → s.num_ports ≡ v.num_ports b
      → s.base.backoff_counters ≡ []
      → d < s.num_ports
      → i < s.num_ports
      → s.output_busy d ≡ false
      → has_packets v b d i ≡ true
      → (w : Work B) × (process_matches v (schedule_cycle v s b).1.base b (schedule_cycle v s b).0
          ≡ some w)
        × (member d (ports_of w.transmissions) ≡ true)
  process_matches-schedule_cycle s b d i valid n none_back hd hi f r =
      let cycle = schedule_cycle v s b in
      let kept = schedule_cycle_kept s b in
      let servable = schedule_cycle-IsServable v s b valid in
      let (w, done, ports) =
        process_matches-sends v cycle.1.base b cycle.0 (kept.1 ∙ none_back) servable.1
          (servable-IsReady s b cycle.1.base cycle.0 n kept.0 kept.2 servable.0) in
      (w, done, ap (member d) ports ∙ schedule_cycle_complete v s b d i valid hd hi f r)
