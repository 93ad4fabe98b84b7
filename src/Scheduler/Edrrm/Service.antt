-- ===== src/Scheduler/Edrrm/Service.antt =====
-- scheduler_base.py: a cycle of `EDRRMScheduler` and the transmissions that follow.
use spac.Base.{
  ℕ, zero, suc, ◌<◌, ◌≡◌, refl, ap, ◌∙◌, false, List, [], ◌∷◌, Option, none, some, arith, length,
  All,
}
use spac.Voq.Interface.{VoqBuffer}
use spac.Scheduler.{outputs, SchedulerMatch, SchedulerState, Work, process_matches}
use spac.Scheduler.Process.{ports_of, count_cycle_kept, count_cycle-num_ports}
use spac.Scheduler.Delivery.{IsReady, process_matches-sends}
use spac.Scheduler.Edrrm.{
  Edrrm, Grants, request_phase, grant, grant_output, grant_phase, schedule_cycle,
}
use spac.Scheduler.Edrrm.Matching.{IsValid}
use spac.Scheduler.Edrrm.Cycle.{schedule_cycle-matching}

module _ {B : Type 0} (v : VoqBuffer B) where
  grant_kept :
      (g : Grants) (b : B) (dst : ℕ) (r : Option ℕ)
      → (grant v g b dst r).scheduler.base ≡ g.scheduler.base
  unfolding grant
  grant_kept g b dst none = refl
  grant_kept g b dst (some src) = refl

  grant_phase_kept :
      (requests : ℕ → Option ℕ) (g : Grants) (b : B) (k : ℕ)
      → (grant_phase v requests g b k).scheduler.base ≡ g.scheduler.base
  unfolding grant_phase grant_output
  grant_phase_kept requests g b zero = refl
  grant_phase_kept requests g b (suc k) =
      let g' = grant_phase v requests g b k in grant_kept g' b k _ ∙ grant_phase_kept requests g b k

  -- Until matches are processed, a cycle leaves the outputs, the backoffs and the number of ports as
  -- they were.
  schedule_cycle_kept :
      (s : Edrrm) (b : B)
      → let t = (schedule_cycle v s b).1.base in
        (t.output_busy ≡ s.base.output_busy)
        × (t.backoff_counters ≡ s.base.backoff_counters)
        × (t.num_ports ≡ s.num_ports)
  unfolding schedule_cycle
  schedule_cycle_kept s b =
      let start : Grants = record { scheduler = s; matches = []; taken_src = []; taken_dst = [] } in
      let g = grant_phase v (request_phase v s b [] []) start b s.num_ports in
      let c = count_cycle_kept g.scheduler.base g.matches in
      let k = grant_phase_kept (request_phase v s b [] []) start b s.num_ports in
      (
        c.0 ∙ ap (λ (u : SchedulerState). u.output_busy) k,
        c.1 ∙ ap (λ (u : SchedulerState). u.backoff_counters) k,
        count_cycle-num_ports g.scheduler.base g.matches
            ∙ ap (λ (u : SchedulerState). u.num_ports) k,
      )

  matched-IsReady :
      (s : Edrrm) (b : B) (t : SchedulerState) (ms : List SchedulerMatch)
      → s.num_ports ≡ v.num_ports b
      → t.num_ports ≡ s.num_ports
      → ((o : ℕ) → t.output_busy o ≡ false)
      → All
          (λ m.
            (m.input_port < s.num_ports)
            × (m.output_port < s.num_ports)
            × (0 < length (v.queue b m.input_port m.output_port)))
          ms
      → All (IsReady v (record { state = t; buffer = b; transmissions = [] })) ms
  matched-IsReady s b t [] n l f a = tt
  matched-IsReady s b t (m ∷ ms) n l f a = (
    record {
      input_in = omega (arith, n, a.0.0);
      output_in = omega (arith, n, a.0.1);
      output_known = omega (arith, l, a.0.1);
      free = f m.output_port;
      waiting = a.0.2;
    },
    matched-IsReady s b t ms n l f a.1,
  )

  -- With pointers at ports, as many ports as the buffer, no pair backed off and all outputs free,
  -- `process_matches` returns on the matches of an EDRRM cycle and sends a packet for each of them.
  pub process_matches-schedule_cycle_of_edrrm :
      (s : Edrrm) (b : B)
      → IsValid s
      → s.num_ports ≡ v.num_ports b
      → s.base.backoff_counters ≡ []
      → ((o : ℕ) → s.base.output_busy o ≡ false)
      → (w : Work B) × (process_matches v (schedule_cycle v s b).1.base b (schedule_cycle v s b).0
          ≡ some w)
        × (ports_of w.transmissions ≡ outputs (schedule_cycle v s b).0)
  process_matches-schedule_cycle_of_edrrm s b valid n none_back free =
      let cycle = schedule_cycle v s b in
      let kept = schedule_cycle_kept s b in
      let matching = schedule_cycle-matching v s b valid in
      process_matches-sends v cycle.1.base b cycle.0 (kept.1 ∙ none_back) matching.1 (
        matched-IsReady s b cycle.1.base cycle.0 n kept.2 (λ o. ap (λ f. f o) kept.0 ∙ free o)
          matching.2)
