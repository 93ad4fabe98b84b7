-- ===== src/Tests/Scheduler.antt =====
-- Tests of the schedulers, over the buffer of `Tests`.
use spac.Base.{
  ℕ, ◌<◌, ◌≤◌, ◌≡◌, refl, true, List, [], ◌∷◌, Option, none, some, member, length, All, Distinct,
  arith,
}
use spac.Voq.Shared.{SharedBuffer}
use spac.Voq.Shared as Shared
use spac.Voq.Shared.Contents.{shared_voq}
use spac.Scheduler.{inputs, outputs, SchedulerMatch, SchedulerState, Work, process_matches}
use spac.Scheduler as Scheduler
use spac.Scheduler.Process.{IsSound, ports_of, process_matches-IsSound}
use spac.Scheduler.Totality.{process_matches-total}
use spac.Scheduler.RoundRobin as Round_robin
use spac.Scheduler.RoundRobin.Visit.{IsServable}
use spac.Scheduler.RoundRobin.Visit as Visit
use spac.Scheduler.RoundRobin.Matches.{
  schedule_cycle-IsServable, schedule_cycle_complete, init-IsValid,
}
use spac.Scheduler.RoundRobin.Service.{process_matches-schedule_cycle}
use spac.Scheduler.RoundRobin.Fairness.{picks, find_ready_input-fair}
use spac.Scheduler.Edrrm as Edrrm
use spac.Scheduler.Edrrm.Matching as Matching
use spac.Scheduler.Edrrm.Cycle.{has_match, schedule_cycle-matching, schedule_cycle_serves}
use spac.Scheduler.Edrrm.Service.{process_matches-schedule_cycle_of_edrrm}
use spac.Scheduler.Islip as Islip
use spac.Scheduler.Islip.Preferred.{get_preferred_output-longest}
use spac.Scheduler.Islip.Matches.{IsPreferred}
use spac.Scheduler.Islip.Cycle.{schedule_cycle-IsPreferred}
use spac.Scheduler.Islip.Contention.{times}
use spac.Scheduler.Islip.Conflicts.{schedule_cycle_twice}
use spac.Tests.{loaded}

abbrev match_of : ℕ → ℕ → SchedulerMatch
match_of i o = record { input_port = i; output_port = o }

-- The second match is a conflict.
abbrev two_matches : List SchedulerMatch
two_matches = match_of 0 1 ∷ match_of 1 1 ∷ []

abbrev nothing_done : Work SharedBuffer
nothing_done = record { state = Scheduler.init 2; buffer = loaded; transmissions = [] }

abbrev work : Option (Work SharedBuffer) → Work SharedBuffer
work none = nothing_done
work (some w) = w

process_matches-IsSound_example :
    IsSound shared_voq loaded 0
      (work (process_matches shared_voq (Scheduler.init 2) loaded two_matches))
unfolding process_matches Scheduler.init Shared.dequeue_packet
process_matches-IsSound_example =
    process_matches-IsSound shared_voq (Scheduler.init 2) loaded two_matches refl

process_matches-total_example :
    (w : Work SharedBuffer) × (process_matches shared_voq (Scheduler.init 2) loaded two_matches
      ≡ some w)
unfolding Scheduler.init
process_matches-total_example =
    process_matches-total shared_voq (Scheduler.init 2) loaded two_matches
      ((omega arith, omega arith, omega arith), ((omega arith, omega arith, omega arith), tt))

abbrev round_robin : Round_robin.RoundRobin
round_robin = Round_robin.init 2

round_robin-IsValid : Visit.IsValid round_robin
round_robin-IsValid = init-IsValid 2 (omega arith)

schedule_cycle-IsServable_example :
    let ms = (Round_robin.schedule_cycle shared_voq round_robin loaded).0 in
    All (IsServable shared_voq round_robin loaded) ms × Distinct (outputs ms)
schedule_cycle-IsServable_example =
    schedule_cycle-IsServable shared_voq round_robin loaded round_robin-IsValid

schedule_cycle_complete_example :
    member 1 (outputs (Round_robin.schedule_cycle shared_voq round_robin loaded).0) ≡ true
unfolding Round_robin.init Scheduler.init
schedule_cycle_complete_example =
    schedule_cycle_complete shared_voq round_robin loaded 1 0 round_robin-IsValid (omega arith)
      (omega arith) refl refl

find_ready_input-fair_example :
    member 1 (picks shared_voq round_robin 1 (loaded ∷ loaded ∷ [])) ≡ true
unfolding Round_robin.init Scheduler.init
find_ready_input-fair_example =
    find_ready_input-fair shared_voq round_robin 1 1 (loaded ∷ loaded ∷ []) round_robin-IsValid
      (omega arith) (refl, (refl, tt)) (omega arith)

process_matches-schedule_cycle_example :
    let cycle = Round_robin.schedule_cycle shared_voq round_robin loaded in
    (w : Work SharedBuffer) × (process_matches shared_voq cycle.1.base loaded cycle.0 ≡ some w)
    × (member 1 (ports_of w.transmissions) ≡ true)
unfolding Round_robin.init Scheduler.init
process_matches-schedule_cycle_example =
    process_matches-schedule_cycle shared_voq round_robin loaded 1 0 round_robin-IsValid refl refl
      (omega arith) (omega arith) refl refl

abbrev edrrm : Edrrm.Edrrm
edrrm = Edrrm.init 2

edrrm-IsValid : Matching.IsValid edrrm
unfolding Edrrm.init Scheduler.init
edrrm-IsValid = record {
  some_port = omega arith;
  inputs_in = λ p. omega arith;
  outputs_in = λ p. omega arith;
}

schedule_cycle-matching_example :
    let ms = (Edrrm.schedule_cycle shared_voq edrrm loaded).0 in
    Distinct (inputs ms)
    × Distinct (outputs ms)
    × All
        (λ m.
          (m.input_port < edrrm.num_ports)
          × (m.output_port < edrrm.num_ports)
          × (0 < length (loaded.voq m.input_port m.output_port)))
        ms
schedule_cycle-matching_example = schedule_cycle-matching shared_voq edrrm loaded edrrm-IsValid

schedule_cycle_serves_example :
    (o : ℕ) × (Edrrm.request_phase shared_voq edrrm loaded [] [] 1 ≡ some o)
    × (0 < length (loaded.voq 1 o))
    × (i : ℕ) × (Edrrm.request_phase shared_voq edrrm loaded [] [] i ≡ some o)
    × (has_match i o (Edrrm.schedule_cycle shared_voq edrrm loaded).0 ≡ true)
unfolding Edrrm.init Scheduler.init
schedule_cycle_serves_example =
    schedule_cycle_serves shared_voq edrrm loaded 1 1 edrrm-IsValid (omega arith) (omega arith)
      (omega arith)

process_matches-schedule_cycle_of_edrrm_example :
    let cycle = Edrrm.schedule_cycle shared_voq edrrm loaded in
    (w : Work SharedBuffer) × (process_matches shared_voq cycle.1.base loaded cycle.0 ≡ some w)
    × (ports_of w.transmissions ≡ outputs cycle.0)
unfolding Edrrm.init Scheduler.init
process_matches-schedule_cycle_of_edrrm_example =
    process_matches-schedule_cycle_of_edrrm shared_voq edrrm loaded edrrm-IsValid refl refl
      (λ o. refl)

abbrev islip : Islip.Islip
islip = Islip.init 2

get_preferred_output-longest_example :
    (0 < length (loaded.voq 1 1)) × (length (loaded.voq 1 0) ≤ length (loaded.voq 1 1))
unfolding Islip.get_preferred_output
get_preferred_output-longest_example =
    get_preferred_output-longest shared_voq 2 loaded 1 0 refl (omega arith)

schedule_cycle-IsPreferred_example :
    let ms = (Islip.schedule_cycle shared_voq islip loaded).0 in
    Distinct (inputs ms) × All (IsPreferred shared_voq islip loaded) ms
schedule_cycle-IsPreferred_example = schedule_cycle-IsPreferred shared_voq islip loaded

schedule_cycle_twice_example :
    2 ≤ times 1 (outputs (Islip.schedule_cycle shared_voq islip loaded).0)
unfolding Islip.init Scheduler.init Islip.get_preferred_output
schedule_cycle_twice_example =
    schedule_cycle_twice shared_voq islip loaded 1 0 1 (omega arith) (omega arith) (omega arith)
      (λ e. absurd (omega (arith, e))) refl refl refl
