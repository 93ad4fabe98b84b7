-- ===== src/Scheduler/Islip/Cycle.antt =====
-- scheduler_base.py: the iterations of an iSLIP cycle together.
use spac.Base.{
  ℕ, zero, suc, ◌<◌, ◌≡◌, refl, subst, ◌⊎◌, inl, inr, false, List, [], ◌∷◌, ◌++◌, none, some, arith,
  length, All, All-map, All-append, member, Distinct, Distinct-append, range, range-lt,
  range-Distinct, Bool-cases, ◌==◌,
}
use mathlib.Core.List.{map-append}
use spac.Voq.Interface.{VoqBuffer}
use spac.Scheduler.{inputs, SchedulerMatch}
use spac.Scheduler.Islip.{
  Islip, is_none, collect, accept_matches, grants_of, get_preferred_output, islip_iteration,
  iterate, schedule_cycle, max_iterations,
}
use spac.Scheduler.Islip.Matches.{
  IsPreferred, iteration-IsPreferred, collect-All, collect-Distinct, accept_matches-none,
}

inputs-All :
    (P : ℕ → Type 0) (ms : List SchedulerMatch) → All (λ m. P m.input_port) ms → All P (inputs ms)
inputs-All P [] a = tt
inputs-All P (m ∷ ms) a = (a.0, inputs-All P ms a.1)

module _ {B : Type 0} (v : VoqBuffer B) where
  -- The loop's invariant: the inputs of the matches so far have grants.
  record IsSound (s0 : Islip) (b : B) (ms : List SchedulerMatch) (s : Islip) : Type 0 where
    base : s.base ≡ s0.base
    preferred : All (IsPreferred v s0 b) ms
    distinct : Distinct (inputs ms)
    granted : (i : ℕ) → (member i (inputs ms) ≡ false) ⊎ (is_none (s.input_grants i) ≡ false)

  IsPreferred-base :
      (s t : Islip) (b : B) (m : SchedulerMatch)
      → t.base ≡ s.base
      → IsPreferred v t b m
      → IsPreferred v s b m
  IsPreferred-base s t b m e p = record {
    input_in = subst (λ u. m.input_port < u.num_ports) e p.input_in;
    output_in = subst (λ u. m.output_port < u.num_ports) e p.output_in;
    free = subst (λ u. u.output_busy m.output_port ≡ false) e p.free;
    preferred =
        subst (λ u. get_preferred_output v u.num_ports b m.input_port ≡ some m.output_port) e
          p.preferred;
  }

  -- The new matches of an iteration are of input ports that had no match.
  new-apart :
      (s0 : Islip) (b : B) (ms : List SchedulerMatch) (s : Islip)
      → IsSound s0 b ms s
      → All (λ i. member i (inputs ms) ≡ false) (inputs (islip_iteration v s b))
  unfolding islip_iteration
  new-apart s0 b ms s w =
      inputs-All (λ i. member i (inputs ms) ≡ false) (islip_iteration v s b)
        (All-map _ (λ m. member m.input_port (inputs ms) ≡ false)
          (λ m a. ground (arith, w.granted m.input_port, a.1))
          (collect s.input_grants (grants_of v s b) s.num_ports (range s.num_ports))
          (collect-All s.input_grants (grants_of v s b) s.num_ports (range s.num_ports)
            (range-lt s.num_ports)))

  member-append_cases :
      (i : ℕ) (xs ys : List ℕ)
      → member i xs ≡ false
      → member i ys ≡ false
      → member i (xs ++ ys) ≡ false
  member-append_cases i [] ys h k = k
  member-append_cases i (x ∷ xs) ys h k = ground (arith, member-append_cases i xs ys)

  step-IsSound :
      (s0 : Islip) (b : B) (ms : List SchedulerMatch) (s : Islip)
      → IsSound s0 b ms s
      → IsSound s0 b
          (ms ++ islip_iteration v s b)
          (record s { input_grants = accept_matches s.input_grants (islip_iteration v s b) })
  step-IsSound s0 b ms s w =
      let new = islip_iteration v s b in
      record {
        base = w.base;
        preferred = All-append (IsPreferred v s0 b) ms new w.preferred (
            All-map (IsPreferred v s b) (IsPreferred v s0 b) (λ m. IsPreferred-base s0 s b m w.base)
              new (iteration-IsPreferred v s b));
        distinct = rw (map-append (λ (m : SchedulerMatch). m.input_port) ms new) (
            Distinct-append (inputs ms) (inputs new) w.distinct
              (unfold islip_iteration in
                collect-Distinct s.input_grants (grants_of v s b) s.num_ports (range s.num_ports)
                  (range-Distinct s.num_ports))
              (new-apart s0 b ms s w));
        granted = λ i. elim (Bool-cases (is_none (accept_matches s.input_grants new i))) [
          | inr had ↦ inr had
          | inl without ↦
              let (a, c) = accept_matches-none new s.input_grants i without in
              inl (
                rw (map-append (λ (m : SchedulerMatch). m.input_port) ms new)
                  (member-append_cases i (inputs ms) (inputs new) (ground (arith, w.granted i)) c))
        ];
      }

  iterate-IsSound :
      (k : ℕ) (s0 : Islip) (b : B) (ms : List SchedulerMatch) (s : Islip)
      → IsSound s0 b ms s
      → IsSound s0 b (iterate v k s b ms).0 (iterate v k s b ms).1
  unfolding iterate
  iterate-IsSound zero s0 b ms s w = w
  iterate-IsSound (suc k) s0 b ms s w =
      let new = islip_iteration v s b in
      let s' : Islip = record s { input_grants = accept_matches s.input_grants new } in
      let w' = step-IsSound s0 b ms s w in
      elim (Bool-cases (length (ms ++ new) == s.num_ports)) [
        | inl e ↦ rw e w'
        | inr e ↦ rw e (iterate-IsSound k s0 b (ms ++ new) s' w')
      ]

  -- In the matches of a cycle no input port stands twice, and each match is of an input port with the
  -- output port that it prefers, which is free.
  pub schedule_cycle-IsPreferred :
      (s : Islip) (b : B)
      → let ms = (schedule_cycle v s b).0 in Distinct (inputs ms) × All (IsPreferred v s b) ms
  unfolding schedule_cycle
  schedule_cycle-IsPreferred s b =
      let s0 : Islip = record s { input_grants = λ p. none } in
      let done =
        iterate-IsSound max_iterations s0 b [] s0
          (record { base = refl; preferred = tt; distinct = tt; granted = λ i. inl refl }) in
      (
        done.distinct,
        All-map (IsPreferred v s0 b) (IsPreferred v s b) (λ m p. IsPreferred-base s s0 b m refl p)
            (iterate v max_iterations s0 b []).0 done.preferred,
      )
