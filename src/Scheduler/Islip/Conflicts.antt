-- ===== src/Scheduler/Islip/Conflicts.antt =====
-- scheduler_base.py: an iSLIP cycle may match one output port twice.
use spac.Base.{
  ℕ, zero, suc, ◌+◌, ◌≤◌, ◌<◌, ◌≡◌, ◌≢◌, refl, ap, sym, ◌∙◌, inl, inr, true, false, List, [], ◌++◌,
  none, some, arith, ◌==◌, length, member, range, member-range, Bool-cases, range-lt,
}
use spac.Voq.Interface.{VoqBuffer}
use spac.Scheduler.{inputs, outputs, SchedulerMatch}
use spac.Scheduler.Islip.{
  Islip, is_none, requesters, first_grant, collect, accept_matches, requests_of, grants_of,
  get_preferred_output, islip_iteration, iterate, schedule_cycle,
}
use spac.Scheduler.Islip.Matches.{
  minimum-member, requesters-member, is_port-eq, first_grant-granted, granted-preferred,
}
use spac.Scheduler.Islip.Contention.{
  times, times-pos, times-outputs, length-range, minimum-some, requesters-has, requesters-within,
  first_grant-some, collect-has, collect-input, collect-length_lt, accept_matches-other,
}

module _ {B : Type 0} (v : VoqBuffer B) where
  -- An input port that has no match yet and prefers a free output port.
  record Contends (s : Islip) (b : B) (o i : ℕ) : Type 0 where
    in_range : i < s.num_ports
    waits : is_none (s.input_grants i) ≡ true
    prefers : get_preferred_output v s.num_ports b i ≡ some o

  requests-none :
      (s : Islip) (b : B) (j o : ℕ)
      → requests_of v s b j ≡ some o
      → is_none (s.input_grants j) ≡ true
  unfolding requests_of
  requests-none s b j o e = elim (Bool-cases (is_none (s.input_grants j))) [
    | inl y ↦ y
    | inr n ↦ absurd (ground arith)
  ]

  -- A free output port that a port contends for is granted to a port without a match.
  granted-some :
      (s : Islip) (b : B) (o i : ℕ)
      → s.output_busy o ≡ false
      → Contends s b o i
      → (j : ℕ) × (grants_of v s b o ≡ some j)
        × (member j (range s.num_ports) ≡ true)
        × (is_none (s.input_grants j) ≡ true)
  unfolding grants_of
  granted-some s b o i f c =
      let asked : requests_of v s b i ≡ some o = unfold requests_of in rw (c.waits) c.prefers in
      let rs = requesters (requests_of v s b) o (range s.num_ports) in
      let here = member-range i s.num_ports c.in_range in
      let (j, found) =
        minimum-some rs i (requesters-has (requests_of v s b) o i (range s.num_ports) asked here) in
      let inside = minimum-member rs {i = j} found in
      (
        j,
        rw f found,
        requesters-within (requests_of v s b) o j (range s.num_ports) inside,
        requests-none s b j o (
            is_port-eq (requests_of v s b j) o
              (requesters-member (requests_of v s b) o j (range s.num_ports) inside)),
      )

  -- The input port that an output port is granted to is matched with it, and with no other.
  first_grant-of :
      (s : Islip) (b : B) (o j : ℕ)
      → o < s.num_ports
      → grants_of v s b o ≡ some j
      → first_grant (grants_of v s b) j (range s.num_ports) ≡ some o
  first_grant-of s b o j l g =
      let (p, found) =
        first_grant-some (grants_of v s b) o j (range s.num_ports) g
          (member-range o s.num_ports l) in
      let back =
        first_grant-granted (grants_of v s b) s.num_ports j (range s.num_ports) {o = p}
          (range-lt s.num_ports) found in
      let a = (granted-preferred v s b p j back.0).1 in
      let c = (granted-preferred v s b o j g).1 in
      let same : p ≡ o = ground arith in found ∙ ap some same

  iteration-has :
      (s : Islip) (b : B) (o i : ℕ)
      → o < s.num_ports
      → s.output_busy o ≡ false
      → Contends s b o i
      → member o (outputs (islip_iteration v s b)) ≡ true
  unfolding islip_iteration
  iteration-has s b o i l f c =
      let (j, granted, inside, waits) = granted-some s b o i f c in
      collect-has s.input_grants (grants_of v s b) s.num_ports j o (range s.num_ports) inside waits
        (first_grant-of s b o j l granted)

  -- An iteration leaves one of two ports that contend for an output without a match.
  iteration-misses :
      (s : Islip) (b : B) (o j c : ℕ)
      → grants_of v s b o ≡ some j
      → (j == c) ≡ false
      → get_preferred_output v s.num_ports b c ≡ some o
      → member c (inputs (islip_iteration v s b)) ≡ false
  unfolding islip_iteration
  iteration-misses s b o j c g d p =
      let new = collect s.input_grants (grants_of v s b) s.num_ports (range s.num_ports) in
      elim (Bool-cases (member c (inputs new))) [
        | inr n ↦ n
        | inl y ↦
            let (q, found) =
              collect-input s.input_grants (grants_of v s b) s.num_ports c (range s.num_ports) y in
            let back =
              first_grant-granted (grants_of v s b) s.num_ports c (range s.num_ports) {o = q}
                (range-lt s.num_ports) found in
            let a = (granted-preferred v s b q c back.0).1 in
            let same : q ≡ o = ground arith in
            let both : grants_of v s b o ≡ some c = ap (grants_of v s b) (sym same) ∙ back.0 in
            absurd (ground arith)
      ]

  times-iterate :
      (k : ℕ) (s : Islip) (b : B) (o : ℕ) (ms : List SchedulerMatch)
      → times o (outputs ms) ≤ times o (outputs (iterate v k s b ms).0)
  unfolding iterate
  times-iterate zero s b o ms = omega arith
  times-iterate (suc k) s b o ms =
      let new = islip_iteration v s b in
      let s' : Islip = record s { input_grants = accept_matches s.input_grants new } in
      let l = times-outputs o ms new in
      let r = times-iterate k s' b o (ms ++ new) in
      elim (Bool-cases (length (ms ++ new) == s.num_ports)) [
        | inl e ↦ rw e (omega arith)
        | inr e ↦ rw e (omega arith)
      ]

  times-iterate_next :
      (k : ℕ) (s : Islip) (b : B) (o : ℕ) (ms : List SchedulerMatch)
      → times o (outputs ms) + times o (outputs (islip_iteration v s b))
        ≤ times o (outputs (iterate v (suc k) s b ms).0)
  unfolding iterate
  times-iterate_next k s b o ms =
      let new = islip_iteration v s b in
      let s' : Islip = record s { input_grants = accept_matches s.input_grants new } in
      let l = times-outputs o ms new in
      let r = times-iterate k s' b o (ms ++ new) in
      elim (Bool-cases (length (ms ++ new) == s.num_ports)) [
        | inl e ↦ rw e (omega arith)
        | inr e ↦ rw e (omega arith)
      ]

  -- Two iterations match the port: the first leaves a port that contends for it, so it is not the last.
  iterate_twice :
      (k : ℕ) (s : Islip) (b : B) (o j c : ℕ)
      → o < s.num_ports
      → s.output_busy o ≡ false
      → grants_of v s b o ≡ some j
      → (j == c) ≡ false
      → Contends s b o c
      → 2 ≤ times o (outputs (iterate v (suc (suc k)) s b []).0)
  iterate_twice k s b o j c l f g d w =
      let new = islip_iteration v s b in
      let s' : Islip = record s { input_grants = accept_matches s.input_grants new } in
      let missed = iteration-misses s b o j c g d w.prefers in
      let kept = accept_matches-other new s.input_grants c missed in
      let short : length new < length (range s.num_ports) =
        unfold islip_iteration in
        collect-length_lt s.input_grants (grants_of v s b) s.num_ports c (range s.num_ports)
          (member-range c s.num_ports w.in_range) missed in
      let more : (length new == s.num_ports) ≡ false =
        ground (arith, short, length-range s.num_ports) in
      let again : Contends s' b o c = record {
        in_range = w.in_range;
        waits = ap is_none kept ∙ w.waits;
        prefers = w.prefers;
      } in
      let first = times-pos o (outputs new) (iteration-has s b o c l f w) in
      let second =
        times-pos o (outputs (islip_iteration v s' b)) (iteration-has s' b o c l f again) in
      let total = times-iterate_next k s' b o new in
      let at : 2 ≤ times o (outputs (iterate v (suc k) s' b new).0) = omega arith in
      unfold iterate in rw more at

  -- In a switch of any size, if two different input ports prefer one free output port, a cycle matches
  -- that output port at least twice: the output ports of an iSLIP cycle need not be distinct.
  pub schedule_cycle_twice :
      (s : Islip) (b : B) (o i j : ℕ)
      → o < s.num_ports
      → i < s.num_ports
      → j < s.num_ports
      → i ≢ j
      → s.output_busy o ≡ false
      → get_preferred_output v s.num_ports b i ≡ some o
      → get_preferred_output v s.num_ports b j ≡ some o
      → 2 ≤ times o (outputs (schedule_cycle v s b).0)
  unfolding schedule_cycle is_none
  schedule_cycle_twice s b o i j lo li lj ne f p q =
      let s0 : Islip = record s { input_grants = λ p. none } in
      let ci : Contends s0 b o i = record { in_range = li; waits = refl; prefers = p } in
      let cj : Contends s0 b o j = record { in_range = lj; waits = refl; prefers = q } in
      let (g, granted, inside, waits) = granted-some s0 b o i f ci in
      elim (Bool-cases (g == i)) [
        | inl e ↦
            let other : (g == j) ≡ false = ground arith in
            iterate_twice 2 s0 b o g j lo f granted other cj
        | inr e ↦ iterate_twice 2 s0 b o g i lo f granted e ci
      ]
