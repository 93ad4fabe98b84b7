-- ===== src/Scheduler/RoundRobin/Visit.antt =====
-- scheduler_base.py: the loop of a round-robin cycle over the output ports.
use native.Mathlib.Nat.{mod-lt}
use spac.Base.{
  ℕ, zero, suc, ◌+◌, ◌%◌, ◌<◌, ◌≡◌, refl, subst, ◌∙◌, inl, inr, true, false, List, Option, none,
  some, arith, All, All-map, Bool-cases,
}
use spac.Voq.Interface.{VoqBuffer}
use spac.Scheduler.{SchedulerMatch, SchedulerState}
use spac.Scheduler.Arbiter.{scan-nearest, scan-ready}
use spac.Scheduler.RoundRobin.{RoundRobin, pick, add_match, has_packets, visit, visit_from}

-- The pointers name ports.
pub record IsValid (s : RoundRobin) : Type 0 where
  pub some_port : 0 < s.num_ports
  pub inputs : (p : ℕ) → s.input_pointers p < s.num_ports
  pub output : s.output_pointer < s.num_ports

module _ {B : Type 0} (v : VoqBuffer B) where
  -- A port that a match may serve: the ports are in range, a packet waits, and the output is free.
  pub record IsServable (s : RoundRobin) (b : B) (m : SchedulerMatch) : Type 0 where
    pub input_in : m.input_port < s.num_ports
    pub output_in : m.output_port < s.num_ports
    pub waiting : has_packets v b m.output_port m.input_port ≡ true
    pub free : s.output_busy m.output_port ≡ false

  -- What a visit leaves alone.
  pub record Keeps (s t : RoundRobin) : Type 0 where
    pub base : t.base ≡ s.base
    pub output_pointer : t.output_pointer ≡ s.output_pointer

  pub pick-IsValid :
      (s : RoundRobin) (out : ℕ) (r : Option ℕ) → IsValid s → IsValid (pick s out r).1
  unfolding pick
  pick-IsValid s out none w = w
  pick-IsValid s out (some i) w = record {
    some_port = w.some_port;
    inputs = λ p. ground (arith, w.inputs p, mod-lt (i + 1) w.some_port);
    output = w.output;
  }

  pub visit-IsValid : (s : RoundRobin) (b : B) (out : ℕ) → IsValid s → IsValid (visit v s b out).1
  unfolding visit
  visit-IsValid s b out w = elim (Bool-cases (s.output_busy out)) [
    | inl e ↦ rw e w
    | inr e ↦ rw e (pick-IsValid s out _ w)
  ]

  pub visit-Keeps : (s : RoundRobin) (b : B) (out : ℕ) → Keeps s (visit v s b out).1
  unfolding visit pick
  visit-Keeps s b out = ground arith

  -- A free output port with a packet waiting is served.
  pub visit-some :
      (s : RoundRobin) (b : B) (out i : ℕ)
      → IsValid s
      → s.output_busy out ≡ false
      → i < s.num_ports
      → has_packets v b out i ≡ true
      → (j : ℕ) × ((visit v s b out).0 ≡ some j)
  unfolding visit pick
  visit-some s b out i w f h r =
      let (p, found, lt, ready, near) =
        scan-nearest s.num_ports (s.input_pointers out) i (has_packets v b out) (w.inputs out) h
          r in
      (p, rw (f, found))

  visit-IsServable :
      (s : RoundRobin) (b : B) (out j : ℕ)
      → IsValid s
      → out < s.num_ports
      → (visit v s b out).0 ≡ some j
      → IsServable s b (record { input_port = j; output_port = out })
  unfolding visit pick
  visit-IsServable s b out j w h e = ground (
    arith,
    scan-ready s.num_ports s.num_ports (s.input_pointers out) 0 (has_packets v b out) {p = j}
        w.some_port,
  )

  IsServable-Keeps :
      (s t : RoundRobin) (b : B) (m : SchedulerMatch)
      → Keeps s t
      → IsServable t b m
      → IsServable s b m
  IsServable-Keeps s t b m k w = record {
    input_in = subst (λ (u : SchedulerState). m.input_port < u.num_ports) k.base w.input_in;
    output_in = subst (λ (u : SchedulerState). m.output_port < u.num_ports) k.base w.output_in;
    waiting = w.waiting;
    free = subst (λ (u : SchedulerState). u.output_busy m.output_port ≡ false) k.base w.free;
  }

  pub visit_from-Keeps :
      (rounds : ℕ) (s : RoundRobin) (b : B) (offset : ℕ)
      → Keeps s (visit_from v s b offset rounds).1
  unfolding visit_from
  visit_from-Keeps zero s b offset = record { base = refl; output_pointer = refl }
  visit_from-Keeps (suc rounds) s b offset =
      let out = (s.output_pointer + offset) % s.num_ports in
      let k = visit-Keeps s b out in
      let l = visit_from-Keeps rounds (visit v s b out).1 b (offset + 1) in
      record { base = l.base ∙ k.base; output_pointer = l.output_pointer ∙ k.output_pointer }

  pub visit_from-IsValid :
      (rounds : ℕ) (s : RoundRobin) (b : B) (offset : ℕ)
      → IsValid s
      → IsValid (visit_from v s b offset rounds).1
  unfolding visit_from
  visit_from-IsValid zero s b offset w = w
  visit_from-IsValid (suc rounds) s b offset w =
      visit_from-IsValid rounds (visit v s b ((s.output_pointer + offset) % s.num_ports)).1 b
        (offset + 1) (visit-IsValid s b ((s.output_pointer + offset) % s.num_ports) w)

  pub add_match-All {κ} :
      (P : SchedulerMatch → Type κ) (r : Option ℕ) (out : ℕ) (ms : List SchedulerMatch)
      → ((j : ℕ) → r ≡ some j → P (record { input_port = j; output_port = out }))
      → All P ms
      → All P (add_match r out ms)
  unfolding add_match
  add_match-All P none out ms h a = a
  add_match-All P (some j) out ms h a = (h j refl, a)

  pub visit_from-IsServable :
      (rounds : ℕ) (s : RoundRobin) (b : B) (offset : ℕ)
      → IsValid s
      → All (IsServable s b) (visit_from v s b offset rounds).0
  unfolding visit_from
  visit_from-IsServable zero s b offset w = tt
  visit_from-IsServable (suc rounds) s b offset w =
      let out = (s.output_pointer + offset) % s.num_ports in
      let t = (visit v s b out).1 in
      add_match-All (IsServable s b) (visit v s b out).0 out
        (visit_from v t b (offset + 1) rounds).0
        (λ j e. visit-IsServable s b out j w (mod-lt (s.output_pointer + offset) w.some_port) e)
        (All-map (IsServable t b) (IsServable s b)
          (λ m. IsServable-Keeps s t b m (visit-Keeps s b out))
          (visit_from v t b (offset + 1) rounds).0
          (visit_from-IsServable rounds t b (offset + 1) (visit-IsValid s b out w)))
