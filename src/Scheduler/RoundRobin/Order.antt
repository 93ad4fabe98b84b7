-- ===== src/Scheduler/RoundRobin/Order.antt =====
-- scheduler_base.py: the order in which a round-robin cycle visits the output ports.
use spac.Base.{
  ℕ, zero, suc, ◌+◌, ◌%◌, ◌≤◌, ◌<◌, ◌≡◌, refl, ap, subst, sym, ◌∙◌, inl, inr, true, false, List, [],
  ◌∷◌, Option, none, some, arith, ◌==◌, All, All-map, member, Distinct, Bool-cases,
}
use spac.Voq.Interface.{VoqBuffer}
use spac.Scheduler.{outputs, SchedulerMatch, SchedulerState}
use spac.Scheduler.Arbiter.{distance, distance-turn, turn}
use spac.Scheduler.RoundRobin.{RoundRobin, add_match, has_packets, visit, visit_from}
use spac.Scheduler.RoundRobin.Visit.{IsValid, visit-Keeps, visit-some, visit-IsValid, add_match-All}

-- The port that is visited at an offset is so far from the pointer.
at_offset :
    (n o a m offset : ℕ)
    → m ≡ n
    → a ≡ o
    → o < n
    → offset < n
    → distance n o ((a + offset) % m) ≡ offset
at_offset n o a m offset em ea h k = rw (em, ea) (distance-turn n o offset h k)

-- The offset at which a port is visited is its distance.
at_port :
    (n o a m d offset : ℕ)
    → m ≡ n
    → a ≡ o
    → o < n
    → d < n
    → distance n o d ≡ offset
    → (a + offset) % m ≡ d
at_port n o a m d offset em ea h k e = rw (em, ea, ← e) (turn n o d h k)

-- A port whose distance is less than that of every output of a list is not among them.
not-member-near :
    (n o d k : ℕ) (ms : List SchedulerMatch)
    → distance n o d < k
    → All (λ m. k ≤ distance n o m.output_port) ms
    → member d (outputs ms) ≡ false
not-member-near n o d k [] h a = refl
not-member-near n o d k (m ∷ ms) h a = elim (Bool-cases (m.output_port == d)) [
  | inl e ↦
      let q : m.output_port ≡ d = ground arith in absurd (omega (arith, ap (distance n o) q, a.0))
  | inr e ↦ rw e (not-member-near n o d k ms h a.1)
]

module _ {B : Type 0} (v : VoqBuffer B) where
  -- The outputs of the rounds from an offset on are at least so far from the pointer.
  visit_from-far :
      (rounds n o : ℕ) (s : RoundRobin) (b : B) (offset : ℕ)
      → s.num_ports ≡ n
      → s.output_pointer ≡ o
      → o < n
      → offset + rounds ≤ n
      → All (λ m. offset ≤ distance n o m.output_port) (visit_from v s b offset rounds).0
  unfolding visit_from
  visit_from-far zero n o s b offset en eo h l = tt
  visit_from-far (suc rounds) n o s b offset en eo h l =
      let out = (s.output_pointer + offset) % s.num_ports in
      let t = (visit v s b out).1 in
      let k = visit-Keeps v s b out in
      add_match-All v (λ m. offset ≤ distance n o m.output_port) (visit v s b out).0 out
        (visit_from v t b (offset + 1) rounds).0
        (λ j e.
          omega (arith, at_offset n o s.output_pointer s.num_ports offset en eo h (omega arith)))
        (All-map (λ m. offset + 1 ≤ distance n o m.output_port)
          (λ m. offset ≤ distance n o m.output_port) (λ m q. omega arith)
          (visit_from v t b (offset + 1) rounds).0
          (visit_from-far rounds n o t b (offset + 1)
            (ap (λ (u : SchedulerState). u.num_ports) k.base ∙ en) (k.output_pointer ∙ eo) h
            (omega arith)))

  add_match-Distinct :
      (r : Option ℕ) (out : ℕ) (ms : List SchedulerMatch)
      → member out (outputs ms) ≡ false
      → Distinct (outputs ms)
      → Distinct (outputs (add_match r out ms))
  unfolding add_match
  add_match-Distinct none out ms h d = d
  add_match-Distinct (some j) out ms h d = (h, d)

  pub visit_from-Distinct :
      (rounds n o : ℕ) (s : RoundRobin) (b : B) (offset : ℕ)
      → s.num_ports ≡ n
      → s.output_pointer ≡ o
      → o < n
      → offset + rounds ≤ n
      → Distinct (outputs (visit_from v s b offset rounds).0)
  unfolding visit_from
  visit_from-Distinct zero n o s b offset en eo h l = tt
  visit_from-Distinct (suc rounds) n o s b offset en eo h l =
      let out = (s.output_pointer + offset) % s.num_ports in
      let t = (visit v s b out).1 in
      let k = visit-Keeps v s b out in
      let en' = ap (λ (u : SchedulerState). u.num_ports) k.base ∙ en in
      let eo' = k.output_pointer ∙ eo in
      let ms = (visit_from v t b (offset + 1) rounds).0 in
      add_match-Distinct (visit v s b out).0 out ms
        (not-member-near n o out (offset + 1) ms
          (omega (arith, at_offset n o s.output_pointer s.num_ports offset en eo h (omega arith)))
          (visit_from-far rounds n o t b (offset + 1) en' eo' h (omega arith)))
        (visit_from-Distinct rounds n o t b (offset + 1) en' eo' h (omega arith))

  add_match-member :
      (r : Option ℕ) (out d : ℕ) (ms : List SchedulerMatch)
      → member d (outputs ms) ≡ true
      → member d (outputs (add_match r out ms)) ≡ true
  unfolding add_match
  add_match-member none out d ms h = h
  add_match-member (some j) out d ms h = ground arith

  add_match-here :
      (r : Option ℕ) (out d j : ℕ) (ms : List SchedulerMatch)
      → r ≡ some j
      → out ≡ d
      → member d (outputs (add_match r out ms)) ≡ true
  unfolding add_match
  add_match-here none out d j ms e q = cc
  add_match-here (some i) out d j ms e q = ground arith

  pub visit_from_complete :
      (rounds n o : ℕ) (s : RoundRobin) (b : B) (offset d i : ℕ)
      → s.num_ports ≡ n
      → s.output_pointer ≡ o
      → o < n
      → d < n
      → i < n
      → offset ≤ distance n o d
      → distance n o d < offset + rounds
      → IsValid s
      → s.output_busy d ≡ false
      → has_packets v b d i ≡ true
      → member d (outputs (visit_from v s b offset rounds).0) ≡ true
  unfolding visit_from
  visit_from_complete zero n o s b offset d i en eo h hd hi lo up w f r = absurd (omega arith)
  visit_from_complete (suc rounds) n o s b offset d i en eo h hd hi lo up w f r =
      let out = (s.output_pointer + offset) % s.num_ports in
      let t = (visit v s b out).1 in
      let k = visit-Keeps v s b out in
      let later = (visit_from v t b (offset + 1) rounds).0 in
      elim (Bool-cases (distance n o d == offset)) [
        | inl e ↦
            let here : out ≡ d =
              at_port n o s.output_pointer s.num_ports d offset en eo h hd (ground arith) in
            let (j, found) =
              visit-some v s b out i w (subst (λ x. s.output_busy x ≡ false) (sym here) f)
                (omega arith) (subst (λ x. has_packets v b x i ≡ true) (sym here) r) in
            add_match-here (visit v s b out).0 out d j later found here
        | inr e ↦ add_match-member (visit v s b out).0 out d later (
            visit_from_complete rounds n o t b (offset + 1) d i
              (ap (λ (u : SchedulerState). u.num_ports) k.base ∙ en) (k.output_pointer ∙ eo) h hd hi
              (ground arith) (omega arith) (visit-IsValid v s b out w)
              (subst (λ (u : SchedulerState). u.output_busy d ≡ false) (sym k.base) f) r)
      ]
