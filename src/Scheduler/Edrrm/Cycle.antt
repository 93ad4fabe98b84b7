-- ===== src/Scheduler/Edrrm/Cycle.antt =====
-- scheduler_base.py: what an EDRRM cycle as a whole gives.
use spac.Base.{
  ℕ, zero, suc, ◌≤◌, ◌<◌, ◌≡◌, refl, ap, sym, subst, ◌∙◌, inl, inr, Bool, true, false, ◌&&◌,
  if◌then◌else◌, List, [], ◌∷◌, Option, none, some, arith, ◌==◌, length, All, All-map, member,
  Distinct, Bool-cases, member-append_left, member-append_right,
}
use spac.Voq.Interface.{VoqBuffer}
use spac.Scheduler.{SchedulerMatch, inputs, outputs, count_cycle}
use spac.Scheduler.Process.{count_cycle-num_ports}
use spac.Scheduler.Arbiter.{scan-nearest, scan-ready}
use spac.Scheduler.Edrrm.{
  Edrrm, Grants, is_requester, is_wanted, request_phase, grant, grant_output, grant_phase,
  schedule_cycle,
}
use spac.Scheduler.Edrrm.Matching.{
  IsValid, IsMatching, Answers, outputs-append, request-requester, grant_phase-IsMatching,
}

abbrev begin : Edrrm → Grants
begin s = record { scheduler = s; matches = []; taken_src = []; taken_dst = [] }

-- Whether two ports are matched.
abbrev pub has_match : ℕ → ℕ → List SchedulerMatch → Bool
has_match i o [] = false
has_match i o (m ∷ ms) =
    if (m.input_port == i) && (m.output_port == o) then true else has_match i o ms

match_of_output :
    (n : ℕ) (requests : ℕ → Option ℕ) (k o : ℕ) (ms : List SchedulerMatch)
    → All (Answers n requests k) ms
    → member o (outputs ms) ≡ true
    → (i : ℕ) × (requests i ≡ some o) × (has_match i o ms ≡ true)
match_of_output n requests k o [] a h = absurd (cc)
match_of_output n requests k o (m ∷ ms) a h = elim (Bool-cases (m.output_port == o)) [
  | inl e ↦
      let same : m.output_port ≡ o = ground arith in
      (m.input_port, a.0.2 ∙ ap some same, ground arith)
  | inr e ↦
      let (i, asked, there) = match_of_output n requests k o ms a.1 (ground arith) in
      (i, asked, ground arith)
]

module _ {B : Type 0} (v : VoqBuffer B) where
  request_phase-wanted :
      (s : Edrrm) (b : B) (src : ℕ) {d : ℕ}
      → IsValid s
      → request_phase v s b [] [] src ≡ some d
      → (0 < length (v.queue b src d)) × (d < s.num_ports)
  unfolding request_phase
  request_phase-wanted s b src {d} w h = ground (
    arith,
    scan-ready s.num_ports s.num_ports (s.rr_index_in src) 0 (is_wanted v b [] src) {p = d}
        w.some_port,
  )

  request_phase-some :
      (s : Edrrm) (b : B) (src d : ℕ)
      → IsValid s
      → d < s.num_ports
      → 0 < length (v.queue b src d)
      → (e : ℕ) × (request_phase v s b [] [] src ≡ some e) × (e < s.num_ports)
  unfolding request_phase
  request_phase-some s b src d w h q =
      let (p, found, lt, ready, near) =
        scan-nearest s.num_ports (s.rr_index_in src) d (is_wanted v b [] src) (w.inputs_in src) h
          (ground arith) in
      (p, found, lt)

  cycle-IsMatching :
      (s : Edrrm) (b : B)
      → IsValid s
      → IsMatching s.num_ports
          (request_phase v s b [] [])
          s.num_ports
          (grant_phase v (request_phase v s b [] []) (begin s) b s.num_ports)
  cycle-IsMatching s b w =
      grant_phase-IsMatching v s.num_ports s.num_ports (request_phase v s b [] []) (begin s) b
        (omega arith)
        (record {
          valid = w;
          ports = refl;
          answers = tt;
          distinct_outputs = tt;
          distinct_inputs = tt;
        })

  -- In the matches of a cycle no input port and no output port stands twice, and each match is of
  -- two ports of the switch with a packet waiting between them, if the pointers name ports.
  pub schedule_cycle-matching :
      (s : Edrrm) (b : B)
      → IsValid s
      → let ms = (schedule_cycle v s b).0 in
        Distinct (inputs ms)
        × Distinct (outputs ms)
        × All
            (λ m.
              (m.input_port < s.num_ports)
              × (m.output_port < s.num_ports)
              × (0 < length (v.queue b m.input_port m.output_port)))
            ms
  unfolding schedule_cycle
  schedule_cycle-matching s b w =
      let g = cycle-IsMatching s b w in
      (
        g.distinct_inputs,
        g.distinct_outputs,
        All-map (Answers s.num_ports (request_phase v s b [] []) s.num_ports) _
            (λ m a. (a.0, a.1, (request_phase-wanted s b m.input_port w a.2).0))
            (grant_phase v (request_phase v s b [] []) (begin s) b s.num_ports).matches g.answers,
      )

  grant-member :
      (g : Grants) (b : B) (k d : ℕ) (r : Option ℕ)
      → member d (outputs g.matches) ≡ true
      → member d (outputs (grant v g b k r).matches) ≡ true
  unfolding grant
  grant-member g b k d none h = h
  grant-member g b k d (some src) h =
      rw (outputs-append g.matches (record { input_port = src; output_port = k }))
        (member-append_left d (outputs g.matches) (k ∷ []) h)

  grant-here :
      (g : Grants) (b : B) (k src : ℕ) (r : Option ℕ)
      → r ≡ some src
      → member k (outputs (grant v g b k r).matches) ≡ true
  unfolding grant
  grant-here g b k src none e = cc
  grant-here g b k src (some j) e =
      rw (outputs-append g.matches (record { input_port = j; output_port = k }))
        (member-append_right k (outputs g.matches) (k ∷ []) (ground arith))

  -- An output port that is requested is granted.
  grant_phase_complete :
      (k n : ℕ) (requests : ℕ → Option ℕ) (s : Edrrm) (b : B) (d src : ℕ)
      → k ≤ n
      → d < k
      → src < n
      → requests src ≡ some d
      → IsMatching n requests 0 (begin s)
      → member d (outputs (grant_phase v requests (begin s) b k).matches) ≡ true
  unfolding grant_phase
  grant_phase_complete zero n requests s b d src l h q e w = absurd (omega arith)
  grant_phase_complete (suc k) n requests s b d src l h q e w =
      let g = grant_phase v requests (begin s) b k in
      let before = grant_phase-IsMatching v k n requests (begin s) b (omega arith) w in
      elim (Bool-cases (k == d)) [
        | inl here ↦
            let same : k ≡ d = ground arith in
            let (p, found, lt, ready, near) =
              scan-nearest g.scheduler.num_ports (g.scheduler.rr_index_out k) src
                (is_requester g.scheduler.num_ports requests k) (before.valid.outputs_in k)
                (omega (arith, before.ports))
                (request-requester g.scheduler.num_ports requests k src
                  (omega (arith, before.ports)) (e ∙ ap some (sym same))) in
            subst (λ o. member o (outputs (grant_output v requests g b k).matches) ≡ true) same
              (unfold grant_output in grant-here g b k p _ found)
        | inr other ↦
            unfold grant_output in
            grant-member g b k d _
              (grant_phase_complete k n requests s b d src (omega arith) (ground arith) q e w)
      ]

  -- With pointers at ports, an input port of the switch with a packet for one of its output ports
  -- requests an output port that a packet of its waits for, and the cycle matches that output port,
  -- to an input port that requests it: this one or another.
  pub schedule_cycle_serves :
      (s : Edrrm) (b : B) (src d : ℕ)
      → IsValid s
      → src < s.num_ports
      → d < s.num_ports
      → 0 < length (v.queue b src d)
      → (o : ℕ) × (request_phase v s b [] [] src ≡ some o)
        × (0 < length (v.queue b src o))
        × (i : ℕ) × (request_phase v s b [] [] i ≡ some o)
        × (has_match i o (schedule_cycle v s b).0 ≡ true)
  unfolding schedule_cycle
  schedule_cycle_serves s b src d w hs hd q =
      let (o, asked, lt) = request_phase-some s b src d w hd q in
      let matched =
        grant_phase_complete s.num_ports s.num_ports (request_phase v s b [] []) s b o src
          (omega arith) lt hs asked
          (record {
            valid = w;
            ports = refl;
            answers = tt;
            distinct_outputs = tt;
            distinct_inputs = tt;
          }) in
      let (i, requested, there) =
        match_of_output s.num_ports (request_phase v s b [] []) s.num_ports o _
          (cycle-IsMatching s b w).answers matched in
      (o, asked, (request_phase-wanted s b src w asked).0, i, requested, there)

  -- A cycle keeps the pointers at ports.
  pub schedule_cycle-IsValid_of_edrrm :
      (s : Edrrm) (b : B) → IsValid s → IsValid (schedule_cycle v s b).1
  unfolding schedule_cycle count_cycle
  schedule_cycle-IsValid_of_edrrm s b w =
      let g = cycle-IsMatching s b w in
      let gr = grant_phase v (request_phase v s b [] []) (begin s) b s.num_ports in
      let kept = count_cycle-num_ports gr.scheduler.base gr.matches in
      record {
        some_port = omega (arith, kept, g.valid.some_port);
        inputs_in = λ p. omega (arith, kept, g.valid.inputs_in p);
        outputs_in = λ p. omega (arith, kept, g.valid.outputs_in p);
      }
