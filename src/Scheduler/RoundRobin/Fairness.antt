-- ===== src/Scheduler/RoundRobin/Fairness.antt =====
-- scheduler_base.py: no input port is passed over for ever by `_find_ready_input`.
use spac.Base.{
  ℕ, ◌≤◌, ◌<◌, ◌≡◌, inl, inr, true, List, [], ◌∷◌, Option, none, some, arith, ◌==◌, length, All,
  member, Bool-cases,
}
use spac.Voq.Interface.{VoqBuffer}
use spac.Scheduler.Arbiter.{scan-nearest, distance, distance-lt, distance_after}
use spac.Scheduler.RoundRobin.{RoundRobin, pick, has_packets, find_ready_input}
use spac.Scheduler.RoundRobin.Visit.{IsValid, pick-IsValid}

-- A port that was found is put before the later ones.
abbrev pub add_pick : Option ℕ → List ℕ → List ℕ
add_pick none ps = ps
add_pick (some p) ps = p ∷ ps

module _ {B : Type 0} (v : VoqBuffer B) where
  -- The input ports that successive calls for one output port find, each in the buffer of its time.
  pub picks : RoundRobin → ℕ → List B → List ℕ
  picks s out [] = []
  picks s out (b ∷ bs) =
      let r = find_ready_input v s b out in let later = picks r.1 out bs in add_pick r.0 later

  picks-near :
      (bs : List B) (s : RoundRobin) (out i : ℕ)
      → IsValid s
      → i < s.num_ports
      → All (λ b. has_packets v b out i ≡ true) bs
      → distance s.num_ports (s.input_pointers out) i < length bs
      → member i (picks s out bs) ≡ true
  unfolding picks find_ready_input pick
  picks-near [] s out i w h a l = absurd (omega arith)
  picks-near (b ∷ bs) s out i w h a l =
      let (p, found, lt, ready, near) =
        scan-nearest s.num_ports (s.input_pointers out) i (has_packets v b out) (w.inputs out) h
          a.0 in
      elim (Bool-cases (p == i)) [
        | inl e ↦ rw found (ground arith)
        | inr e ↦
            let t = (pick s out (some p)).1 in
            rw found (
              ground (
                arith,
                picks-near bs t out i (pick-IsValid v s out (some p) w) h a.1 (
                    ground (
                      arith,
                      distance_after s.num_ports (s.input_pointers out) p i (w.inputs out) lt h
                          (λ q. ground arith) near,
                    )),
              ))
      ]

  -- An input port with a packet for an output at each of as many successive calls as there are
  -- ports is found by one of them, whatever the other queues do meanwhile.
  pub find_ready_input-fair :
      (s : RoundRobin) (out i : ℕ) (bs : List B)
      → IsValid s
      → i < s.num_ports
      → All (λ b. has_packets v b out i ≡ true) bs
      → s.num_ports ≤ length bs
      → member i (picks s out bs) ≡ true
  find_ready_input-fair s out i bs w h a l =
      picks-near bs s out i w h a
        (omega (arith, distance-lt s.num_ports (s.input_pointers out) i (w.inputs out) h))
