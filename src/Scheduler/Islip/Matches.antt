-- ===== src/Scheduler/Islip/Matches.antt =====
-- scheduler_base.py: the matches of an iSLIP cycle.
use spac.Base.{
  ℕ, ◌<◌, ◌≡◌, refl, subst, inl, inr, true, false, List, [], ◌∷◌, Option, none, some, arith, update,
  All, All-map, member, Distinct, range, range-lt, Bool-cases, Option-cases, ◌==◌,
}
use spac.Voq.Interface.{VoqBuffer}
use spac.Scheduler.{inputs, SchedulerMatch}
use spac.Scheduler.Islip.{
  Islip, is_none, is_port, requesters, minimum, first_grant, collect, accept_matches,
  get_preferred_output, requests_of, grants_of, islip_iteration,
}

pub minimum-member : (ports : List ℕ) {i : ℕ} → minimum ports ≡ some i → member i ports ≡ true
unfolding minimum
minimum-member [] e = cc
minimum-member (p ∷ ports) {i} e = elim (Option-cases (minimum ports)) [
  | inl n ↦ ground arith
  | inr (j, m) ↦ ground (arith, minimum-member ports {i = j} m)
]

pub requesters-member :
    (requests : ℕ → Option ℕ) (o i : ℕ) (ports : List ℕ)
    → member i (requesters requests o ports) ≡ true
    → is_port (requests i) o ≡ true
unfolding requesters
requesters-member requests o i [] h = cc
requesters-member requests o i (p ∷ ports) h = elim (Bool-cases (p == i)) [
  | inl e ↦
      let same : p ≡ i = ground arith in
      elim (Bool-cases (is_port (requests p) o)) [
        | inl y ↦ subst (λ x. is_port (requests x) o ≡ true) same y
        | inr n ↦ requesters-member requests o i ports (rw n at h)
      ]
  | inr e ↦ ground (arith, requesters-member requests o i ports)
]

pub is_port-eq : (x : Option ℕ) (p : ℕ) → is_port x p ≡ true → x ≡ some p
unfolding is_port
is_port-eq none p h = cc
is_port-eq (some q) p h = ground arith

pub first_grant-granted :
    (grants : ℕ → Option ℕ) (n i : ℕ) (ports : List ℕ) {o : ℕ}
    → All (λ p. p < n) ports
    → first_grant grants i ports ≡ some o
    → (grants o ≡ some i) × (o < n)
unfolding first_grant
first_grant-granted grants n i [] a e = cc
first_grant-granted grants n i (p ∷ ports) {o} a e = elim (Bool-cases (is_port (grants p) i)) [
  | inl y ↦
      let same : p ≡ o = ground arith in
      subst (λ x. (grants x ≡ some i) × (x < n)) same (is_port-eq (grants p) i y, a.0)
  | inr other ↦ first_grant-granted grants n i ports a.1 (rw other at e)
]

-- What `collect` gives for the input ports of a list.
pub collect-All :
    (input_grants grants : ℕ → Option ℕ) (n : ℕ) (ports : List ℕ)
    → All (λ p. p < n) ports
    → All
        (λ m.
          (m.input_port < n)
          × (is_none (input_grants m.input_port) ≡ true)
          × (first_grant grants m.input_port (range n) ≡ some m.output_port))
        (collect input_grants grants n ports)
unfolding collect
collect-All input_grants grants n [] a = tt
collect-All input_grants grants n (i ∷ ports) a =
    ground (arith, collect-All input_grants grants n ports a.1)

collect-not_member :
    (input_grants grants : ℕ → Option ℕ) (n i : ℕ) (ports : List ℕ)
    → member i ports ≡ false
    → member i (inputs (collect input_grants grants n ports)) ≡ false
unfolding collect
collect-not_member input_grants grants n i [] h = refl
collect-not_member input_grants grants n i (p ∷ ports) h =
    ground (arith, collect-not_member input_grants grants n i ports)

pub collect-Distinct :
    (input_grants grants : ℕ → Option ℕ) (n : ℕ) (ports : List ℕ)
    → Distinct ports
    → Distinct (inputs (collect input_grants grants n ports))
unfolding collect
collect-Distinct input_grants grants n [] d = tt
collect-Distinct input_grants grants n (p ∷ ports) d = ground (
  arith,
  collect-Distinct input_grants grants n ports d.1,
  collect-not_member input_grants grants n p ports d.0,
)

-- An input port without a grant after `_accept_matches` had none, and is not among the matches.
pub accept_matches-none :
    (ms : List SchedulerMatch) (input_grants : ℕ → Option ℕ) (i : ℕ)
    → is_none (accept_matches input_grants ms i) ≡ true
    → (is_none (input_grants i) ≡ true) × (member i (inputs ms) ≡ false)
unfolding accept_matches is_none
accept_matches-none [] input_grants i h = (h, refl)
accept_matches-none (m ∷ ms) input_grants i h =
    ground
      (arith, accept_matches-none ms (update input_grants m.input_port (some m.output_port)) i h)

module _ {B : Type 0} (v : VoqBuffer B) where
  -- A match of an input port with the output port that it prefers, which is free.
  pub record IsPreferred (s : Islip) (b : B) (m : SchedulerMatch) : Type 0 where
    pub input_in : m.input_port < s.num_ports
    pub output_in : m.output_port < s.num_ports
    pub free : s.output_busy m.output_port ≡ false
    pub preferred : get_preferred_output v s.num_ports b m.input_port ≡ some m.output_port

  pub granted-preferred :
      (s : Islip) (b : B) (o i : ℕ)
      → grants_of v s b o ≡ some i
      → (s.output_busy o ≡ false) × (get_preferred_output v s.num_ports b i ≡ some o)
  unfolding grants_of requests_of
  granted-preferred s b o i e = elim (Bool-cases (s.output_busy o)) [
    | inl busy ↦ ground arith
    | inr free ↦
        let found =
          minimum-member (requesters (requests_of v s b) o (range s.num_ports)) {i = i}
            (rw free at e) in
        let asked =
          is_port-eq (requests_of v s b i) o
            (requesters-member (requests_of v s b) o i (range s.num_ports) found) in
        (free, ground arith)
  ]

  pub iteration-IsPreferred : (s : Islip) (b : B) → All (IsPreferred s b) (islip_iteration v s b)
  unfolding islip_iteration
  iteration-IsPreferred s b =
      All-map _ (IsPreferred s b)
        (λ m a.
          let g =
            first_grant-granted (grants_of v s b) s.num_ports m.input_port (range s.num_ports)
              (range-lt s.num_ports) a.2 in
          let p = granted-preferred s b m.output_port m.input_port g.0 in
          record { input_in = a.0; output_in = g.1; free = p.0; preferred = p.1 })
        (collect s.input_grants (grants_of v s b) s.num_ports (range s.num_ports))
        (collect-All s.input_grants (grants_of v s b) s.num_ports (range s.num_ports)
          (range-lt s.num_ports))
