-- ===== src/Scheduler/Islip/Contention.antt =====
-- scheduler_base.py: the steps of an iSLIP iteration for an output port that several inputs ask for.
use spac.Base.{
  ℕ, zero, suc, ◌+◌, ◌≤◌, ◌<◌, ◌≡◌, refl, ap, sym, ◌∙◌, inl, inr, true, false, List, [], ◌∷◌, ◌++◌,
  Option, some, arith, ltb, ◌==◌, if◌then◌else◌, length, length-append, member, range, Bool-cases,
  Option-cases, update,
}
use mathlib.Core.List.{map-append}
use spac.Scheduler.{inputs, outputs, SchedulerMatch}
use spac.Scheduler.Islip.{
  is_none, is_port, minimum, requesters, first_grant, collect, accept_matches,
}

-- How often a number stands in a list.
abbrev pub times : ℕ → List ℕ → ℕ
times a [] = 0
times a (x ∷ xs) = (if x == a then 1 else 0) + times a xs

times-append : (a : ℕ) (xs ys : List ℕ) → times a (xs ++ ys) ≡ times a xs + times a ys
times-append a [] ys = omega arith
times-append a (x ∷ xs) ys = omega (arith, times-append a xs ys)

pub times-pos : (a : ℕ) (xs : List ℕ) → member a xs ≡ true → 0 < times a xs
times-pos a [] h = absurd (cc)
times-pos a (x ∷ xs) h = ground (arith, times-pos a xs)

pub times-outputs :
    (o : ℕ) (ms ns : List SchedulerMatch)
    → times o (outputs (ms ++ ns)) ≡ times o (outputs ms) + times o (outputs ns)
times-outputs o ms ns =
    ap (times o) (map-append (λ (m : SchedulerMatch). m.output_port) ms ns)
    ∙ times-append o (outputs ms) (outputs ns)

pub length-range : (n : ℕ) → length (range n) ≡ n
length-range zero = refl
length-range (suc n) = omega (arith, length-append (range n) (n ∷ []), length-range n)

pub minimum-some :
    (ports : List ℕ) (i : ℕ) → member i ports ≡ true → (j : ℕ) × (minimum ports ≡ some j)
unfolding minimum
minimum-some [] i h = absurd (cc)
minimum-some (p ∷ ports) i h = elim (Option-cases (minimum ports)) [
  | inl e ↦ (p, rw e refl)
  | inr (j, e) ↦ (if ltb j p then j else p, rw e refl)
]

pub requesters-has :
    (requests : ℕ → Option ℕ) (o i : ℕ) (ports : List ℕ)
    → requests i ≡ some o
    → member i ports ≡ true
    → member i (requesters requests o ports) ≡ true
unfolding requesters is_port
requesters-has requests o i [] e h = h
requesters-has requests o i (p ∷ ports) e h = elim (Bool-cases (p == i)) [
  | inl y ↦
      let same : p ≡ i = ground arith in
      let asked : requests p ≡ some o = ap requests same ∙ e in ground arith
  | inr n ↦ ground (arith, requesters-has requests o i ports)
]

pub requesters-within :
    (requests : ℕ → Option ℕ) (o i : ℕ) (ports : List ℕ)
    → member i (requesters requests o ports) ≡ true
    → member i ports ≡ true
unfolding requesters
requesters-within requests o i [] h = h
requesters-within requests o i (p ∷ ports) h = ground (arith, requesters-within requests o i ports)

pub first_grant-some :
    (grants : ℕ → Option ℕ) (o j : ℕ) (ports : List ℕ)
    → grants o ≡ some j
    → member o ports ≡ true
    → (p : ℕ) × (first_grant grants j ports ≡ some p)
unfolding first_grant is_port
first_grant-some grants o j [] e h = absurd (cc)
first_grant-some grants o j (q ∷ ports) e h = elim (Bool-cases (is_port (grants q) j)) [
  | inl y ↦ (q, rw y refl)
  | inr n ↦
      let (p, found) = first_grant-some grants o j ports e (elim (Bool-cases (q == o)) [
        | inl s ↦
            let same : q ≡ o = ground arith in
            let granted : grants q ≡ some j = ap grants same ∙ e in absurd (ground arith)
        | inr d ↦ ground arith
      ]) in
      (p, rw n found)
]

pub collect-has :
    (input_grants grants : ℕ → Option ℕ) (n j o : ℕ) (ports : List ℕ)
    → member j ports ≡ true
    → is_none (input_grants j) ≡ true
    → first_grant grants j (range n) ≡ some o
    → member o (outputs (collect input_grants grants n ports)) ≡ true
unfolding collect
collect-has input_grants grants n j o [] h w f = h
collect-has input_grants grants n j o (p ∷ ports) h w f = elim (Bool-cases (p == j)) [
  | inl y ↦
      let same : p ≡ j = ground arith in
      let w' : is_none (input_grants p) ≡ true = ap (λ x. is_none (input_grants x)) same ∙ w in
      let f' : first_grant grants p (range n) ≡ some o =
        ap (λ x. first_grant grants x (range n)) same ∙ f in
      rw (w', f') (ground arith)
  | inr d ↦ ground (arith, collect-has input_grants grants n j o ports)
]

-- An input port among the matches was granted.
pub collect-input :
    (input_grants grants : ℕ → Option ℕ) (n c : ℕ) (ports : List ℕ)
    → member c (inputs (collect input_grants grants n ports)) ≡ true
    → (p : ℕ) × (first_grant grants c (range n) ≡ some p)
unfolding collect
collect-input input_grants grants n c [] h = absurd (cc)
collect-input input_grants grants n c (i ∷ ports) h =
    elim (Bool-cases (member c (inputs (collect input_grants grants n ports)))) [
      | inl y ↦ collect-input input_grants grants n c ports y
      | inr d ↦ elim (Option-cases (first_grant grants i (range n))) [
        | inl e ↦ absurd (ground arith)
        | inr (p, e) ↦
            let same : i ≡ c = ground arith in
            (p, ap (λ x. first_grant grants x (range n)) (sym same) ∙ e)
      ]
    ]

-- When an input port has no match, there are fewer matches than input ports.
collect-length_le :
    (input_grants grants : ℕ → Option ℕ) (n : ℕ) (ports : List ℕ)
    → length (collect input_grants grants n ports) ≤ length ports
unfolding collect
collect-length_le input_grants grants n [] = omega arith
collect-length_le input_grants grants n (p ∷ ports) =
    ground (arith, collect-length_le input_grants grants n ports)

pub collect-length_lt :
    (input_grants grants : ℕ → Option ℕ) (n c : ℕ) (ports : List ℕ)
    → member c ports ≡ true
    → member c (inputs (collect input_grants grants n ports)) ≡ false
    → length (collect input_grants grants n ports) < length ports
unfolding collect
collect-length_lt input_grants grants n c [] h f = absurd (cc)
collect-length_lt input_grants grants n c (p ∷ ports) h f = ground (
  arith,
  collect-length_le input_grants grants n ports,
  collect-length_lt input_grants grants n c ports,
)

pub accept_matches-other :
    (ms : List SchedulerMatch) (input_grants : ℕ → Option ℕ) (c : ℕ)
    → member c (inputs ms) ≡ false
    → accept_matches input_grants ms c ≡ input_grants c
unfolding accept_matches
accept_matches-other [] input_grants c h = refl
accept_matches-other (m ∷ ms) input_grants c h =
    ground
      (arith, accept_matches-other ms (update input_grants m.input_port (some m.output_port)) c)
