-- ===== src/Scheduler/Edrrm/Matching.antt =====
-- scheduler_base.py: the matches of an EDRRM cycle are a matching, and not empty without need.
use native.Mathlib.Nat.{mod-lt}
use spac.Base.{
  ℕ, zero, suc, ◌+◌, ◌≤◌, ◌<◌, ◌≡◌, refl, ap, inl, inr, true, false, List, [], ◌∷◌, ◌++◌, Option,
  none, some, arith, ◌==◌, All, All-map, All-append, member, Distinct, Distinct-append_one,
  Bool-cases, member-above,
}
use spac.Voq.Interface.{VoqBuffer}
use spac.Scheduler.{inputs, outputs, SchedulerMatch}
use spac.Scheduler.Arbiter.{scan-ready}
use spac.Scheduler.Edrrm.{Edrrm, Grants, is_requester, grant, grant_output, grant_phase}

-- The pointers name ports.
pub record IsValid (s : Edrrm) : Type 0 where
  pub some_port : 0 < s.num_ports
  pub inputs_in : (p : ℕ) → s.rr_index_in p < s.num_ports
  pub outputs_in : (p : ℕ) → s.rr_index_out p < s.num_ports

-- A match that answers a request, of an input port below `n` for an output port below `k`.
abbrev pub Answers : ℕ → (ℕ → Option ℕ) → ℕ → SchedulerMatch → Type 0
Answers n requests k m =
    (m.input_port < n) × (m.output_port < k) × (requests m.input_port ≡ some m.output_port)

-- Matches that answer requests and differ in their outputs differ in their inputs.
pub inputs-member :
    (n k : ℕ) (requests : ℕ → Option ℕ) (i o : ℕ) (ms : List SchedulerMatch)
    → requests i ≡ some o
    → All (Answers n requests k) ms
    → member o (outputs ms) ≡ false
    → member i (inputs ms) ≡ false
inputs-member n k requests i o [] e a h = refl
inputs-member n k requests i o (m ∷ ms) e a h = elim (Bool-cases (m.input_port == i)) [
  | inl q ↦ let same : m.input_port ≡ i = ground arith in ground (arith, ap requests same, a.0.2)
  | inr q ↦ ground (arith, inputs-member n k requests i o ms e a.1)
]

pub outputs-append :
    (xs : List SchedulerMatch) (m : SchedulerMatch)
    → outputs (xs ++ m ∷ []) ≡ outputs xs ++ m.output_port ∷ []
outputs-append [] m = refl
outputs-append (x ∷ xs) m = ap (◌∷◌ x.output_port) (outputs-append xs m)

inputs-append :
    (xs : List SchedulerMatch) (m : SchedulerMatch)
    → inputs (xs ++ m ∷ []) ≡ inputs xs ++ m.input_port ∷ []
inputs-append [] m = refl
inputs-append (x ∷ xs) m = ap (◌∷◌ x.input_port) (inputs-append xs m)

pub All-outputs :
    (n k : ℕ) (requests : ℕ → Option ℕ) (ms : List SchedulerMatch)
    → All (Answers n requests k) ms
    → All (λ o. o < k) (outputs ms)
All-outputs n k requests [] a = tt
All-outputs n k requests (m ∷ ms) a = (a.0.1, All-outputs n k requests ms a.1)

pub requester-request :
    (n : ℕ) (requests : ℕ → Option ℕ) (dst src : ℕ)
    → is_requester n requests dst src ≡ true
    → (src < n) × (requests src ≡ some dst)
unfolding is_requester
requester-request n requests dst src h = ground arith

pub request-requester :
    (n : ℕ) (requests : ℕ → Option ℕ) (dst src : ℕ)
    → src < n
    → requests src ≡ some dst
    → is_requester n requests dst src ≡ true
unfolding is_requester
request-requester n requests dst src h e = ground arith

-- The grants for the output ports below `k`.
pub record IsMatching (n : ℕ) (requests : ℕ → Option ℕ) (k : ℕ) (g : Grants) : Type 0 where
  pub valid : IsValid g.scheduler
  pub ports : g.scheduler.num_ports ≡ n
  pub answers : All (Answers n requests k) g.matches
  pub distinct_outputs : Distinct (outputs g.matches)
  pub distinct_inputs : Distinct (inputs g.matches)

module _ {B : Type 0} (v : VoqBuffer B) where
  grant-IsMatching :
      (n : ℕ) (requests : ℕ → Option ℕ) (k : ℕ) (g : Grants) (b : B) (r : Option ℕ)
      → k < n
      → ((src : ℕ) → r ≡ some src → (src < n) × (requests src ≡ some k))
      → IsMatching n requests k g
      → IsMatching n requests (suc k) (grant v g b k r)
  unfolding grant
  grant-IsMatching n requests k g b none l h w = record {
    valid = w.valid;
    ports = w.ports;
    answers =
        All-map (Answers n requests k) (Answers n requests (suc k)) (λ m a. (a.0, omega arith, a.2))
          g.matches w.answers;
    distinct_outputs = w.distinct_outputs;
    distinct_inputs = w.distinct_inputs;
  }
  grant-IsMatching n requests k g b (some src) l h w =
      let (inside, request) = h src refl in
      let fresh : member k (outputs g.matches) ≡ false =
        member-above k k (outputs g.matches) (omega arith)
          (All-outputs n k requests g.matches w.answers) in
      let some_port = w.valid.some_port in
      record {
        valid = record {
          some_port = some_port;
          inputs_in = λ p. ground (arith, w.valid.inputs_in p, mod-lt (k + 1) some_port, w.ports);
          outputs_in = λ p. ground (arith, w.valid.outputs_in p, mod-lt (src + 1) some_port);
        };
        ports = w.ports;
        answers =
            All-append (Answers n requests (suc k)) g.matches
              (record { input_port = src; output_port = k } ∷ [])
              (All-map (Answers n requests k) (Answers n requests (suc k))
                (λ m a. (a.0, omega arith, a.2)) g.matches w.answers)
              ((inside, omega arith, request), tt);
        distinct_outputs =
            rw (outputs-append g.matches (record { input_port = src; output_port = k }))
              (Distinct-append_one k (outputs g.matches) w.distinct_outputs fresh);
        distinct_inputs =
            rw (inputs-append g.matches (record { input_port = src; output_port = k })) (
              Distinct-append_one src (inputs g.matches) w.distinct_inputs
                (inputs-member n k requests src k g.matches request w.answers fresh));
      }

  pub grant_output-IsMatching :
      (n : ℕ) (requests : ℕ → Option ℕ) (k : ℕ) (g : Grants) (b : B)
      → k < n
      → IsMatching n requests k g
      → IsMatching n requests (suc k) (grant_output v requests g b k)
  unfolding grant_output
  grant_output-IsMatching n requests k g b l w =
      let m = g.scheduler.num_ports in
      grant-IsMatching n requests k g b _ l
        (λ src e.
          let found =
            scan-ready m m (g.scheduler.rr_index_out k) 0 (is_requester m requests k) {p = src}
              w.valid.some_port e in
          let r = requester-request m requests k src found.0 in (omega (arith, r.0, w.ports), r.1))
        w

  pub grant_phase-IsMatching :
      (k n : ℕ) (requests : ℕ → Option ℕ) (g : Grants) (b : B)
      → k ≤ n
      → IsMatching n requests 0 g
      → IsMatching n requests k (grant_phase v requests g b k)
  unfolding grant_phase
  grant_phase-IsMatching zero n requests g b l w = w
  grant_phase-IsMatching (suc k) n requests g b l w =
      grant_output-IsMatching n requests k (grant_phase v requests g b k) b l
        (grant_phase-IsMatching k n requests g b (omega arith) w)
