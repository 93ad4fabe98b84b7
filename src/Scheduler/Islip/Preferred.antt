-- ===== src/Scheduler/Islip/Preferred.antt =====
-- scheduler_base.py: `_get_preferred_output` gives a longest queue.
use spac.Base.{
  ℕ, ◌≤◌, ◌<◌, ◌≡◌, refl, inl, inr, ap, true, List, [], ◌∷◌, Option, none, some, arith, ltb,
  if◌then◌else◌, length, member, range, member-range, Bool-cases, ◌==◌,
}
use spac.Voq.Interface.{VoqBuffer}
use spac.Scheduler.Islip.{longest, get_preferred_output}

-- The loop's answer, when it began with `m` as the length of `p`.
abbrev Longest : (ℕ → ℕ) → ℕ → Option ℕ → Type 0
Longest lengths m none = m ≡ 0
Longest lengths m (some p) = (lengths p ≡ m) × (0 < m)

-- The greatest length that the loop has met.
abbrev greatest : (ℕ → ℕ) → ℕ → List ℕ → ℕ
greatest lengths m [] = m
greatest lengths m (o ∷ ports) = greatest lengths (if ltb m (lengths o) then lengths o else m) ports

longest-Longest :
    (ports : List ℕ) (lengths : ℕ → ℕ) (m : ℕ) (p : Option ℕ)
    → Longest lengths m p
    → Longest lengths (greatest lengths m ports) (longest lengths m p ports)
unfolding longest
longest-Longest [] lengths m p h = h
longest-Longest (o ∷ ports) lengths m p h = elim (Bool-cases (ltb m (lengths o))) [
  | inl e ↦ rw e (longest-Longest ports lengths (lengths o) (some o) (refl, ground arith))
  | inr e ↦ rw e (longest-Longest ports lengths m p h)
]

greatest-le : (ports : List ℕ) (lengths : ℕ → ℕ) (m : ℕ) → m ≤ greatest lengths m ports
greatest-le [] lengths m = omega arith
greatest-le (o ∷ ports) lengths m =
    ground (arith, greatest-le ports lengths (lengths o), greatest-le ports lengths m)

greatest-member :
    (ports : List ℕ) (lengths : ℕ → ℕ) (m d : ℕ)
    → member d ports ≡ true
    → lengths d ≤ greatest lengths m ports
greatest-member [] lengths m d h = cc
greatest-member (o ∷ ports) lengths m d h = elim (Bool-cases (o == d)) [
  | inl e ↦
      let same : o ≡ d = ground arith in
      ground
        (arith, ap lengths same, greatest-le ports lengths (lengths o), greatest-le ports lengths m)
  | inr e ↦
      greatest-member ports lengths (if ltb m (lengths o) then lengths o else m) d (ground arith)
]

module _ {B : Type 0} (v : VoqBuffer B) where
  -- The preferred output port of an input port has a packet, and no output port has more.
  pub get_preferred_output-longest :
      (n : ℕ) (b : B) (i d : ℕ) {o : ℕ}
      → get_preferred_output v n b i ≡ some o
      → d < n
      → (0 < length (v.queue b i o)) × (length (v.queue b i d) ≤ length (v.queue b i o))
  unfolding get_preferred_output
  get_preferred_output-longest n b i d {o} e h =
      let lengths = λ (p : ℕ). length (v.queue b i p) in
      let found = longest-Longest (range n) lengths 0 none refl in
      let found' : Longest lengths (greatest lengths 0 (range n)) (some o) = rw e at found in
      let most = greatest-member (range n) lengths 0 d (member-range d n h) in
      (omega arith, omega arith)

  -- An input port with a packet has a preferred output port.
  pub get_preferred_output-some :
      (n : ℕ) (b : B) (i d : ℕ)
      → d < n
      → 0 < length (v.queue b i d)
      → (o : ℕ) × (get_preferred_output v n b i ≡ some o)
  unfolding get_preferred_output
  get_preferred_output-some n b i d h q =
      let lengths = λ (p : ℕ). length (v.queue b i p) in
      let most = greatest-member (range n) lengths 0 d (member-range d n h) in
      some_of _ (longest-Longest (range n) lengths 0 none refl) (omega arith)
    where
      some_of :
          (r : Option ℕ)
          → Longest
              (λ p. length (v.queue b i p))
              (greatest (λ p. length (v.queue b i p)) 0 (range n))
              r
          → 0 < greatest (λ p. length (v.queue b i p)) 0 (range n)
          → (o : ℕ) × (r ≡ some o)
      some_of none z pos = absurd (omega arith)
      some_of (some o) z pos = (o, refl)
