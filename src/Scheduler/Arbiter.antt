-- ===== src/Scheduler/Arbiter.antt =====
-- scheduler_base.py: the scan round the ports from a pointer, which `RoundRobinScheduler` makes over
-- input queues and `EDRRMScheduler` over destinations and over requesters.
use native.Mathlib.Nat.{mod-lt, mod-eq_of_lt, mod-eq-sub-mod, mod_self}
use spac.Base.{
  ℕ, zero, suc, ◌+◌, ◌-◌, ◌%◌, ◌≤◌, ◌<◌, ◌≡◌, ◌≢◌, inl, inr, Bool, true, Option, none, some, arith,
  if◌then◌else◌, Bool-cases, leb, ltb, ◌==◌, ◌∙◌, ap,
}

-- for offset in range(n): port = (start + offset) % n; the first that is ready, from an offset on
-- and with so many rounds left.
unfoldable pub scan : (ℕ → Bool) → ℕ → ℕ → ℕ → ℕ → Option ℕ
scan ready n start offset zero = none
scan ready n start offset (suc rounds) =
    if ready ((start + offset) % n)
    then some ((start + offset) % n)
    else scan ready n start (offset + 1) rounds

-- How many places a port is after the pointer.
abbrev pub distance : ℕ → ℕ → ℕ → ℕ
distance n start i = if leb start i then i - start else i + n - start

pub distance-lt : (n start i : ℕ) → start < n → i < n → distance n start i < n
distance-lt n start i h k = ground arith

pub wrap_once : (n x : ℕ) → n ≤ x → x < n + n → x % n ≡ x - n
wrap_once n x h k = mod-eq-sub-mod h ∙ mod-eq_of_lt (omega arith)

pub turn : (n start i : ℕ) → start < n → i < n → (start + distance n start i) % n ≡ i
turn n start i h k = elim (Bool-cases (leb start i)) [
  | inl e ↦ let q : start + distance n start i ≡ i = ground arith in rw q (mod-eq_of_lt k)
  | inr e ↦
      let q : start + distance n start i ≡ i + n = ground arith in
      rw q (wrap_once n (i + n) (omega arith) (omega arith) ∙ omega arith)
]

pub distance-turn : (n start k : ℕ) → start < n → k < n → distance n start ((start + k) % n) ≡ k
distance-turn n start k h q = elim (Bool-cases (ltb (start + k) n)) [
  | inl e ↦ rw (mod-eq_of_lt {n = start + k} {m = n} (ground arith)) (ground arith)
  | inr e ↦ rw (wrap_once n (start + k) (ground arith) (omega arith)) (ground arith)
]

-- With a ready port in reach, the scan stops, no later than there.
scan_stops :
    (rounds n start offset d : ℕ) (ready : ℕ → Bool)
    → ready ((start + d) % n) ≡ true
    → offset ≤ d
    → d < offset + rounds
    → (k : ℕ) × (scan ready n start offset rounds ≡ some ((start + k) % n))
      × (k ≤ d)
      × (ready ((start + k) % n) ≡ true)
unfolding scan
scan_stops zero n start offset d ready r h l = absurd (omega arith)
scan_stops (suc rounds) n start offset d ready r h l =
    elim (Bool-cases (ready ((start + offset) % n))) [
      | inl e ↦ (offset, ground arith, h, e)
      | inr e ↦
          let ne : offset ≢ d = λ q. ground (arith, ap (λ x. ready ((start + x) % n)) q) in
          let (k, found, near, r') =
            scan_stops rounds n start (offset + 1) d ready r (omega arith) (omega arith) in
          (k, rw e found, near, r')
    ]

-- The whole scan finds a ready port if there is one, and none that is nearer is passed over.
pub scan-nearest :
    (n start i : ℕ) (ready : ℕ → Bool)
    → start < n
    → i < n
    → ready i ≡ true
    → (p : ℕ) × (scan ready n start 0 n ≡ some p)
      × (p < n)
      × (ready p ≡ true)
      × (distance n start p ≤ distance n start i)
scan-nearest n start i ready h k r =
    let (j, found, near, r') =
      scan_stops n n start 0 (distance n start i) ready (rw (turn n start i h k) r) (omega arith)
        (omega (arith, distance-lt n start i h k)) in
    (
      (start + j) % n,
      found,
      mod-lt (start + j) (omega arith),
      r',
      omega (arith, distance-turn n start j h (omega (arith, distance-lt n start i h k))),
    )

-- What the scan finds is ready.
pub scan-ready :
    (rounds n start offset : ℕ) (ready : ℕ → Bool) {p : ℕ}
    → 0 < n
    → scan ready n start offset rounds ≡ some p
    → (ready p ≡ true) × (p < n)
unfolding scan
scan-ready zero n start offset ready h e = cc
scan-ready (suc rounds) n start offset ready {p} h e =
    elim (Bool-cases (ready ((start + offset) % n))) [
      | inl r ↦
          let q : (start + offset) % n ≡ p = ground arith in rw (← q) (r, mod-lt (start + offset) h)
      | inr r ↦ scan-ready rounds n start (offset + 1) ready h (rw r at e)
    ]

-- The pointer behind a port that was preferred to `i` is nearer to `i` than before.
pub distance_after :
    (n start p i : ℕ)
    → start < n
    → p < n
    → i < n
    → p ≢ i
    → distance n start p ≤ distance n start i
    → distance n ((p + 1) % n) i < distance n start i
distance_after n start p i h k l ne near = elim (Bool-cases (p + 1 == n)) [
  | inl e ↦
      let e' : p + 1 ≡ n = ground arith in
      let z : (p + 1) % n ≡ 0 = ap (λ x. x % n) e' ∙ mod_self n in rw z (ground arith)
  | inr e ↦ rw (mod-eq_of_lt {n = p + 1} {m = n} (ground arith)) (ground arith)
]
