-- ===== src/Voq/Ports.antt =====
-- buffer_voq.py: the ports that `_get_output_ports` gives.
use spac.Base.{
  ℕ, ◌<◌, ◌≡◌, refl, true, false, List, [], ◌∷◌, some, ℤ, arith, All, member, Distinct, range,
  range-lt, range-Distinct, member-range, py_index, py_index-lt, if◌then◌else◌, ◌==◌, update, inl,
  inr, Option-cases, Bool-cases,
}
use spac.Packet.{Metadata}
use spac.Voq.Entry.{without, get_output_ports, has_room}

member-without :
    (i a : ℕ) (ports : List ℕ)
    → member a (without i ports) ≡ (if a == i then false else member a ports)
unfolding without
member-without i a [] = ground arith
member-without i a (p ∷ ports) = ground (arith, member-without i a ports)

without-All :
    (n i : ℕ) (ports : List ℕ) → All (λ p. p < n) ports → All (λ p. p < n) (without i ports)
unfolding without
without-All n i [] h = tt
without-All n i (p ∷ ports) h = ground (arith, without-All n i ports h.1)

without-Distinct : (i : ℕ) (ports : List ℕ) → Distinct ports → Distinct (without i ports)
unfolding without
without-Distinct i [] d = tt
without-Distinct i (p ∷ ports) d =
    ground (arith, without-Distinct i ports d.1, member-without i p ports)

-- What the storing loop needs of its ports.
pub record IsPortList (n : ℕ) (ports : List ℕ) : Type 0 where
  pub inside : All (λ p. p < n) ports
  pub distinct : Distinct ports

pub get_output_ports-IsPortList :
    (n i : ℕ) (m : Metadata) {ports : List ℕ}
    → get_output_ports n i m ≡ some ports
    → IsPortList n ports
unfolding get_output_ports
get_output_ports-IsPortList n i m {ports} h = elim (Bool-cases m.broadcast) [
  | inl all ↦
      let e : without i (range n) ≡ ports = ground arith in
      rw (← e) (record {
        inside = without-All n i (range n) (range-lt n);
        distinct = without-Distinct i (range n) (range-Distinct n);
      })
  | inr one ↦ elim (Option-cases (py_index n m.dst_port)) [
    | inl bad ↦ ground arith
    | inr (p, good) ↦
        let e : p ∷ [] ≡ ports = ground arith in
        rw (← e) (record { inside = (py_index-lt n m.dst_port good, tt); distinct = (refl, tt) })
  ]
]

-- A broadcast goes to every port of the switch but the one that it came in by.
pub get_output_ports-member :
    (n i : ℕ) (m : Metadata) (p : ℕ) {ports : List ℕ}
    → get_output_ports n i m ≡ some ports
    → m.broadcast ≡ true
    → p < n
    → member p ports ≡ (if p == i then false else true)
unfolding get_output_ports
get_output_ports-member n i m p h all lt =
    ground (arith, member-without i p (range n), member-range p n lt)

-- A write at another port leaves the test for room as it was.
pub has_room-update :
    (limits : ℕ → ℤ) (used : ℕ → ℕ) (size p v : ℕ) (ports : List ℕ)
    → member p ports ≡ false
    → has_room limits (update used p v) size ports ≡ has_room limits used size ports
unfolding has_room
has_room-update limits used size p v [] h = refl
has_room-update limits used size p v (q ∷ ports) h =
    ground (arith, has_room-update limits used size p v ports)
