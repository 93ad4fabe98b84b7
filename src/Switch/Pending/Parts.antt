-- ===== src/Switch/Pending/Parts.antt =====
-- switch_core.py: the stages of a switch that have nothing to do.
use spac.Base.{
  ℕ, zero, suc, ◌<◌, ◌≡◌, refl, ap, ◌∙◌, range, inl, inr, Bool, true, false, ◌||◌, List, [], ◌∷◌,
  ◌++◌, none, ◌==◌, if◌then◌else◌, arith, subst, All, update, Bool-cases,
}
use spac.Rx.{RxEngine}
use spac.Rx as Rx
use spac.Switch.{RxState, HashState, note, begin}
use spac.Switch.RxStage.{RxSide, rx_ports, rx_port, work, push}
use spac.Switch.HashStage.{HashSide, hash_stage, output_part, work_part, next_item}
use spac.Switch.OutputStage.{OutputSide, output_ports, output_port}
use spac.Switch.Cycle.{any_port}

-- A test that holds of no port below a bound.
any_port_none :
    (test : ℕ → Bool) (ports : List ℕ) (q : ℕ)
    → any_port test (ports ++ q ∷ []) ≡ false
    → (any_port test ports ≡ false) × (test q ≡ false)
unfolding any_port
any_port_none test [] q h = ground (arith, h)
any_port_none test (p ∷ ports) q h = ground (arith, any_port_none test ports q)

pub any_port-range :
    (test : ℕ → Bool) (n q : ℕ) → any_port test (range n) ≡ false → q < n → test q ≡ false
any_port-range test zero q h l = absurd (omega arith)
any_port-range test (suc n) q h l =
    let k = any_port_none test (range n) n h in
    elim (Bool-cases (q == n)) [
      | inl e ↦ let same : n ≡ q = ground arith in subst (λ x. test x ≡ false) same k.1
      | inr e ↦ any_port-range test n q k.0 (ground arith)
    ]

pub range-any_port :
    (test : ℕ → Bool) (ports : List ℕ)
    → All (λ p. test p ≡ false) ports
    → any_port test ports ≡ false
unfolding any_port
range-any_port test [] h = refl
range-any_port test (p ∷ ports) h = ground (arith, range-any_port test ports h.1)

-- A receive port with nothing to do.
pub record IsQuietPort (m : RxState) (e : RxEngine) : Type 0 where
  pub engine : Rx.has_pending_work e ≡ false
  pub input : m.input_busy ≡ false
  pub rests : m.processing ≡ false
  pub empty : m.output_ready ≡ false

rx_port_quiet :
    (bus : ℕ) (accepts : Bool) (p : ℕ) (m : RxState) (e : RxEngine)
    → IsQuietPort m e
    → let r = rx_port bus accepts p m e in IsQuietPort r.state r.engine × (r.sent ≡ none)
unfolding rx_port work note begin
rx_port_quiet bus accepts p m e h = ground arith

-- The ports below a bound are quiet.
abbrev pub AllQuiet : ℕ → (ℕ → RxState) → (ℕ → RxEngine) → Type 0
AllQuiet n states engines = (p : ℕ) → p < n → IsQuietPort (states p) (engines p)

pub rx_ports_quiet :
    (bus n : ℕ) (accepts : Bool) (ports : List ℕ) (s : RxSide)
    → All (λ p. p < n) ports
    → AllQuiet n s.rx_states s.rx_engines
    → let t = rx_ports bus accepts ports s in
      AllQuiet n t.rx_states t.rx_engines × (t.rx_to_hash_queue ≡ s.rx_to_hash_queue)
unfolding rx_ports push
rx_ports_quiet bus n accepts [] s l h = (h, refl)
rx_ports_quiet bus n accepts (p ∷ ports) s l h =
    let r = rx_port bus accepts p (s.rx_states p) (s.rx_engines p) in
    let one = rx_port_quiet bus accepts p (s.rx_states p) (s.rx_engines p) (h p l.0) in
    let t : RxSide = record {
      rx_states = update s.rx_states p r.state;
      rx_engines = update s.rx_engines p r.engine;
      rx_to_hash_queue = push s.rx_to_hash_queue r.sent;
      active = s.active || r.active;
    } in
    let quiet : AllQuiet n t.rx_states t.rx_engines = λ q k.
      elim (p == q)
        as (λ b.
          IsQuietPort (if b then r.state else s.rx_states q)
            (if b then r.engine else s.rx_engines q)) [ true ↦ one.0 | false ↦ h q k ] in
    let more = rx_ports_quiet bus n accepts ports t l.1 quiet in
    (more.0, more.1 ∙ ap (push s.rx_to_hash_queue) one.1)

-- The lookup's stage with nothing to do.
pub record IsQuietHash (m : HashState) : Type 0 where
  pub input : m.input_busy ≡ false
  pub rests : m.processing ≡ false
  pub empty : m.output_ready ≡ false
  pub free : m.output_busy ≡ false

pub hash_stage_quiet :
    (n bus : ℕ) (accepts : Bool) (s : HashSide)
    → IsQuietHash s.hash_state
    → s.rx_to_hash_queue ≡ []
    → let t = hash_stage n bus accepts s in
      IsQuietHash t.hash_state
      × (t.rx_to_hash_queue ≡ [])
      × (t.hash_to_buffer_queue ≡ s.hash_to_buffer_queue)
unfolding hash_stage output_part work_part next_item note begin
hash_stage_quiet n bus accepts s h q = ground arith

output_port_quiet :
    (bus ii time p : ℕ) (s : OutputSide)
    → (s.output_states p).input_busy ≡ false
    → let t = output_port bus ii time p s in
      (t.transmitted ≡ s.transmitted)
      × (t.sent ≡ s.sent)
      × ((q : ℕ) → (t.output_states q).input_busy ≡ (s.output_states q).input_busy)
unfolding output_port note begin
output_port_quiet bus ii time p s h = (ground arith, ground arith, λ q. ground arith)

pub output_ports_quiet :
    (bus ii time n : ℕ) (ports : List ℕ) (s : OutputSide)
    → All (λ p. p < n) ports
    → ((p : ℕ) → p < n → (s.output_states p).input_busy ≡ false)
    → let t = output_ports bus ii time ports s in
      (t.transmitted ≡ s.transmitted)
      × (t.sent ≡ s.sent)
      × ((p : ℕ) → p < n → (t.output_states p).input_busy ≡ false)
unfolding output_ports
output_ports_quiet bus ii time n [] s l h = (refl, refl, h)
output_ports_quiet bus ii time n (p ∷ ports) s l h =
    let one = output_port_quiet bus ii time p s (h p l.0) in
    let more =
      output_ports_quiet bus ii time n ports (output_port bus ii time p s) l.1
        (λ q k. one.2 q ∙ h q k) in
    (more.0 ∙ one.0, more.1 ∙ one.1, more.2)
