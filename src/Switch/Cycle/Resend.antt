-- ===== src/Switch/Cycle/Resend.antt =====
-- switch_core.py: two packets for the outputs, one of which is busy.
use spac.Base.{
  some-injective, ℕ, suc, ◌-◌, ◌<◌, ◌≡◌, refl, sym, ap, ◌∙◌, max, true, false, List, [], ◌∷◌, some,
  arith, subst, ◌==◌,
}
use spac.Voq.Entry.{VoqEntry, packet_size}
use spac.Voq.Interface.{VoqBuffer}
use spac.Config.Latency.{calculate_transfer_cycles}
use spac.Switch.{OutputState}
use spac.Switch.SchedulerStage.Dispatch.{
  HasPending, IsDispatched, scheduler_stage-IsDispatched, entry_for, handed,
}
use spac.Switch.OutputStage.{Transmitted, OutputSide, packet_of}
use spac.Switch.OutputStage.Delivered.{output_ports-IsServed, finished, sent_by}
use spac.Switch.Core.{SwitchCore, CycleStats}
use spac.Switch.Cycle.{process_cycle}
use spac.Switch.Cycle.Stages.{process_cycle-Ran, scheduler_side}

finished_last :
    (time : ℕ) (m : OutputState) (e : VoqEntry)
    → m.input_busy ≡ true
    → m.input_transfer_remaining ≡ 1
    → m.input_data ≡ some e
    → finished time m ≡ packet_of e time ∷ []
finished_last time m e b r d = rw (b, r, d) refl

-- What a dispatch of two entries does to the outputs, of which the first is free.
first_taken :
    (bus o q : ℕ) (m m' : OutputState) (e f : VoqEntry)
    → m' ≡ handed bus m (entry_for o ((o, e) ∷ (q, f) ∷ []))
    → m.input_busy ≡ false
    → calculate_transfer_cycles (packet_size e) bus ≡ 1
    → (m'.input_busy ≡ true) × (m'.input_transfer_remaining ≡ 1) × (m'.input_data ≡ some e)
first_taken bus o q m m' e f h b c = ground arith

second_kept :
    (bus o q : ℕ) (m m' : OutputState) (e f : VoqEntry)
    → m' ≡ handed bus m (entry_for q ((o, e) ∷ (q, f) ∷ []))
    → (o == q) ≡ false
    → m.input_busy ≡ true
    → m' ≡ m
second_kept bus o q m m' e f h n b = ground arith

module _ {B : Type 0} where
  -- A switch whose scheduler's stage holds a packet of one cycle for a free port, and another one
  -- for a port that is busy for some cycles more.
  pub record IsStuck (s : SwitchCore B) (o q left : ℕ) (e f : VoqEntry) : Type 0 where
    pub rests : s.scheduler_state.processing ≡ false
    pub ready : s.scheduler_state.output_ready ≡ true
    pub pending : s.scheduler_state.output_pending ≡ some ((o, e) ∷ (q, f) ∷ [])
    pub free : (s.output_states o).input_busy ≡ false
    pub busy : (s.output_states q).input_busy ≡ true
    pub remaining : (s.output_states q).input_transfer_remaining ≡ left
    pub ports : (o < s.num_ports) × (q < s.num_ports)
    pub short : calculate_transfer_cycles (packet_size e) s.bus_width_bits ≡ 1

  -- While the other port stays busy, each cycle sends the packet again, and leaves the switch as it
  -- was in this respect.
  pub process_cycle_resends :
      (v : VoqBuffer B) (s s' : SwitchCore B) (time o q left : ℕ) (e f : VoqEntry)
      (stats : CycleStats) (tx : List Transmitted)
      → (o == q) ≡ false
      → IsStuck s o q (suc (suc left)) e f
      → process_cycle v s time ≡ some (stats, tx, s')
      → (sent_by o tx ≡ packet_of e (max s.current_time time) ∷ []) × IsStuck s' o q (suc left) e f
  process_cycle_resends v s s' time o q left e f stats tx n h p =
      let r = process_cycle-Ran v s s' time stats tx p in
      let ts : List (ℕ × VoqEntry) = (o, e) ∷ (q, f) ∷ [] in
      let a : HasPending (scheduler_side r.before) ts = record {
        rests = r.same.rests ∙ h.rests;
        ready = r.same.ready ∙ h.ready;
        pending = r.same.pending ∙ h.pending;
      } in
      let d =
        scheduler_stage-IsDispatched v r.before.bus_width_bits (scheduler_side r.before) (o, e)
          ((q, f) ∷ []) a (ground (arith, n)) in
      let same : d.0 ≡ r.side = some-injective _ _ (sym d.1 ∙ r.scheduled) in
      let done =
        subst (λ t. IsDispatched r.before.bus_width_bits ts (scheduler_side r.before) t) same d.2 in
      let at_o : (r.before.output_states o).input_busy ≡ false =
        ap (λ x. (x o).input_busy) r.same.states ∙ h.free in
      let at_q : (r.before.output_states q).input_busy ≡ true =
        ap (λ x. (x q).input_busy) r.same.states ∙ h.busy in
      let taken =
        first_taken r.before.bus_width_bits o q (r.before.output_states o) (r.side.output_states o)
          e f (done.outputs o) at_o
          (ap (calculate_transfer_cycles (packet_size e)) r.same.bus ∙ h.short) in
      let held =
        second_kept r.before.bus_width_bits o q (r.before.output_states q) (r.side.output_states q)
          e f (done.outputs q) n at_q in
      let kept = done.kept (ground (arith, at_o, at_q)) in
      let outputs : OutputSide = record {
        output_states = r.side.output_states;
        sent = r.before.sent;
        transmitted = [];
        active = false;
      } in
      let bus = r.before.bus_width_bits in
      let ii = r.side.state.ii in
      let now = r.before.current_time in
      let n' = r.before.num_ports in
      let at = λ (p : ℕ). output_ports-IsServed bus ii now n' p outputs in
      let so = at o (subst (λ x. o < x) (sym r.same.ports) h.ports.0) in
      let sq = at q (subst (λ x. q < x) (sym r.same.ports) h.ports.1) in
      let busy_q = ap (λ x. x.input_busy) held ∙ at_q in
      let one : suc (suc left) - 1 ≡ suc left = omega arith in
      let left_q =
        ap (λ x. x.input_transfer_remaining) held
        ∙ ap (λ x. (x q).input_transfer_remaining) r.same.states
        ∙ h.remaining in
      (
        ap (sent_by o) r.ended.0
            ∙ so.sent
            ∙ finished_last now (r.side.output_states o) e taken.0 taken.1 taken.2
            ∙ ap (λ t. packet_of e t ∷ []) r.time_before,
        record {
          rests = ap (λ x. x.processing) r.state ∙ kept.rests;
          ready = ap (λ x. x.output_ready) r.state ∙ kept.ready;
          pending = ap (λ x. x.output_pending) r.state ∙ kept.pending;
          free = ap (λ x. (x o).input_busy) r.ended.1 ∙ so.busy ∙ ground (arith, taken.0, taken.1);
          busy = ap (λ x. (x q).input_busy) r.ended.1 ∙ sq.busy ∙ ground (arith, busy_q, left_q);
          remaining =
              ap (λ x. (x q).input_transfer_remaining) r.ended.1
              ∙ sq.left busy_q
              ∙ ap (λ x. x - 1) left_q
              ∙ one;
          ports = subst (λ x. (o < x) × (q < x)) (sym r.ports) h.ports;
          short = ap (calculate_transfer_cycles (packet_size e)) r.bus ∙ h.short;
        },
      )
