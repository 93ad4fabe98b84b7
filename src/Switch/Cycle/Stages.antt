-- ===== src/Switch/Cycle/Stages.antt =====
-- switch_core.py: the stages that a call of `process_cycle` runs, seen from the scheduler's and the
-- outputs' stages.
use spac.Base.{
  >>=-eq-some, some-injective, ℕ, ◌≡◌, sym, ap, ◌∙◌, max, range, Bool, false, List, [], some, subst,
  ◌||◌,
}
use spac.Voq.Interface.{VoqBuffer}
use spac.Switch.HashStage.{BufferSide, buffer_stage}
use spac.Switch.SchedulerStage.{SchedulerSide, scheduler_stage}
use spac.Switch.OutputStage.{Transmitted, output_ports}
use spac.Switch.Core.{SwitchCore, CycleStats, tick_all_modules}
use spac.Switch.Cycle.{
  run_rx, run_hash, run_buffer, run_scheduler, run_output, close_cycle, process_cycle,
}

-- The result of a step that may fail, once the chain has succeeded.
module _ {B : Type 0} where
  -- What the stages before the scheduler's leave alone.
  pub record IsBefore (s t : SwitchCore B) : Type 0 where
    pub ports : t.num_ports ≡ s.num_ports
    pub bus : t.bus_width_bits ≡ s.bus_width_bits
    pub states : t.output_states ≡ s.output_states
    pub rests : t.scheduler_state.processing ≡ s.scheduler_state.processing
    pub ready : t.scheduler_state.output_ready ≡ s.scheduler_state.output_ready
    pub pending : t.scheduler_state.output_pending ≡ s.scheduler_state.output_pending
    pub sent : t.sent ≡ s.sent

  -- The scheduler's side of a switch, and that of its outputs.
  abbrev pub scheduler_side : SwitchCore B → SchedulerSide B
  scheduler_side s = record {
    state = s.scheduler_state;
    scheduler = s.scheduler;
    voq_buffer = s.voq_buffer;
    output_states = s.output_states;
    pending_ii_wait = s.pending_ii_wait;
    scheduling_cycles = s.scheduling_cycles;
    packets_scheduled = 0;
    active = false;
  }

  -- A call of `process_cycle` that has returned: the switch before the scheduler's stage, what that
  -- stage makes of it, and what the output stage makes of that.
  pub record Ran (v : VoqBuffer B) (s : SwitchCore B) (time : ℕ) (tx : List Transmitted)
      (s' : SwitchCore B) : Type 0 where
    pub before : SwitchCore B
    pub same : IsBefore s before
    pub time_before : before.current_time ≡ max s.current_time time
    pub side : SchedulerSide B
    pub scheduled : scheduler_stage v before.bus_width_bits (scheduler_side before) ≡ some side
    pub ended :
        let d =
          output_ports before.bus_width_bits side.state.ii before.current_time
            (range before.num_ports)
            (record {
              output_states = side.output_states;
              sent = before.sent;
              transmitted = [];
              active = false;
            }) in
        (tx ≡ d.transmitted) × (s'.output_states ≡ d.output_states) × (s'.sent ≡ d.sent)
    pub state : s'.scheduler_state ≡ side.state
    pub ports : s'.num_ports ≡ s.num_ports
    pub bus : s'.bus_width_bits ≡ s.bus_width_bits

  -- The buffer's side of a switch, and its way back.
  abbrev pub buffer_side : SwitchCore B → BufferSide B
  buffer_side s = record {
    buffer_state = s.buffer_state;
    voq_buffer = s.voq_buffer;
    hash_to_buffer_queue = s.hash_to_buffer_queue;
    packets_dropped = s.packets_dropped;
    dropped_per_port = s.dropped_per_port;
    packets_processed = 0;
    active = false;
  }

  abbrev pub with_buffer : SwitchCore B → BufferSide B → SwitchCore B
  with_buffer s r = record s {
    buffer_state = r.buffer_state;
    voq_buffer = r.voq_buffer;
    hash_to_buffer_queue = r.hash_to_buffer_queue;
    packets_dropped = r.packets_dropped;
    dropped_per_port = r.dropped_per_port;
  }

  abbrev pub with_scheduler : SwitchCore B → SchedulerSide B → SwitchCore B
  with_scheduler s r = record s {
    scheduler_state = r.state;
    scheduler = r.scheduler;
    voq_buffer = r.voq_buffer;
    output_states = r.output_states;
    pending_ii_wait = r.pending_ii_wait;
    scheduling_cycles = r.scheduling_cycles;
  }

  module _ (v : VoqBuffer B) where
    run_buffer-IsBefore :
        (s t : SwitchCore B) (active : Bool) (processed : ℕ)
        → run_buffer v s ≡ some (active, processed, t)
        → IsBefore s t × (t.current_time ≡ s.current_time)
    unfolding run_buffer
    run_buffer-IsBefore s t active processed h =
        let k =
          >>=-eq-some (buffer_stage v s.current_time s.current_cycle (buffer_side s))
            (λ r. some (r.active, r.packets_processed, with_buffer s r)) h in
        let e : with_buffer s k.0 ≡ t = ap (λ x. x.2) (some-injective _ _ k.2) in
        (
          record {
            ports = sym (ap (λ x. x.num_ports) e);
            bus = sym (ap (λ x. x.bus_width_bits) e);
            states = sym (ap (λ x. x.output_states) e);
            rests = sym (ap (λ x. x.scheduler_state.processing) e);
            ready = sym (ap (λ x. x.scheduler_state.output_ready) e);
            pending = sym (ap (λ x. x.scheduler_state.output_pending) e);
            sent = sym (ap (λ x. x.sent) e);
          },
          sym (ap (λ x. x.current_time) e),
        )

    pub process_cycle-Ran :
        (s s' : SwitchCore B) (time : ℕ) (stats : CycleStats) (tx : List Transmitted)
        → process_cycle v s time ≡ some (stats, tx, s')
        → Ran v s time tx s'
    unfolding process_cycle tick_all_modules run_rx run_hash run_scheduler run_output close_cycle
    process_cycle-Ran s s' time stats tx h =
        let s0 = tick_all_modules (record s { current_time = max s.current_time time }) in
        let s1 = (run_rx s0).1 in
        let s2 = (run_hash s1).1 in
        let k = >>=-eq-some (run_buffer v s2) _ h in
        let s3 = k.0.2 in
        let l = >>=-eq-some (run_scheduler v s3) _ k.2 in
        let m =
          >>=-eq-some (scheduler_stage v s3.bus_width_bits (scheduler_side s3))
            (λ r. some (r.active, r.packets_scheduled, with_scheduler s3 r)) l.1 in
        let e = some-injective _ _ l.2 in
        let f : with_scheduler s3 m.0 ≡ l.0.2 = ap (λ x. x.2) (some-injective _ _ m.2) in
        let any_active =
          (run_rx s0).0 || ((run_hash s1).0 || (k.0.0 || (l.0.0 || (run_output l.0.2).0))) in
        let g =
          subst (λ z. ((run_output z).1 ≡ tx) × (close_cycle v any_active (run_output z).2 ≡ s'))
            (sym f) (ap (λ x. x.1) e, ap (λ x. x.2) e) in
        let same = run_buffer-IsBefore s2 s3 k.0.0 k.0.1 k.1 in
        record {
          before = s3;
          same = record {
            ports = same.0.ports;
            bus = same.0.bus;
            states = same.0.states;
            rests = same.0.rests;
            ready = same.0.ready;
            pending = same.0.pending;
            sent = same.0.sent;
          };
          time_before = same.1;
          side = m.0;
          scheduled = m.1;
          ended = (sym g.0, sym (ap (λ x. x.output_states) g.1), sym (ap (λ x. x.sent) g.1));
          state = sym (ap (λ x. x.scheduler_state) g.1);
          ports = sym (ap (λ x. x.num_ports) g.1) ∙ same.0.ports;
          bus = sym (ap (λ x. x.bus_width_bits) g.1) ∙ same.0.bus;
        }
