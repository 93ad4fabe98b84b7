-- ===== src/Switch/Pending/Quiet.antt =====
-- switch_core.py: a switch without pending work stays so, and sends nothing.
use spac.Base.{
  bind-from, ℕ, ◌<◌, ◌≡◌, refl, ap, ◌∙◌, max, range, range-lt, All-map, Bool, true, false, not,
  ◌||◌, List, [], ◌∷◌, some, if◌then◌else◌, arith, All, length,
}
use spac.Voq.Interface.{VoqBuffer}
use spac.Pipeline.Stage.{can_accept_input}
use spac.Switch.{idle, processing, Item, note, begin, tick_output}
use spac.Switch.HashStage.{BufferSide, buffer_stage, enqueue_first, has_backlogged_packets}
use spac.Switch.SchedulerStage.{
  SchedulerSide, process_on, scheduler_stage, dispatch_or_schedule, schedule,
}
use spac.Switch.Core.{SwitchCore, CycleStats, tick_all_modules}
use spac.Switch.Cycle.{
  run_rx, run_hash, run_buffer, run_scheduler, run_output, occupancy, close_cycle, process_cycle,
}
use spac.Switch.Cycle.Stages.{buffer_side, with_buffer, scheduler_side}
use spac.Switch.Pending.{is_empty, rx_pending, hash_pending, has_pending_work}
use spac.Switch.Pending.Parts.{
  any_port-range, range-any_port, AllQuiet, rx_ports_quiet, IsQuietHash, hash_stage_quiet,
  output_ports_quiet,
}

module _ {B : Type 0} (v : VoqBuffer B) where
  buffer_stage_quiet :
      (time cycle : ℕ) (s : BufferSide B)
      → s.hash_to_buffer_queue ≡ []
      → (t : BufferSide B) × (buffer_stage v time cycle s ≡ some t)
        × (t.voq_buffer ≡ s.voq_buffer)
        × (t.hash_to_buffer_queue ≡ [])
        × (t.packets_dropped ≡ s.packets_dropped)
  unfolding buffer_stage enqueue_first begin
  buffer_stage_quiet time cycle s q =
      let b = record s {
        buffer_state = begin s.buffer_state;
        packets_processed = 0;
        active = false;
      } in
      let t =
        if has_backlogged_packets v s.voq_buffer
        then record b { buffer_state = note processing b.buffer_state; active = true }
        else record b { buffer_state = note idle b.buffer_state } in
      (t, ap (enqueue_first v time cycle b) q, ground arith, ground (arith, q), ground arith)

  scheduler_stage_quiet :
      (bus : ℕ) (s : SchedulerSide B)
      → s.state.processing ≡ false
      → s.state.output_ready ≡ false
      → has_backlogged_packets v s.voq_buffer ≡ false
      → scheduler_stage v bus s
        ≡ some
            (record s { state = note idle (begin s.state); packets_scheduled = 0; active = false })
  unfolding scheduler_stage dispatch_or_schedule schedule note begin
  scheduler_stage_quiet bus s p r b =
      let t : SchedulerSide B = record s {
        state = begin s.state;
        packets_scheduled = 0;
        active = false;
      } in
      ap
        (λ x.
          if x
          then some (process_on t)
          else dispatch_or_schedule v bus t s.state.output_ready s.state.output_pending)
        p
      ∙ ap (λ x. dispatch_or_schedule v bus t x s.state.output_pending) r
      ∙ ground (arith, b)

  -- A switch without pending work.
  pub record IsQuiet (s : SwitchCore B) : Type 0 where
    pub ports : AllQuiet s.num_ports s.rx_states s.rx_engines
    pub hash : IsQuietHash s.hash_state
    pub to_hash : s.rx_to_hash_queue ≡ []
    pub to_buffer : s.hash_to_buffer_queue ≡ []
    pub buffer : has_backlogged_packets v s.voq_buffer ≡ false
    pub rests : s.scheduler_state.processing ≡ false
    pub ready : s.scheduler_state.output_ready ≡ false
    pub outputs : (p : ℕ) → p < s.num_ports → (s.output_states p).input_busy ≡ false

  empty-is_empty : (items : List Item) → not (is_empty items) ≡ false → items ≡ []
  unfolding is_empty
  empty-is_empty [] h = refl
  empty-is_empty (i ∷ items) h = absurd (cc)

  -- Which is what `has_pending_work` tells.
  has_pending_work-IsQuiet : (s : SwitchCore B) → has_pending_work v s ≡ false → IsQuiet s
  unfolding has_pending_work hash_pending rx_pending
  has_pending_work-IsQuiet s h = record {
    ports = λ p k.
        let q = any_port-range (rx_pending s) s.num_ports p (ground (arith, h)) k in
        record {
          engine = ground (arith, q);
          input = ground (arith, q);
          rests = ground (arith, q);
          empty = ground (arith, q);
        };
    hash = record {
      input = ground (arith, h);
      rests = ground (arith, h);
      empty = ground (arith, h);
      free = ground (arith, h);
    };
    to_hash = empty-is_empty s.rx_to_hash_queue (ground (arith, h));
    to_buffer = empty-is_empty s.hash_to_buffer_queue (ground (arith, h));
    buffer = ground (arith, h);
    rests = ground (arith, h);
    ready = ground (arith, h);
    outputs = λ p k.
        any_port-range (λ q. (s.output_states q).input_busy) s.num_ports p (ground (arith, h)) k;
  }

  below_range : (n : ℕ) (P : ℕ → Type 0) → ((p : ℕ) → p < n → P p) → All P (range n)
  below_range n P h = All-map (λ p. p < n) P h (range n) (range-lt n)

  IsQuiet-has_pending_work : (s : SwitchCore B) → IsQuiet s → has_pending_work v s ≡ false
  unfolding has_pending_work hash_pending rx_pending is_empty
  IsQuiet-has_pending_work s h =
      let n = s.num_ports in
      let ports = range-any_port (rx_pending s) (range n) (
        below_range n (λ p. rx_pending s p ≡ false)
          (λ p k. let r = h.ports p k in ground (arith, r.engine, r.input, r.rests, r.empty))) in
      let outputs =
        range-any_port (λ p. (s.output_states p).input_busy) (range n)
          (below_range n (λ p. (s.output_states p).input_busy ≡ false) h.outputs) in
      let hash = h.hash in
      ground (
        arith, ports, outputs, hash.input, hash.rests, hash.empty, hash.free, h.to_hash,
        h.to_buffer, h.buffer, h.rests, h.ready,
      )

  -- The receive stages of a quiet switch at the start of a cycle.
  tick_quiet :
      (s : SwitchCore B)
      → AllQuiet s.num_ports s.rx_states s.rx_engines
      → AllQuiet s.num_ports (tick_all_modules s).rx_states s.rx_engines
  unfolding tick_all_modules tick_output
  tick_quiet s h p k =
      let r = h p k in
      record {
        engine = r.engine;
        input = ground (arith, r.input);
        rests = ground (arith, r.rests);
        empty = ground (arith, r.empty);
      }

  run_rx_quiet :
      (s : SwitchCore B)
      → AllQuiet s.num_ports s.rx_states s.rx_engines
      → let t = (run_rx s).1 in
        AllQuiet s.num_ports t.rx_states t.rx_engines × (t.rx_to_hash_queue ≡ s.rx_to_hash_queue)
  unfolding run_rx
  run_rx_quiet s h =
      rx_ports_quiet s.bus_width_bits s.num_ports (can_accept_input s.hash_state)
        (range s.num_ports) _ (range-lt s.num_ports) h

  run_hash_quiet :
      (s : SwitchCore B)
      → IsQuietHash s.hash_state
      → s.rx_to_hash_queue ≡ []
      → let t = (run_hash s).1 in
        IsQuietHash t.hash_state
        × (t.rx_to_hash_queue ≡ [])
        × (t.hash_to_buffer_queue ≡ s.hash_to_buffer_queue)
  unfolding run_hash
  run_hash_quiet s h q =
      hash_stage_quiet s.num_ports s.bus_width_bits (can_accept_input s.buffer_state)
        (record {
          hash_state = s.hash_state;
          hash_engine = s.hash_engine;
          rx_to_hash_queue = s.rx_to_hash_queue;
          hash_to_buffer_queue = s.hash_to_buffer_queue;
          active = false;
        })
        h q

  run_buffer_quiet :
      (s : SwitchCore B)
      → s.hash_to_buffer_queue ≡ []
      → (active : Bool) × (t : BufferSide B) × (run_buffer v s
          ≡ some (active, t.packets_processed, with_buffer s t))
        × (t.voq_buffer ≡ s.voq_buffer)
        × (t.hash_to_buffer_queue ≡ [])
        × (t.packets_dropped ≡ s.packets_dropped)
  unfolding run_buffer
  run_buffer_quiet s q =
      let k = buffer_stage_quiet s.current_time s.current_cycle (buffer_side s) q in
      (k.0.active, k.0, bind-from _ _ k.0 _ k.1 refl, k.2, k.3, k.4)

  run_scheduler_quiet :
      (s : SwitchCore B)
      → s.scheduler_state.processing ≡ false
      → s.scheduler_state.output_ready ≡ false
      → has_backlogged_packets v s.voq_buffer ≡ false
      → run_scheduler v s
        ≡ some (false, 0, record s { scheduler_state = note idle (begin s.scheduler_state) })
  unfolding run_scheduler
  run_scheduler_quiet s p r b =
      bind-from _ _ _ _ (scheduler_stage_quiet s.bus_width_bits (scheduler_side s) p r b) refl

  run_output_quiet :
      (s : SwitchCore B)
      → ((p : ℕ) → p < s.num_ports → (s.output_states p).input_busy ≡ false)
      → let r = run_output s in
        (r.1 ≡ [])
        × (r.2.sent ≡ s.sent)
        × ((p : ℕ) → p < s.num_ports → (r.2.output_states p).input_busy ≡ false)
  unfolding run_output
  run_output_quiet s h =
      output_ports_quiet s.bus_width_bits s.scheduler_state.ii s.current_time s.num_ports
        (range s.num_ports) _ (range-lt s.num_ports) h

  tick_hash :
      (s : SwitchCore B) → IsQuietHash s.hash_state → IsQuietHash (tick_all_modules s).hash_state
  unfolding tick_all_modules tick_output
  tick_hash s h = record {
    input = h.input;
    rests = h.rests;
    empty = h.empty;
    free = ground (arith, h.free);
  }

  -- A cycle of a switch without pending work returns, sends nothing, counts no packet as sent or
  -- dropped, leaves the buffer as it is, and leaves no work pending: once `has_pending_work` is false
  -- it stays so until a packet arrives.
  pub process_cycle_quiet :
      (s : SwitchCore B) (time : ℕ)
      → has_pending_work v s ≡ false
      → (stats : CycleStats) × (s' : SwitchCore B) × (process_cycle v s time ≡ some (stats, [], s'))
        × (has_pending_work v s' ≡ false)
        × (s'.sent ≡ s.sent)
        × (s'.packets_dropped ≡ s.packets_dropped)
        × (s'.voq_buffer ≡ s.voq_buffer)
  unfolding process_cycle tick_all_modules run_rx run_hash run_output close_cycle note begin
  process_cycle_quiet s time pending =
      let h = has_pending_work-IsQuiet s pending in
      let s0 = tick_all_modules (record s { current_time = max s.current_time time }) in
      let s1 = (run_rx s0).1 in
      let s2 = (run_hash s1).1 in
      let rx =
        run_rx_quiet s0
          (tick_quiet (record s { current_time = max s.current_time time }) h.ports) in
      let hash = run_hash_quiet s1 (tick_hash s h.hash) (rx.1 ∙ h.to_hash) in
      let buffer = run_buffer_quiet s2 (hash.2 ∙ h.to_buffer) in
      let s3 = with_buffer s2 buffer.1 in
      let backlog = ap (has_backlogged_packets v) buffer.3 ∙ h.buffer in
      let scheduler = run_scheduler_quiet s3 h.rests h.ready backlog in
      let s4 = record s3 { scheduler_state = note idle (begin s3.scheduler_state) } in
      let output = run_output_quiet s4 h.outputs in
      let s5 = (run_output s4).2 in
      let any_active =
        (run_rx s0).0 || ((run_hash s1).0 || (buffer.0 || (false || (run_output s4).0))) in
      let s' = close_cycle v any_active s5 in
      let stats : CycleStats = record {
        packets_processed = buffer.1.packets_processed;
        packets_scheduled = 0;
        packets_transmitted = length (run_output s4).1;
        buffer_occupancy = occupancy v s5.voq_buffer;
      } in
      let quiet : IsQuiet s' = record {
        ports = rx.0;
        hash = hash.0;
        to_hash = hash.1;
        to_buffer = buffer.4;
        buffer = backlog;
        rests = h.rests;
        ready = h.ready;
        outputs = output.2;
      } in
      (
        stats,
        s',
        bind-from _ _ _ _ buffer.2
            (bind-from _ _ _ _ scheduler (ap (λ tx. some (stats, tx, s')) output.0)),
        IsQuiet-has_pending_work s' quiet,
        output.1,
        buffer.5,
        buffer.3,
      )
