-- ===== src/Scheduler/Delivery.antt =====
-- scheduler_base.py: when `process_matches` transmits a packet for every match.
use spac.Base.{
  ℕ, ◌<◌, ◌≡◌, refl, sym, ap, ◌∙◌, false, List, [], ◌∷◌, ◌++◌, none, some, arith, ◌==◌, lt→ltb,
  length, All, member, Distinct, append-nil, append_assoc,
}
use spac.Voq.Entry.{VoqEntry}
use spac.Voq.Interface.{VoqBuffer, first}
use spac.Scheduler.{
  outputs, SchedulerMatch, SchedulerState, Work, is_waiting, backoff, update_backoff, transmit,
  serve_match, process_match, process_all, process_matches,
}
use spac.Scheduler.Process.{ports_of, ports_of-append}

first-waiting : (q : List VoqEntry) → 0 < length q → (e : VoqEntry) × (first q ≡ some e)
first-waiting [] h = absurd (omega arith)
first-waiting (e ∷ q) h = (e, refl)

module _ {B : Type 0} (v : VoqBuffer B) where
  -- A match that can be served at once: its ports are in range, its output is free and a packet waits.
  pub record IsReady (w : Work B) (m : SchedulerMatch) : Type 0 where
    pub input_in : m.input_port < v.num_ports w.buffer
    pub output_in : m.output_port < v.num_ports w.buffer
    pub output_known : m.output_port < w.state.num_ports
    pub free : w.state.output_busy m.output_port ≡ false
    pub waiting : 0 < length (v.queue w.buffer m.input_port m.output_port)

  -- What serving a match does, as far as the later matches see it.
  record Sends (w : Work B) (m : SchedulerMatch) (w' : Work B) : Type 0 where
    sent : process_match v w m ≡ some w'
    ports : ports_of w'.transmissions ≡ ports_of w.transmissions ++ m.output_port ∷ []
    size : v.num_ports w'.buffer ≡ v.num_ports w.buffer
    state_size : w'.state.num_ports ≡ w.state.num_ports
    backoffs : w'.state.backoff_counters ≡ w.state.backoff_counters
    busy : (o : ℕ) → (m.output_port == o) ≡ false → w'.state.output_busy o ≡ w.state.output_busy o
    queues : (i o : ℕ) → (m.output_port == o) ≡ false → v.queue w'.buffer i o ≡ v.queue w.buffer i o

  process_match-Sends :
      (w : Work B) (m : SchedulerMatch)
      → w.state.backoff_counters ≡ []
      → IsReady w m
      → (w' : Work B) × Sends w m w'
  unfolding process_match serve_match transmit is_waiting backoff
  process_match-Sends w m b r =
      let (e, found) = first-waiting (v.queue w.buffer m.input_port m.output_port) r.waiting in
      let (b', d) = v.dequeue-total w.buffer m.input_port m.output_port r.input_in r.output_in in
      let d' : v.dequeue_packet w.buffer m.input_port m.output_port ≡ some (some e, b') =
        d ∙ ap (λ x. some (x, b')) found in
      (
        transmit w m (some e) b',
        record {
          sent = rw (lt→ltb _ _ r.output_known, r.free, b, d') refl;
          ports = ports_of-append m.output_port e w.transmissions;
          size = (v.dequeue-kept w.buffer b' m.input_port m.output_port (some e) d').0;
          state_size = refl;
          backoffs = refl;
          busy = λ o ne. rw ne refl;
          queues = λ i o ne.
              ground (
                arith,
                ne,
                v.dequeue-popped w.buffer b' m.input_port m.output_port i o (some e) d',
              );
        },
      )

  process_match-IsReady :
      (w w' : Work B) (m : SchedulerMatch) (ms : List SchedulerMatch)
      → Sends w m w'
      → member m.output_port (outputs ms) ≡ false
      → All (IsReady w) ms
      → All (IsReady w') ms
  process_match-IsReady w w' m [] s f a = tt
  process_match-IsReady w w' m (x ∷ ms) s f a =
      let ne : (m.output_port == x.output_port) ≡ false = ground arith in
      (
        record {
          input_in = omega (arith, s.size, a.0.input_in);
          output_in = omega (arith, s.size, a.0.output_in);
          output_known = omega (arith, s.state_size, a.0.output_known);
          free = s.busy x.output_port ne ∙ a.0.free;
          waiting = rw (s.queues x.input_port x.output_port ne) a.0.waiting;
        },
        process_match-IsReady w w' m ms s (ground arith) a.1,
      )

  process_all-sends :
      (ms : List SchedulerMatch) (w : Work B)
      → w.state.backoff_counters ≡ []
      → Distinct (outputs ms)
      → All (IsReady w) ms
      → (w' : Work B) × (process_all v w ms ≡ some w')
        × (ports_of w'.transmissions ≡ ports_of w.transmissions ++ outputs ms)
  unfolding process_all
  process_all-sends [] w b d a = (w, refl, sym (append-nil (ports_of w.transmissions)))
  process_all-sends (m ∷ ms) w b d a =
      let (u, s) = process_match-Sends w m b a.0 in
      let (w', done, ports) =
        process_all-sends ms u (s.backoffs ∙ b) d.1 (process_match-IsReady w u m ms s d.0 a.1) in
      (
        w',
        rw s.sent done,
        ports
            ∙ ap (λ ps. ps ++ outputs ms) s.ports
            ∙ append_assoc (ports_of w.transmissions) (m.output_port ∷ []) (outputs ms),
      )

  -- If no pair is backed off, and the matches, each of which can be served at once, have distinct
  -- output ports, then `process_matches` returns and sends a packet to the output port of each match.
  pub process_matches-sends :
      (s : SchedulerState) (b : B) (ms : List SchedulerMatch)
      → s.backoff_counters ≡ []
      → Distinct (outputs ms)
      → All (IsReady (record { state = s; buffer = b; transmissions = [] })) ms
      → (w : Work B) × (process_matches v s b ms ≡ some w) × (ports_of w.transmissions ≡ outputs ms)
  unfolding process_matches
  process_matches-sends s b ms e d a =
      let start : Work B = record {
        state = record s { output_grants = λ p. none };
        buffer = b;
        transmissions = [];
      } in
      let (w, done, ports) = process_all-sends ms start e d (ready ms a) in
      (
        record w {
          state = record w.state { backoff_counters = update_backoff w.state.backoff_counters };
        },
        rw done refl,
        ports,
      )
    where
      ready :
          (ms : List SchedulerMatch)
          → All (IsReady (record { state = s; buffer = b; transmissions = [] })) ms
          → All
              (IsReady (record {
                state = record s { output_grants = λ p. none };
                buffer = b;
                transmissions = [];
              }))
              ms
      ready [] a = tt
      ready (m ∷ ms) a = (
        record {
          input_in = a.0.input_in;
          output_in = a.0.output_in;
          output_known = a.0.output_known;
          free = a.0.free;
          waiting = a.0.waiting;
        },
        ready ms a.1,
      )
