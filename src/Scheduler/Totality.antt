-- ===== src/Scheduler/Totality.antt =====
-- scheduler_base.py: when `process_matches` raises nothing.
use spac.Base.{
  ℕ, ◌<◌, ◌≡◌, refl, ◌∙◌, inl, inr, lt→ltb, List, [], ◌∷◌, none, some, arith, All, Option-cases,
}
use spac.Voq.Interface.{VoqBuffer}
use spac.Scheduler.{
  SchedulerMatch, SchedulerState, Work, update_backoff, transmit, serve_match, process_match,
  process_all, process_matches,
}

module _ {B : Type 0} (v : VoqBuffer B) where
  -- With ports in range `process_match` raises nothing, and leaves them in range.
  process_match-total :
      (w : Work B) (m : SchedulerMatch)
      → m.input_port < v.num_ports w.buffer
      → m.output_port < v.num_ports w.buffer
      → m.output_port < w.state.num_ports
      → (w' : Work B) × (process_match v w m ≡ some w')
        × (v.num_ports w'.buffer ≡ v.num_ports w.buffer)
        × (w'.state.num_ports ≡ w.state.num_ports)
  unfolding process_match serve_match transmit
  process_match-total w m hi ho hs =
      let (b', d) = v.dequeue-total w.buffer m.input_port m.output_port hi ho in
      let kept = v.dequeue-kept w.buffer b' m.input_port m.output_port _ d in
      elim (Option-cases (process_match v w m)) [
        | inl bad ↦ absurd (ground (arith, lt→ltb _ _ hs))
        | inr (w', good) ↦ (w', good, ground (arith, kept), ground arith)
      ]

  process_all-total :
      (ms : List SchedulerMatch) (w : Work B) (n k : ℕ)
      → v.num_ports w.buffer ≡ n
      → w.state.num_ports ≡ k
      → All (λ m. (m.input_port < n) × (m.output_port < n) × (m.output_port < k)) ms
      → (w' : Work B) × (process_all v w ms ≡ some w')
  unfolding process_all
  process_all-total [] w n k e f a = (w, refl)
  process_all-total (m ∷ ms) w n k e f a =
      let (u, good, same, known) =
        process_match-total w m (omega (arith, a.0)) (omega (arith, a.0)) (omega (arith, a.0)) in
      let (w', rest_good) = process_all-total ms u n k (same ∙ e) (known ∙ f) a.1 in
      (w', rw good rest_good)

  -- For matches of input and output ports that the buffer has, the outputs among the ports of the
  -- scheduler too, `process_matches` returns: it raises nothing.
  pub process_matches-total :
      (s : SchedulerState) (b : B) (ms : List SchedulerMatch)
      → All
          (λ m.
            (m.input_port < v.num_ports b)
            × (m.output_port < v.num_ports b)
            × (m.output_port < s.num_ports))
          ms
      → (w : Work B) × (process_matches v s b ms ≡ some w)
  unfolding process_matches
  process_matches-total s b ms a =
      let start : Work B = record {
        state = record s { output_grants = λ p. none };
        buffer = b;
        transmissions = [];
      } in
      let (w, good) = process_all-total ms start (v.num_ports b) s.num_ports refl refl a in
      (
        record w {
          state = record w.state { backoff_counters = update_backoff w.state.backoff_counters };
        },
        rw good,
      )
