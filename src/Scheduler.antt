-- ===== src/Scheduler.antt =====
-- simulator/src/scheduler_base.py: `BaseScheduler`, which turns matches into transmissions. The
-- buffer is any that fits the interface of Voq/Interface.
pub mod Process
pub mod Totality
pub mod Arbiter
pub mod Delivery
pub mod RoundRobin
pub mod Edrrm
pub mod Islip
pub mod Choice
use spac.Base.{
  map, ℕ, zero, suc, ◌+◌, ◌-◌, Bool, true, false, List, [], ◌∷◌, ◌++◌, Option, none, some, ltb,
  ◌==◌, if◌then◌else◌, update, ◌>>=◌, ◌&&◌,
}
use spac.Voq.Entry.{VoqEntry}
use spac.Voq.Interface.{VoqBuffer}

-- `SchedulerMatch`; its priority is always 0 and is left out.
pub record SchedulerMatch : Type 0 where
  pub input_port : ℕ
  pub output_port : ℕ

-- The input ports and the output ports of matches.
abbrev pub inputs : List SchedulerMatch → List ℕ
inputs = map (λ m. m.input_port)

abbrev pub outputs : List SchedulerMatch → List ℕ
outputs = map (λ m. m.output_port)

-- The attributes of `BaseScheduler` that change. `port_congestion` is only ever cleared.
pub record SchedulerState : Type 0 where
  pub num_ports : ℕ
  pub output_busy : ℕ → Bool
  pub output_grants : ℕ → Option ℕ
  pub backoff_counters : List ((ℕ × ℕ) × ℕ)
  pub current_cycle : ℕ
  pub total_scheduled : ℕ
  pub total_conflicts : ℕ
  pub cycles_with_scheduling : ℕ

-- `__init__`, and `reset` for a scheduler with so many ports.
unfoldable pub init : ℕ → SchedulerState
init n = record {
  num_ports = n;
  output_busy = λ p. false;
  output_grants = λ p. none;
  backoff_counters = [];
  current_cycle = 0;
  total_scheduled = 0;
  total_conflicts = 0;
  cycles_with_scheduling = 0;
}

-- `end_cycle`
unfoldable pub end_cycle : SchedulerState → SchedulerState
end_cycle s = record s { current_cycle = s.current_cycle + 1; output_busy = λ p. false }

-- if matches: self.cycles_with_scheduling += 1
unfoldable pub count_cycle : SchedulerState → List SchedulerMatch → SchedulerState
count_cycle s [] = s
count_cycle s (m ∷ ms) = record s { cycles_with_scheduling = s.cycles_with_scheduling + 1 }

-- The value of a key of `backoff_counters`, and that value less one.
unfoldable pub backoff : List ((ℕ × ℕ) × ℕ) → ℕ → ℕ → Option ℕ
backoff [] i o = none
backoff (((j, p), v) ∷ rest) i o = if (j == i) && (p == o) then some v else backoff rest i o

unfoldable pub lower_backoff : List ((ℕ × ℕ) × ℕ) → ℕ → ℕ → List ((ℕ × ℕ) × ℕ)
lower_backoff [] i o = []
lower_backoff (((j, p), v) ∷ rest) i o =
    if (j == i) && (p == o) then ((j, p), v - 1) ∷ rest else ((j, p), v) ∷ lower_backoff rest i o

-- `_update_backoff`: the keys whose value is 0 go.
unfoldable pub update_backoff : List ((ℕ × ℕ) × ℕ) → List ((ℕ × ℕ) × ℕ)
update_backoff [] = []
update_backoff ((key, zero) ∷ rest) = update_backoff rest
update_backoff ((key, suc v) ∷ rest) = (key, suc v) ∷ update_backoff rest

-- if key in counters and counters[key] > 0
unfoldable pub is_waiting : Option ℕ → Bool
is_waiting none = false
is_waiting (some zero) = false
is_waiting (some (suc v)) = true

-- What the loop of `process_matches` changes.
pub record Work (B : Type 0) : Type 0 where
  pub state : SchedulerState
  pub buffer : B
  pub transmissions : List (ℕ × VoqEntry)

-- The loop's step, once the match has a free output and no backoff, with what the buffer gave.
unfoldable pub transmit : {B : Type 0} → Work B → SchedulerMatch → Option VoqEntry → B → Work B
transmit w m none b = record w { buffer = b }
transmit w m (some e) b = record {
  state = record w.state {
    output_busy = update w.state.output_busy m.output_port true;
    output_grants = update w.state.output_grants m.output_port (some m.input_port);
    total_scheduled = w.state.total_scheduled + 1;
  };
  buffer = b;
  transmissions = w.transmissions ++ (m.output_port, e) ∷ [];
}

module _ {B : Type 0} (v : VoqBuffer B) where
  -- The loop's body, once its first subscript is in range.
  unfoldable pub serve_match : Work B → SchedulerMatch → Option (Work B)
  unfolding backoff lower_backoff is_waiting transmit
  serve_match w m =
      let s = w.state in
      if s.output_busy m.output_port
      then some (record w { state = record s { total_conflicts = s.total_conflicts + 1 } })
      else if is_waiting (backoff s.backoff_counters m.input_port m.output_port)
      then some (record w {
        state = record s {
          backoff_counters = lower_backoff s.backoff_counters m.input_port m.output_port;
        };
      })
      else (v.dequeue_packet w.buffer m.input_port m.output_port >>= λ r.
          some (transmit w m r.0 r.1))

  -- The loop's body. `output_busy` and `output_grants` have a cell for each port of the scheduler: a
  -- match of another output port is an IndexError.
  unfoldable pub process_match : Work B → SchedulerMatch → Option (Work B)
  unfolding serve_match
  process_match w m = if ltb m.output_port w.state.num_ports then serve_match w m else none

  unfoldable pub process_all : Work B → List SchedulerMatch → Option (Work B)
  unfolding process_match
  process_all w [] = some w
  process_all w (m ∷ ms) = process_match w m >>= λ w'. process_all w' ms

  -- `process_matches`
  unfoldable pub process_matches : SchedulerState → B → List SchedulerMatch → Option (Work B)
  unfolding process_all update_backoff
  process_matches s b ms = do
    w ←
        process_all
          (record {
            state = record s { output_grants = λ p. none };
            buffer = b;
            transmissions = [];
          })
          ms
    some (record w {
      state = record w.state { backoff_counters = update_backoff w.state.backoff_counters };
    })
