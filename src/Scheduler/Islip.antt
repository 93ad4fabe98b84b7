-- ===== src/Scheduler/Islip.antt =====
-- scheduler_base.py: `iSLIPScheduler`.
pub mod Preferred
pub mod Matches
pub mod Cycle
pub mod Contention
pub mod Conflicts
use spac.Base.{
  ℕ, zero, suc, Bool, true, false, List, [], ◌∷◌, ◌++◌, Option, none, some, ltb, ◌==◌,
  if◌then◌else◌, length, update, range,
}
use spac.Voq.Interface.{VoqBuffer}
use spac.Scheduler.{SchedulerMatch, SchedulerState, count_cycle}
use spac.Scheduler as Scheduler

pub record Islip : Type 0 where
  pub base : SchedulerState
  pub open base use {num_ports, output_busy}
  pub input_grants : ℕ → Option ℕ

-- self.max_iterations
abbrev pub max_iterations : ℕ
max_iterations = 4

-- `__init__` and `reset`
unfoldable pub init : ℕ → Islip
unfolding Scheduler.init
init n = record { base = Scheduler.init n; input_grants = λ p. none }

-- The loop of `_get_preferred_output`: `max_len` and `preferred`, over the output ports that are left.
unfoldable pub longest : (ℕ → ℕ) → ℕ → Option ℕ → List ℕ → Option ℕ
longest lengths max_len preferred [] = preferred
longest lengths max_len preferred (o ∷ ports) =
    let longer = ltb max_len (lengths o) in
    longest lengths (if longer then lengths o else max_len) (if longer then some o else preferred)
      ports

-- x is None
unfoldable pub is_none : Option ℕ → Bool
is_none none = true
is_none (some x) = false

-- x == p, for an x that may be None
unfoldable pub is_port : Option ℕ → ℕ → Bool
is_port none p = false
is_port (some x) p = x == p

-- [i for i in ports if requests[i] == out_port]
unfoldable pub requesters : (ℕ → Option ℕ) → ℕ → List ℕ → List ℕ
unfolding is_port
requesters requests out [] = []
requesters requests out (i ∷ ports) =
    if is_port (requests i) out
    then i ∷ requesters requests out ports
    else requesters requests out ports

-- min(requesters), where there are any
unfoldable pub minimum : List ℕ → Option ℕ
minimum [] = none
minimum (i ∷ ports) = elim (minimum ports) [
  | none ↦ some i
  | some j ↦ some (if ltb j i then j else i)
]

-- The first output port, of those that are left, that is granted to an input port.
unfoldable pub first_grant : (ℕ → Option ℕ) → ℕ → List ℕ → Option ℕ
unfolding is_port
first_grant grants i [] = none
first_grant grants i (o ∷ ports) =
    if is_port (grants o) i then some o else first_grant grants i ports

unfoldable pub add_match : ℕ → Option ℕ → List SchedulerMatch → List SchedulerMatch
add_match i none ms = ms
add_match i (some o) ms = record { input_port = i; output_port = o } ∷ ms

-- The last loop of an iteration, over the input ports that are left.
unfoldable pub collect : (ℕ → Option ℕ) → (ℕ → Option ℕ) → ℕ → List ℕ → List SchedulerMatch
unfolding is_none first_grant add_match
collect input_grants grants n [] = []
collect input_grants grants n (i ∷ ports) =
    let found = if is_none (input_grants i) then first_grant grants i (range n) else none in
    add_match i found (collect input_grants grants n ports)

-- `_accept_matches`
unfoldable pub accept_matches : (ℕ → Option ℕ) → List SchedulerMatch → ℕ → Option ℕ
accept_matches input_grants [] = input_grants
accept_matches input_grants (m ∷ ms) =
    accept_matches (update input_grants m.input_port (some m.output_port)) ms

module _ {B : Type 0} (v : VoqBuffer B) where
  -- `_get_preferred_output`
  unfoldable pub get_preferred_output : ℕ → B → ℕ → Option ℕ
  unfolding longest
  get_preferred_output n b i = longest (λ o. length (v.queue b i o)) 0 none (range n)

  -- The arrays `requests` and `grants` of an iteration.
  unfoldable pub requests_of : Islip → B → ℕ → Option ℕ
  unfolding is_none get_preferred_output
  requests_of s b i =
      if is_none (s.input_grants i) then get_preferred_output s.num_ports b i else none

  unfoldable pub grants_of : Islip → B → ℕ → Option ℕ
  unfolding requesters minimum requests_of
  grants_of s b o =
      if s.output_busy o then none else minimum (requesters (requests_of s b) o (range s.num_ports))

  -- `_islip_iteration`
  unfoldable pub islip_iteration : Islip → B → List SchedulerMatch
  unfolding collect grants_of
  islip_iteration s b = collect s.input_grants (grants_of s b) s.num_ports (range s.num_ports)

  -- The loop of `schedule_cycle`, with the matches so far and so many iterations left.
  unfoldable pub iterate : ℕ → Islip → B → List SchedulerMatch → List SchedulerMatch × Islip
  unfolding islip_iteration accept_matches
  iterate zero s b ms = (ms, s)
  iterate (suc k) s b ms =
      let new = islip_iteration s b in
      let s' = record s { input_grants = accept_matches s.input_grants new } in
      let later = iterate k s' b (ms ++ new) in
      if length (ms ++ new) == s.num_ports then (ms ++ new, s') else later

  -- `schedule_cycle`
  unfoldable pub schedule_cycle : Islip → B → List SchedulerMatch × Islip
  unfolding iterate count_cycle
  schedule_cycle s b =
      let r = iterate max_iterations (record s { input_grants = λ p. none }) b [] in
      (r.0, record r.1 { base = count_cycle r.1.base r.0 })
