-- ===== src/Scheduler/Edrrm.antt =====
-- scheduler_base.py: `EDRRMScheduler`. The sets of taken ports are lists, and the dictionary of
-- requests is a function of the input port.
pub mod Matching
pub mod Cycle
pub mod Service
use spac.Base.{
  ℕ, zero, suc, ◌+◌, ◌-◌, ◌%◌, Bool, true, false, not, ◌&&◌, List, [], ◌∷◌, ◌++◌, Option, none,
  some, ltb, leb, ◌==◌, if◌then◌else◌, length, update, member,
}
use spac.Voq.Interface.{VoqBuffer}
use spac.Scheduler.{SchedulerMatch, SchedulerState, count_cycle}
use spac.Scheduler as Scheduler
use spac.Scheduler.Arbiter.{scan}

pub record Edrrm : Type 0 where
  pub base : SchedulerState
  pub open base use {num_ports}
  pub rr_index_in : ℕ → ℕ
  pub rr_index_out : ℕ → ℕ

-- `__init__` and `reset`; `max_iterations` is always 1.
unfoldable pub init : ℕ → Edrrm
unfolding Scheduler.init
init n = record { base = Scheduler.init n; rr_index_in = λ p. 0; rr_index_out = λ p. 0 }

-- What the grant phase changes.
pub record Grants : Type 0 where
  pub scheduler : Edrrm
  pub matches : List SchedulerMatch
  pub taken_src : List ℕ
  pub taken_dst : List ℕ

-- candidate in requesters, the list that the phase makes of the requests for a destination
unfoldable pub is_requester : ℕ → (ℕ → Option ℕ) → ℕ → ℕ → Bool
is_requester n requests dst src = elim (requests src) [
  | none ↦ false
  | some d ↦ if ltb src n then d == dst else false
]

module _ {B : Type 0} (v : VoqBuffer B) where
  -- p_dst not in taken_dst and self.voq_buffer.get_queue_length(p_src, p_dst) > 0
  unfoldable pub is_wanted : B → List ℕ → ℕ → ℕ → Bool
  is_wanted b taken_dst src dst =
      if member dst taken_dst then false else ltb 0 (length (v.queue b src dst))

  -- `_request_phase`
  unfoldable pub request_phase : Edrrm → B → List ℕ → List ℕ → ℕ → Option ℕ
  unfolding is_wanted scan
  request_phase s b taken_src taken_dst src =
      if member src taken_src
      then none
      else scan (is_wanted b taken_dst src) s.num_ports (s.rr_index_in src) 0 s.num_ports

  -- The pointers after a grant: the input's stays at a queue that still has packets after the
  -- dequeue that follows, and otherwise goes past it; the output's goes past the input.
  unfoldable pub grant : Grants → B → ℕ → Option ℕ → Grants
  grant g b dst none = g
  grant g b dst (some src) =
      let s = g.scheduler in
      record {
        scheduler = record s {
          rr_index_in =
              update s.rr_index_in src
                (if ltb 1 (length (v.queue b src dst)) then dst else (dst + 1) % s.num_ports);
          rr_index_out = update s.rr_index_out dst ((src + 1) % s.num_ports);
        };
        matches = g.matches ++ record { input_port = src; output_port = dst } ∷ [];
        taken_src = src ∷ g.taken_src;
        taken_dst = dst ∷ g.taken_dst;
      }

  -- The body of the grant loop: a scan among the requesters, which finds none if there are none.
  unfoldable pub grant_output : (ℕ → Option ℕ) → Grants → B → ℕ → Grants
  unfolding grant is_requester scan
  grant_output requests g b dst =
      let n = g.scheduler.num_ports in
      grant g b dst (scan (is_requester n requests dst) n (g.scheduler.rr_index_out dst) 0 n)

  -- `_grant_phase`, for the output ports below a number.
  unfoldable pub grant_phase : (ℕ → Option ℕ) → Grants → B → ℕ → Grants
  unfolding grant_output
  grant_phase requests g b zero = g
  grant_phase requests g b (suc n) = grant_output requests (grant_phase requests g b n) b n

  -- `schedule_cycle`, with its one iteration
  unfoldable pub schedule_cycle : Edrrm → B → List SchedulerMatch × Edrrm
  unfolding request_phase grant_phase count_cycle
  schedule_cycle s b =
      let begin : Grants = record { scheduler = s; matches = []; taken_src = []; taken_dst = [] } in
      let g = grant_phase (request_phase s b [] []) begin b s.num_ports in
      (g.matches, record g.scheduler { base = count_cycle g.scheduler.base g.matches })
