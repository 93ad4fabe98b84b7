-- ===== src/Scheduler/Choice.antt =====
-- scheduler_base.py: `create_scheduler`, and the calls that the switch makes of any scheduler.
use spac.Base.{ℕ, List}
use spac.Config.{SwitchConfig, SchedulerType}
use spac.Config as Config
use spac.Voq.Interface.{VoqBuffer}
use spac.Scheduler.{SchedulerMatch, SchedulerState}
use spac.Scheduler as Scheduler
use spac.Scheduler.RoundRobin.{RoundRobin}
use spac.Scheduler.Islip.{Islip}
use spac.Scheduler.Edrrm.{Edrrm}
use spac.Scheduler.RoundRobin as Round_robin
use spac.Scheduler.Islip as Islip_module
use spac.Scheduler.Edrrm as Edrrm_module

-- A `BaseScheduler`: one of its three subclasses.
pub data AnyScheduler : Type 0 where
  round_robin : RoundRobin → AnyScheduler
  islip : Islip → AnyScheduler
  edrrm : Edrrm → AnyScheduler

-- `create_scheduler`, which is also what `reset` leaves.
unfoldable pub scheduler_of : SchedulerType → ℕ → AnyScheduler
scheduler_of Config.round_robin n = round_robin (Round_robin.init n)
scheduler_of Config.islip n = islip (Islip_module.init n)
scheduler_of Config.edrrm n = edrrm (Edrrm_module.init n)

unfoldable pub create_scheduler : SwitchConfig → AnyScheduler
unfolding scheduler_of
create_scheduler c = scheduler_of c.scheduler_type c.num_ports

-- The attributes of the base class.
unfoldable pub base_of : AnyScheduler → SchedulerState
base_of (round_robin s) = s.base
base_of (islip s) = s.base
base_of (edrrm s) = s.base

unfoldable pub with_base : AnyScheduler → SchedulerState → AnyScheduler
with_base (round_robin s) t = round_robin (record s { base = t })
with_base (islip s) t = islip (record s { base = t })
with_base (edrrm s) t = edrrm (record s { base = t })

-- `reset`
unfoldable pub reset : AnyScheduler → AnyScheduler
reset (round_robin s) = round_robin (Round_robin.init s.num_ports)
reset (islip s) = islip (Islip_module.init s.num_ports)
reset (edrrm s) = edrrm (Edrrm_module.init s.num_ports)

-- `end_cycle`
unfoldable pub end_cycle : AnyScheduler → AnyScheduler
unfolding base_of with_base
end_cycle s = with_base s (Scheduler.end_cycle (base_of s))

module _ {B : Type 0} (v : VoqBuffer B) where
  -- `schedule_cycle`
  unfoldable pub schedule_cycle : AnyScheduler → B → List SchedulerMatch × AnyScheduler
  schedule_cycle (round_robin s) b =
      let r = Round_robin.schedule_cycle v s b in (r.0, round_robin r.1)
  schedule_cycle (islip s) b = let r = Islip_module.schedule_cycle v s b in (r.0, islip r.1)
  schedule_cycle (edrrm s) b = let r = Edrrm_module.schedule_cycle v s b in (r.0, edrrm r.1)
