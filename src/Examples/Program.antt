-- ===== src/Examples/Program.antt =====
-- The theorems on the program as a whole, run at concrete states.
use taskette.Base.{◌==◌, ◌&&◌, ◌<◌, tally, false, ◌+◌, ◌≡◌, refl, none, some, arith}
use taskette.Heapless.Lists.{list_deque, list_map, list_heap}
use taskette.Outcome.{ok}
use taskette.Kernel.{TaskInfo, TimerRegistry, SchedulerState, World, SchedulerConfig}
use taskette.Scheduler.Init.{init, get_config}
use taskette.Timer.Ops.{handle_tick, set_timer}
use taskette.Timer.Waiting.{tick_quiet}
use taskette.Program.{Reach, block_self, on_tick, perform, call}
use taskette.Program.Ending.{Fine}
use taskette.Scheduler.Invariant.{Inv}
use taskette.Program.Sleeping.{IsAsleep, IsAwake, handle_ticks}
use taskette.Program.Sleeping.Ticks.{handle_ticks-wake}
use taskette.Program.Safety.{Reach-Fine}
use taskette.Program.Boot.{init_again}
use taskette.Examples.{
  asleep, asleep-Inv, asleep_sleeps, sleeper, clock, clock_time, running, running-Inv,
  running_current, running_awake, plain, world, still, idle_clock, idle_clock_time,
  idle_clock_quiet,
}

abbrev ticked : World
ticked = set_timer (world running idle_clock) (record idle_clock { time = idle_clock.time + 1 })

handle_tick_quiet : handle_tick plain (world running idle_clock) ≡ (ok tt, ticked)
unfolding handle_tick
handle_tick_quiet = rw (
    tick_quiet (world running idle_clock) running idle_clock refl refl running-Inv plain
      (omega (arith, idle_clock_time)) idle_clock_quiet)

ticked-Reach : Reach plain still (world running idle_clock) ticked
unfolding perform
ticked-Reach = Reach.later Reach.start (
    call on_tick running idle_clock (ok tt) refl refl
      (running_awake, omega (arith, idle_clock_time)) handle_tick_quiet)

Reach-Fine_example : Fine (perform plain still block_self ticked)
Reach-Fine_example =
    Reach-Fine plain still
      (record { state = running; here = refl; inv = running-Inv; timer = idle_clock; clock = refl })
      ticked-Reach running (record idle_clock { time = idle_clock.time + 1 }) refl refl block_self
      (running_awake, λ e. absurd (omega (arith, running_current, e)))

abbrev fast : SchedulerConfig
fast = record { tick_freq = 5000 }

init_again_example :
    (w' : World) × (init plain 12_000_000 fast (world running idle_clock) ≡ (ok none, w'))
    × (w'.scheduler_state ≡ some running)
    × (w'.timer ≡ some idle_clock)
    × (get_config w' ≡ (ok fast, w'))
init_again_example = init_again plain 12_000_000 fast (world running idle_clock) refl

asleep_awake :
    (i : TaskInfo) → list_map.get asleep.tasks asleep.current_task ≡ some i → i.blocked ≡ false
unfolding asleep
asleep_awake i there = ground (arith, there)

alarm_set :
    0 < tally (λ (r : TimerRegistry). r.time == 20 && r.task_id == 2) (list_heap.items clock.queue)
unfolding clock
alarm_set = omega arith

sleeper-IsAsleep : IsAsleep 2 20 clock asleep
sleeper-IsAsleep = record {
  info = sleeper;
  there = asleep_sleeps;
  blocked = refl;
  registered = alarm_set;
}

handle_ticks-wake_example :
    (w' : World) × (s' : SchedulerState) × (handle_ticks plain (0 + 32) (world asleep clock)
      ≡ (ok tt, w'))
    × (w'.scheduler_state ≡ some s')
    × Inv s'
    × IsAwake 2 s'
handle_ticks-wake_example =
    handle_ticks-wake 2 20 plain 0 (world asleep clock) asleep clock refl refl asleep-Inv
      asleep_awake sleeper-IsAsleep (omega (arith, clock_time)) (omega (arith, clock_time))
