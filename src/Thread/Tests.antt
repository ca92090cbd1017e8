-- ===== src/Thread/Tests.antt =====
-- The scheduler's theorems on the sample kernel.
use os_elephant.Base.{◌≡◌, refl, [], ok}
use os_elephant.Thread.{Kernel, schedule, intr_timer_handler}
use os_elephant.Thread.Queue.{IsScheduled}
use os_elephant.Thread.Schedule.{scheduled, schedule-IsScheduled}
use os_elephant.Thread.Switch.{counted, charged, intr_timer_handler-IsScheduled}
use os_elephant.Thread.Rounds.{rounds, rounds-current}
use os_elephant.Thread.Samples.{sample, sample-IsScheduled}

schedule-IsScheduled_example :
    (schedule sample ≡ ok (tt, scheduled sample)) × IsScheduled (scheduled sample)
schedule-IsScheduled_example = schedule-IsScheduled sample-IsScheduled.consistent refl

intr_timer_handler-IsScheduled_example :
    (intr_timer_handler sample ≡ ok (tt, charged (counted sample)))
    × IsScheduled (charged (counted sample))
intr_timer_handler-IsScheduled_example = intr_timer_handler-IsScheduled sample-IsScheduled refl

rounds-current_example :
    (g : Kernel) × (rounds 1 sample ≡ ok (tt, g)) × (g.current ≡ 12288) × IsScheduled g
rounds-current_example = rounds-current [] 12288 [] sample-IsScheduled refl refl
