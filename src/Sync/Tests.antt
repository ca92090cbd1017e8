-- ===== src/Sync/Tests.antt =====
-- The lock's theorems on the sample kernel, in a run of two actions: thread 4096 calls
-- `lock_acquire` and goes on into `sema_down`.
use os_elephant.Base.{ℕ, ◌≡◌, refl, ◌&&◌, has, Outcome, ok, panic, fault, unfinished, arith}
use os_elephant.Thread.{is_asleep}
use os_elephant.Thread.Queue.{status}
use os_elephant.Thread.Samples.{sample, sample-IsScheduled}
use os_elephant.Sync.{
  semaphore, lock_init, sema_init, lock_acquire, lock_acquired, sema_down, sema_try,
}
use os_elephant.Sync.Threads.{System, acquire, go_on, release, execute, is_waiting}
use os_elephant.Sync.Mutex.Exclusion.{
  start, Reaches, stays, after, no_assertion_fails, mutual_exclusion, waiters-asleep,
}

-- The system after an action.
abbrev next : Outcome System → System → System
next (ok u) s = u
next panic s = s
next fault s = s
next unfinished s = s

unfoldable asked : System
unfolding execute start lock_init sema_init lock_acquire
asked = next (execute acquire (start sample)) (start sample)

unfoldable downed : System
unfolding asked execute start lock_init sema_init lock_acquire sema_down sema_try
downed = next (execute go_on asked) asked

unfoldable entered : System
unfolding downed asked execute start lock_init sema_init lock_acquire sema_down sema_try
    lock_acquired
entered = next (execute go_on downed) downed

runs : Reaches (start sample) entered
unfolding entered downed asked execute start lock_init sema_init lock_acquire sema_down sema_try
    lock_acquired
runs =
    after go_on (after go_on (after acquire stays ((λ e. omega arith), omega arith) refl) tt refl)
      tt refl

no_assertion_fails_example : (u : System) × (execute release entered ≡ ok u)
no_assertion_fails_example = no_assertion_fails release sample-IsScheduled runs tt

abbrev taker : ℕ
taker = 4096

mutual_exclusion_example : (taker ≡ taker) × (entered.machine.lock.holder ≡ taker)
unfolding entered downed asked execute start lock_init sema_init lock_acquire sema_down sema_try
    lock_acquired
mutual_exclusion_example = mutual_exclusion taker taker sample-IsScheduled runs refl refl

waiters-asleep_example :
    has 4096 (semaphore entered.machine).waiters
    ≡ (is_waiting (entered.pcs 4096) && is_asleep (status entered.machine.kernel 4096))
waiters-asleep_example = waiters-asleep 4096 sample-IsScheduled runs
