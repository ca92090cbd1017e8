-- ===== src/Sync/Mutex/Exclusion.antt =====
-- Runs of any number of threads: no assertion fails, and one thread at a time is inside the lock.
use os_elephant.Base.{ℕ, ◌≡◌, refl, sym, ◌∙◌, true, Option, ◌&&◌, has, none, some, ok, arith, subst}
use os_elephant.Thread.{Kernel, is_asleep}
use os_elephant.Thread.Queue.{status, IsScheduled}
use os_elephant.Sync.{outside, locked, lock_init, semaphore}
use os_elephant.Sync.Threads.{System, Action, execute, Safe, is_waiting, is_it, IsSound}
use os_elephant.Sync.Mutex.Steps.{execute-IsSound}

-- The system after `lock_init`, with no thread in a call of the lock.
unfoldable pub start : Kernel → System
unfolding lock_init
start k = record { machine = record { kernel = k; lock = lock_init }; pcs = λ t. outside }

start-IsSound : {k : Kernel} → IsScheduled k → IsSound (start k) none
unfolding start
start-IsSound sched = record {
  sched = sched;
  value = refl;
  owned = λ t. refl;
  held = λ t. ground arith;
  count = refl;
  bounded = omega arith;
  waiting = λ t. refl;
  distinct = tt;
  idle = refl;
}

-- The systems that runs of safe actions reach.
pub data Reaches : System → System → Type 0 where
  stays : {s : System} → Reaches s s
  after : {s t u : System} (a : Action) → Reaches s t → Safe a t → execute a t ≡ ok u → Reaches s u

same_ok : {A : Type 0} {x y : A} → ok x ≡ ok y → x ≡ y
same_ok e = cc

reached-IsSound :
    {s t : System} → Reaches s t → (o : Option ℕ) → IsSound s o → (p : Option ℕ) × IsSound t p
reached-IsSound stays o sound = (o, sound)
reached-IsSound (after a r safe run) o sound =
    let (p, here) = reached-IsSound r o sound in
    let (next, q, runs, there) = execute-IsSound a here safe in
    (q, subst (λ u. IsSound u q) (same_ok (sym runs ∙ run)) there)

-- From a kernel with one running thread and a fresh lock, whatever safe actions the threads have
-- taken, in whatever order (the current thread takes its next section, yields, sleeps, wakes
-- another or is interrupted by the timer): the next safe action returns, so no assertion of the
-- lock, the semaphore or the scheduler fails in it.
pub no_assertion_fails :
    {k : Kernel} {t : System} (a : Action)
    → IsScheduled k
    → Reaches (start k) t
    → Safe a t
    → (u : System) × (execute a t ≡ ok u)
no_assertion_fails a sched r safe =
    let (p, here) = reached-IsSound r none (start-IsSound sched) in
    let (u, q, run, there) = execute-IsSound a here safe in (u, run)

one_owner : (o : Option ℕ) (u v : ℕ) → is_it o u ≡ true → is_it o v ≡ true → u ≡ v
one_owner none u v h g = cc
one_owner (some w) u v h g = ground arith

-- From a kernel with one running thread and a fresh lock: in every system that a run of safe
-- actions reaches, two threads that are inside the lock are the same thread, and the lock's
-- `holder` field names it.
pub mutual_exclusion :
    {k : Kernel} {t : System} (u v : ℕ)
    → IsScheduled k
    → Reaches (start k) t
    → t.pcs u ≡ locked
    → t.pcs v ≡ locked
    → (u ≡ v) × (t.machine.lock.holder ≡ u)
mutual_exclusion u v sched r at_u at_v =
    let (p, sound) = reached-IsSound r none (start-IsSound sched) in
    (
      one_owner p u v (ground (arith, sound.owned u, at_u)) (ground (arith, sound.owned v, at_v)),
      ground (arith, sound.held u, at_u),
    )

-- From a kernel with one running thread and a fresh lock: in every system that a run of safe
-- actions reaches, the waiter list of the semaphore holds just the threads that sleep in
-- `sema_down`.
pub waiters-asleep :
    {k : Kernel} {t : System} (u : ℕ)
    → IsScheduled k
    → Reaches (start k) t
    → has u (semaphore t.machine).waiters
      ≡ (is_waiting (t.pcs u) && is_asleep (status t.machine.kernel u))
waiters-asleep u sched r =
    let (p, sound) = reached-IsSound r none (start-IsSound sched) in sound.waiting u
