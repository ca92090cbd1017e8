-- ===== src/Sync/Threads.antt =====
-- Threads that share one lock, in any order: the processor's thread takes its next section, is
-- interrupted by the timer, yields, sleeps on something else, or wakes a thread that does.
use os_elephant.Base.Command.{pure, ◌>>=◌}
use os_elephant.Base.{
  ℕ, ◌+◌, ◌<◌, ◌^◌, ◌≡◌, ◌≢◌, Bool, true, false, not, ◌&&◌, ◌==◌, if◌then◌else◌, has, Option, none,
  some, update, Outcome, ok, panic, fault, unfinished, Distinct, is_some,
}
use os_elephant.Thread
use os_elephant.Thread.{TaskStatus, Kernel, is_asleep, stack_magic_value}
use os_elephant.Thread.Queue.{status, IsScheduled}
use os_elephant.Sync.{
  Machine, Pc, outside, down, asleep, got, locked, dropping, Cmd, on_kernel, semaphore, sema_down,
  sema_down_resumed, lock_acquire, lock_acquired, lock_release, lock_released,
}

pub record System : Type 0 where
  pub machine : Machine
  pub pcs : ℕ → Pc

abbrev pub current : System → ℕ
current s = s.machine.kernel.current

pub data Action : Type 0 where
  acquire : Action  -- calls `lock_acquire`
  release : Action  -- calls `lock_release`
  go_on : Action  -- takes the next section of such a call
  tick : Action  -- the timer interrupt
  yield : Action  -- calls `thread_yield`
  sleep : TaskStatus → Action  -- blocks on something other than the lock
  wake : ℕ → Action  -- wakes a thread that does

abbrev pub stay : {A : Type 0} → Pc → Thread.Cmd A → Cmd Pc
stay pc c = do result ← on_kernel c; pure pc

-- What the thread does that stands at the program point; `none` where it cannot.
abbrev pub section : Pc → Action → Option (Cmd Pc)
section outside acquire = some lock_acquire
section locked acquire = some lock_acquire
section locked release = some lock_release
section down go_on = some sema_down
section (asleep old_status) go_on = some (sema_down_resumed old_status)
section got go_on = some lock_acquired
section dropping go_on = some lock_released
section (asleep old_status) _ = none
section pc tick = some (stay pc Thread.intr_timer_handler)
section pc yield = some (stay pc Thread.thread_yield)
section outside (sleep stat) = some (stay outside (Thread.thread_block stat))
section locked (sleep stat) = some (stay locked (Thread.thread_block stat))
section outside (wake t) = some (stay outside (Thread.thread_unblock t))
section locked (wake t) = some (stay locked (Thread.thread_unblock t))
section _ _ = none

-- The thread that took the section stands at the new point, whoever has the processor now.
abbrev pub moved : System → Outcome (Pc × Machine) → Outcome System
moved s (ok (pc, m)) = ok (record { machine = m; pcs = update s.pcs (current s) pc })
moved s panic = panic
moved s fault = fault
moved s unfinished = unfinished

abbrev pub attempt : System → Option (Cmd Pc) → Outcome System
attempt s none = ok s
attempt s (some c) = moved s (c s.machine)

-- An action that the thread cannot take changes nothing.
unfoldable pub execute : Action → System → Outcome System
execute a s = attempt s (section (s.pcs (current s)) a)

-- What is asked of the environment. A thread sleeps by one of the three sleeping states; a thread
-- that is woken sleeps, and not for the lock; the stack mark is whole; a holder does not acquire
-- the lock 2 ^ 32 times over; the idle thread does not acquire it.
abbrev pub is_waiting : Pc → Bool
is_waiting (asleep old_status) = true
is_waiting _ = false

abbrev pub Safe : Action → System → Type 0
Safe acquire s =
    (current s ≢ s.machine.kernel.idle_thread) × (s.machine.lock.holder_repeat_number + 1 < 2 ^ 32)
Safe tick s = (s.machine.kernel.tasks (current s)).stack_magic ≡ stack_magic_value
Safe (sleep stat) s = is_asleep stat ≡ true
Safe (wake t) s = (is_asleep (status s.machine.kernel t) ≡ true) × (is_waiting (s.pcs t) ≡ false)
Safe _ s = Unit {0}

-- The threads between `sema_down` and `sema_up`.
abbrev pub owns : Pc → Bool
owns got = true
owns locked = true
owns dropping = true
owns _ = false

abbrev pub is_locked : Pc → Bool
is_locked locked = true
is_locked _ = false

abbrev pub is_it : Option ℕ → ℕ → Bool
is_it none t = false
is_it (some u) t = u == t

-- The semaphore is 0 just while one thread owns it; the lock's holder is the thread inside; the
-- waiters are the threads that sleep in `sema_down`, each once.
pub record IsSound (s : System) (owner : Option ℕ) : Type 0 where
  pub sched : IsScheduled s.machine.kernel
  pub value : (semaphore s.machine).value ≡ (if is_some owner then 0 else 1)
  pub owned : (t : ℕ) → owns (s.pcs t) ≡ is_it owner t
  pub held : (t : ℕ) → is_locked (s.pcs t) ≡ (not (t == 0) && (s.machine.lock.holder == t))
  pub count : (s.machine.lock.holder_repeat_number == 0) ≡ (s.machine.lock.holder == 0)
  pub bounded : s.machine.lock.holder_repeat_number < 2 ^ 32
  pub waiting :
      (t : ℕ)
      → has t (semaphore s.machine).waiters
        ≡ (is_waiting (s.pcs t) && is_asleep (status s.machine.kernel t))
  pub distinct : Distinct (semaphore s.machine).waiters
  pub idle : s.pcs s.machine.kernel.idle_thread ≡ outside
