-- ===== src/Sync/Mutex/Steps.antt =====
-- Every action that is asked for safely is carried out, and keeps the system sound.
use os_elephant.Base.{ℕ, suc, ◌≡◌, ◌≢◌, refl, ap, true, false, Option, none, some, ok, arith}
use os_elephant.Thread
use os_elephant.Thread.{TaskStatus, Kernel, is_asleep}
use os_elephant.Thread.Queue.{
  status, IsScheduled, unblocked, thread_unblock-ok, unblocked-IsConsistent,
}
use os_elephant.Thread.Schedule.{scheduled, scheduled-fields}
use os_elephant.Thread.Switch.{
  slept, thread_block-IsScheduled, yielded, thread_yield-IsScheduled, counted, charged,
  intr_timer_handler-IsScheduled,
}
use os_elephant.Thread.Others.{
  Spares, slept-Spares, yielded-Spares, charged-Spares, unblocked-Spares,
}
use os_elephant.Sync.{Pc, outside, down, asleep, got, locked, dropping, Cmd}
use os_elephant.Sync.Threads.{
  System, current, Action, acquire, release, go_on, tick, yield, sleep, wake, stay, section,
  execute, attempt, moved, Safe, is_waiting, IsSound,
}
use os_elephant.Sync.Mutex.Sections.{
  Kept, at_machine, kernel-IsSound, lock_acquire-Kept, lock_acquired-Kept, lock_release-Kept,
}
use os_elephant.Sync.Mutex.Semaphore.{sema_down-Kept, sema_down_resumed-Kept}
use os_elephant.Sync.Mutex.Release.{lock_released-Kept}

module _ {s : System} {o : Option ℕ} (sound : IsSound s o) where
  abbrev kernel : Kernel
  kernel = s.machine.kernel

  not_idle : (t : ℕ) → is_waiting (s.pcs t) ≡ true → t ≢ kernel.idle_thread
  not_idle t w e = ground (arith, sound.idle)

  other_than_idle : suc kernel.idle_thread ≢ kernel.idle_thread
  other_than_idle e = omega arith

  -- A command of the scheduler that spares the threads that wait for the lock.
  stay-Kept :
      {A : Type 0} (pc : Pc) (c : Thread.Cmd A) (a : A) (k : Kernel)
      → s.pcs (current s) ≡ pc
      → c kernel ≡ ok (a, k)
      → IsScheduled k
      → k.idle_thread ≡ kernel.idle_thread
      → ((t : ℕ) → is_waiting (s.pcs t) ≡ true → Spares t kernel k)
      → Kept s (stay pc c)
  stay-Kept pc c a k at run next same spares = record {
    pc = pc;
    machine = record (s.machine) { kernel = k };
    owner = o;
    runs = simp run;
    sound = kernel-IsSound sound k pc next same (λ t w. (spares t w).asleep) at;
  }

  tick-Kept :
      (pc : Pc)
      → s.pcs (current s) ≡ pc
      → (kernel.tasks (current s)).stack_magic ≡ Thread.stack_magic_value
      → Kept s (stay pc Thread.intr_timer_handler)
  tick-Kept pc at magic =
      let (run, next) = intr_timer_handler-IsScheduled sound.sched magic in
      stay-Kept pc Thread.intr_timer_handler tt (charged (counted kernel)) at run next
        (charged-Spares (suc kernel.idle_thread) sound.sched other_than_idle).idle_thread
        (λ t w. charged-Spares t sound.sched (not_idle t w))

  yield-Kept : (pc : Pc) → s.pcs (current s) ≡ pc → Kept s (stay pc Thread.thread_yield)
  yield-Kept pc at =
      let (run, next) = thread_yield-IsScheduled sound.sched in
      stay-Kept pc Thread.thread_yield kernel.interrupts (scheduled (yielded kernel)) at run next
        (yielded-Spares (suc kernel.idle_thread) sound.sched other_than_idle).idle_thread
        (λ t w. yielded-Spares t sound.sched (not_idle t w))

  sleep-Kept :
      (pc : Pc) (stat : TaskStatus)
      → s.pcs (current s) ≡ pc
      → is_waiting pc ≡ false
      → is_asleep stat ≡ true
      → Kept s (stay pc (Thread.thread_block stat))
  sleep-Kept pc stat at awake h =
      let (run, next) = thread_block-IsScheduled stat sound.sched h in
      stay-Kept pc (Thread.thread_block stat) kernel.interrupts (scheduled (slept stat kernel)) at
        run next (unfold slept in (scheduled-fields (slept stat kernel)).0)
        (λ t w. slept-Spares stat t sound.sched h (not_idle t w) (ground arith))

  wake-Kept :
      (pc : Pc) (t : ℕ)
      → s.pcs (current s) ≡ pc
      → is_asleep (status kernel t) ≡ true
      → is_waiting (s.pcs t) ≡ false
      → Kept s (stay pc (Thread.thread_unblock t))
  wake-Kept pc t at h other =
      stay-Kept pc (Thread.thread_unblock t) tt (unblocked t kernel) at
        (thread_unblock-ok t sound.sched.consistent h)
        (record {
          consistent = unblocked-IsConsistent t sound.sched.consistent h;
          on = ground (arith, sound.sched.on);
        })
        refl (λ u w. unblocked-Spares t u (ground arith))

  -- The section that the thread takes, where it can take one.
  abbrev Allowed : Option (Cmd Pc) → Type 0
  Allowed none = Unit {0}
  Allowed (some c) = Kept s c

  section-Kept : (pc : Pc) (a : Action) → s.pcs (current s) ≡ pc → Safe a s → Allowed (section pc a)
  section-Kept (asleep old) go_on at safe = sema_down_resumed-Kept sound old at
  section-Kept (asleep old) acquire at safe = tt
  section-Kept (asleep old) release at safe = tt
  section-Kept (asleep old) tick at safe = tt
  section-Kept (asleep old) yield at safe = tt
  section-Kept (asleep old) (sleep stat) at safe = tt
  section-Kept (asleep old) (wake t) at safe = tt
  section-Kept outside acquire at safe =
      lock_acquire-Kept sound (ground (arith, at)) (ground (arith, at)) safe.0 safe.1
  section-Kept outside release at safe = tt
  section-Kept outside go_on at safe = tt
  section-Kept outside tick at safe = tick-Kept outside at safe
  section-Kept outside yield at safe = yield-Kept outside at
  section-Kept outside (sleep stat) at safe = sleep-Kept outside stat at refl safe
  section-Kept outside (wake t) at safe = wake-Kept outside t at safe.0 safe.1
  section-Kept locked acquire at safe =
      lock_acquire-Kept sound (ground (arith, at)) (ground (arith, at)) safe.0 safe.1
  section-Kept locked release at safe = lock_release-Kept sound at
  section-Kept locked go_on at safe = tt
  section-Kept locked tick at safe = tick-Kept locked at safe
  section-Kept locked yield at safe = yield-Kept locked at
  section-Kept locked (sleep stat) at safe = sleep-Kept locked stat at refl safe
  section-Kept locked (wake t) at safe = wake-Kept locked t at safe.0 safe.1
  section-Kept down go_on at safe = sema_down-Kept sound at
  section-Kept down tick at safe = tick-Kept down at safe
  section-Kept down yield at safe = yield-Kept down at
  section-Kept down acquire at safe = tt
  section-Kept down release at safe = tt
  section-Kept down (sleep stat) at safe = tt
  section-Kept down (wake t) at safe = tt
  section-Kept got go_on at safe = lock_acquired-Kept sound at
  section-Kept got tick at safe = tick-Kept got at safe
  section-Kept got yield at safe = yield-Kept got at
  section-Kept got acquire at safe = tt
  section-Kept got release at safe = tt
  section-Kept got (sleep stat) at safe = tt
  section-Kept got (wake t) at safe = tt
  section-Kept dropping go_on at safe = lock_released-Kept sound at
  section-Kept dropping tick at safe = tick-Kept dropping at safe
  section-Kept dropping yield at safe = yield-Kept dropping at
  section-Kept dropping acquire at safe = tt
  section-Kept dropping release at safe = tt
  section-Kept dropping (sleep stat) at safe = tt
  section-Kept dropping (wake t) at safe = tt

  Allowed-IsSound :
      (c : Option (Cmd Pc))
      → Allowed c
      → (next : System) × (p : Option ℕ) × (attempt s c ≡ ok next) × IsSound next p
  Allowed-IsSound none k = (s, o, refl, sound)
  Allowed-IsSound (some c) k = (at_machine s k.pc k.machine, k.owner, ap (moved s) k.runs, k.sound)

-- An action that the environment may ask for, in a sound system, stops at no assertion of the
-- lock, the semaphore or the scheduler, and leaves the system sound.
pub execute-IsSound :
    {s : System} {o : Option ℕ} (a : Action)
    → IsSound s o
    → Safe a s
    → (next : System) × (p : Option ℕ) × (execute a s ≡ ok next) × IsSound next p
unfolding execute
execute-IsSound {s} a sound safe =
    Allowed-IsSound sound (section (s.pcs (current s)) a)
      (section-Kept sound (s.pcs (current s)) a refl safe)
