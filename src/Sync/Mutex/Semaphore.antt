-- ===== src/Sync/Mutex/Semaphore.antt =====
-- The sections of `sema_down` and `sema_up` keep the system sound.
use native.Mathlib.Decide.{ℕ_discrete}
use os_elephant.Base.{
  ℕ, ◌+◌, ◌-◌, ◌%◌, ◌≡◌, ◌≢◌, refl, ap, sym, ◌∙◌, Bool, true, false, [], ◌∷◌, ◌++◌, ◌==◌, has,
  has-append, Option, some, ok, Distinct-insert, append-nil, arith, Bool-cases, inl, inr,
}
use os_elephant.Thread.{Kernel, blocked, is_asleep}
use os_elephant.Thread.Queue.{status, IsScheduled}
use os_elephant.Thread.Schedule.{scheduled}
use os_elephant.Thread.Switch.{slept, thread_block-IsScheduled}
use os_elephant.Thread.Others.{slept-Spares, slept-current}
use os_elephant.Sync.{
  Machine, outside, down, asleep, got, semaphore, sema_try, sema_down, sema_down_resumed,
}
use os_elephant.Sync.Threads.{System, current, is_waiting, owns, IsSound}
use os_elephant.Sync.Mutex.Sections.{Kept, at_machine}

abbrev pub with_interrupts : Bool → Kernel → Kernel
with_interrupts b k = record k { interrupts = b }

pub IsScheduled-interrupts :
    {k : Kernel} (b : Bool) → IsScheduled k → IsScheduled (with_interrupts b k)
IsScheduled-interrupts b s = record {
  consistent = record {
    queued = s.consistent.queued;
    distinct = s.consistent.distinct;
    alone = s.consistent.alone;
    no_null = s.consistent.no_null;
    idle = s.consistent.idle;
  };
  on = s.on;
}

module _ {s : System} {o : Option ℕ} (sound : IsSound s o) (flag old : Bool) where
  -- The machine in which the test of the loop is made.
  abbrev start : Machine
  start = record (s.machine) { kernel = with_interrupts flag s.machine.kernel }

  taken :
      (semaphore s.machine).value ≡ 1
      → sema_try old start
        ≡ ok (
          got,
          record (s.machine) {
            kernel = with_interrupts old s.machine.kernel;
            lock = record (s.machine.lock) {
              semaphore = record (semaphore s.machine) { value = 0 };
            };
          },
        )
  unfolding sema_try
  taken one =
      let open_value : ((semaphore s.machine).value == 0) ≡ false = ground arith in
      let less : ((semaphore s.machine).value + 256 - 1) % 256 ≡ 0 = omega arith in
      simp (open_value, less)

  abbrev queued : Machine
  queued = record (s.machine) {
    kernel = scheduled (slept blocked (with_interrupts flag s.machine.kernel));
    lock = record (s.machine.lock) {
      semaphore = record (semaphore s.machine) {
        waiters = (semaphore s.machine).waiters ++ current s ∷ [];
      };
    };
  }

  blocks : (semaphore s.machine).value ≡ 0 → sema_try old start ≡ ok (asleep old, queued)
  unfolding sema_try
  blocks zero_value =
      let (run, next) =
        thread_block-IsScheduled blocked (IsScheduled-interrupts flag sound.sched) refl in
      let absent : has (current s) (semaphore s.machine).waiters ≡ false =
        ground (arith, sound.waiting (current s), sound.sched.on) in
      let closed : ((semaphore s.machine).value == 0) ≡ true = ground arith in
      simp (closed, absent, run)

  taken-IsSound :
      owns (s.pcs (current s)) ≡ false
      → (semaphore s.machine).value ≡ 1
      → s.pcs s.machine.kernel.idle_thread ≢ s.pcs (current s)
      → IsSound
          (at_machine s got (record (s.machine) {
            kernel = with_interrupts old s.machine.kernel;
            lock = record (s.machine.lock) {
              semaphore = record (semaphore s.machine) { value = 0 };
            };
          }))
          (some (current s))
  taken-IsSound at one busy =
      let nobody : (t : ℕ) → owns (s.pcs t) ≡ false =
        λ t. ground (arith, sound.owned t, sound.value) in
      record {
        sched = IsScheduled-interrupts old sound.sched;
        value = refl;
        owned = λ t. ground (arith, nobody t);
        held = λ t. ground (arith, sound.held t, nobody t);
        count = sound.count;
        bounded = sound.bounded;
        waiting = λ t. ground (arith, sound.waiting t, sound.sched.on);
        distinct = sound.distinct;
        idle = ground (arith, sound.idle, busy);
      }

  queued-IsSound :
      owns (s.pcs (current s)) ≡ false
      → s.pcs s.machine.kernel.idle_thread ≢ s.pcs (current s)
      → IsSound (at_machine s (asleep old) queued) o
  queued-IsSound at busy =
      let sched = IsScheduled-interrupts flag sound.sched in
      let (run, next) = thread_block-IsScheduled blocked sched refl in
      let other : current s ≢ s.machine.kernel.idle_thread = λ e. busy (ap s.pcs (sym e)) in
      let (here, same) = slept-current blocked sched refl other in
      let spared : (t : ℕ)
          → t ≢ current s
          → is_waiting (s.pcs t) ≡ true
          → is_asleep (status queued.kernel t) ≡ is_asleep (status s.machine.kernel t) =
        λ t ne w. (slept-Spares blocked t sched refl (ground (arith, sound.idle)) ne).asleep in
      let absent : has (current s) (semaphore s.machine).waiters ≡ false =
        ground (arith, sound.waiting (current s), sound.sched.on) in
      record {
        sched = next;
        value = sound.value;
        owned = λ t. ground (arith, sound.owned t);
        held = λ t. ground (arith, sound.held t, at);
        count = sound.count;
        bounded = sound.bounded;
        waiting = λ t. elim (ℕ_discrete t (current s)) [
          | yes e ↦
              ground (arith, has-append t (semaphore s.machine).waiters (current s ∷ []), here)
          | no ne ↦ ground (
            arith,
            has-append t (semaphore s.machine).waiters (current s ∷ []),
            sound.waiting t,
            spared t ne,
          )
        ];
        distinct =
            Distinct-insert (current s) (semaphore s.machine).waiters []
              (rw (append-nil (semaphore s.machine).waiters) sound.distinct)
              (rw (append-nil (semaphore s.machine).waiters) absent);
        idle = ground (arith, sound.idle, same, other);
      }

module _ {s : System} {o : Option ℕ} (sound : IsSound s o) where
  -- The test of the loop, made with interrupts off by a thread that does not own the semaphore.
  sema_try-Kept :
      (old : Bool)
      → owns (s.pcs (current s)) ≡ false
      → s.pcs s.machine.kernel.idle_thread ≢ s.pcs (current s)
      → Kept s (λ m. sema_try old (record m { kernel = with_interrupts false m.kernel }))
  sema_try-Kept old at busy = elim (Bool-cases ((semaphore s.machine).value == 0)) [
    | inl closed ↦ record {
      pc = asleep old;
      machine = queued sound false old;
      owner = o;
      runs = blocks sound false old (ground arith);
      sound = queued-IsSound sound false old at busy;
    }
    | inr open_value ↦
        let one : (semaphore s.machine).value ≡ 1 = ground (arith, sound.value) in
        record {
          pc = got;
          machine = record (s.machine) {
            kernel = with_interrupts old s.machine.kernel;
            lock = record (s.machine.lock) {
              semaphore = record (semaphore s.machine) { value = 0 };
            };
          };
          owner = some (current s);
          runs = taken sound false old one;
          sound = taken-IsSound sound false old at one busy;
        }
  ]

  not_outside : s.pcs (current s) ≢ outside → s.pcs s.machine.kernel.idle_thread ≢ s.pcs (current s)
  not_outside ne e = ne (sym e ∙ sound.idle)

  -- `sema_down` as it is called.
  pub sema_down-Kept : s.pcs (current s) ≡ down → Kept s sema_down
  unfolding sema_down
  sema_down-Kept at =
      let rest =
        sema_try-Kept s.machine.kernel.interrupts (ground (arith, at))
          (not_outside (ground (arith, at))) in
      record {
        pc = rest.pc;
        machine = rest.machine;
        owner = rest.owner;
        runs = rest.runs;
        sound = rest.sound;
      }

  -- `sema_down` where a thread that slept goes on.
  pub sema_down_resumed-Kept :
      (old : Bool) → s.pcs (current s) ≡ asleep old → Kept s (sema_down_resumed old)
  unfolding sema_down_resumed
  sema_down_resumed-Kept old at =
      let rest = sema_try-Kept old (ground (arith, at)) (not_outside (ground (arith, at))) in
      record {
        pc = rest.pc;
        machine = rest.machine;
        owner = rest.owner;
        runs = rest.runs;
        sound = rest.sound;
      }
