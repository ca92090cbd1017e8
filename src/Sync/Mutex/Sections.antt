-- ===== src/Sync/Mutex/Sections.antt =====
-- Each section keeps the system sound.
use os_elephant.Base.{
  ℕ, ◌+◌, ◌<◌, ◌%◌, ◌^◌, ◌≡◌, ◌≢◌, refl, true, false, ◌==◌, Option, none, some, update, ok, arith,
  Bool-cases, ltb, ◌-◌, inl, inr,
}
use os_elephant.Thread.{Kernel, is_asleep}
use os_elephant.Thread.Queue.{status, IsScheduled}
use os_elephant.Sync.{
  Machine, Pc, down, got, locked, dropping, Cmd, lock_acquire, lock_acquired, lock_release,
}
use os_elephant.Sync.Threads.{System, current, is_waiting, owns, is_locked, is_it, IsSound}

abbrev pub at_machine : System → Pc → Machine → System
at_machine s pc m = record { machine = m; pcs = update s.pcs (current s) pc }

-- The section of a sound system: it stops at no assertion and leaves the system sound.
pub record Kept (s : System) (c : Cmd Pc) : Type 0 where
  pub pc : Pc
  pub machine : Machine
  pub owner : Option ℕ
  pub runs : c s.machine ≡ ok (pc, machine)
  pub sound : IsSound (at_machine s pc machine) owner

is_it-eq : (o : Option ℕ) (t : ℕ) → is_it o t ≡ true → o ≡ some t
is_it-eq none t h = cc
is_it-eq (some u) t h = ground arith

module _ {s : System} {o : Option ℕ} (sound : IsSound s o) where
  kernel : Kernel
  kernel = s.machine.kernel

  pub not_null : current s ≢ 0
  not_null e = ground (arith, sound.sched.on, sound.sched.consistent.no_null)

  -- A change of the kernel alone, which spares the waiting threads.
  pub kernel-IsSound :
      (k : Kernel) (pc : Pc)
      → IsScheduled k
      → k.idle_thread ≡ s.machine.kernel.idle_thread
      → ((t : ℕ)
          → is_waiting (s.pcs t) ≡ true
          → is_asleep (status k t) ≡ is_asleep (status s.machine.kernel t))
      → s.pcs (current s) ≡ pc
      → IsSound (at_machine s pc (record (s.machine) { kernel = k })) o
  kernel-IsSound k pc sched same spared e = record {
    sched = sched;
    value = sound.value;
    owned = λ t. ground (arith, sound.owned t);
    held = λ t. ground (arith, sound.held t);
    count = sound.count;
    bounded = sound.bounded;
    waiting = λ t. ground (arith, sound.waiting t, spared t);
    distinct = sound.distinct;
    idle = ground (arith, sound.idle, same);
  }

  -- The thread that owns the semaphore is the owner.
  pub owner_here : owns (s.pcs (current s)) ≡ true → o ≡ some (current s)
  owner_here h = is_it-eq o (current s) (ground (arith, sound.owned (current s)))

  -- Where the current thread owns the semaphore and is not inside, or nobody owns it, the lock has
  -- no holder.
  pub no_holder :
      is_locked (s.pcs (current s)) ≡ false
      → (is_it o s.machine.lock.holder ≡ true → s.machine.lock.holder ≡ current s)
      → s.machine.lock.holder ≡ 0
  no_holder h one =
      ground (arith, sound.held s.machine.lock.holder, sound.owned s.machine.lock.holder, one)

  -- `lock_acquire` up to `sema_down`.
  pub lock_acquire-Kept :
      owns (s.pcs (current s)) ≡ is_locked (s.pcs (current s))
      → is_waiting (s.pcs (current s)) ≡ false
      → current s ≢ s.machine.kernel.idle_thread
      → s.machine.lock.holder_repeat_number + 1 < 2 ^ 32
      → Kept s lock_acquire
  unfolding lock_acquire
  lock_acquire-Kept at awake busy small = elim (Bool-cases (s.machine.lock.holder == current s)) [
    | inl mine ↦ record {
      pc = locked;
      machine = record (s.machine) {
        lock = record (s.machine.lock) {
          holder_repeat_number = (s.machine.lock.holder_repeat_number + 1) % 2 ^ 32;
        };
      };
      owner = o;
      runs = rw mine;
      sound = record {
        sched = sound.sched;
        value = sound.value;
        owned = λ t. ground (arith, sound.owned t, sound.held t, not_null);
        held = λ t. ground (arith, sound.held t, not_null);
        count = ground (arith, sound.count, not_null);
        bounded = omega arith;
        waiting = λ t. ground (arith, sound.waiting t);
        distinct = sound.distinct;
        idle = ground (arith, sound.idle);
      };
    }
    | inr free ↦ record {
      pc = down;
      machine = s.machine;
      owner = o;
      runs = rw free;
      sound = record {
        sched = sound.sched;
        value = sound.value;
        owned = λ t. ground (arith, sound.owned t, sound.held t);
        held = λ t. ground (arith, sound.held t);
        count = sound.count;
        bounded = sound.bounded;
        waiting = λ t. ground (arith, sound.waiting t);
        distinct = sound.distinct;
        idle = ground (arith, sound.idle);
      };
    }
  ]

  -- `lock_acquire` after `sema_down`.
  pub lock_acquired-Kept : s.pcs (current s) ≡ got → Kept s lock_acquired
  unfolding lock_acquired
  lock_acquired-Kept at =
      let mine : o ≡ some (current s) = owner_here (ground (arith, at)) in
      let free : s.machine.lock.holder ≡ 0 =
        no_holder (ground (arith, at)) (ground (arith, mine)) in
      let none_yet : (s.machine.lock.holder_repeat_number == 0) ≡ true =
        ground (arith, sound.count) in
      record {
        pc = locked;
        machine = record (s.machine) {
          lock = record (s.machine.lock) { holder = current s; holder_repeat_number = 1 };
        };
        owner = o;
        runs = simp none_yet;
        sound = record {
          sched = sound.sched;
          value = sound.value;
          owned = λ t. ground (arith, sound.owned t, at);
          held = λ t. ground (arith, sound.held t, sound.owned t, at, not_null);
          count = ground (arith, not_null);
          bounded = omega arith;
          waiting = λ t. ground (arith, sound.waiting t, at);
          distinct = sound.distinct;
          idle = ground (arith, sound.idle, at);
        };
      }

  -- `lock_release` up to `sema_up`.
  pub lock_release-Kept : s.pcs (current s) ≡ locked → Kept s lock_release
  unfolding lock_release
  lock_release-Kept at =
      let mine : o ≡ some (current s) = owner_here (ground (arith, at)) in
      let held : (s.machine.lock.holder == current s) ≡ true =
        ground (arith, sound.held (current s), at) in
      elim (Bool-cases (ltb 1 s.machine.lock.holder_repeat_number)) [
        | inl nested ↦ record {
          pc = locked;
          machine = record (s.machine) {
            lock = record (s.machine.lock) {
              holder_repeat_number = s.machine.lock.holder_repeat_number - 1;
            };
          };
          owner = o;
          runs = simp (held, nested);
          sound = record {
            sched = sound.sched;
            value = sound.value;
            owned = λ t. ground (arith, sound.owned t, at);
            held = λ t. ground (arith, sound.held t, at);
            count = ground (arith, sound.count);
            bounded = omega (arith, sound.bounded);
            waiting = λ t. ground (arith, sound.waiting t, at);
            distinct = sound.distinct;
            idle = ground (arith, sound.idle, at);
          };
        }
        | inr last ↦
            let once : (s.machine.lock.holder_repeat_number == 1) ≡ true =
              ground (arith, sound.count, not_null) in
            record {
              pc = dropping;
              machine = record (s.machine) {
                lock = record (s.machine.lock) { holder = 0; holder_repeat_number = 0 };
              };
              owner = o;
              runs = simp (held, last, once);
              sound = record {
                sched = sound.sched;
                value = sound.value;
                owned = λ t. ground (arith, sound.owned t, at);
                held = λ t. ground (arith, sound.held t, sound.owned t, at, mine);
                count = refl;
                bounded = omega arith;
                waiting = λ t. ground (arith, sound.waiting t, at);
                distinct = sound.distinct;
                idle = ground (arith, sound.idle, at);
              };
            }
      ]
