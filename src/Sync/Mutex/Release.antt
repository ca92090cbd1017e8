-- ===== src/Sync/Mutex/Release.antt =====
-- The section of `sema_up`, at the end of `lock_release`, keeps the system sound.
use os_elephant.Base.{
  ℕ, ◌+◌, ◌%◌, ◌≡◌, ◌≢◌, refl, ap, subst, ◌∙◌, true, false, List, [], ◌∷◌, ◌==◌, has, Option, none,
  some, ok, Distinct, arith,
}
use os_elephant.Thread.{Kernel, is_asleep}
use os_elephant.Thread.Queue.{status, unblocked, thread_unblock-ok, unblocked-IsConsistent}
use os_elephant.Sync.{Machine, outside, dropping, semaphore, sema_up, wake_first, lock_released}
use os_elephant.Sync.Threads.{System, current, is_waiting, owns, IsSound}
use os_elephant.Sync.Mutex.Sections.{Kept, at_machine, owner_here, no_holder}
use os_elephant.Sync.Mutex.Semaphore.{IsScheduled-interrupts}

-- The kernel and the machine that `sema_up` leaves.
abbrev woken : List ℕ → Kernel → Kernel
woken [] k = k
woken (w ∷ rest) k = unblocked w k

abbrev rest_of : List ℕ → List ℕ
rest_of [] = []
rest_of (w ∷ rest) = rest

abbrev raised : Machine → List ℕ → Machine
raised m ws = record m {
  kernel = woken ws m.kernel;
  lock = record (m.lock) { semaphore = record (semaphore m) { value = 1; waiters = rest_of ws } };
}

module _ {s : System} {o : Option ℕ} (sound : IsSound s o) (at : s.pcs (current s) ≡ dropping) where
  mine : o ≡ some (current s)
  mine = owner_here sound (ground (arith, at))

  closed : (semaphore s.machine).value ≡ 0
  closed = ground (arith, sound.value, mine)

  sleeper :
      (w : ℕ) (rest : List ℕ)
      → (semaphore s.machine).waiters ≡ w ∷ rest
      → (is_asleep (status s.machine.kernel w) ≡ true) × (is_waiting (s.pcs w) ≡ true)
  sleeper w rest e =
      let here : has w (semaphore s.machine).waiters ≡ true = ap (has w) e ∙ ground arith in
      (ground (arith, sound.waiting w), ground (arith, sound.waiting w))

  raises :
      (ws : List ℕ)
      → (semaphore s.machine).waiters ≡ ws
      → lock_released s.machine ≡ ok (outside, raised s.machine ws)
  unfolding lock_released sema_up wake_first
  raises [] e =
      let zero_value : ((semaphore s.machine).value == 0) ≡ true = ground (arith, closed) in
      let more : ((semaphore s.machine).value + 1) % 256 ≡ 1 = omega (arith, closed) in
      simp (zero_value, e, more)
  raises (w ∷ rest) e =
      let zero_value : ((semaphore s.machine).value == 0) ≡ true = ground (arith, closed) in
      let more : ((semaphore s.machine).value + 1) % 256 ≡ 1 = omega (arith, closed) in
      let (asleep_w, waiting_w) = sleeper w rest e in
      let run =
        thread_unblock-ok w (IsScheduled-interrupts false sound.sched).consistent asleep_w in
      simp (zero_value, e, more, run)

  raised-IsSound :
      (ws : List ℕ)
      → (semaphore s.machine).waiters ≡ ws
      → IsSound (at_machine s outside (raised s.machine ws)) none
  raised-IsSound [] e =
      let nobody : (t : ℕ) → t ≢ current s → owns (s.pcs t) ≡ false =
        λ t ne. ground (arith, sound.owned t, mine) in
      let free : s.machine.lock.holder ≡ 0 =
        no_holder sound (ground (arith, at)) (ground (arith, mine)) in
      record {
        sched = sound.sched;
        value = refl;
        owned = λ t. ground (arith, nobody t);
        held = λ t. ground (arith, sound.held t, at);
        count = sound.count;
        bounded = sound.bounded;
        waiting = λ t. ground (arith, sound.waiting t, at, ap (has t) e);
        distinct = tt;
        idle = ground (arith, sound.idle);
      }
  raised-IsSound (w ∷ rest) e =
      let nobody : (t : ℕ) → t ≢ current s → owns (s.pcs t) ≡ false =
        λ t ne. ground (arith, sound.owned t, mine) in
      let (asleep_w, waiting_w) = sleeper w rest e in
      let d : Distinct (w ∷ rest) = subst Distinct e sound.distinct in
      let c = unblocked-IsConsistent w sound.sched.consistent asleep_w in
      record {
        sched = record { consistent = c; on = ground (arith, sound.sched.on) };
        value = refl;
        owned = λ t. ground (arith, nobody t);
        held = λ t. ground (arith, sound.held t, at);
        count = sound.count;
        bounded = sound.bounded;
        waiting = λ t. ground (arith, sound.waiting t, at, d, ap (has t) e, waiting_w);
        distinct = d.1;
        idle = ground (arith, sound.idle);
      }

  -- The rest of `lock_release`.
  pub lock_released-Kept : Kept s lock_released
  lock_released-Kept = record {
    pc = outside;
    machine = raised s.machine (semaphore s.machine).waiters;
    owner = none;
    runs = raises (semaphore s.machine).waiters refl;
    sound = raised-IsSound (semaphore s.machine).waiters refl;
  }
