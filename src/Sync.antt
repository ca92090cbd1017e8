-- ===== src/Sync.antt =====
-- thread/c10b_sync.c: binary semaphores and the lock built on one. A function runs in sections: a
-- section ends where the thread gives up the processor inside `thread_block`, or where interrupts
-- are on and another thread may run. Each section is a command that says where its thread stands
-- next (`Pc`); Sync.Threads lets threads take their sections in any order.
pub mod Threads
pub mod Mutex
mod Tests
use os_elephant.Base.Command.{and_then, pure, ◌>>=◌, ◌>>◌, assert, modify}
use os_elephant.Base.{
  ℕ, ◌+◌, ◌-◌, ◌%◌, ◌^◌, Bool, true, false, not, List, [], ◌∷◌, ◌++◌, ◌==◌, ltb, if◌then◌else◌, has,
  Outcome, ok, panic, fault, unfinished,
}
use os_elephant.Thread
use os_elephant.Thread.{TaskStatus, Kernel, blocked}

pub record Semaphore : Type 0 where
  pub value : ℕ
  pub waiters : List ℕ

-- `holder` is 0 (NULL) where nobody holds the lock.
pub record Lock : Type 0 where
  pub holder : ℕ
  pub semaphore : Semaphore
  pub holder_repeat_number : ℕ

pub record Machine : Type 0 where
  pub kernel : Kernel
  pub lock : Lock

-- Where a thread stands with respect to the lock.
pub data Pc : Type 0 where
  outside : Pc  -- holds nothing
  down : Pc  -- in `lock_acquire`, before `sema_down`
  asleep : Bool → Pc  -- in the loop of `sema_down`, with the interrupt flag to set back
  got : Pc  -- in `lock_acquire`, after `sema_down`
  locked : Pc  -- holds the lock
  dropping : Pc  -- in `lock_release`, before `sema_up`

abbrev pub Cmd : Type 0 → Type 0
Cmd A = Machine → Outcome (A × Machine)

-- A command of the scheduler.
abbrev pub with_kernel : {A : Type 0} → Outcome (A × Kernel) → Cmd A
with_kernel (ok (a, k)) m = ok (a, record m { kernel = k })
with_kernel panic m = panic
with_kernel fault m = fault
with_kernel unfinished m = unfinished

abbrev pub on_kernel : {A : Type 0} → Thread.Cmd A → Cmd A
on_kernel c m = with_kernel (c m.kernel) m

abbrev pub semaphore : Machine → Semaphore
semaphore m = m.lock.semaphore

abbrev pub set_semaphore : Semaphore → Machine → Machine
set_semaphore s m = record m { lock = record (m.lock) { semaphore = s } }

unfoldable pub sema_init : ℕ → Semaphore
sema_init value = record { value = value % 256; waiters = [] }

unfoldable pub lock_init : Lock
unfolding sema_init
lock_init = record { holder = 0; semaphore = sema_init 1; holder_repeat_number = 0 }

-- The loop of `sema_down` from its test to where the thread has the semaphore or has gone to sleep.
pub sema_try : Bool → Cmd Pc
sema_try old_status m =
    if (semaphore m).value == 0
    then (do
      assert λ m. not (has m.kernel.current (semaphore m).waiters)
      modify λ m.
          set_semaphore
            (record (m.lock.semaphore) { waiters = (semaphore m).waiters ++ m.kernel.current ∷ [] })
            m
      flag ← on_kernel (Thread.thread_block blocked)
      pure (asleep old_status))
        m
    else (do
      modify λ m.
          set_semaphore
            (record (m.lock.semaphore) { value = ((semaphore m).value + 256 - 1) % 256 }) m
      assert λ m. (semaphore m).value == 0
      on_kernel (Thread.intr_set_status old_status)
      pure got)
        m

-- `sema_down` as it is called.
unfoldable pub sema_down : Cmd Pc
sema_down = do old_status ← on_kernel Thread.intr_disable; sema_try old_status

-- `sema_down` where its thread is switched to again: `thread_block` sets the flag back that it
-- found, which is off, and the loop tests anew.
unfoldable pub sema_down_resumed : Bool → Cmd Pc
sema_down_resumed old_status = do on_kernel (Thread.intr_set_status false); sema_try old_status

pub wake_first : List ℕ → Cmd (Unit {0})
wake_first [] = pure tt
wake_first (thread_blocked ∷ rest) = do
  modify λ m. set_semaphore (record (m.lock.semaphore) { waiters = rest }) m
  on_kernel (Thread.thread_unblock thread_blocked)

unfoldable pub sema_up : Cmd (Unit {0})
sema_up = do
  old_status ← on_kernel Thread.intr_disable
  assert λ m. (semaphore m).value == 0
  λ m. wake_first (semaphore m).waiters m
  modify
      λ m. set_semaphore (record (m.lock.semaphore) { value = ((semaphore m).value + 1) % 256 }) m
  assert λ m. (semaphore m).value == 1
  on_kernel (Thread.intr_set_status old_status)

-- `lock_acquire` up to `sema_down`; the holder only counts.
unfoldable pub lock_acquire : Cmd Pc
lock_acquire m =
    if not (m.lock.holder == m.kernel.current)
    then ok (down, m)
    else ok (
      locked,
      record m {
        lock = record (m.lock) {
          holder_repeat_number = (m.lock.holder_repeat_number + 1) % 2 ^ 32;
        };
      },
    )

-- The rest of `lock_acquire`, after `sema_down`.
unfoldable pub lock_acquired : Cmd Pc
lock_acquired = do
  modify λ m. record m { lock = record (m.lock) { holder = m.kernel.current } }
  assert λ m. m.lock.holder_repeat_number == 0
  modify λ m. record m { lock = record (m.lock) { holder_repeat_number = 1 } }
  pure locked

-- `lock_release` up to `sema_up`.
unfoldable pub lock_release : Cmd Pc
lock_release = do
  assert λ m. m.lock.holder == m.kernel.current
  λ m.
      if ltb 1 m.lock.holder_repeat_number
      then ok (
        locked,
        record m {
          lock = record (m.lock) { holder_repeat_number = m.lock.holder_repeat_number - 1 };
        },
      )
      else (do
        assert λ m. m.lock.holder_repeat_number == 1
        modify λ m. record m { lock = record (m.lock) { holder = 0; holder_repeat_number = 0 } }
        pure dropping)
          m

-- The rest of `lock_release`.
unfoldable pub lock_released : Cmd Pc
lock_released = do sema_up; pure outside
