-- ===== src/Ioqueue.antt =====
-- device/c10f_ioqueue.c and device/ioqueue.h: a ring of 64 bytes between a producer and a consumer.
-- `ioq_getchar` and `ioq_putchar` are given from a test of their loop on: `none` and `false` say
-- that the thread goes on to wait, by `lock_acquire` (Sync), `ioq_wait` and `lock_release`, and
-- then tests anew.
pub mod Fifo
pub mod Refine
pub mod Samples
mod Tests
use os_elephant.Base.Command.{and_then, pure, ◌>>=◌, ◌>>◌, assert, modify}
use os_elephant.Base.{
  ℕ, ◌+◌, ◌%◌, Bool, true, false, not, Option, none, some, ◌==◌, if◌then◌else◌, update, Outcome, ok,
  panic, fault, unfinished,
}
use os_elephant.Thread
use os_elephant.Thread.{Kernel, blocked}
use os_elephant.Sync.{Lock, lock_init}

-- `producer` and `consumer` name the thread that waits, 0 (NULL) if none does. The byte written
-- next goes to `head`, the one read next comes from `tail`.
pub record Ioqueue : Type 0 where
  pub lock : Lock
  pub producer : ℕ
  pub consumer : ℕ
  pub buf : ℕ → ℕ
  pub head : ℕ
  pub tail : ℕ

pub record Port : Type 0 where
  pub kernel : Kernel
  pub queue : Ioqueue

abbrev pub Cmd : Type 0 → Type 0
Cmd A = Port → Outcome (A × Port)

abbrev pub with_kernel : {A : Type 0} → Outcome (A × Kernel) → Cmd A
with_kernel (ok (a, k)) p = ok (a, record p { kernel = k })
with_kernel panic p = panic
with_kernel fault p = fault
with_kernel unfinished p = unfinished

abbrev pub on_kernel : {A : Type 0} → Thread.Cmd A → Cmd A
on_kernel c p = with_kernel (c p.kernel) p

abbrev pub buffersize : ℕ
buffersize = 64

-- The buffer is not written.
unfoldable pub ioqueue_init : Ioqueue → Ioqueue
ioqueue_init q = record {
  lock = lock_init;
  producer = 0;
  consumer = 0;
  buf = q.buf;
  head = 0;
  tail = 0;
}

unfoldable pub next_pos : ℕ → ℕ
next_pos pos = (pos + 1) % buffersize

unfoldable pub ioq_full : Cmd Bool
unfolding next_pos
ioq_full = do
  assert λ p. not p.kernel.interrupts
  λ p. ok (next_pos p.queue.head == p.queue.tail, p)

unfoldable pub ioq_empty : Cmd Bool
ioq_empty = do assert λ p. not p.kernel.interrupts; λ p. ok (p.queue.head == p.queue.tail, p)

-- `ioq_wait(&ioq->consumer)` and `ioq_wait(&ioq->producer)`, up to the switch in `thread_block`.
unfoldable pub ioq_wait_consumer : Cmd Bool
ioq_wait_consumer = do
  assert λ p. p.queue.consumer == 0
  modify λ p. record p { queue = record (p.queue) { consumer = p.kernel.current } }
  on_kernel (Thread.thread_block blocked)

unfoldable pub ioq_wait_producer : Cmd Bool
ioq_wait_producer = do
  assert λ p. p.queue.producer == 0
  modify λ p. record p { queue = record (p.queue) { producer = p.kernel.current } }
  on_kernel (Thread.thread_block blocked)

-- `wakeup` of the one and of the other.
unfoldable pub wakeup_consumer : Cmd (Unit {0})
wakeup_consumer = do
  assert λ p. not (p.queue.consumer == 0)
  λ p. on_kernel (Thread.thread_unblock p.queue.consumer) p
  modify λ p. record p { queue = record (p.queue) { consumer = 0 } }

unfoldable pub wakeup_producer : Cmd (Unit {0})
wakeup_producer = do
  assert λ p. not (p.queue.producer == 0)
  λ p. on_kernel (Thread.thread_unblock p.queue.producer) p
  modify λ p. record p { queue = record (p.queue) { producer = 0 } }

-- The end of `ioq_getchar`, after the loop.
pub take : Cmd ℕ
take p =
    let byte = p.queue.buf p.queue.tail in
    let q = record p { queue = record (p.queue) { tail = next_pos p.queue.tail } } in
    if not (q.queue.producer == 0) then (do wakeup_producer; pure byte) q else ok (byte, q)

-- The end of `ioq_putchar`, after the loop.
pub put : ℕ → Cmd (Unit {0})
put byte p =
    let q = record p {
      queue = record (p.queue) {
        buf = update p.queue.buf p.queue.head byte;
        head = next_pos p.queue.head;
      };
    } in
    if not (q.queue.consumer == 0) then wakeup_consumer q else ok (tt, q)

pub take_unless : Bool → Cmd (Option ℕ)
take_unless true = pure none
take_unless false = do byte ← take; pure (some byte)

pub put_unless : Bool → ℕ → Cmd Bool
put_unless true byte = pure false
put_unless false byte = do put byte; pure true

unfoldable pub ioq_getchar : Cmd (Option ℕ)
ioq_getchar = do assert λ p. not p.kernel.interrupts; empty ← ioq_empty; take_unless empty

unfoldable pub ioq_putchar : ℕ → Cmd Bool
ioq_putchar byte = do assert λ p. not p.kernel.interrupts; full ← ioq_full; put_unless full byte
