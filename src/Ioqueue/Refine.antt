-- ===== src/Ioqueue/Refine.antt =====
-- `ioq_getchar` and `ioq_putchar` refine a bounded queue of at most 63 bytes, and wake the thread
-- that waits for what they did.
use os_elephant.Base.{
  ℕ, suc, ◌<◌, ◌≡◌, ◌≢◌, refl, Bool, true, false, not, ◌||◌, List, [], ◌∷◌, ◌++◌, ◌==◌,
  if◌then◌else◌, length, Option, none, some, ok, arith, Bool-cases, inl, inr, is_nil,
}
use os_elephant.Thread.{Kernel, is_asleep, ready}
use os_elephant.Thread.Queue.{
  status, IsScheduled, unblocked, thread_unblock-ok, unblocked-IsConsistent,
}
use os_elephant.Ioqueue.{
  Port, next_pos, ioq_full, ioq_empty, take, put, take_unless, put_unless, wakeup_consumer,
  wakeup_producer, ioq_getchar, ioq_putchar,
}
use os_elephant.Ioqueue.Fifo.{Holds, added, dropped, added-Holds, dropped-Holds, first-Holds}

-- A port with interrupts off, whose ring holds `xs`, and whose waiting threads sleep.
pub record IsPort (p : Port) (xs : List ℕ) : Type 0 where
  pub off : p.kernel.interrupts ≡ false
  pub sched : IsScheduled p.kernel
  pub holds : Holds p.queue xs
  pub producer : p.queue.producer ≢ 0 → is_asleep (status p.kernel p.queue.producer) ≡ true
  pub consumer : p.queue.consumer ≢ 0 → is_asleep (status p.kernel p.queue.consumer) ≡ true
  pub apart : p.queue.producer ≢ 0 → p.queue.producer ≢ p.queue.consumer

-- The queue of bytes that the ring stands for.
abbrev pub pop : List ℕ → Option ℕ
pop [] = none
pop (x ∷ xs) = some x

abbrev pub popped : List ℕ → List ℕ
popped [] = []
popped (x ∷ xs) = xs

abbrev pub has_room : List ℕ → Bool
has_room xs = not (length xs == 63)

abbrev pub pushed : ℕ → List ℕ → List ℕ
pushed byte xs = if has_room xs then xs ++ byte ∷ [] else xs

unblocked-IsScheduled :
    {k : Kernel} (t : ℕ)
    → IsScheduled k
    → is_asleep (status k t) ≡ true
    → IsScheduled (unblocked t k)
unblocked-IsScheduled t s h = record {
  consistent = unblocked-IsConsistent t s.consistent h;
  on = ground (arith, s.on);
}

is_nil-length : (xs : List ℕ) → is_nil xs ≡ (length xs == 0)
is_nil-length [] = refl
is_nil-length (x ∷ xs) = ground arith

-- The port after the byte is taken or put and the thread that waits is woken.
abbrev after_take : Port → Port
after_take p =
    if not (p.queue.producer == 0)
    then record {
      kernel = unblocked p.queue.producer p.kernel;
      queue = record (dropped p.queue) { producer = 0 };
    }
    else record p { queue = dropped p.queue }

abbrev after_put : ℕ → Port → Port
after_put byte p =
    if not (p.queue.consumer == 0)
    then record {
      kernel = unblocked p.queue.consumer p.kernel;
      queue = record (added byte p.queue) { consumer = 0 };
    }
    else record p { queue = added byte p.queue }

module _ {p : Port} {xs : List ℕ} (h : IsPort p xs) where
  empty-test : (p.queue.head == p.queue.tail) ≡ is_nil xs
  empty-test = ground (arith, is_nil-length xs, h.holds.head_at, h.holds.tail_bound, h.holds.room)

  full-test : (next_pos p.queue.head == p.queue.tail) ≡ (length xs == 63)
  unfolding next_pos
  full-test = ground (arith, h.holds.head_at, h.holds.tail_bound, h.holds.room)

  take-runs : take p ≡ ok (p.queue.buf p.queue.tail, after_take p)
  unfolding take wakeup_producer
  take-runs = elim (Bool-cases (p.queue.producer == 0)) [
    | inl nobody ↦ rw nobody refl
    | inr someone ↦
        let run =
          thread_unblock-ok p.queue.producer h.sched.consistent (h.producer (ground arith)) in
        rw someone (simp run)
  ]

  put-runs : (byte : ℕ) → put byte p ≡ ok (tt, after_put byte p)
  unfolding put wakeup_consumer
  put-runs byte = elim (Bool-cases (p.queue.consumer == 0)) [
    | inl nobody ↦ rw nobody refl
    | inr someone ↦
        let run =
          thread_unblock-ok p.queue.consumer h.sched.consistent (h.consumer (ground arith)) in
        rw someone (simp run)
  ]

  after_put-IsPort : (byte : ℕ) → suc (length xs) < 64 → IsPort (after_put byte p) (xs ++ byte ∷ [])
  after_put-IsPort byte room =
      let held : Holds (added byte p.queue) (xs ++ byte ∷ []) = added-Holds byte h.holds room in
      elim (Bool-cases (p.queue.consumer == 0)) [
        | inl nobody ↦ rw nobody (record {
          off = h.off;
          sched = h.sched;
          holds = held;
          producer = h.producer;
          consumer = h.consumer;
          apart = h.apart;
        })
        | inr someone ↦
            let sleeps = h.consumer (ground arith) in
            rw someone (record {
              off = h.off;
              sched = unblocked-IsScheduled p.queue.consumer h.sched sleeps;
              holds = record {
                tail_bound = held.tail_bound;
                room = held.room;
                head_at = held.head_at;
                byte_at = held.byte_at;
              };
              producer = λ ne. ground (arith, h.producer, h.apart);
              consumer = λ ne. absurd (ne refl);
              apart = λ ne. ne;
            })
      ]

module _ {p : Port} {x : ℕ} {xs : List ℕ} (h : IsPort p (x ∷ xs)) where
  after_take-IsPort : IsPort (after_take p) xs
  after_take-IsPort =
      let held : Holds (dropped p.queue) xs = dropped-Holds h.holds in
      elim (Bool-cases (p.queue.producer == 0)) [
        | inl nobody ↦ rw nobody (record {
          off = h.off;
          sched = h.sched;
          holds = held;
          producer = h.producer;
          consumer = h.consumer;
          apart = h.apart;
        })
        | inr someone ↦
            let sleeps = h.producer (ground arith) in
            rw someone (record {
              off = h.off;
              sched = unblocked-IsScheduled p.queue.producer h.sched sleeps;
              holds = record {
                tail_bound = held.tail_bound;
                room = held.room;
                head_at = held.head_at;
                byte_at = held.byte_at;
              };
              producer = λ ne. absurd (ne refl);
              consumer = λ ne. ground (arith, h.consumer, h.apart);
              apart = λ ne. absurd (ne refl);
            })
      ]

-- `ioq_full` tells whether there is no room.
pub ioq_full-IsPort :
    {p : Port} {xs : List ℕ} → IsPort p xs → ioq_full p ≡ ok (not (has_room xs), p)
unfolding ioq_full
ioq_full-IsPort {p} {xs} h = elim (Bool-cases (length xs == 63)) [
  | inl full ↦ rw full (simp (h.off, full-test h, full))
  | inr free ↦ rw free (simp (h.off, full-test h, free))
]

-- `ioq_getchar`, from a test of its loop on, in a consistent kernel with interrupts off and with
-- waiting threads that sleep and are two, is the removal of the oldest byte: no assertion fails;
-- it gives that byte, or `none` (the caller waits) just if the ring holds none; and where a byte
-- was removed, a producer that waits becomes ready, and no other thread's state changes.
pub ioq_getchar-IsPort :
    {p : Port} (xs : List ℕ)
    → IsPort p xs
    → (next : Port) × (ioq_getchar p ≡ ok (pop xs, next))
      × IsPort next (popped xs)
      × ((t : ℕ)
          → status next.kernel t ≡ (
              if is_nil xs || (p.queue.producer == 0) || not (t == p.queue.producer)
              then status p.kernel t
              else ready))
unfolding ioq_getchar ioq_empty take_unless
ioq_getchar-IsPort {p} [] h = (p, simp (h.off, empty-test h), h, λ t. refl)
ioq_getchar-IsPort {p} (x ∷ xs) h = (
  after_take p,
  simp (h.off, empty-test h, take-runs h, first-Holds h.holds),
  after_take-IsPort h,
  λ t. ground arith,
)

-- `ioq_putchar`, from a test of its loop on, in a consistent kernel with interrupts off and with
-- waiting threads that sleep and are two, adds the byte as the newest: no assertion fails; it does
-- so just if the ring holds fewer than 63 bytes (else the caller waits); and where a byte was
-- added, a consumer that waits becomes ready, and no other thread's state changes.
pub ioq_putchar-IsPort :
    {p : Port} {xs : List ℕ} (byte : ℕ)
    → IsPort p xs
    → (next : Port) × (ioq_putchar byte p ≡ ok (has_room xs, next))
      × IsPort next (pushed byte xs)
      × ((t : ℕ)
          → status next.kernel t ≡ (
              if not (has_room xs) || (p.queue.consumer == 0) || not (t == p.queue.consumer)
              then status p.kernel t
              else ready))
unfolding ioq_putchar ioq_full put_unless
ioq_putchar-IsPort {p} {xs} byte h = elim (Bool-cases (length xs == 63)) [
  | inl full ↦ rw full (p, simp (h.off, full-test h, full), h, λ t. refl)
  | inr free ↦ rw free (
    after_put byte p,
    simp (h.off, full-test h, free, put-runs h byte),
    after_put-IsPort h byte (ground (arith, h.holds.room)),
    λ t. ground arith,
  )
]
