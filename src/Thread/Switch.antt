-- ===== src/Thread/Switch.antt =====
-- The calls that end in `schedule`: blocking, yielding, and the timer interrupt.
use os_elephant.Base.{
  ◌+◌, ◌-◌, ◌%◌, ◌^◌, ◌≡◌, refl, true, false, [], ◌∷◌, ◌++◌, arith, ◌==◌, if◌then◌else◌, has,
  has-append, Distinct-insert, append-nil, ok, Bool-cases, inl, inr,
}
use os_elephant.Thread.{
  TaskStatus, ready, is_asleep, Kernel, set_status, set_task, charge, thread_block, thread_yield,
  intr_timer_handler, stack_magic_value,
}
use os_elephant.Thread.Queue.{IsConsistent, IsScheduled}
use os_elephant.Thread.Schedule.{scheduled, schedule-IsScheduled}

-- The current thread put to sleep, with interrupts off.
unfoldable pub slept : TaskStatus → Kernel → Kernel
slept stat k = set_status k.current stat (record k { interrupts = false })

pub slept-IsConsistent :
    {k : Kernel} (stat : TaskStatus)
    → IsScheduled k
    → is_asleep stat ≡ true
    → IsConsistent (slept stat k)
unfolding slept
slept-IsConsistent {k} stat s h = record {
  queued = λ t. ground (arith, s.consistent.queued t, s.on);
  distinct = s.consistent.distinct;
  alone = λ t ne. ground (arith, s.consistent.alone t ne);
  no_null = ground (arith, s.consistent.no_null, s.on);
  idle = ground (arith, s.consistent.idle);
}

-- Called with a sleeping status by the one running thread of a consistent kernel, `thread_block`
-- puts that thread to sleep and gives another the processor: no assertion fails, exactly the new
-- current thread runs, and the result is the interrupt flag for the thread to set back.
pub thread_block-IsScheduled :
    {k : Kernel} (stat : TaskStatus)
    → IsScheduled k
    → is_asleep stat ≡ true
    → (thread_block stat k ≡ ok (k.interrupts, scheduled (slept stat k)))
      × IsScheduled (scheduled (slept stat k))
unfolding thread_block slept
thread_block-IsScheduled {k} stat s h =
    let (run, next) = schedule-IsScheduled (slept-IsConsistent stat s h) refl in
    (simp (h, run), next)

-- The current thread put at the end of the queue, with interrupts off.
unfoldable pub yielded : Kernel → Kernel
yielded k =
    set_status k.current ready
      (record k { interrupts = false; ready_list = k.ready_list ++ k.current ∷ [] })

pub yielded-IsConsistent : {k : Kernel} → IsScheduled k → IsConsistent (yielded k)
unfolding yielded
yielded-IsConsistent {k} s =
    let c = s.consistent in
    let new : has k.current k.ready_list ≡ false = ground (arith, c.queued k.current, s.on) in
    record {
      queued = λ t. ground (arith, c.queued t, has-append t k.ready_list (k.current ∷ []));
      distinct =
          Distinct-insert k.current k.ready_list [] (rw (append-nil k.ready_list) c.distinct)
            (rw (append-nil k.ready_list) new);
      alone = λ t ne. ground (arith, c.alone t ne);
      no_null = ground (arith, c.no_null, s.on);
      idle = ground (arith, c.idle);
    }

-- Called by the one running thread of a consistent kernel, `thread_yield` puts that thread at the
-- end of the queue and calls `schedule`: no assertion fails, and exactly the new current thread
-- runs.
pub thread_yield-IsScheduled :
    {k : Kernel}
    → IsScheduled k
    → (thread_yield k ≡ ok (k.interrupts, scheduled (yielded k)))
      × IsScheduled (scheduled (yielded k))
unfolding thread_yield yielded
thread_yield-IsScheduled {k} s =
    let new : has k.current k.ready_list ≡ false =
      ground (arith, s.consistent.queued k.current, s.on) in
    let (run, next) = schedule-IsScheduled (yielded-IsConsistent s) refl in (simp (new, run), next)

-- The counts that every timer interrupt keeps, with interrupts off.
unfoldable pub counted : Kernel → Kernel
counted k =
    set_task k.current
      (record (k.tasks k.current) {
        elapsed_ticks = ((k.tasks k.current).elapsed_ticks + 1) % 2 ^ 32;
      })
      (record k { interrupts = false; uptime = (k.uptime + 1) % 2 ^ 32 })

pub counted-IsScheduled : {k : Kernel} → IsScheduled k → IsScheduled (counted k)
unfolding counted
counted-IsScheduled {k} s = record {
  consistent = record {
    queued = λ t. ground (arith, s.consistent.queued t);
    distinct = s.consistent.distinct;
    alone = λ t ne. ground (arith, s.consistent.alone t ne);
    no_null = ground (arith, s.consistent.no_null);
    idle = ground (arith, s.consistent.idle);
  };
  on = ground (arith, s.on);
}

-- The time slice of the current thread, one tick shorter.
unfoldable pub shortened : Kernel → Kernel
shortened k =
    set_task k.current (record (k.tasks k.current) { ticks = (k.tasks k.current).ticks - 1 }) k

shortened-IsScheduled : {k : Kernel} → IsScheduled k → IsScheduled (shortened k)
unfolding shortened
shortened-IsScheduled {k} s = record {
  consistent = record {
    queued = λ t. ground (arith, s.consistent.queued t);
    distinct = s.consistent.distinct;
    alone = λ t ne. ground (arith, s.consistent.alone t ne);
    no_null = ground (arith, s.consistent.no_null);
    idle = ground (arith, s.consistent.idle);
  };
  on = ground (arith, s.on);
}

-- The state after a timer interrupt: the next thread runs where the slice is used up.
unfoldable pub charged : Kernel → Kernel
charged k = if (k.tasks k.current).ticks == 0 then scheduled k else shortened k

charge-IsScheduled :
    {k : Kernel}
    → IsScheduled k
    → k.interrupts ≡ false
    → (charge k ≡ ok (tt, charged k)) × IsScheduled (charged k)
unfolding charge charged shortened
charge-IsScheduled {k} s off =
    let (run, next) = schedule-IsScheduled s.consistent off in
    elim (Bool-cases ((k.tasks k.current).ticks == 0)) [
      | inl over ↦ rw over (run, next)
      | inr more ↦ rw more (refl, shortened-IsScheduled s)
    ]

-- In a consistent kernel, a timer interrupt in the running thread, whose stack mark is whole,
-- stops at no assertion and leaves one thread running: the one that `schedule` chooses if the
-- slice of the current thread is used up, else the current thread, with a slice one tick shorter.
pub intr_timer_handler-IsScheduled :
    {k : Kernel}
    → IsScheduled k
    → (k.tasks k.current).stack_magic ≡ stack_magic_value
    → (intr_timer_handler k ≡ ok (tt, charged (counted k))) × IsScheduled (charged (counted k))
unfolding intr_timer_handler
intr_timer_handler-IsScheduled {k} s magic =
    let (run, next) = charge-IsScheduled (counted-IsScheduled s) (unfold counted in refl) in
    let whole : ((k.tasks k.current).stack_magic == stack_magic_value) ≡ true = ground arith in
    (simp whole (unfold counted in run), next)
