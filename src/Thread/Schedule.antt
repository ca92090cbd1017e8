-- ===== src/Thread/Schedule.antt =====
-- `schedule` never stops at an assertion, and always leaves one thread running.
use os_elephant.Base.{
  ℕ, ◌≡◌, refl, ◌≢◌, true, false, List, [], ◌∷◌, ◌++◌, arith, if◌then◌else◌, is_nil, has_nil, ok,
  ◌∙◌, ap, sym, subst, Bool-cases, inl, inr,
}
use os_elephant.Thread.{running, is_running, is_asleep, Kernel, schedule, dispatch, thread_unblock}
use os_elephant.Thread.Queue.{
  status, IsConsistent, IsScheduled, requeued, requeue-ok, requeued_running, requeued-asleep,
  idle-requeued, interrupts-requeued, appended, requeued-IsConsistent, requeued-stopped, unblocked,
  thread_unblock-ok, unblocked-IsConsistent, dispatched, dispatch-ok, dispatched-IsScheduled,
}

-- The state in which `schedule` chooses: the idle thread is woken if the queue is empty.
pub woken : Kernel → Kernel
woken k = if is_nil k.ready_list then unblocked k.idle_thread k else k

woken-ok :
    {k : Kernel}
    → IsConsistent k
    → ((t : ℕ) → is_running (status k t) ≡ false)
    → ((if is_nil k.ready_list then thread_unblock k.idle_thread k else ok (tt, k))
        ≡ ok (tt, woken k))
      × IsConsistent (woken k)
      × (is_nil (woken k).ready_list ≡ false)
      × ((t : ℕ) → is_running (status (woken k) t) ≡ false)
unfolding woken
woken-ok {k} c stopped = elim (Bool-cases (is_nil k.ready_list)) [
  | inl empty ↦
      let sleeps : is_asleep (status k k.idle_thread) ≡ true = ground (
        arith,
        stopped k.idle_thread,
        c.queued k.idle_thread,
        has_nil k.idle_thread k.ready_list empty,
      ) in
      rw empty (
        thread_unblock-ok k.idle_thread c sleeps,
        unblocked-IsConsistent k.idle_thread c sleeps,
        refl,
        λ t. ground (arith, stopped t),
      )
  | inr full ↦ rw full (refl, c, full, stopped)
]

-- The state after `schedule`.
pub chosen : List ℕ → Kernel → Kernel
chosen [] k = k
chosen (next ∷ rest) k = dispatched next rest k

pub scheduled : Kernel → Kernel
scheduled k = let w = woken (requeued k) in chosen w.ready_list w

dispatch-IsScheduled :
    {k : Kernel} (q : List ℕ)
    → k.ready_list ≡ q
    → IsConsistent k
    → is_nil q ≡ false
    → ((t : ℕ) → is_running (status k t) ≡ false)
    → (dispatch q k ≡ ok (tt, chosen q k)) × IsScheduled (chosen q k)
unfolding chosen
dispatch-IsScheduled [] e c full stopped = cc
dispatch-IsScheduled {k} (next ∷ rest) e c full stopped = (
  dispatch-ok next rest k (ground (arith, c.queued 0, c.no_null)),
  dispatched-IsScheduled next rest c e stopped,
)

-- With interrupts off and the queue consistent, `schedule` returns: whatever the state of the
-- current thread, no assertion fails, and afterwards exactly the current thread is running.
pub schedule-IsScheduled :
    {k : Kernel}
    → IsConsistent k
    → k.interrupts ≡ false
    → (schedule k ≡ ok (tt, scheduled k)) × IsScheduled (scheduled k)
unfolding schedule scheduled
schedule-IsScheduled {k} c off =
    let c1 = requeued-IsConsistent c in
    let (run, c2, full, stopped) = woken-ok c1 (λ t. requeued-stopped t c) in
    let (run3, s) = dispatch-IsScheduled _ refl c2 full stopped in
    (simp (off, requeue-ok c, run, run3), s)

woken-asleep :
    (k : Kernel) (t : ℕ)
    → t ≢ k.idle_thread
    → is_asleep (status (woken k) t) ≡ is_asleep (status k t)
unfolding woken
woken-asleep k t ne = elim (Bool-cases (is_nil k.ready_list)) [
  | inl empty ↦ rw empty (ground arith)
  | inr full ↦ rw full
]

chosen-asleep :
    {k : Kernel} (q : List ℕ) (t : ℕ)
    → k.ready_list ≡ q
    → IsConsistent k
    → is_asleep (status (chosen q k) t) ≡ is_asleep (status k t)
unfolding chosen
chosen-asleep [] t e c = refl
chosen-asleep {k} (next ∷ rest) t e c = ground (arith, c.queued next)

-- `schedule` keeps the sleeping threads asleep, but for the idle thread, which it may wake.
pub scheduled-asleep :
    {k : Kernel} (t : ℕ)
    → IsConsistent k
    → t ≢ k.idle_thread
    → is_asleep (status (scheduled k) t) ≡ is_asleep (status k t)
unfolding scheduled
scheduled-asleep {k} t c ne =
    let (run, c2, full, stopped) = woken-ok (requeued-IsConsistent c) (λ t. requeued-stopped t c) in
    chosen-asleep (woken (requeued k)).ready_list t refl c2
    ∙ woken-asleep (requeued k) t (ground (arith, idle-requeued k))
    ∙ requeued-asleep k t

chosen-fields :
    (q : List ℕ) (k : Kernel)
    → ((chosen q k).idle_thread ≡ k.idle_thread) × ((chosen q k).interrupts ≡ k.interrupts)
unfolding chosen
chosen-fields [] k = (refl, refl)
chosen-fields (next ∷ rest) k = (refl, refl)

pub scheduled-fields :
    (k : Kernel)
    → ((scheduled k).idle_thread ≡ k.idle_thread) × ((scheduled k).interrupts ≡ k.interrupts)
unfolding scheduled woken
scheduled-fields k = ground (
  arith,
  chosen-fields (woken (requeued k)).ready_list (woken (requeued k)),
  idle-requeued k,
  interrupts-requeued k,
)

woken_full : (k : Kernel) → is_nil k.ready_list ≡ false → woken k ≡ k
unfolding woken
woken_full k full = rw full

chosen-cons :
    (q : List ℕ) (k : Kernel) (next : ℕ) (rest : List ℕ)
    → q ≡ next ∷ rest
    → ((chosen q k).current ≡ next) × ((chosen q k).ready_list ≡ rest)
unfolding chosen
chosen-cons q k next rest e = rw e (refl, refl)

-- Where a running thread is rescheduled, the first of the queue runs next and the thread is last.
pub scheduled-next :
    (k : Kernel) (next : ℕ) (rest : List ℕ)
    → status k k.current ≡ running
    → k.ready_list ≡ next ∷ rest
    → ((scheduled k).current ≡ next) × ((scheduled k).ready_list ≡ rest ++ k.current ∷ [])
unfolding scheduled
scheduled-next k next rest on e =
    let q : (appended k).ready_list ≡ next ∷ (rest ++ k.current ∷ []) =
      ap (λ r. r ++ k.current ∷ []) e in
    let full : is_nil (appended k).ready_list ≡ false = ap is_nil q in
    let same : woken (requeued k) ≡ appended k =
      ap woken (requeued_running k on) ∙ woken_full (appended k) full in
    let goal = chosen-cons (appended k).ready_list (appended k) next (rest ++ k.current ∷ []) q in
    subst
      (λ w.
        ((chosen w.ready_list w).current ≡ next)
        × ((chosen w.ready_list w).ready_list ≡ rest ++ k.current ∷ []))
      (sym same) goal
