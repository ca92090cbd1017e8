-- ===== src/Thread/Queue.antt =====
-- The ready queue and the states of the threads agree, and the parts of `schedule` keep it so.
use native.Mathlib.Decide.{ℕ_discrete}
use os_elephant.Base.{
  ℕ, ◌+◌, ◌≡◌, ◌≢◌, true, false, not, List, [], ◌∷◌, ◌++◌, arith, ◌==◌, if◌then◌else◌, has,
  has-append, Distinct, Distinct-insert, append-nil, ok, ap, sym, ◌∙◌, subst, Bool-cases, inl, inr,
  ◌%◌, ◌^◌,
}
use os_elephant.Thread.{
  TaskStatus, running, ready, died, is_running, is_ready, is_asleep, Kernel, set_task, set_status,
  requeue, dispatch, thread_unblock,
}

abbrev pub status : Kernel → ℕ → TaskStatus
status k t = (k.tasks t).status

-- At most the current thread runs, and the queue holds the ready threads, each once. NULL is no
-- thread, and the idle thread never ends.
pub record IsConsistent (k : Kernel) : Type 0 where
  pub queued : (t : ℕ) → has t k.ready_list ≡ is_ready (status k t)
  pub distinct : Distinct k.ready_list
  pub alone : (t : ℕ) → t ≢ k.current → is_running (status k t) ≡ false
  pub no_null : status k 0 ≡ died
  pub idle : status k k.idle_thread ≢ died

-- The state after `requeue`, where the current thread is still running.
abbrev pub appended : Kernel → Kernel
appended k =
    set_task k.current
      (record (k.tasks k.current) { ticks = (k.tasks k.current).priority; status = ready })
      (record k { ready_list = k.ready_list ++ k.current ∷ [] })

pub requeued : Kernel → Kernel
requeued k = if is_running (status k k.current) then appended k else k

pub requeue-ok : {k : Kernel} → IsConsistent k → requeue k ≡ ok (tt, requeued k)
unfolding requeue requeued
requeue-ok {k} c = elim (Bool-cases (is_running (status k k.current))) [
  | inl on ↦ rw on (ground (arith, c.queued k.current))
  | inr off ↦ rw off
]

appended-IsConsistent :
    {k : Kernel}
    → IsConsistent k
    → is_running (status k k.current) ≡ true
    → IsConsistent (appended k)
appended-IsConsistent {k} c on =
    let new : has k.current k.ready_list ≡ false = ground (arith, c.queued k.current) in
    record {
      queued = λ t. ground (arith, c.queued t, has-append t k.ready_list (k.current ∷ []));
      distinct =
          Distinct-insert k.current k.ready_list [] (rw (append-nil k.ready_list) c.distinct)
            (rw (append-nil k.ready_list) new);
      alone = λ t ne. ground (arith, c.alone t ne);
      no_null = ground (arith, c.no_null);
      idle = ground (arith, c.idle);
    }

pub requeued-IsConsistent : {k : Kernel} → IsConsistent k → IsConsistent (requeued k)
unfolding requeued
requeued-IsConsistent {k} c = elim (Bool-cases (is_running (status k k.current))) [
  | inl on ↦ rw on (appended-IsConsistent c on)
  | inr off ↦ rw off c
]

pub requeued_running : (k : Kernel) → status k k.current ≡ running → requeued k ≡ appended k
unfolding requeued
requeued_running k on = let test : is_running (status k k.current) ≡ true = ground arith in rw test

pub requeued-asleep :
    (k : Kernel) (t : ℕ) → is_asleep (status (requeued k) t) ≡ is_asleep (status k t)
unfolding requeued
requeued-asleep k t = elim (Bool-cases (is_running (status k k.current))) [
  | inl on ↦ rw on (ground arith)
  | inr off ↦ rw off
]

pub idle-requeued : (k : Kernel) → (requeued k).idle_thread ≡ k.idle_thread
unfolding requeued
idle-requeued k = ground arith

pub interrupts-requeued : (k : Kernel) → (requeued k).interrupts ≡ k.interrupts
unfolding requeued
interrupts-requeued k = ground arith

-- After `requeue` no thread runs.
pub requeued-stopped :
    {k : Kernel} (t : ℕ) → IsConsistent k → is_running (status (requeued k) t) ≡ false
unfolding requeued
requeued-stopped {k} t c = elim (Bool-cases (is_running (status k k.current))) [
  | inl on ↦ rw on (ground (arith, c.alone t))
  | inr off ↦
      rw off (elim (ℕ_discrete t k.current) [ yes same ↦ rw same off | no other ↦ c.alone t other ])
]

-- The state after `thread_unblock`.
abbrev pub unblocked : ℕ → Kernel → Kernel
unblocked p k = set_status p ready (record k { ready_list = p ∷ k.ready_list })

pub thread_unblock-ok :
    {k : Kernel} (p : ℕ)
    → IsConsistent k
    → is_asleep (status k p) ≡ true
    → thread_unblock p k ≡ ok (tt, unblocked p k)
unfolding thread_unblock
thread_unblock-ok {k} p c h = ground (arith, c.queued p)

pub unblocked-IsConsistent :
    {k : Kernel} (p : ℕ)
    → IsConsistent k
    → is_asleep (status k p) ≡ true
    → IsConsistent (unblocked p k)
unblocked-IsConsistent {k} p c h = record {
  queued = λ t. ground (arith, c.queued t, c.queued p);
  distinct = ground (arith, c.queued p, c.distinct);
  alone = λ t ne. ground (arith, c.alone t ne);
  no_null = ground (arith, c.no_null);
  idle = ground (arith, c.idle);
}

-- The state after `dispatch`.
abbrev pub activated : ℕ → Kernel → Kernel
activated next k =
    let p = k.tasks next in
    record k {
      current = next;
      cr3 = if not (p.pgdir == 0) then k.v2p p.pgdir else 0x100000;
      esp0 = if not (p.pgdir == 0) then (next + 4096) % 2 ^ 32 else k.esp0;
    }

abbrev pub dispatched : ℕ → List ℕ → Kernel → Kernel
dispatched next rest k = activated next (set_status next running (record k { ready_list = rest }))

pub dispatch-ok :
    (next : ℕ) (rest : List ℕ) (k : Kernel)
    → next ≢ 0
    → dispatch (next ∷ rest) k ≡ ok (tt, dispatched next rest k)
unfolding dispatch
dispatch-ok next rest k ne = elim (Bool-cases ((k.tasks next).pgdir == 0)) [
  | inl thread ↦ ground arith
  | inr process ↦ ground arith
]

-- The thread that gets the processor is the only one that runs.
pub record IsScheduled (k : Kernel) : Type 0 where
  pub consistent : IsConsistent k
  pub on : status k k.current ≡ running

pub dispatched-IsScheduled :
    (next : ℕ) (rest : List ℕ) {k : Kernel}
    → IsConsistent k
    → k.ready_list ≡ next ∷ rest
    → ((t : ℕ) → is_running (status k t) ≡ false)
    → IsScheduled (dispatched next rest k)
dispatched-IsScheduled next rest {k} c e stopped =
    let q : (t : ℕ) → has t (next ∷ rest) ≡ is_ready (status k t) =
      λ t. ap (has t) (sym e) ∙ c.queued t in
    let d : Distinct (next ∷ rest) = subst Distinct e c.distinct in
    record {
      consistent = record {
        queued = λ t. ground (arith, q t, d);
        distinct = d.1;
        alone = λ t ne. ground (arith, stopped t);
        no_null = ground (arith, q 0, c.no_null);
        idle = ground (arith, c.idle);
      };
      on = ground arith;
    }
