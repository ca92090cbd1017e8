-- ===== src/Thread/Others.antt =====
-- What the calls that end in `schedule` leave alone: the sleep of other threads, and which thread
-- is the idle one.
use os_elephant.Base.{ℕ, ◌≡◌, refl, ◌≢◌, ◌∙◌, true, arith, ◌==◌, Bool-cases, inl, inr}
use os_elephant.Thread.{TaskStatus, Kernel, is_asleep}
use os_elephant.Thread.Queue.{status, IsConsistent, IsScheduled, unblocked}
use os_elephant.Thread.Schedule.{scheduled, scheduled-asleep, scheduled-fields}
use os_elephant.Thread.Switch.{
  slept, slept-IsConsistent, yielded, yielded-IsConsistent, counted, counted-IsScheduled, shortened,
  charged,
}

-- Thread `t` sleeps in `g` just if it does in `k`, and both have the same idle thread.
pub record Spares (t : ℕ) (k g : Kernel) : Type 0 where
  pub asleep : is_asleep (status g t) ≡ is_asleep (status k t)
  pub idle_thread : g.idle_thread ≡ k.idle_thread

scheduled-Spares :
    {k : Kernel} (t : ℕ) → IsConsistent k → t ≢ k.idle_thread → Spares t k (scheduled k)
scheduled-Spares {k} t c ne = record {
  asleep = scheduled-asleep t c ne;
  idle_thread = (scheduled-fields k).0;
}

pub slept-Spares :
    {k : Kernel} (stat : TaskStatus) (t : ℕ)
    → IsScheduled k
    → is_asleep stat ≡ true
    → t ≢ k.idle_thread
    → t ≢ k.current
    → Spares t k (scheduled (slept stat k))
slept-Spares {k} stat t s h ne other =
    let rest = scheduled-Spares t (slept-IsConsistent stat s h) (unfold slept in ne) in
    record {
      asleep = rest.asleep ∙ unfold slept in ground arith;
      idle_thread = rest.idle_thread ∙ unfold slept in refl;
    }

pub slept-current :
    {k : Kernel} (stat : TaskStatus)
    → IsScheduled k
    → is_asleep stat ≡ true
    → k.current ≢ k.idle_thread
    → (is_asleep (status (scheduled (slept stat k)) k.current) ≡ true)
      × ((scheduled (slept stat k)).idle_thread ≡ k.idle_thread)
slept-current {k} stat s h ne =
    let rest = scheduled-Spares k.current (slept-IsConsistent stat s h) (unfold slept in ne) in
    (rest.asleep ∙ unfold slept in ground arith, rest.idle_thread ∙ unfold slept in refl)

pub yielded-Spares :
    {k : Kernel} (t : ℕ) → IsScheduled k → t ≢ k.idle_thread → Spares t k (scheduled (yielded k))
yielded-Spares {k} t s ne =
    let rest = scheduled-Spares t (yielded-IsConsistent s) (unfold yielded in ne) in
    record {
      asleep = rest.asleep ∙ unfold yielded in ground (arith, s.on);
      idle_thread = rest.idle_thread ∙ unfold yielded in refl;
    }

pub charged-Spares :
    {k : Kernel} (t : ℕ) → IsScheduled k → t ≢ k.idle_thread → Spares t k (charged (counted k))
unfolding charged
charged-Spares {k} t s ne =
    let rest = scheduled-Spares t (counted-IsScheduled s).consistent (unfold counted in ne) in
    elim (Bool-cases (((counted k).tasks (counted k).current).ticks == 0)) [
      | inl over ↦ rw over (record {
        asleep = rest.asleep ∙ unfold counted in ground arith;
        idle_thread = rest.idle_thread ∙ unfold counted in refl;
      })
      | inr more ↦ rw more (record {
        asleep = unfold shortened counted in ground arith;
        idle_thread = unfold shortened counted in refl;
      })
    ]

pub unblocked-Spares : {k : Kernel} (p t : ℕ) → t ≢ p → Spares t k (unblocked p k)
unblocked-Spares p t ne = record { asleep = ground arith; idle_thread = refl }
