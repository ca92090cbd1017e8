-- ===== src/Thread/Rounds.antt =====
-- Running threads whose time is up take turns in the order of the ready queue.
use os_elephant.Base.Command.{and_then, pure, ◌>>◌}
use os_elephant.Base.{
  ℕ, zero, suc, ◌≡◌, ap, ◌∙◌, false, List, [], ◌∷◌, ◌++◌, append_assoc, length, ok,
}
use os_elephant.Thread.{Kernel, Cmd, schedule}
use os_elephant.Thread.Queue.{IsScheduled}
use os_elephant.Thread.Schedule.{scheduled, schedule-IsScheduled, scheduled-next, scheduled-fields}

-- So many calls of `schedule`, each by the thread that the one before it gave the processor.
unfoldable pub rounds : ℕ → Cmd (Unit {0})
rounds zero = pure tt
rounds (suc n) = do schedule; rounds n

-- In a consistent kernel with interrupts off, a thread behind the threads `xs` in the ready queue
-- has the processor after one call of `schedule` for each of them and one for itself, where the
-- threads before it run until their time is up. No call stops at an assertion.
pub rounds-current :
    {k : Kernel} (xs : List ℕ) (t : ℕ) (ys : List ℕ)
    → IsScheduled k
    → k.interrupts ≡ false
    → k.ready_list ≡ xs ++ t ∷ ys
    → (g : Kernel) × (rounds (suc (length xs)) k ≡ ok (tt, g)) × (g.current ≡ t) × IsScheduled g
unfolding rounds
rounds-current {k} [] t ys s off e =
    let (run, next) = schedule-IsScheduled s.consistent off in
    (scheduled k, simp run, (scheduled-next k t ys s.on e).0, next)
rounds-current {k} (x ∷ xs) t ys s off e =
    let (run, next) = schedule-IsScheduled s.consistent off in
    let (at, q) = scheduled-next k x (xs ++ t ∷ ys) s.on e in
    let (g, rest, here, last) =
      rounds-current {k = scheduled k} xs t (ys ++ k.current ∷ []) next
        ((scheduled-fields k).1 ∙ off) (q ∙ append_assoc xs (t ∷ ys) (k.current ∷ [])) in
    (g, ap (λ o. and_then o (λ _. rounds (suc (length xs)))) run ∙ rest, here, last)
