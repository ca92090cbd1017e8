-- ===== src/FileTable/Descriptors.antt =====
-- A descriptor that is installed leads to its file.
use native.Mathlib.Decide.{ℕ_discrete}
use os_elephant.Base.{
  ℕ, zero, suc, ◌+◌, ◌<◌, ◌≤◌, ◌≡◌, ◌≢◌, refl, ap, ◌∙◌, true, Option, none, some, List, [], ◌∷◌,
  ◌==◌, ltb, if◌then◌else◌, get_elem?, set, ok, arith,
}
use os_elephant.Thread.{Kernel, set_task}
use os_elephant.FileTable.{install, installed, pcb_fd_install, as_global, fd_local2global}

pub get_elem-set_same :
    {A : Type 0} (xs : List A) (i : ℕ) (v w : A)
    → get_elem? xs i ≡ some w
    → get_elem? (set xs i v) i ≡ some v
get_elem-set_same [] i v w h = cc
get_elem-set_same (x ∷ xs) zero v w h = refl
get_elem-set_same (x ∷ xs) (suc i) v w h = get_elem-set_same xs i v w h

pub get_elem-set_other :
    {A : Type 0} (xs : List A) (i : ℕ) (v : A) (j : ℕ)
    → j ≢ i
    → get_elem? (set xs i v) j ≡ get_elem? xs j
get_elem-set_other [] i v j ne = refl
get_elem-set_other (x ∷ xs) zero v zero ne = absurd (ne refl)
get_elem-set_other (x ∷ xs) zero v (suc j) ne = refl
get_elem-set_other (x ∷ xs) (suc i) v zero ne = refl
get_elem-set_other (x ∷ xs) (suc i) v (suc j) ne = get_elem-set_other xs i v j (λ e. ne (ap suc e))

-- The loop installs at a place that was free.
record Installs (n local global : ℕ) (fds : List (Option ℕ)) : Type 0 where
  at : ℕ
  runs : install n local global fds ≡ some (at, set fds at (some global))
  from : local ≤ at
  to : at < local + n
  free : get_elem? fds at ≡ some none

module _ (global : ℕ) (fds : List (Option ℕ)) where
  past :
      {n local : ℕ}
      → install (suc n) local global fds ≡ install n (local + 1) global fds
      → Installs n (local + 1) global fds
      → Installs (suc n) local global fds
  past skips rest = record {
    at = rest.at;
    runs = skips ∙ rest.runs;
    from = omega (arith, rest.from);
    to = omega (arith, rest.to);
    free = rest.free;
  }

  -- One round of the loop, by what stands at its place.
  step :
      (n local : ℕ) (o : Option (Option ℕ))
      → get_elem? fds local ≡ o
      → (o ≢ some none → Installs n (local + 1) global fds)
      → Installs (suc n) local global fds
  unfolding install
  step n local none e rest = past (rw (install, e) refl) (rest λ f. cc)
  step n local (some (some g)) e rest = past (rw (install, e) refl) (rest λ f. cc)
  step n local (some none) e rest = record {
    at = local;
    runs = rw (install, e) refl;
    from = omega arith;
    to = omega arith;
    free = e;
  }

  install-Installs :
      (n local i : ℕ)
      → local ≤ i
      → i < local + n
      → get_elem? fds i ≡ some none
      → Installs n local global fds
  install-Installs zero local i lo hi free = absurd (omega arith)
  install-Installs (suc n) local i lo hi free = step n local (get_elem? fds local) refl λ ne.
      let other : local ≢ i = λ e. ne (ap (get_elem? fds) e ∙ free) in
      install-Installs n (local + 1) i (omega arith) (omega arith) free

-- Where the current process has a free descriptor i from 3 to 7, `pcb_fd_install` of an index into the file
-- table succeeds: the descriptor that it returns is one of those, was free, and leads by
-- `fd_local2global` to that index, and every other descriptor of the process is as before.
pub fd_local2global-pcb_fd_install :
    (k : Kernel) (global i : ℕ)
    → global < 32
    → 3 ≤ i
    → i < 8
    → get_elem? (k.tasks k.current).fd_table i ≡ some none
    → (local : ℕ) × (after : Kernel) × (pcb_fd_install global k ≡ ok (some local, after))
      × (3 ≤ local)
      × (local < 8)
      × (get_elem? (k.tasks k.current).fd_table local ≡ some none)
      × (fd_local2global local after ≡ ok global)
      × ((j : ℕ)
          → get_elem? (after.tasks after.current).fd_table j
            ≡ (if j == local then some (some global) else get_elem? (k.tasks k.current).fd_table j))
unfolding pcb_fd_install installed fd_local2global as_global
fd_local2global-pcb_fd_install k global i small lo hi free =
    let fds = (k.tasks k.current).fd_table in
    let done = install-Installs global fds 5 3 i lo hi free in
    let after =
      set_task k.current (record (k.tasks k.current) { fd_table = set fds done.at (some global) })
        k in
    let mine : (k.current == k.current) ≡ true = ground arith in
    let below : ltb global 32 ≡ true = ground arith in
    (
      done.at,
      after,
      simp done.runs,
      done.from,
      done.to,
      done.free,
      rw (mine, get_elem-set_same fds done.at (some global) none done.free, below) refl,
      λ j. rw mine (elim (ℕ_discrete j done.at) [
        | yes e ↦ ground (
          arith,
          get_elem-set_same fds done.at (some global) none done.free,
          ap (get_elem? (set fds done.at (some global))) e,
        )
        | no ne ↦ ground (arith, get_elem-set_other fds done.at (some global) j ne)
      ]),
    )
