-- ===== src/FileTable/Slots.antt =====
-- The free slot of the file table.
use os_elephant.Base.{
  ℕ, zero, suc, ◌+◌, ◌<◌, ◌≤◌, ◌≡◌, subst, Bool, true, false, Option, none, some, ◌==◌, arith,
  Bool-cases, inl, inr,
}
use native.Mathlib.Decide.{ℕ_discrete}
use os_elephant.FileTable.{File, free_slot, get_free_slot_in_global_filetable}

abbrev pub is_free : (ℕ → File) → ℕ → Bool
is_free file_table i = (file_table i).fd_inode == 0

-- The first free slot from `low` to below `high`, or `none` where there is none.
abbrev pub FirstFree : (ℕ → File) → (low high : ℕ) → Option ℕ → Type 0
FirstFree t low high none = (i : ℕ) → low ≤ i → i < high → is_free t i ≡ false
FirstFree t low high (some r) =
    (low ≤ r)
    × (r < high)
    × (is_free t r ≡ true)
    × ((i : ℕ) → low ≤ i → i < r → is_free t i ≡ false)

later :
    (t : ℕ → File) (low high : ℕ) (o : Option ℕ)
    → is_free t low ≡ false
    → FirstFree t (low + 1) high o
    → FirstFree t low high o
later t low high none used f =
    λ i p q. elim (ℕ_discrete i low) [ yes e ↦ rw e used | no ne ↦ f i (omega arith) q ]
later t low high (some r) used f = (
  omega (arith, f.0),
  f.1,
  f.2,
  λ i p q. elim (ℕ_discrete i low) [ yes e ↦ rw e used | no ne ↦ f.3 i (omega arith) q ],
)

free_slot-FirstFree : (n low : ℕ) (t : ℕ → File) → FirstFree t low (low + n) (free_slot n low t)
unfolding free_slot
free_slot-FirstFree zero low t = λ i p q. absurd (omega arith)
free_slot-FirstFree (suc n) low t = elim (Bool-cases (is_free t low)) [
  | inl free ↦ rw free (omega arith, omega arith, free, λ i p q. absurd (omega arith))
  | inr used ↦
      let same : low + 1 + n ≡ low + suc n = omega arith in
      rw used (
        later t low (low + suc n) (free_slot n (low + 1) t) used (
          subst (λ h. FirstFree t (low + 1) h (free_slot n (low + 1) t)) same
            (free_slot-FirstFree n (low + 1) t)))
]

-- `get_free_slot_in_global_filetable` returns the lowest free slot of the file table that is not
-- one of the three standard streams, or -1 if all of them are in use.
pub get_free_slot-FirstFree :
    (t : ℕ → File) → FirstFree t 3 32 (get_free_slot_in_global_filetable t)
unfolding get_free_slot_in_global_filetable
get_free_slot-FirstFree t = free_slot-FirstFree 29 3 t
