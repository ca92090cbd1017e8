-- ===== src/Dir/Listing/Sectors.antt =====
-- The entries of one sector, and the walk over them.
use native.Mathlib.Decide.{ℕ_discrete}
use os_elephant.Base.{
  ℕ, zero, suc, ◌+◌, ◌-◌, ◌*◌, ◌%◌, ◌^◌, ◌<◌, ◌≤◌, ◌≡◌, refl, sym, ap, ◌∙◌, true, false, some, List,
  [], ◌∷◌, ◌++◌, ◌==◌, ltb, if◌then◌else◌, ok, arith, Bool-cases, inl, inr, get_elem?, get_or,
  length,
}
use os_elephant.Ide.{Buffer}
use os_elephant.Dir.Listing.{Walk, at_entry, walked, is_live, walk_entries}

-- The places of the entries of a sector that are in use.
pub live_in : (left dir_entry_idx : ℕ) → Buffer → List ℕ
live_in zero dir_entry_idx buf = []
live_in (suc left) dir_entry_idx buf =
    let rest = live_in left (dir_entry_idx + 1) buf in
    if is_live buf dir_entry_idx then dir_entry_idx * 24 ∷ rest else rest

abbrev pub in_sector : Buffer → List ℕ → List (Buffer × ℕ)
in_sector buf [] = []
in_sector buf (at ∷ ats) = (buf, at) ∷ in_sector buf ats

-- The end of the walk, by the entries that are left of it.
abbrev pub walk_of : List ℕ → (c k : ℕ) → Walk
walk_of ats c k =
    if ltb k (c + length ats)
    then at_entry (get_or ats (k - c) 0)
    else walked ((c + length ats) * 24)

walk_of-more :
    (at : ℕ) (ats : List ℕ) (c k : ℕ) → c < k → walk_of (at ∷ ats) c k ≡ walk_of ats (c + 1) k
walk_of-more at ats c k lt =
    let index : k - c ≡ suc (k - (c + 1)) = omega arith in
    let count : c + suc (length ats) ≡ c + 1 + length ats = omega arith in rw (index, count) refl

walk_of-here : (at : ℕ) (ats : List ℕ) (c k : ℕ) → c ≡ k → walk_of (at ∷ ats) c k ≡ at_entry at
walk_of-here at ats c k e =
    let index : k - c ≡ 0 = omega arith in
    let inside : ltb k (c + suc (length ats)) ≡ true = ground arith in rw (inside, index) refl

pub walk_entries-live :
    (left dir_entry_idx c k : ℕ) (buf : Buffer)
    → c ≤ k
    → k * 24 < 2 ^ 31
    → walk_entries left dir_entry_idx (c * 24) (k * 24) 24 buf
      ≡ ok (walk_of (live_in left dir_entry_idx buf) c k)
unfolding walk_entries live_in
walk_entries-live zero i c k buf le small =
    let past : ltb k (c + 0) ≡ false = ground arith in
    let same : c + 0 ≡ c = omega arith in rw (past, same) refl
walk_entries-live (suc left) i c k buf le small =
    let next : (c * 24 + 24) % 2 ^ 32 ≡ (c + 1) * 24 = omega arith in
    let rest = walk_entries-live left (i + 1) c k buf le small in
    elim (Bool-cases (is_live buf i)) [
      | inl live ↦ elim (ℕ_discrete c k) [
        | yes e ↦
            let here : ltb (c * 24) (k * 24) ≡ false = ground arith in
            let same : (c * 24 == k * 24) ≡ true = ground arith in
            rw (live, here, same)
              (ap ok (sym (walk_of-here (i * 24) (live_in left (i + 1) buf) c k e)))
        | no ne ↦
            let before : ltb (c * 24) (k * 24) ≡ true = ground arith in
            let more = walk_entries-live left (i + 1) (c + 1) k buf (omega arith) small in
            rw (live, before, next)
              (more
                ∙ ap ok (sym (walk_of-more (i * 24) (live_in left (i + 1) buf) c k (omega arith))))
      ]
      | inr free ↦ rw free rest
    ]

pub sector-hit :
    (buf : Buffer) (ats : List ℕ) (rest : List (Buffer × ℕ)) (i : ℕ)
    → i < length ats
    → get_elem? (in_sector buf ats ++ rest) i ≡ some (buf, get_or ats i 0)
sector-hit buf [] rest i lt = absurd (omega arith)
sector-hit buf (at ∷ ats) rest zero lt = refl
sector-hit buf (at ∷ ats) rest (suc i) lt = sector-hit buf ats rest i (omega arith)

pub sector-miss :
    (buf : Buffer) (ats : List ℕ) (rest : List (Buffer × ℕ)) (i : ℕ)
    → length ats ≤ i
    → get_elem? (in_sector buf ats ++ rest) i ≡ get_elem? rest (i - length ats)
sector-miss buf [] rest i le = ap (get_elem? rest) (omega arith)
sector-miss buf (at ∷ ats) rest zero le = absurd (omega arith)
sector-miss buf (at ∷ ats) rest (suc i) le =
    sector-miss buf ats rest i (omega arith) ∙ ap (get_elem? rest) (omega arith)
