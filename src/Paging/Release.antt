-- ===== src/Paging/Release.antt =====
-- `free_frames`: the frames of the pages go back, and their entries are no longer present.
use os_elephant.Base.{
  has, ℕ, suc, ◌+◌, ◌*◌, ◌/◌, ◌%◌, ◌^◌, ◌<◌, ◌≤◌, ◌≡◌, refl, sym, ap, ◌∙◌, subst, true, false, List,
  [], ◌∷◌, ◌==◌, if◌then◌else◌, Outcome, ok, arith, Bool-cases, inl, inr, length,
}
use os_elephant.Bitmap
use os_elephant.Bitmap.{Bitmap, scan_bit}
use os_elephant.Bitmap.Bits.{scan_bit-set}
use os_elephant.Pools.{pfree}
use os_elephant.Pools.Layout.{pages, IsLaid}
use os_elephant.Pools.Pages.{address, pfree-address}
use os_elephant.Vaddr.Runs.{in_run}
use os_elephant.Paging.{
  Paging, is_present, entry_for, set_pte, pte_ptr, pde_ptr, addr_v2p, page_table_pte_remove,
  in_pool, free_frames,
}
use os_elephant.Paging.Frames.{
  AtPages, AtPages-same, with_bit, with_bit-IsLaid, Stays, trans-Stays, frame_used, HasTables,
}

-- The frames are free, and the entries of the pages are as they were but not present.
pub record Freed (e : ℕ) (s : Paging) (vp : ℕ) (frames : List ℕ) (after : Paging) : Type 0 where
  pub stays : Stays e s after
  pub absent : (i : ℕ) → in_run vp (length frames) i ≡ true → is_present (after.pte i) ≡ false
  pub others : (i : ℕ) → in_run vp (length frames) i ≡ false → after.pte i ≡ s.pte i
  pub bits : (k : ℕ) → frame_used after k ≡ (if has k frames then false else frame_used s k)

in_more : (k f : ℕ) (fs : List ℕ) → has k fs ≡ true → has k (f ∷ fs) ≡ true
in_more k f fs there = ground (arith, there)

cleared : (entry : ℕ) → is_present (entry / 2 * 2) ≡ false
cleared entry = ground arith

-- One page: its entry is cleared and its frame is free.
abbrev one_back : Paging → (vaddr page : ℕ) → Paging
one_back s vaddr page =
    set_pte vaddr (s.pte (pte_ptr vaddr) / 2 * 2) (record s { pools = with_bit page false s.pools })

-- Where a page with the entry of a frame lies.
pub addr_v2p-frame :
    (s : Paging) (vp frame : ℕ)
    → is_present (s.pde (vp / 1024)) ≡ true
    → s.pte vp ≡ entry_for frame
    → frame % 4096 ≡ 0
    → addr_v2p (vp * 4096) s ≡ ok frame
unfolding addr_v2p
addr_v2p-frame s vp frame table entry aligned =
    let index : vp * 4096 / 2 ^ 12 ≡ vp = omega arith in
    let directory : vp * 4096 / 2 ^ 22 ≡ vp / 1024 = omega arith in
    let start : vp * 4096 % 2 ^ 12 ≡ 0 = omega arith in
    let value : entry_for frame / 2 ^ 12 * 2 ^ 12 + 0 ≡ frame = omega arith in
    rw (directory, index, table, entry, start, value) refl

free_frames-step :
    (count vaddr page next : ℕ) (s : Paging) (result : Outcome Paging)
    → in_pool false s.pools (address s.pools.kernel_pool page) ≡ true
    → pfree (address s.pools.kernel_pool page) s.pools ≡ with_bit page false s.pools
    → is_present (s.pde (pde_ptr vaddr)) ≡ true
    → (vaddr + 4096) % 2 ^ 32 ≡ vaddr + 4096
    → addr_v2p (vaddr + 4096) (one_back s vaddr page) ≡ ok next
    → free_frames count false (vaddr + 4096) next (one_back s vaddr page) ≡ result
    → free_frames (suc count) false vaddr (address s.pools.kernel_pool page) s ≡ result
unfolding free_frames page_table_pte_remove
free_frames-step count vaddr page next s result mine frees table moves reads run =
    rw (mine, frees, table, moves, reads) run

one_back-Stays :
    (e vaddr page : ℕ) (s : Paging) → IsLaid e s.pools → Stays e s (one_back s vaddr page)
one_back-Stays e vaddr page s laid = record {
  laid = with_bit-IsLaid s.pools e page false laid;
  spaces = refl;
  pde = refl;
  user_pool = refl;
  begin = refl;
  count = unfold Bitmap.set in refl;
}

-- What `addr_v2p` gives for the page behind.
v2p_next :
    (s : Paging) (vp : ℕ)
    → is_present (s.pde (vp / 1024)) ≡ true
    → (next : ℕ) × (addr_v2p (vp * 4096) s ≡ ok next)
unfolding addr_v2p
v2p_next s vp table =
    let directory : vp * 4096 / 2 ^ 22 ≡ vp / 1024 = omega arith in
    (s.pte (vp * 4096 / 2 ^ 12) / 2 ^ 12 * 2 ^ 12 + vp * 4096 % 2 ^ 12, rw (directory, table) refl)

-- The frame that the loop goes on with: that of the next page, where there is one.
abbrev pub FirstFrame : (begin : ℕ) → List ℕ → ℕ → Type 0
FirstFrame begin [] frame = Unit
FirstFrame begin (f ∷ fs) frame = frame ≡ begin + f * 4096

next_frame :
    (begin vp : ℕ) (frames : List ℕ) (s : Paging)
    → is_present (s.pde (vp / 1024)) ≡ true
    → begin % 4096 ≡ 0
    → AtPages begin vp frames s.pte
    → (next : ℕ) × (addr_v2p (vp * 4096) s ≡ ok next) × FirstFrame begin frames next
next_frame begin vp [] s table aligned at = let (next, run) = v2p_next s vp table in (next, run, tt)
next_frame begin vp (f ∷ fs) s table aligned at =
    (begin + f * 4096, addr_v2p-frame s vp (begin + f * 4096) table at.0 (omega arith), refl)

pub free_frames-Freed :
    (e vp : ℕ) (frames : List ℕ) (frame : ℕ) (s : Paging)
    → IsLaid e s.pools
    → s.pools.kernel_pool.phy_addr_begin % 4096 ≡ 0
    → (vp + length frames + 1) * 4096 ≤ 2 ^ 32
    → HasTables s.pde vp (length frames + 1)
    → ((k : ℕ) → has k frames ≡ true → k < pages s.pools.kernel_pool)
    → AtPages s.pools.kernel_pool.phy_addr_begin vp frames s.pte
    → FirstFrame s.pools.kernel_pool.phy_addr_begin frames frame
    → (after : Paging) × (free_frames (length frames) false (vp * 4096) frame s ≡ ok after)
      × Freed e s vp frames after
unfolding free_frames
free_frames-Freed e vp [] frame s laid aligned small tables inside at first = (
  s,
  refl,
  record {
    stays = record {
      laid = laid;
      spaces = refl;
      pde = refl;
      user_pool = refl;
      begin = refl;
      count = refl;
    };
    absent = λ i there. absurd (ground arith);
    others = λ i out. refl;
    bits = λ k. refl;
  },
)
free_frames-Freed e vp (f ∷ fs) frame s laid aligned small tables inside at first =
    let begin = s.pools.kernel_pool.phy_addr_begin in
    let self : (f == f) ≡ true = ground arith in
    let below : f < pages s.pools.kernel_pool = inside f (rw self refl) in
    let index : vp * 4096 / 2 ^ 12 ≡ vp = omega arith in
    let directory : vp * 4096 / 2 ^ 22 ≡ vp / 1024 = omega arith in
    let one = one_back s (vp * 4096) f in
    let one_stays = one_back-Stays e (vp * 4096) f s laid in
    let entries : (i : ℕ) → one.pte i ≡ (if i == vp then s.pte vp / 2 * 2 else s.pte i) =
      λ i. ap (λ x. if i == x then s.pte x / 2 * 2 else s.pte i) index in
    let bits : (k : ℕ) → frame_used one k ≡ (if k == f then false else frame_used s k) =
      λ k. scan_bit-set f k false laid.kernel_valid in
    let at_one =
      AtPages-same begin (vp + 1) fs s.pte one.pte (λ i le. entries i ∙ ground arith) at.1 in
    let (next, reads, starts) =
      next_frame begin (vp + 1) fs one (tables (vp + 1) (omega arith) (omega arith)) aligned
        at_one in
    let (after, run, freed) =
      free_frames-Freed e (vp + 1) fs next one one_stays.laid aligned (omega arith)
        (λ i le lt. tables i (omega arith) (omega arith))
        (λ k there. omega (arith, inside k (in_more k f fs there), one_stays.count)) at_one
        starts in
    let moved : (vp + 1) * 4096 ≡ vp * 4096 + 4096 = omega arith in
    (
      after,
      subst (λ x. free_frames (suc (length fs)) false (vp * 4096) x s ≡ ok after) (sym first)
          (free_frames-step (length fs) (vp * 4096) f next s (ok after) (ground (arith, laid.apart))
            ((pfree-address s.pools e f laid).0 below)
            (ap (λ i. is_present (s.pde i)) directory ∙ tables vp (omega arith) (omega arith))
            (omega arith) (subst (λ v. addr_v2p v one ≡ ok next) moved reads)
            (subst (λ v. free_frames (length fs) false v next one ≡ ok after) moved run)),
      record {
        stays = trans-Stays e s one after one_stays freed.stays;
        absent = λ i there. elim (Bool-cases (i == vp)) [
          | inl same ↦
              let here : after.pte i ≡ s.pte vp / 2 * 2 =
                freed.others i (ground arith) ∙ entries i ∙ rw same refl in
              ap is_present here ∙ cleared (s.pte vp)
          | inr other ↦ freed.absent i (ground arith)
        ];
        others = λ i out. freed.others i (ground arith) ∙ entries i ∙ ground arith;
        bits = λ k. freed.bits k ∙ ground (arith, bits k);
      },
    )
