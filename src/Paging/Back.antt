-- ===== src/Paging/Back.antt =====
-- `mfree_page` of the pages that `malloc_page` handed out.
use os_elephant.Base.{
  has, ℕ, ◌+◌, ◌*◌, ◌/◌, ◌%◌, ◌<◌, ◌≤◌, ◌≡◌, refl, sym, ap, ◌∙◌, subst, true, false, ◌&&◌, some,
  List, [], ◌∷◌, ◌==◌, leb, ok, arith, Bool-cases, inl, inr, length,
}
use os_elephant.Bitmap.{scan_bit}
use os_elephant.Bitmap.Runs.{Run}
use os_elephant.Bitmap.Free.{HasFree}
use os_elephant.Pools.Layout.{pages}
use os_elephant.Vaddr.{pf_kernel, vaddr_remove}
use os_elephant.Vaddr.Runs.{in_run, granted, looked_at, returned-bits}
use os_elephant.Paging.{Paging, is_present, addr_v2p, malloc_page, free_frames, mfree_page}
use os_elephant.Paging.Frames.{AtPages, frame_used, HasTables}
use os_elephant.Paging.Release.{addr_v2p-frame, free_frames-Freed}
use os_elephant.Paging.Whole.{
  space_bits, first_page, IsPaging, Given, malloc_page-Given, absent_before,
}

mfree_page-run :
    (s freed : Paging) (vaddr n frame : ℕ)
    → 0 < n
    → vaddr % 4096 ≡ 0
    → addr_v2p vaddr s ≡ ok frame
    → frame % 4096 ≡ 0
    → 0x102000 ≤ frame
    → frame < s.pools.user_pool.phy_addr_begin
    → free_frames n false vaddr frame s ≡ ok freed
    → mfree_page pf_kernel vaddr n s
      ≡ ok (record freed { spaces = vaddr_remove pf_kernel vaddr n freed.spaces })
unfolding mfree_page
mfree_page-run s freed vaddr n frame pos aligned reads frame_aligned behind low frees =
    let known : (leb 1 n && (vaddr % 4096 == 0)) ≡ true = ground arith in
    let frame_ok : ((frame % 4096 == 0) && leb 0x102000 frame) ≡ true = ground arith in
    let kernel : leb s.pools.user_pool.phy_addr_begin frame ≡ false = ground arith in
    rw (known, reads, frame_ok, kernel, frees) refl

-- What the free pages come to, once they are taken and given back.
pub record Restored (s after : Paging) : Type 0 where
  pub space : (k : ℕ) → scan_bit (space_bits after) k ≡ scan_bit (space_bits s) k
  pub frames : (k : ℕ) → frame_used after k ≡ frame_used s k
  pub present : (i : ℕ) → is_present (after.pte i) ≡ is_present (s.pte i)

mfree_page-Restored :
    (e n r : ℕ) (s : Paging) (frames : List ℕ) (between : Paging)
    → IsPaging e s
    → 0 < n
    → Given e s n r frames between
    → (after : Paging) × (mfree_page pf_kernel
          (s.spaces.kernel_vaddr.vaddr_begin + r * 4096)
          n
          between
        ≡ ok after)
      × Restored s after
mfree_page-Restored e n r s [] between is pos given = absurd (omega (arith, given.mapped.count))
mfree_page-Restored e n r s (f ∷ fs) between is pos given =
    let m = given.mapped in
    let frames : List ℕ = f ∷ fs in
    let begin = s.pools.kernel_pool.phy_addr_begin in
    let vp = first_page s + r in
    let vaddr = s.spaces.kernel_vaddr.vaddr_begin + r * 4096 in
    let place : vp * 4096 ≡ vaddr = omega (arith, is.begin) in
    let len : length frames ≡ n = m.count in
    let here : (f < pages s.pools.kernel_pool) × (frame_used s f ≡ false) =
      m.inside f (ground arith) in
    let tables : HasTables between.pde vp (n + 1) = λ i le lt.
      ap (λ d. is_present (d (i / 1024))) m.stays.pde
      ∙ is.tables i (omega arith) (omega (arith, given.inside)) in
    let at = subst (λ b. AtPages b vp frames between.pte) (sym m.stays.begin) m.at in
    let frame = begin + f * 4096 in
    let (freed, frees, back) =
      free_frames-Freed e vp frames frame between m.stays.laid
        (ap (λ x. x % 4096) m.stays.begin ∙ is.frames)
        (omega (arith, is.room, is.begin, given.inside, len))
        (subst (λ x. HasTables between.pde vp (x + 1)) (sym len) tables)
        (λ k there. let (lt, clear) = m.inside k there in omega (arith, lt, m.stays.count)) at
        (ap (λ b. b + f * 4096) (sym m.stays.begin)) in
    let reads =
      addr_v2p-frame between vp frame (tables vp (omega arith) (omega arith)) m.at.0
        (omega (arith, is.frames)) in
    let top : frame < between.pools.user_pool.phy_addr_begin =
      omega (arith, here.0, is.laid.apart, ap (λ p. p.phy_addr_begin) m.stays.user_pool) in
    let spaces : freed.spaces ≡ (granted s.spaces n (some r)).1 =
      back.stays.spaces ∙ m.stays.spaces in
    (
      record freed { spaces = vaddr_remove pf_kernel vaddr n freed.spaces },
      mfree_page-run between freed vaddr n frame pos (omega (arith, is.begin))
          (subst (λ v. addr_v2p v between ≡ ok frame) place reads) (omega (arith, is.frames))
          (omega (arith, is.behind)) top
          (subst (λ c. free_frames c false vaddr frame between ≡ ok freed) len
            (subst (λ v. free_frames (length frames) false v frame between ≡ ok freed) place
              frees)),
      record {
        space = λ k.
            ap (λ x. scan_bit (vaddr_remove pf_kernel vaddr n x).kernel_vaddr.vaddr_bitmap k) spaces
            ∙ returned-bits s.spaces n (looked_at (space_bits s) n) (some r) k is.space pos
                (ground arith) given.run;
        frames = λ k. back.bits k ∙ elim (Bool-cases (has k frames)) [
          | inl there ↦ rw there (sym (m.inside k there).1)
          | inr other ↦ rw other (m.bits k ∙ rw other refl)
        ];
        present = λ i. elim (Bool-cases (in_run vp n i)) [
          | inl there ↦
              back.absent i (subst (λ c. in_run vp c i ≡ true) (sym len) there)
              ∙ sym (absent_before e n r s frames between i is given there)
          | inr other ↦ ap is_present (
              back.others i (subst (λ c. in_run vp c i ≡ false) (sym len) other) ∙ m.others i other)
        ];
      },
    )

-- In pools as `mem_pool_init` lays them out, where the kernel's pool and space begin at the start
-- of a page, the pool at 0x102000 or above, and the space ends below 2 ^ 32 and has a run of as
-- many free pages, from 1 to 3839, and the kernel's pool as many free frames, and where the page
-- tables of the space are there and the entries of its free pages are not present: after
-- `mfree_page` of the pages that `malloc_page` hands out, the same pages of the kernel's space and
-- the same frames of its pool are free as before both calls, and the same entries of the page
-- tables are present.
pub mfree_page-malloc_page :
    (e n start : ℕ) (s : Paging)
    → IsPaging e s
    → 0 < n
    → n < 3840
    → start + n ≤ (space_bits s).bytes_len * 8
    → Run (space_bits s) start n
    → HasFree s.pools.kernel_pool.pool_bitmap n
    → (vaddr : ℕ) × (between after : Paging) × (malloc_page pf_kernel n s ≡ ok (vaddr, between))
      × (mfree_page pf_kernel vaddr n between ≡ ok after)
      × Restored s after
mfree_page-malloc_page e n start s is pos few fits run free =
    let (r, frames, between, runs, given) =
      malloc_page-Given e n start s is pos few fits run free in
    let (after, frees, restored) = mfree_page-Restored e n r s frames between is pos given in
    (s.spaces.kernel_vaddr.vaddr_begin + r * 4096, between, after, runs, frees, restored)
