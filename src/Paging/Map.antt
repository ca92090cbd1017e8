-- ===== src/Paging/Map.antt =====
-- `map_pages`: each page gets a frame of its own, which was free.
use os_elephant.Base.{
  has, Distinct, ℕ, zero, suc, ◌+◌, ◌*◌, ◌/◌, ◌%◌, ◌^◌, ◌<◌, ◌≤◌, ◌≡◌, refl, sym, ap, ◌∙◌, subst,
  Bool, true, false, List, [], ◌∷◌, ◌==◌, if◌then◌else◌, Outcome, ok, arith, Bool-cases, inl, inr,
  length,
}
use os_elephant.Bitmap
use os_elephant.Bitmap.{Bitmap, scan_bit}
use os_elephant.Bitmap.Free.{HasFree, set-HasFree}
use os_elephant.Pools.{palloc}
use os_elephant.Pools.Layout.{pages, IsLaid}
use os_elephant.Pools.Pages.{address, taken, palloc-lowest, kernel-IsPool}
use os_elephant.Vaddr.{pf_kernel}
use os_elephant.Vaddr.Runs.{in_run}
use os_elephant.Paging.{
  Paging, is_present, entry_for, set_pte, pte_ptr, pde_ptr, page_table_add, map_pages,
}
use os_elephant.Paging.Frames.{
  AtPages, with_bit, with_bit-IsLaid, Stays, trans-Stays, frame_used, HasTables,
}

-- `left` pages from `vp` on are mapped to the frames.
pub record Mapped (e : ℕ) (s : Paging) (vp left : ℕ) (frames : List ℕ) (after : Paging)
    : Type 0 where
  pub stays : Stays e s after
  pub count : length frames ≡ left
  pub inside :
      (k : ℕ) → has k frames ≡ true → (k < pages s.pools.kernel_pool) × (frame_used s k ≡ false)
  pub distinct : Distinct frames
  pub at : AtPages s.pools.kernel_pool.phy_addr_begin vp frames after.pte
  pub others : (i : ℕ) → in_run vp left i ≡ false → after.pte i ≡ s.pte i
  pub bits : (k : ℕ) → frame_used after k ≡ (if has k frames then true else frame_used s k)

-- One page: a frame is taken and its entry is written.
abbrev one_page : Paging → (vaddr page : ℕ) → Paging
one_page s vaddr page =
    set_pte vaddr (entry_for (address s.pools.kernel_pool page))
      (record s { pools = with_bit page true s.pools })

one_page-Stays :
    (e vaddr page : ℕ) (s : Paging) → IsLaid e s.pools → Stays e s (one_page s vaddr page)
one_page-Stays e vaddr page s laid = record {
  laid = with_bit-IsLaid s.pools e page true laid;
  spaces = refl;
  pde = refl;
  user_pool = refl;
  begin = refl;
  count = unfold Bitmap.set in refl;
}

map_pages-step :
    (left vaddr page : ℕ) (s : Paging) (result : Outcome (Bool × Paging))
    → palloc s.pools.kernel_pool
      ≡ ok (address s.pools.kernel_pool page, taken s.pools.kernel_pool page)
    → (address s.pools.kernel_pool page == 0) ≡ false
    → is_present (s.pde (pde_ptr vaddr)) ≡ true
    → is_present (s.pte (pte_ptr vaddr)) ≡ false
    → (vaddr + 4096) % 2 ^ 32 ≡ vaddr + 4096
    → map_pages left pf_kernel (vaddr + 4096) (one_page s vaddr page) ≡ result
    → map_pages (suc left) pf_kernel vaddr s ≡ result
unfolding map_pages page_table_add
map_pages-step left vaddr page s result grants filled table absent next run =
    rw (grants, filled, table, absent, next) run

flip : (a b : ℕ) → (a == b) ≡ false → (b == a) ≡ false
flip a b other = ground arith

pub map_pages-Mapped :
    (e left vp : ℕ) (s : Paging)
    → IsLaid e s.pools
    → (vp + left + 1) * 4096 ≤ 2 ^ 32
    → HasFree s.pools.kernel_pool.pool_bitmap left
    → HasTables s.pde vp left
    → ((i : ℕ) → vp ≤ i → i < vp + left → is_present (s.pte i) ≡ false)
    → (frames : List ℕ) × (after : Paging) × (map_pages left pf_kernel (vp * 4096) s
        ≡ ok (true, after))
      × Mapped e s vp left frames after
unfolding map_pages
map_pages-Mapped e zero vp s laid small free tables absent = (
  [],
  s,
  refl,
  record {
    stays = record {
      laid = laid;
      spaces = refl;
      pde = refl;
      user_pool = refl;
      begin = refl;
      count = refl;
    };
    count = refl;
    inside = λ k there. absurd (ground arith);
    distinct = tt;
    at = tt;
    others = λ i out. refl;
    bits = λ k. refl;
  },
)
map_pages-Mapped e (suc left) vp s laid small free tables absent =
    let pool = s.pools.kernel_pool in
    let (page, grants, below, off, on, bits, valid) =
      palloc-lowest pool (free.at 0) (kernel-IsPool laid) (free.below 0 (omega arith))
        (free.free 0 (omega arith)) in
    let index : vp * 4096 / 2 ^ 12 ≡ vp = omega arith in
    let table : vp * 4096 / 2 ^ 22 ≡ vp / 1024 = omega arith in
    let one = one_page s (vp * 4096) page in
    let entries : (i : ℕ)
        → one.pte i ≡ (if i == vp then entry_for (address pool page) else s.pte i) =
      λ i. ap (λ x. if i == x then entry_for (address pool page) else s.pte i) index in
    let other_entry : (i : ℕ) → (i == vp) ≡ false → one.pte i ≡ s.pte i =
      λ i other. entries i ∙ rw other refl in
    let rest =
      set-HasFree pool.pool_bitmap page left laid.kernel_valid
        (subst (λ n. HasFree pool.pool_bitmap n) (omega arith) free) in
    let (frames, after, run, m) =
      map_pages-Mapped e left (vp + 1) one (with_bit-IsLaid s.pools e page true laid) (omega arith)
        rest (λ i le lt. tables i (omega arith) (omega arith))
        (λ i le lt.
          ap is_present (other_entry i (ground arith)) ∙ absent i (omega arith) (omega arith)) in
    let next : (vp + 1) * 4096 ≡ vp * 4096 + 4096 = omega arith in
    (
      page ∷ frames,
      after,
      map_pages-step left (vp * 4096) page s (ok (true, after)) grants (ground (arith, laid.low))
          (ap (λ i. is_present (s.pde i)) table ∙ tables vp (omega arith) (omega arith))
          (ap (λ i. is_present (s.pte i)) index ∙ absent vp (omega arith) (omega arith))
          (omega arith) (subst (λ v. map_pages left pf_kernel v one ≡ ok (true, after)) next run),
      record {
        stays = trans-Stays e s one after (one_page-Stays e (vp * 4096) page s laid) m.stays;
        count = ap suc m.count;
        inside = λ k there. elim (Bool-cases (page == k)) [
          | inl same ↦
              let e : page ≡ k = ground arith in
              (omega (arith, below, e), subst (λ x. frame_used s x ≡ false) e off)
          | inr other ↦
              let (lt, clear) = m.inside k (rw other at there) in
              (
                omega (arith, lt, (one_page-Stays e (vp * 4096) page s laid).count),
                sym (rw (flip page k other) at (bits k)) ∙ clear,
              )
        ];
        distinct = (
          elim (Bool-cases (has page frames)) [
            | inl there ↦ absurd (ground (arith, bits page, (m.inside page there).1))
            | inr missing ↦ missing
          ],
          m.distinct,
        );
        at = (m.others vp (ground arith) ∙ entries vp ∙ ground arith, m.at);
        others = λ i out. m.others i (ground arith) ∙ other_entry i (ground arith);
        bits = λ k. m.bits k ∙ ground (arith, bits k);
      },
    )
