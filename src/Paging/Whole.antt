-- ===== src/Paging/Whole.antt =====
-- `malloc_page` for the kernel, as one call.
use os_elephant.Base.{
  ℕ, ◌+◌, ◌-◌, ◌*◌, ◌/◌, ◌%◌, ◌^◌, ◌<◌, ◌≤◌, ◌≡◌, refl, sym, ap, ◌∙◌, subst, true, false, ◌&&◌,
  Option, none, some, List, ◌==◌, ltb, ok, arith,
}
use os_elephant.Bitmap.{Bitmap, scan_bit}
use os_elephant.Bitmap.Runs.{Run, FirstRun}
use os_elephant.Bitmap.Free.{HasFree}
use os_elephant.Pools.Layout.{IsLaid}
use os_elephant.Vaddr.{pf_kernel, vaddr_get}
use os_elephant.Vaddr.Runs.{in_run, IsSpace, granted, looked_at, vaddr_get-FirstRun}
use os_elephant.Paging.{Paging, is_present, map_pages, malloc_page}
use os_elephant.Paging.Frames.{HasTables}
use os_elephant.Paging.Map.{Mapped, map_pages-Mapped}

-- The bits of the kernel's space, and the number of its first page.
abbrev pub space_bits : Paging → Bitmap
space_bits s = s.spaces.kernel_vaddr.vaddr_bitmap

abbrev pub first_page : Paging → ℕ
first_page s = s.spaces.kernel_vaddr.vaddr_begin / 4096

-- Pools as `mem_pool_init` lays them out, behind the tables that the loader made, and a space whose
-- pages, with one more behind, have their page tables, and are not present where they are free.
pub record IsPaging (e : ℕ) (s : Paging) : Type 0 where
  pub laid : IsLaid e s.pools
  pub frames : s.pools.kernel_pool.phy_addr_begin % 4096 ≡ 0
  pub behind : 0x102000 ≤ s.pools.kernel_pool.phy_addr_begin
  pub space : IsSpace s.spaces.kernel_vaddr
  pub begin : s.spaces.kernel_vaddr.vaddr_begin % 4096 ≡ 0
  pub room : s.spaces.kernel_vaddr.vaddr_begin + ((space_bits s).bytes_len * 8 + 2) * 4096 ≤ 2 ^ 32
  pub tables : HasTables s.pde (first_page s) ((space_bits s).bytes_len * 8 + 2)
  pub absent :
      (k : ℕ)
      → k ≤ (space_bits s).bytes_len * 8
      → scan_bit (space_bits s) k ≡ false
      → is_present (s.pte (first_page s + k)) ≡ false

-- The space with the run of pages marked.
abbrev pub reserved : Paging → (n r : ℕ) → Paging
reserved s n r = record s { spaces = (granted s.spaces n (some r)).1 }

-- `n` pages from page `r` of the space on, which were free, with frames that were free.
pub record Given (e : ℕ) (s : Paging) (n r : ℕ) (frames : List ℕ) (after : Paging) : Type 0 where
  pub inside : r + n ≤ (space_bits s).bytes_len * 8 + 1
  pub run : FirstRun (space_bits s) n (looked_at (space_bits s) n) (some r)
  pub mapped : Mapped e (reserved s n r) (first_page s + r) n frames after

malloc_page-run :
    (s : Paging) (n r : ℕ) (after : Paging)
    → 0 < n
    → n < 3840
    → vaddr_get pf_kernel n s.spaces ≡ ok (granted s.spaces n (some r))
    → (s.spaces.kernel_vaddr.vaddr_begin + r * 4096 == 0) ≡ false
    → map_pages n pf_kernel (s.spaces.kernel_vaddr.vaddr_begin + r * 4096) (reserved s n r)
      ≡ ok (true, after)
    → malloc_page pf_kernel n s ≡ ok (s.spaces.kernel_vaddr.vaddr_begin + r * 4096, after)
unfolding malloc_page
malloc_page-run s n r after pos few gets filled maps =
    let known : (ltb 0 n && ltb n 3840) ≡ true = ground arith in rw (known, gets, filled, maps) refl

-- The run that `vaddr_get` finds, where there is one.
found-Run :
    (b : Bitmap) (n start : ℕ) (o : Option ℕ)
    → start + n ≤ b.bytes_len * 8
    → Run b start n
    → FirstRun b n (looked_at b n) o
    → (r : ℕ) × (o ≡ some r) × FirstRun b n (looked_at b n) (some r)
found-Run b n start none fits run first = absurd (first start (ground arith) run)
found-Run b n start (some r) fits run first = (r, refl, first)

pub malloc_page-Given :
    (e n start : ℕ) (s : Paging)
    → IsPaging e s
    → 0 < n
    → n < 3840
    → start + n ≤ (space_bits s).bytes_len * 8
    → Run (space_bits s) start n
    → HasFree s.pools.kernel_pool.pool_bitmap n
    → (r : ℕ) × (frames : List ℕ) × (after : Paging) × (malloc_page pf_kernel n s
        ≡ ok (s.spaces.kernel_vaddr.vaddr_begin + r * 4096, after))
      × Given e s n r frames after
malloc_page-Given e n start s is pos few fits run free =
    let (o, gets, first) =
      vaddr_get-FirstRun s.spaces n start is.space pos (omega arith)
        (run start (omega arith) (omega arith)) in
    let (r, is_some, found) = found-Run (space_bits s) n start o fits run first in
    let inside : r + n ≤ (space_bits s).bytes_len * 8 + 1 = ground (arith, found.0) in
    let vp = first_page s + r in
    let (frames, after, maps, mapped) =
      map_pages-Mapped e n vp (reserved s n r) is.laid (omega (arith, is.room, is.begin)) free
        (λ i le lt. is.tables i (omega arith) (omega arith))
        (λ i le lt.
          let index : first_page s + (i - first_page s) ≡ i = omega arith in
          ap (λ x. is_present (s.pte x)) (sym index)
          ∙ is.absent (i - first_page s) (omega arith)
              (found.1 (i - first_page s) (omega arith) (omega arith))) in
    let at : vp * 4096 ≡ s.spaces.kernel_vaddr.vaddr_begin + r * 4096 = omega (arith, is.begin) in
    (
      r,
      frames,
      after,
      malloc_page-run s n r after pos few
          (subst (λ x. vaddr_get pf_kernel n s.spaces ≡ ok (granted s.spaces n x)) is_some gets)
          (ground (arith, is.space.above))
          (subst (λ v. map_pages n pf_kernel v (reserved s n r) ≡ ok (true, after)) at maps),
      record { inside = inside; run = found; mapped = mapped },
    )

-- The entry of a page of the run was not present.
pub absent_before :
    (e n r : ℕ) (s : Paging) (frames : List ℕ) (after : Paging) (i : ℕ)
    → IsPaging e s
    → Given e s n r frames after
    → in_run (first_page s + r) n i ≡ true
    → is_present (s.pte i) ≡ false
absent_before e n r s frames after i is given there =
    let index : first_page s + (i - first_page s) ≡ i = ground arith in
    let low : i - first_page s ≤ (space_bits s).bytes_len * 8 = ground (arith, given.inside) in
    let lo : r ≤ i - first_page s = ground arith in
    let hi : i - first_page s < r + n = ground arith in
    ap (λ x. is_present (s.pte x)) (sym index)
    ∙ is.absent (i - first_page s) low (given.run.1 (i - first_page s) lo hi)
