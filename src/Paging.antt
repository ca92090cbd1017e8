-- ===== src/Paging.antt =====
-- kernel/c12f_memory.c: the page tables, and the calls that hand out virtual pages with frames under
-- them: `page_table_add`, `malloc_page`, `get_a_page`, `addr_v2p` and `mfree_page`. An entry of the
-- page directory is known by its index, and one of the page tables by the number of the virtual page;
-- the window through which the code reaches the tables is not itself handed out. NULL is 0. Reading
-- an entry of a table that the directory does not hold is a page fault. What is cleared is not kept.
pub mod Frames
pub mod Map
pub mod Release
pub mod Whole
pub mod Back
mod Tests
use os_elephant.Base.{
  ℕ, zero, suc, ◌+◌, ◌-◌, ◌*◌, ◌/◌, ◌%◌, ◌^◌, Bool, true, false, not, ◌&&◌, ◌==◌, leb, ltb,
  if◌then◌else◌, update, Outcome, ok, fault, panic, ◌>>=◌, ◌>>◌, assert,
}
use os_elephant.Bitmap
use os_elephant.Pools.{Pool, Pools, VirtualAddr, u32, sub32, palloc, pfree}
use os_elephant.Vaddr.{PoolFlags, pf_kernel, pf_user, Spaces, vaddr_get, vaddr_remove}

pub record Paging : Type 0 where
  pub pools : Pools
  pub spaces : Spaces
  pub pde : ℕ → ℕ
  pub pte : ℕ → ℕ

abbrev pub pte_ptr : ℕ → ℕ
pte_ptr vaddr = vaddr / 2 ^ 12

abbrev pub pde_ptr : ℕ → ℕ
pde_ptr vaddr = vaddr / 2 ^ 22

-- `entry & 1`, and `page | 7`.
abbrev pub is_present : ℕ → Bool
is_present entry = entry % 2 == 1

abbrev pub entry_for : ℕ → ℕ
entry_for page = page / 8 * 8 + 7

abbrev pub set_pte : ℕ → ℕ → Paging → Paging
set_pte vaddr entry s = record s { pte = update s.pte (pte_ptr vaddr) entry }

abbrev pub pool_of : PoolFlags → Pools → Pool
pool_of pf_kernel p = p.kernel_pool
pool_of pf_user p = p.user_pool

abbrev pub set_pool : PoolFlags → Pool → Paging → Paging
set_pool pf_kernel q s = record s { pools = record (s.pools) { kernel_pool = q } }
set_pool pf_user q s = record s { pools = record (s.pools) { user_pool = q } }

-- A table that is not there is made from a page of the kernel's, whose entries are cleared.
pub new_table : (vaddr : ℕ) → Paging → Outcome Paging
new_table vaddr s = do
  page ← palloc s.pools.kernel_pool
  ok (record s {
    pools = record (s.pools) { kernel_pool = page.1 };
    pde = update s.pde (pde_ptr vaddr) (entry_for page.0);
    pte = λ i. if i / 1024 == pde_ptr vaddr then 0 else s.pte i;
  })

unfoldable pub page_table_add : (vaddr page_phyaddr : ℕ) → Paging → Outcome Paging
page_table_add vaddr page_phyaddr s =
    (if is_present (s.pde (pde_ptr vaddr)) then ok s else new_table vaddr s) >>= λ with_table.
    assert (not (is_present (with_table.pte (pte_ptr vaddr))))
    >> ok (set_pte vaddr (entry_for page_phyaddr) with_table)

-- The loop over the pages; false stands for the early return with NULL.
pub map_pages : (count : ℕ) → PoolFlags → (vaddr : ℕ) → Paging → Outcome (Bool × Paging)
map_pages zero pf vaddr s = ok (true, s)
map_pages (suc count) pf vaddr s = do
  page ← palloc (pool_of pf s.pools)
  let after = set_pool pf page.1 s
  if page.0 == 0
      then ok (false, after)
      else page_table_add vaddr page.0 after >>= map_pages count pf (u32 (vaddr + 4096))

unfoldable pub malloc_page : PoolFlags → (page_count : ℕ) → Paging → Outcome (ℕ × Paging)
malloc_page pf page_count s = do
  assert (ltb 0 page_count && ltb page_count 3840)
  begin ← vaddr_get pf page_count s.spaces
  let reserved = record s { spaces = begin.1 }
  if begin.0 == 0
      then ok (0, reserved)
      else map_pages page_count pf begin.0 reserved >>= λ done.
          ok (if done.0 then begin.0 else 0, done.1)

-- The bit of the page that the caller names.
abbrev pub claim : (vaddr : ℕ) → VirtualAddr → Outcome VirtualAddr
claim vaddr v =
    let bitmap_index = sub32 vaddr v.vaddr_begin / 4096 in
    assert (ltb 0 bitmap_index)
    >> ok (record v { vaddr_bitmap = Bitmap.set v.vaddr_bitmap bitmap_index true })

pub claimed : (is_process : Bool) → PoolFlags → (vaddr : ℕ) → Spaces → Outcome Spaces
claimed true pf_user vaddr s = do v ← claim vaddr s.user_vaddr; ok (record s { user_vaddr = v })
claimed false pf_kernel vaddr s = do
  v ← claim vaddr s.kernel_vaddr
  ok (record s { kernel_vaddr = v })
claimed true pf_kernel vaddr s = panic
claimed false pf_user vaddr s = panic

unfoldable pub get_a_page :
    (is_process : Bool) → PoolFlags → (vaddr : ℕ) → Paging → Outcome (ℕ × Paging)
get_a_page is_process pf vaddr s = do
  spaces ← claimed is_process pf vaddr s.spaces
  page ← palloc (pool_of pf s.pools)
  let after = set_pool pf page.1 (record s { spaces = spaces })
  if page.0 == 0
      then ok (0, after)
      else page_table_add vaddr page.0 after >>= λ mapped. ok (vaddr, mapped)

unfoldable pub addr_v2p : (vaddr : ℕ) → Paging → Outcome ℕ
addr_v2p vaddr s =
    if is_present (s.pde (pde_ptr vaddr))
    then ok (s.pte (pte_ptr vaddr) / 2 ^ 12 * 2 ^ 12 + vaddr % 2 ^ 12)
    else fault

unfoldable pub page_table_pte_remove : (vaddr : ℕ) → Paging → Outcome Paging
page_table_pte_remove vaddr s =
    if is_present (s.pde (pde_ptr vaddr))
    then ok (set_pte vaddr (s.pte (pte_ptr vaddr) / 2 * 2) s)
    else fault

-- What the loops of `mfree_page` assert of a frame: the first loop is for those of the user's pool.
abbrev pub in_pool : (user : Bool) → Pools → ℕ → Bool
in_pool true p frame = frame % 4096 == 0 && leb p.user_pool.phy_addr_begin frame
in_pool false p frame =
    frame % 4096 == 0
    && leb p.kernel_pool.phy_addr_begin frame
    && ltb frame p.user_pool.phy_addr_begin

pub free_frames : (count : ℕ) → (user : Bool) → (vaddr pg_phy_addr : ℕ) → Paging → Outcome Paging
free_frames zero user vaddr pg_phy_addr s = ok s
free_frames (suc count) user vaddr pg_phy_addr s = do
  assert (in_pool user s.pools pg_phy_addr)
  removed ← page_table_pte_remove vaddr (record s { pools = pfree pg_phy_addr s.pools })
  next ← addr_v2p (u32 (vaddr + 4096)) removed
  free_frames count user (u32 (vaddr + 4096)) next removed

unfoldable pub mfree_page : PoolFlags → (vaddr page_count : ℕ) → Paging → Outcome Paging
mfree_page pf vaddr page_count s = do
  assert (leb 1 page_count && (vaddr % 4096 == 0))
  frame ← addr_v2p vaddr s
  assert ((frame % 4096 == 0) && leb 0x102000 frame)
  freed ← free_frames page_count (leb s.pools.user_pool.phy_addr_begin frame) vaddr frame s
  ok (record freed { spaces = vaddr_remove pf vaddr page_count freed.spaces })
