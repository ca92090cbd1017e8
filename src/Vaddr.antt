-- ===== src/Vaddr.antt =====
-- kernel/c12f_memory.c: `vaddr_get` and `vaddr_remove`, which take runs of virtual pages from the
-- kernel's space or the current process's, and give them back.
pub mod Runs
use os_elephant.Base.{
  ℕ, zero, suc, ◌+◌, ◌-◌, ◌*◌, ◌/◌, ◌%◌, ◌^◌, Bool, true, false, Option, none, some, ltb, Outcome,
  ok, ◌>>=◌, ◌>>◌, assert,
}
use os_elephant.Bitmap
use os_elephant.Bitmap.{Bitmap}
use os_elephant.Pools.{VirtualAddr, u32, sub32}

pub data PoolFlags : Type 0 where
  pf_kernel pf_user : PoolFlags

-- The kernel's virtual pages, and those of the current process.
pub record Spaces : Type 0 where
  pub kernel_vaddr : VirtualAddr
  pub user_vaddr : VirtualAddr

-- `while(counting < page_count) bitmap_set(.., bit_index + counting++, value)`, for the pages that
-- are left.
unfoldable pub set_pages : ℕ → (bit_index counting : ℕ) → Bool → Bitmap → Bitmap
set_pages zero bit_index counting value b = b
set_pages (suc left) bit_index counting value b =
    set_pages left bit_index (counting + 1) value (Bitmap.set b (u32 (bit_index + counting)) value)

-- From the answer of `bitmap_scan` on; NULL is 0.
pub reserve : VirtualAddr → ℕ → Option ℕ → ℕ × VirtualAddr
reserve v page_count none = (0, v)
reserve v page_count (some bit_index) = (
  u32 (v.vaddr_begin + bit_index * 4096),
  record v { vaddr_bitmap = set_pages page_count bit_index 0 true v.vaddr_bitmap },
)

-- The assertion stands after the early return, whose NULL passes it as well.
unfoldable pub vaddr_get : PoolFlags → ℕ → Spaces → Outcome (ℕ × Spaces)
vaddr_get pf_kernel page_count s = do
  bit_index ← Bitmap.scan s.kernel_vaddr.vaddr_bitmap page_count
  let (vaddr, v) = reserve s.kernel_vaddr page_count bit_index
  ok (vaddr, record s { kernel_vaddr = v })
vaddr_get pf_user page_count s = do
  bit_index ← Bitmap.scan s.user_vaddr.vaddr_bitmap page_count
  let (vaddr, v) = reserve s.user_vaddr page_count bit_index
  assert (ltb vaddr (0xc0000000 - 4096))
  ok (vaddr, record s { user_vaddr = v })

pub release : ℕ → ℕ → VirtualAddr → VirtualAddr
release vaddr page_count v = record v {
  vaddr_bitmap = set_pages page_count (sub32 vaddr v.vaddr_begin / 4096) 0 false v.vaddr_bitmap;
}

unfoldable pub vaddr_remove : PoolFlags → ℕ → ℕ → Spaces → Spaces
vaddr_remove pf_kernel vaddr page_count s = record s {
  kernel_vaddr = release vaddr page_count s.kernel_vaddr;
}
vaddr_remove pf_user vaddr page_count s = record s {
  user_vaddr = release vaddr page_count s.user_vaddr;
}
