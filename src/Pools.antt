-- ===== src/Pools.antt =====
-- kernel/c12f_memory.c: the pools of physical pages and the bits that say which are in use. The
-- three bitmaps lie one behind the other in memory; each is a memory of its own here, since the
-- operations modelled write within one bitmap. The page tables are those of Paging.
pub mod Layout
pub mod Pages
mod Tests
use os_elephant.Base.{
  ℕ, ◌+◌, ◌-◌, ◌*◌, ◌/◌, ◌%◌, ◌^◌, Bool, true, false, Option, none, some, leb, if◌then◌else◌,
  Outcome, ok, ◌>>=◌, ◌>>◌,
}
use os_elephant.Bitmap
use os_elephant.Bitmap.{Bitmap}

abbrev pub page_size : ℕ
page_size = 4096

abbrev pub k_heap_start : ℕ
k_heap_start = 0xc0100000

abbrev pub u32 : ℕ → ℕ
u32 n = n % 2 ^ 32

-- `a - b` on `unsigned int`.
abbrev pub sub32 : ℕ → ℕ → ℕ
sub32 a b = (a + 2 ^ 32 - b) % 2 ^ 32

-- `struct pool` without its lock (Sync), and `struct virtual_addr`.
pub record Pool : Type 0 where
  pub pool_bitmap : Bitmap
  pub phy_addr_begin : ℕ
  pub pool_size : ℕ

pub record VirtualAddr : Type 0 where
  pub vaddr_bitmap : Bitmap
  pub vaddr_begin : ℕ

pub record Pools : Type 0 where
  pub kernel_pool : Pool
  pub user_pool : Pool
  pub kernel_vaddr : VirtualAddr

-- The memory at the three places of the bitmaps is what was there before.
unfoldable pub mem_pool_init : ℕ → (kernel user virtual : ℕ → ℕ) → Pools
mem_pool_init mem_size kernel user virtual =
    let page_table_size = page_size * 256 in
    let used_mem = page_table_size + 0x100000 in
    let free_mem = sub32 mem_size used_mem in
    let all_free_pages = free_mem / page_size % 2 ^ 16 in
    let kernel_free_pages = all_free_pages / 2 in
    let user_free_pages = all_free_pages - kernel_free_pages in
    let kbm_length = kernel_free_pages / 8 in
    let ubm_length = user_free_pages / 8 in
    record {
      kernel_pool = record {
        pool_bitmap = Bitmap.init (record { bytes_len = kbm_length; bits = kernel });
        phy_addr_begin = used_mem;
        pool_size = u32 (kernel_free_pages * page_size);
      };
      user_pool = record {
        pool_bitmap = Bitmap.init (record { bytes_len = ubm_length; bits = user });
        phy_addr_begin = u32 (used_mem + kernel_free_pages * page_size);
        pool_size = u32 (user_free_pages * page_size);
      };
      kernel_vaddr = record {
        vaddr_bitmap = Bitmap.init (record { bytes_len = kbm_length; bits = virtual });
        vaddr_begin = k_heap_start;
      };
    }

-- `palloc` from the answer of `bitmap_scan` on; NULL is 0.
pub grant : Pool → Option ℕ → ℕ × Pool
grant mem_pool none = (0, mem_pool)
grant mem_pool (some bit_index) = (
  u32 (bit_index * page_size + mem_pool.phy_addr_begin),
  record mem_pool { pool_bitmap = Bitmap.set mem_pool.pool_bitmap bit_index true },
)

unfoldable pub palloc : Pool → Outcome (ℕ × Pool)
palloc mem_pool = do bit_index ← Bitmap.scan mem_pool.pool_bitmap 1; ok (grant mem_pool bit_index)

-- The page whose address is given is free again in the pool.
pub give_back : ℕ → Pool → Pool
give_back pg_phy_addr mem_pool = record mem_pool {
  pool_bitmap =
      Bitmap.set mem_pool.pool_bitmap (sub32 pg_phy_addr mem_pool.phy_addr_begin / page_size) false;
}

unfoldable pub pfree : ℕ → Pools → Pools
pfree pg_phy_addr p =
    if leb p.user_pool.phy_addr_begin pg_phy_addr
    then record p { user_pool = give_back pg_phy_addr p.user_pool }
    else record p { kernel_pool = give_back pg_phy_addr p.kernel_pool }
