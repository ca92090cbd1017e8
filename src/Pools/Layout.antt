-- ===== src/Pools/Layout.antt =====
-- What `mem_pool_init` lays out: two pools one behind the other, within the memory there is.
use os_elephant.Base.{ℕ, ◌+◌, ◌*◌, ◌^◌, ◌<◌, ◌≤◌, ◌≡◌, false, arith}
use os_elephant.Bitmap
use os_elephant.Bitmap.{Bitmap}
use os_elephant.Bitmap.Bits.{IsValid, scan_bit-init, init-IsValid}
use os_elephant.Pools.{Pool, Pools, mem_pool_init}

-- The number of pages that a pool's bitmap stands for.
abbrev pub pages : Pool → ℕ
pages p = p.pool_bitmap.bytes_len * 8

-- Both bitmaps are valid, the kernel's pages lie below the user's, at whole pages, and all of them
-- below the end of memory.
pub record IsLaid (end_of_memory : ℕ) (p : Pools) : Type 0 where
  pub kernel_valid : IsValid p.kernel_pool.pool_bitmap
  pub user_valid : IsValid p.user_pool.pool_bitmap
  pub low : 0 < p.kernel_pool.phy_addr_begin
  pub apart : p.kernel_pool.phy_addr_begin + pages p.kernel_pool * 4096 ≤ p.user_pool.phy_addr_begin
  pub inside : p.user_pool.phy_addr_begin + pages p.user_pool * 4096 ≤ end_of_memory
  pub small : end_of_memory < 2 ^ 32

init-free : (b : Bitmap) (i : ℕ) → i < b.bytes_len * 8 → Bitmap.scan_bit (Bitmap.init b) i ≡ false
init-free b i lt = ground (arith, scan_bit-init b i)

-- With 2 MB of memory or more, and less than 256 MB, where the bitmaps' memory holds bytes: the
-- pools that `mem_pool_init` makes have valid bitmaps, do not overlap and end within memory, and
-- every page of both is free.
pub mem_pool_init-IsLaid :
    (mem_size : ℕ) (kernel user virtual : ℕ → ℕ)
    → ((i : ℕ) → kernel i < 256)
    → ((i : ℕ) → user i < 256)
    → 0x200000 ≤ mem_size
    → mem_size < 2 ^ 28
    → IsLaid mem_size (mem_pool_init mem_size kernel user virtual)
      × ((i : ℕ)
          → i < pages (mem_pool_init mem_size kernel user virtual).kernel_pool
          → Bitmap.scan_bit (mem_pool_init mem_size kernel user virtual).kernel_pool.pool_bitmap i
            ≡ false)
      × ((i : ℕ)
          → i < pages (mem_pool_init mem_size kernel user virtual).user_pool
          → Bitmap.scan_bit (mem_pool_init mem_size kernel user virtual).user_pool.pool_bitmap i
            ≡ false)
unfolding mem_pool_init Bitmap.init
mem_pool_init-IsLaid mem_size kernel user virtual kb ub lo hi = (
  record {
    kernel_valid = init-IsValid (record { bytes = kb; small = omega arith });
    user_valid = init-IsValid (record { bytes = ub; small = omega arith });
    low = omega arith;
    apart = omega arith;
    inside = omega arith;
    small = omega arith;
  },
  λ i lt.
      init-free
        (record {
          bytes_len =
              (mem_pool_init mem_size kernel user virtual).kernel_pool.pool_bitmap.bytes_len;
          bits = kernel;
        })
        i lt,
  λ i lt.
      init-free
        (record {
          bytes_len = (mem_pool_init mem_size kernel user virtual).user_pool.pool_bitmap.bytes_len;
          bits = user;
        })
        i lt,
)
