-- ===== src/Pools/Tests.antt =====
-- The pools of 32 MB of memory, as the machine of the project has.
use os_elephant.Base.{ℕ, ◌<◌, ◌≡◌, false, arith}
use os_elephant.Bitmap.{scan_bit}
use os_elephant.Pools.{mem_pool_init}
use os_elephant.Pools.Layout.{pages, IsLaid, mem_pool_init-IsLaid}

abbrev memory_size : ℕ
memory_size = 0x2000000

abbrev junk : ℕ → ℕ
junk i = 170

mem_pool_init-IsLaid_example :
    IsLaid memory_size (mem_pool_init memory_size junk junk junk)
    × ((i : ℕ)
        → i < pages (mem_pool_init memory_size junk junk junk).kernel_pool
        → scan_bit (mem_pool_init memory_size junk junk junk).kernel_pool.pool_bitmap i ≡ false)
    × ((i : ℕ)
        → i < pages (mem_pool_init memory_size junk junk junk).user_pool
        → scan_bit (mem_pool_init memory_size junk junk junk).user_pool.pool_bitmap i ≡ false)
mem_pool_init-IsLaid_example =
    mem_pool_init-IsLaid memory_size junk junk junk (λ i. omega arith) (λ i. omega arith)
      (omega arith) (omega arith)
