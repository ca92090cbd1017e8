-- ===== src/Paging/Tests.antt =====
-- Two pages of a space of eight, of which the first three and the fifth are in use.
use os_elephant.Base.{
  ℕ, zero, suc, ◌+◌, ◌-◌, ◌<◌, ◌≡◌, refl, sym, ap, ◌∙◌, false, ok, ◌==◌, if◌then◌else◌, arith,
}
use os_elephant.Bitmap.{scan_bit}
use os_elephant.Bitmap.Runs.{Run}
use os_elephant.Bitmap.Free.{HasFree}
use os_elephant.Vaddr.{pf_kernel}
use os_elephant.Paging.{Paging, malloc_page, mfree_page}
use os_elephant.Paging.Whole.{IsPaging, space_bits}
use os_elephant.Paging.Back.{Restored, mfree_page-malloc_page}

abbrev some_pages : Paging
some_pages = record {
  pools = record {
    kernel_pool = record {
      pool_bitmap = record { bytes_len = 2; bits = λ i. 0 };
      phy_addr_begin = 0x200000;
      pool_size = 0x10000;
    };
    user_pool = record {
      pool_bitmap = record { bytes_len = 2; bits = λ i. 0 };
      phy_addr_begin = 0x210000;
      pool_size = 0x10000;
    };
    kernel_vaddr = record {
      vaddr_bitmap = record { bytes_len = 1; bits = λ i. if i == 0 then 0x17 else 255 };
      vaddr_begin = 0xc0100000;
    };
  };
  spaces = record {
    kernel_vaddr = record {
      vaddr_bitmap = record { bytes_len = 1; bits = λ i. if i == 0 then 0x17 else 255 };
      vaddr_begin = 0xc0100000;
    };
    user_vaddr = record {
      vaddr_bitmap = record { bytes_len = 1; bits = λ i. 255 };
      vaddr_begin = 0x8048000;
    };
  };
  pde = λ i. 7;
  pte = λ i. 0;
}

some_pages-IsPaging : IsPaging 0x2000000 some_pages
some_pages-IsPaging = record {
  laid = record {
    kernel_valid = record { bytes = λ i. omega arith; small = omega arith };
    user_valid = record { bytes = λ i. omega arith; small = omega arith };
    low = omega arith;
    apart = omega arith;
    inside = omega arith;
    small = omega arith;
  };
  frames = refl;
  behind = omega arith;
  space = record {
    valid = record { bytes = λ i. ground arith; small = omega arith };
    above = omega arith;
    small = omega arith;
  };
  begin = refl;
  room = omega arith;
  tables = λ i le lt. refl;
  absent = λ k le clear. refl;
}

free_pages : (k : ℕ) → k < 2 → scan_bit (space_bits some_pages) (5 + k) ≡ false
unfolding scan_bit
free_pages zero lt = refl
free_pages (suc zero) lt = refl
free_pages (suc (suc k)) lt = absurd (omega arith)

two_pages : Run (space_bits some_pages) 5 2
two_pages k le lt =
    let index : 5 + (k - 5) ≡ k = omega arith in
    ap (scan_bit (space_bits some_pages)) (sym index) ∙ free_pages (k - 5) (omega arith)

free_frame : (k : ℕ) → k < 2 → scan_bit some_pages.pools.kernel_pool.pool_bitmap k ≡ false
unfolding scan_bit
free_frame zero lt = refl
free_frame (suc zero) lt = refl
free_frame (suc (suc k)) lt = absurd (omega arith)

two_frames : HasFree some_pages.pools.kernel_pool.pool_bitmap 2
two_frames = record {
  at = λ k. k;
  below = λ k lt. omega arith;
  free = free_frame;
  apart = λ j k lj lk e. e;
}

mfree_page-malloc_page_example :
    (vaddr : ℕ) × (between after : Paging) × (malloc_page pf_kernel 2 some_pages
      ≡ ok (vaddr, between))
    × (mfree_page pf_kernel vaddr 2 between ≡ ok after)
    × Restored some_pages after
mfree_page-malloc_page_example =
    mfree_page-malloc_page 0x2000000 2 5 some_pages some_pages-IsPaging (omega arith) (omega arith)
      (omega arith) two_pages two_frames
