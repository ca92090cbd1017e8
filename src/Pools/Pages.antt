-- ===== src/Pools/Pages.antt =====
-- A page from a pool, and a page given back.
use os_elephant.Base.{
  ℕ, ◌+◌, ◌-◌, ◌*◌, ◌/◌, ◌%◌, ◌^◌, ◌<◌, ◌≡◌, ap, ◌∙◌, true, false, ◌==◌, leb, if◌then◌else◌, ok,
  arith,
}
use os_elephant.Bitmap
use os_elephant.Bitmap.{Bitmap, scan_bit}
use os_elephant.Bitmap.Bits.{IsValid, scan_bit-set, set-IsValid}
use os_elephant.Bitmap.Edge.{scan_one}
use os_elephant.Pools.{Pool, Pools, grant, palloc, give_back, pfree}
use os_elephant.Pools.Layout.{pages, IsLaid}

-- The address of a page of the pool.
abbrev pub address : Pool → ℕ → ℕ
address p i = p.phy_addr_begin + i * 4096

-- The pool with the page in use.
abbrev pub taken : Pool → ℕ → Pool
taken p page = record p { pool_bitmap = Bitmap.set p.pool_bitmap page true }

-- A valid pool that ends below 2 ^ 32.
pub record IsPool (p : Pool) : Type 0 where
  pub valid : IsValid p.pool_bitmap
  pub small : address p (pages p) < 2 ^ 32

-- `palloc` of a valid pool that ends below 2 ^ 32 and has a free page hands out the lowest one
-- that is free: its address is inside the pool, and its bit, which was clear, is the one bit that
-- the call changes. The pool stays valid.
pub palloc-lowest :
    (p : Pool) (i : ℕ)
    → IsPool p
    → i < pages p
    → scan_bit p.pool_bitmap i ≡ false
    → (page : ℕ) × (palloc p ≡ ok (address p page, taken p page))
      × (page < pages p)
      × (scan_bit p.pool_bitmap page ≡ false)
      × ((k : ℕ) → k < page → scan_bit p.pool_bitmap k ≡ true)
      × ((k : ℕ)
          → scan_bit (taken p page).pool_bitmap k
            ≡ (if k == page then true else scan_bit p.pool_bitmap k))
      × IsPool (taken p page)
unfolding palloc grant
palloc-lowest p i pool lt free =
    let (page, found, below, off, on) = scan_one pool.valid i lt free in
    let at : (page * 4096 + p.phy_addr_begin) % 2 ^ 32 ≡ address p page =
      omega (arith, pool.small) in
    (
      page,
      simp (found, at),
      below,
      off,
      on,
      λ k. scan_bit-set page k true pool.valid,
      record { valid = set-IsValid page true pool.valid; small = unfold Bitmap.set in pool.small },
    )

pub kernel-IsPool : {p : Pools} {e : ℕ} → IsLaid e p → IsPool p.kernel_pool
kernel-IsPool laid = record {
  valid = laid.kernel_valid;
  small = omega (arith, laid.apart, laid.inside, laid.small);
}

user-IsPool : {p : Pools} {e : ℕ} → IsLaid e p → IsPool p.user_pool
user-IsPool laid = record {
  valid = laid.user_valid;
  small = omega (arith, laid.inside, laid.small);
}

-- The index that `pfree` computes from the address of a page of the pool.
index-address :
    (p : Pool) (page : ℕ)
    → IsPool p
    → page < pages p
    → give_back (address p page) p ≡ record p { pool_bitmap = Bitmap.set p.pool_bitmap page false }
unfolding give_back
index-address p page pool lt =
    let at : (p.phy_addr_begin + page * 4096 + 2 ^ 32 - p.phy_addr_begin) % 2 ^ 32 / 4096 ≡ page =
      omega (arith, pool.small) in
    ap (λ i. record p { pool_bitmap = Bitmap.set p.pool_bitmap i false }) at

-- In pools as `mem_pool_init` lays them out, `pfree` of the address of a kernel page clears just that page's bit in the kernel pool, and of
-- a user page's address just that page's bit in the user pool.
pub pfree-address :
    (p : Pools) (e page : ℕ)
    → IsLaid e p
    → (page < pages p.kernel_pool
        → pfree (address p.kernel_pool page) p ≡ record p {
          kernel_pool = record (p.kernel_pool) {
            pool_bitmap = Bitmap.set p.kernel_pool.pool_bitmap page false;
          };
        })
      × (page < pages p.user_pool
          → pfree (address p.user_pool page) p ≡ record p {
            user_pool = record (p.user_pool) {
              pool_bitmap = Bitmap.set p.user_pool.pool_bitmap page false;
            };
          })
unfolding pfree
pfree-address p e page laid = (
  λ lt.
      let below : leb p.user_pool.phy_addr_begin (address p.kernel_pool page) ≡ false =
        ground (arith, laid.apart) in
      rw below (
        ap (λ k. record p { kernel_pool = k })
          (index-address p.kernel_pool page (kernel-IsPool laid) lt)),
  λ lt.
      let above : leb p.user_pool.phy_addr_begin (address p.user_pool page) ≡ true = ground arith in
      rw above (
        ap (λ u. record p { user_pool = u })
          (index-address p.user_pool page (user-IsPool laid) lt)),
)

-- A page that was free and is taken reads as free again, with every other page as before, after it is given back.
set-twice :
    (b : Bitmap) (page k : ℕ)
    → IsValid b
    → scan_bit b page ≡ false
    → scan_bit (Bitmap.set (Bitmap.set b page true) page false) k ≡ scan_bit b k
set-twice b page k valid free =
    ground (
      arith,
      scan_bit-set page k false (set-IsValid page true valid),
      scan_bit-set page k true valid,
    )

taken-IsLaid :
    (p : Pools) (e page : ℕ)
    → IsLaid e p
    → IsLaid e (record p { kernel_pool = taken p.kernel_pool page })
taken-IsLaid p e page laid = record {
  kernel_valid = set-IsValid page true laid.kernel_valid;
  user_valid = laid.user_valid;
  low = laid.low;
  apart = unfold Bitmap.set in laid.apart;
  inside = laid.inside;
  small = laid.small;
}

-- Where the kernel pool of pools laid out as by `mem_pool_init` has a free page, `palloc` hands
-- one out, and `pfree` of its address then puts every bit of the kernel pool back as it was and
-- leaves the user pool alone.
pub pfree-palloc :
    (p : Pools) (e i : ℕ)
    → IsLaid e p
    → i < pages p.kernel_pool
    → scan_bit p.kernel_pool.pool_bitmap i ≡ false
    → (a : ℕ) × (after : Pool) × (palloc p.kernel_pool ≡ ok (a, after))
      × ((k : ℕ)
          → scan_bit (pfree a (record p { kernel_pool = after })).kernel_pool.pool_bitmap k
            ≡ scan_bit p.kernel_pool.pool_bitmap k)
      × ((pfree a (record p { kernel_pool = after })).user_pool ≡ p.user_pool)
pfree-palloc p e i laid lt free =
    let (page, run, below, off, on, bits, pool) =
      palloc-lowest p.kernel_pool i (kernel-IsPool laid) lt free in
    let freed =
      (pfree-address (record p { kernel_pool = taken p.kernel_pool page }) e page
          (taken-IsLaid p e page laid)).0
        (unfold Bitmap.set in below) in
    (
      address p.kernel_pool page,
      taken p.kernel_pool page,
      run,
      λ k.
          ap (λ q. scan_bit q.kernel_pool.pool_bitmap k) freed
          ∙ set-twice p.kernel_pool.pool_bitmap page k laid.kernel_valid off,
      ap (λ q. q.user_pool) freed,
    )
