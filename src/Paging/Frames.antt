-- ===== src/Paging/Frames.antt =====
-- Pages of the kernel's pool as lists, and the page table entries that hold them.
use os_elephant.Base.{ℕ, ◌+◌, ◌*◌, ◌/◌, ◌<◌, ◌≤◌, ◌≡◌, ◌∙◌, Bool, true, List, [], ◌∷◌, arith}
use os_elephant.Bitmap
use os_elephant.Bitmap.{Bitmap, scan_bit}
use os_elephant.Bitmap.Bits.{set-IsValid}
use os_elephant.Pools.{Pools}
use os_elephant.Pools.Layout.{pages, IsLaid}
use os_elephant.Paging.{Paging, is_present, entry_for}

-- The entries from page `vp` on hold the frames of the list, counted from address `begin`.
abbrev pub AtPages : (begin vp : ℕ) → List ℕ → (ℕ → ℕ) → Type 0
AtPages begin vp [] pte = Unit
AtPages begin vp (f ∷ fs) pte =
    (pte vp ≡ entry_for (begin + f * 4096)) × AtPages begin (vp + 1) fs pte

pub AtPages-same :
    (begin vp : ℕ) (fs : List ℕ) (a b : ℕ → ℕ)
    → ((i : ℕ) → vp ≤ i → b i ≡ a i)
    → AtPages begin vp fs a
    → AtPages begin vp fs b
AtPages-same begin vp [] a b same at = tt
AtPages-same begin vp (f ∷ fs) a b same at = (
  same vp (omega arith) ∙ at.0,
  AtPages-same begin (vp + 1) fs a b (λ i le. same i (omega arith)) at.1,
)

-- A bit of the kernel's pool changes, and the layout stays.
abbrev pub with_bit : ℕ → Bool → Pools → Pools
with_bit page value p = record p {
  kernel_pool = record (p.kernel_pool) {
    pool_bitmap = Bitmap.set p.kernel_pool.pool_bitmap page value;
  };
}

pub with_bit-IsLaid :
    (p : Pools) (e page : ℕ) (value : Bool) → IsLaid e p → IsLaid e (with_bit page value p)
with_bit-IsLaid p e page value laid = record {
  kernel_valid = set-IsValid page value laid.kernel_valid;
  user_valid = laid.user_valid;
  low = laid.low;
  apart = unfold Bitmap.set in laid.apart;
  inside = laid.inside;
  small = laid.small;
}

-- What neither mapping nor freeing changes.
pub record Stays (e : ℕ) (s after : Paging) : Type 0 where
  pub laid : IsLaid e after.pools
  pub spaces : after.spaces ≡ s.spaces
  pub pde : after.pde ≡ s.pde
  pub user_pool : after.pools.user_pool ≡ s.pools.user_pool
  pub begin : after.pools.kernel_pool.phy_addr_begin ≡ s.pools.kernel_pool.phy_addr_begin
  pub count : pages after.pools.kernel_pool ≡ pages s.pools.kernel_pool

pub trans-Stays : (e : ℕ) (a b c : Paging) → Stays e a b → Stays e b c → Stays e a c
trans-Stays e a b c x y = record {
  laid = y.laid;
  spaces = y.spaces ∙ x.spaces;
  pde = y.pde ∙ x.pde;
  user_pool = y.user_pool ∙ x.user_pool;
  begin = y.begin ∙ x.begin;
  count = y.count ∙ x.count;
}

-- The bits of the kernel's pool.
abbrev pub frame_used : Paging → ℕ → Bool
frame_used s = scan_bit s.pools.kernel_pool.pool_bitmap

-- The directory holds the tables of `n` pages from `vp` on.
abbrev pub HasTables : (ℕ → ℕ) → (vp n : ℕ) → Type 0
HasTables pde vp n = (i : ℕ) → vp ≤ i → i < vp + n → is_present (pde (i / 1024)) ≡ true
