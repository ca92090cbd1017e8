-- ===== src/Vaddr/Runs.antt =====
-- The run of pages that `vaddr_get` takes, and its return by `vaddr_remove`.
use os_elephant.Base.{
  ℕ, zero, suc, ◌+◌, ◌*◌, ◌/◌, ◌^◌, ◌<◌, ◌≤◌, ◌≡◌, refl, ap, ◌∙◌, Bool, true, false, Option, none,
  some, ◌==◌, ◌&&◌, leb, ltb, if◌then◌else◌, ok, arith,
}
use os_elephant.Bitmap
use os_elephant.Bitmap.{Bitmap, scan_bit}
use os_elephant.Bitmap.Bits.{IsValid, scan_bit-set, set-IsValid}
use os_elephant.Bitmap.Runs.{FirstRun}
use os_elephant.Bitmap.Scan.{scan-FirstRun}
use os_elephant.Pools.{VirtualAddr, u32, sub32}
use os_elephant.Vaddr.{pf_kernel, Spaces, set_pages, reserve, vaddr_get, release, vaddr_remove}

-- Whether bit `k` is one of the `n` from `start` on.
abbrev pub in_run : ℕ → ℕ → ℕ → Bool
in_run start n k = leb start k && ltb k (start + n)

set_pages-IsValid : (n r c : ℕ) (v : Bool) (b : Bitmap) → IsValid b → IsValid (set_pages n r c v b)
unfolding set_pages
set_pages-IsValid zero r c v b valid = valid
set_pages-IsValid (suc n) r c v b valid =
    set_pages-IsValid n r (c + 1) v (Bitmap.set b (u32 (r + c)) v)
      (set-IsValid (u32 (r + c)) v valid)

scan_bit-set_pages :
    (n r c : ℕ) (v : Bool) (b : Bitmap) (k : ℕ)
    → IsValid b
    → r + c + n < 2 ^ 32
    → scan_bit (set_pages n r c v b) k ≡ (if in_run (r + c) n k then v else scan_bit b k)
unfolding set_pages
scan_bit-set_pages zero r c v b k valid small = ground arith
scan_bit-set_pages (suc n) r c v b k valid small =
    let at : u32 (r + c) ≡ r + c = omega arith in
    let rest =
      scan_bit-set_pages n r (c + 1) v (Bitmap.set b (u32 (r + c)) v) k
        (set-IsValid (u32 (r + c)) v valid) (omega arith) in
    ground (arith, rest, scan_bit-set (u32 (r + c)) k v valid)

-- The kernel's space: a valid bitmap, whose pages and the one behind them have addresses below 2 ^ 32 and none is NULL.
pub record IsSpace (v : VirtualAddr) : Type 0 where
  pub valid : IsValid v.vaddr_bitmap
  pub above : 0 < v.vaddr_begin
  pub small : v.vaddr_begin + (v.vaddr_bitmap.bytes_len * 8 + 1) * 4096 < 2 ^ 32

-- What the kernel's call for `n` pages comes to, given the run of free pages that there is.
abbrev pub granted : Spaces → ℕ → Option ℕ → ℕ × Spaces
granted s n none = (0, s)
granted s n (some r) = (
  s.kernel_vaddr.vaddr_begin + r * 4096,
  record s {
    kernel_vaddr = record (s.kernel_vaddr) {
      vaddr_bitmap = set_pages n r 0 true s.kernel_vaddr.vaddr_bitmap;
    };
  },
)

reserve-granted :
    (s : Spaces) (n l : ℕ) (o : Option ℕ)
    → IsSpace s.kernel_vaddr
    → 0 < n
    → l ≤ s.kernel_vaddr.vaddr_bitmap.bytes_len * 8 + 1
    → FirstRun s.kernel_vaddr.vaddr_bitmap n l o
    → ((reserve s.kernel_vaddr n o).0, record s { kernel_vaddr = (reserve s.kernel_vaddr n o).1 })
      ≡ granted s n o
unfolding reserve
reserve-granted s n l none space pos le f = refl
reserve-granted s n l (some r) space pos le f =
    let at : u32 (s.kernel_vaddr.vaddr_begin + r * 4096) ≡ s.kernel_vaddr.vaddr_begin + r * 4096 =
      omega (arith, f.0, space.small) in
    ap
      (λ a. (
        a,
        record s {
          kernel_vaddr = record (s.kernel_vaddr) {
            vaddr_bitmap = set_pages n r 0 true s.kernel_vaddr.vaddr_bitmap;
          };
        },
      ))
      at

-- The bits that `bitmap_scan` looks at for `n` pages: one more than the bitmap's for more than one page.
abbrev pub looked_at : Bitmap → ℕ → ℕ
looked_at b n = if n == 1 then b.bytes_len * 8 else b.bytes_len * 8 + 1

-- The kernel's call of `vaddr_get` for `n` pages, not 0, where the space is valid, ends below 2 ^
-- 32 and has a free page, returns: with the address of the first run of `n` free pages, which it
-- marks, or with NULL and nothing changed if there is no run among the bits that `bitmap_scan`
-- looks at.
pub vaddr_get-FirstRun :
    (s : Spaces) (n i : ℕ)
    → IsSpace s.kernel_vaddr
    → 0 < n
    → i < s.kernel_vaddr.vaddr_bitmap.bytes_len * 8
    → scan_bit s.kernel_vaddr.vaddr_bitmap i ≡ false
    → (o : Option ℕ) × (vaddr_get pf_kernel n s ≡ ok (granted s n o))
      × FirstRun s.kernel_vaddr.vaddr_bitmap n (looked_at s.kernel_vaddr.vaddr_bitmap n) o
unfolding vaddr_get
vaddr_get-FirstRun s n i space pos lt free =
    let (o, run, first) = scan-FirstRun space.valid n i pos lt free in
    let same =
      reserve-granted s n (looked_at s.kernel_vaddr.vaddr_bitmap n) o space pos (ground arith)
        first in
    (o, simp (run, same), first)

-- The space after the pages, if there were any, are given back.
abbrev pub returned : Spaces → ℕ → Option ℕ → Spaces
returned s n none = s
returned s n (some r) = vaddr_remove pf_kernel (granted s n (some r)).0 n (granted s n (some r)).1

pub returned-bits :
    (s : Spaces) (n l : ℕ) (o : Option ℕ) (k : ℕ)
    → IsSpace s.kernel_vaddr
    → 0 < n
    → l ≤ s.kernel_vaddr.vaddr_bitmap.bytes_len * 8 + 1
    → FirstRun s.kernel_vaddr.vaddr_bitmap n l o
    → scan_bit (returned s n o).kernel_vaddr.vaddr_bitmap k ≡ scan_bit s.kernel_vaddr.vaddr_bitmap k
unfolding vaddr_remove release
returned-bits s n l none k space pos le f = refl
returned-bits s n l (some r) k space pos le f =
    let b = s.kernel_vaddr.vaddr_bitmap in
    let begin = s.kernel_vaddr.vaddr_begin in
    let at : sub32 (begin + r * 4096) begin / 4096 ≡ r = omega (arith, f.0, space.small) in
    let small : r + 0 + n < 2 ^ 32 = omega (arith, f.0, space.small) in
    let cleared =
      scan_bit-set_pages n r 0 false (set_pages n r 0 true b) k
        (set_pages-IsValid n r 0 true b space.valid) small in
    let marked = scan_bit-set_pages n r 0 true b k space.valid small in
    ap (λ i. scan_bit (set_pages n i 0 false (set_pages n r 0 true b)) k) at
    ∙ ground (arith, cleared, marked, f.1 k)

-- The kernel's call of `vaddr_get` for `n` pages, not 0, where the space is valid, ends below 2 ^
-- 32 and has a free page, returns, and `vaddr_remove` of the pages that it handed out, if any,
-- puts every bit of the space back as it was.
pub vaddr_remove-vaddr_get :
    (s : Spaces) (n i : ℕ)
    → IsSpace s.kernel_vaddr
    → 0 < n
    → i < s.kernel_vaddr.vaddr_bitmap.bytes_len * 8
    → scan_bit s.kernel_vaddr.vaddr_bitmap i ≡ false
    → (o : Option ℕ) × (vaddr_get pf_kernel n s ≡ ok (granted s n o))
      × ((k : ℕ)
          → scan_bit (returned s n o).kernel_vaddr.vaddr_bitmap k
            ≡ scan_bit s.kernel_vaddr.vaddr_bitmap k)
vaddr_remove-vaddr_get s n i space pos lt free =
    let (o, run, first) = vaddr_get-FirstRun s n i space pos lt free in
    (
      o,
      run,
      λ k.
          returned-bits s n (looked_at s.kernel_vaddr.vaddr_bitmap n) o k space pos (ground arith)
            first,
    )
