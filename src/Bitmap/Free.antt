-- ===== src/Bitmap/Free.antt =====
-- Bitmaps that have some number of free bits.
use os_elephant.Base.{
  ℕ, ◌+◌, ◌*◌, ◌<◌, ◌≡◌, ◌≢◌, ◌∙◌, true, false, ◌==◌, if◌then◌else◌, arith, Bool-cases, inl, inr,
}
use os_elephant.Bitmap.{Bitmap, scan_bit, set}
use os_elephant.Bitmap.Bits.{IsValid, scan_bit-set}

-- `n` bits of the bitmap that are free, each at a place of its own.
pub record HasFree (b : Bitmap) (n : ℕ) : Type 0 where
  pub at : ℕ → ℕ
  pub below : (k : ℕ) → k < n → at k < b.bytes_len * 8
  pub free : (k : ℕ) → k < n → scan_bit b (at k) ≡ false
  pub apart : (j k : ℕ) → j < n → k < n → at j ≡ at k → j ≡ k

pub HasFree-less : (b : Bitmap) (n : ℕ) → HasFree b (n + 1) → HasFree b n
HasFree-less b n f = record {
  at = f.at;
  below = λ k lt. f.below k (omega arith);
  free = λ k lt. f.free k (omega arith);
  apart = λ j k lj lk. f.apart j k (omega arith) (omega arith);
}

-- One bit that is taken leaves all the others.
pub set-HasFree :
    (b : Bitmap) (bit n : ℕ) → IsValid b → HasFree b (n + 1) → HasFree (set b bit true) n
set-HasFree b bit n valid f =
    let bits = λ (k : ℕ). scan_bit-set bit k true valid in
    let next : ℕ → ℕ = λ k. if f.at k == bit then f.at n else f.at k in
    let differs : (k : ℕ) → k < n → next k ≢ bit = λ k lt. elim (Bool-cases (f.at k == bit)) [
      | inl same ↦ rw same (λ e.
          let at : n ≡ k = f.apart n k (omega arith) (omega arith) (ground arith) in omega arith)
      | inr other ↦ rw other (ground arith)
    ] in
    record {
      at = next;
      below = λ k lt. unfold set in ground (arith, f.below k, f.below n);
      free = λ k lt. bits (next k) ∙ ground (arith, differs k lt, f.free k, f.free n);
      apart = λ j k lj lk e. ground (arith, f.apart j k, f.apart j n, f.apart n k, f.apart k n);
    }
