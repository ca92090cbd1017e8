-- ===== src/Bitmap/Bits.antt =====
-- What `bitmap_init` and `bitmap_set` do to each bit, as `bitmap_scan_bit` reads it.
use os_elephant.Base.{
  ℕ, zero, suc, ◌+◌, ◌*◌, ◌/◌, ◌%◌, ◌^◌, ◌<◌, ◌≡◌, Bool, true, false, ◌==◌, ltb, if◌then◌else◌,
  arith, update, test_bit-bit_on, test_bit-bit_off, test_bit_zero,
}
use os_elephant.Bitmap.{Bitmap, init, clear_bytes, scan_bit, set}

-- Memory holds bytes, and the number of bits fits an `int`.
pub record IsValid (b : Bitmap) : Type 0 where
  pub bytes : (i : ℕ) → b.bits i < 256
  pub small : b.bytes_len * 8 < 2 ^ 31

-- After `bitmap_set` on a valid bitmap the bit reads as `value`, and every other bit as before.
pub scan_bit-set :
    {b : Bitmap} (i j : ℕ) (v : Bool)
    → IsValid b
    → scan_bit (set b i v) j ≡ (if j == i then v else scan_bit b j)
unfolding scan_bit set
scan_bit-set {b} i j true valid =
    ground (arith, test_bit-bit_on (b.bits (i / 8)) (i % 8) (j % 8) (valid.bytes (i / 8)))
scan_bit-set {b} i j false valid =
    ground (arith, test_bit-bit_off (b.bits (i / 8)) (i % 8) (j % 8) (valid.bytes (i / 8)))

-- `bitmap_set` keeps the bitmap valid and its length.
pub set-IsValid : {b : Bitmap} (i : ℕ) (v : Bool) → IsValid b → IsValid (set b i v)
unfolding set
set-IsValid {b} i v valid = record {
  bytes = λ k. ground (arith, valid.bytes k);
  small = valid.small;
}

clear_bytes_lem :
    (size dst : ℕ) (mem : ℕ → ℕ) (i : ℕ)
    → clear_bytes size dst mem i
      ≡ (if ltb i dst then mem i else if ltb i (dst + size) then 0 else mem i)
unfolding clear_bytes
clear_bytes_lem zero dst mem i = ground arith
clear_bytes_lem (suc size) dst mem i =
    ground (arith, clear_bytes_lem size (dst + 1) (update mem dst 0) i)

-- `bitmap_init` clears the bits of the bitmap's own bytes, and no bit behind them.
pub scan_bit-init :
    (b : Bitmap) (i : ℕ)
    → scan_bit (init b) i ≡ (if ltb i (b.bytes_len * 8) then false else scan_bit b i)
unfolding scan_bit init
scan_bit-init b i =
    ground (arith, clear_bytes_lem b.bytes_len 0 b.bits (i / 8), test_bit_zero (i % 8))

pub init-IsValid : {b : Bitmap} → IsValid b → IsValid (init b)
unfolding init
init-IsValid {b} valid = record {
  bytes = λ k. ground (arith, valid.bytes k, clear_bytes_lem b.bytes_len 0 b.bits k);
  small = valid.small;
}
