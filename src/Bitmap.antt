-- ===== src/Bitmap.antt =====
-- lib/bitmap.c: a bitmap over a run of bytes in memory. `bits` is the memory from the bitmap's
-- first byte on, so that a read past `bytes_len` reads what lies behind the bitmap, as in C.
-- Indices are `unsigned int`: each sum and product is taken modulo 2 ^ 32.
pub mod Bits
pub mod Runs
pub mod Scan
pub mod Edge
pub mod Free
mod Tests
use os_elephant.Base.{
  ℕ, zero, suc, ◌+◌, ◌-◌, ◌*◌, ◌/◌, ◌%◌, ◌^◌, Bool, true, false, not, ◌&&◌, Option, none, some,
  ◌==◌, ltb, if◌then◌else◌, update, Outcome, ok, ◌>>=◌, ◌>>◌, assert, test_bit, bit_on, bit_off,
  bit_and,
}

pub record Bitmap : Type 0 where
  pub bytes_len : ℕ
  pub bits : ℕ → ℕ

abbrev pub u32 : ℕ → ℕ
u32 n = n % 2 ^ 32

-- The loop of `memset` on the bitmap's bytes.
clear_bytes : ℕ → ℕ → (ℕ → ℕ) → ℕ → ℕ
clear_bytes zero dst mem = mem
clear_bytes (suc size) dst mem = clear_bytes size (dst + 1) (update mem dst 0)

unfoldable pub init : Bitmap → Bitmap
unfolding clear_bytes
init b = record b { bits = clear_bytes b.bytes_len 0 b.bits }

unfoldable pub scan_bit : Bitmap → ℕ → Bool
scan_bit b bit_index = test_bit (b.bits (bit_index / 8)) (bit_index % 8)

-- `while((0xff == bits[byte_index]) && (byte_index < bytes_len)) byte_index++`
skip_full : ℕ → Bitmap → ℕ → ℕ
skip_full zero b byte_index = byte_index
skip_full (suc fuel) b byte_index =
    elim ((255 == b.bits byte_index) && ltb byte_index b.bytes_len) [
      | true ↦ skip_full fuel b (u32 (byte_index + 1))
      | false ↦ byte_index
    ]

-- `while((unsigned char)(1<<bit_index) & byte) bit_index++`; 1<<8 is 0 as an unsigned char.
skip_used : ℕ → ℕ → ℕ → ℕ
skip_used zero byte bit_index = bit_index
skip_used (suc fuel) byte bit_index = elim (bit_and (2 ^ bit_index % 256) byte == 0) [
  | false ↦ skip_used fuel byte (bit_index + 1)
  | true ↦ bit_index
]

-- The loop that looks for `count` free bits in a row; the result is a bit index, or -1 (`none`).
pub find_run : ℕ → Bitmap → (count next_bit counting : ℕ) → Option ℕ
find_run zero b count next_bit counting = none
find_run (suc bit_leaving) b count next_bit counting =
    let counting' = if not (scan_bit b next_bit) then u32 (counting + 1) else 0 in
    elim (counting' == count) [
      | true ↦ some (u32 (next_bit + 2 ^ 32 - count + 1))
      | false ↦ find_run bit_leaving b count (u32 (next_bit + 1)) counting'
    ]

-- What `scan` does from the byte at which its first loop stopped.
scan_from : Bitmap → (count byte_index : ℕ) → Option ℕ
unfolding skip_used find_run
scan_from b count byte_index =
    let begin = u32 (byte_index * 8 + skip_used 9 (b.bits byte_index) 0) in
    if count == 1
    then some begin
    else find_run (u32 (b.bytes_len * 8 + 2 ^ 32 - begin)) b count (u32 (begin + 1)) 1

unfoldable pub scan : Bitmap → ℕ → Outcome (Option ℕ)
unfolding skip_full scan_from
scan b count = do
  let byte_index = skip_full (b.bytes_len + 1) b 0
  assert (ltb byte_index b.bytes_len)
  if byte_index == b.bytes_len then ok none else ok (scan_from b count byte_index)

-- `value` is 0 or 1 wherever `bitmap_set` is called.
unfoldable pub set : Bitmap → ℕ → Bool → Bitmap
set b bit_index value =
    let byte = b.bits (bit_index / 8) in
    let byte' = if value then bit_on byte (bit_index % 8) else bit_off byte (bit_index % 8) in
    record b { bits = update b.bits (bit_index / 8) byte' }
