-- ===== src/Bitmap/Tests.antt =====
-- The bitmap's theorems on bitmaps of one byte.
use os_elephant.Base.{
  ℕ, ◌<◌, ◌≡◌, refl, Option, some, ok, panic, ◌==◌, if◌then◌else◌, arith, holds_below,
  holds_below-at,
}
use os_elephant.Bitmap.{Bitmap, scan_bit, scan}
use os_elephant.Bitmap.Bits.{IsValid}
use os_elephant.Bitmap.Runs.{FirstRun}
use os_elephant.Bitmap.Scan.{scan-FirstRun, scan-panic}
use os_elephant.Bitmap.Edge.{scan_overrun}

-- A byte, with a byte 0 behind it.
abbrev one_byte : ℕ → Bitmap
one_byte x = record { bytes_len = 1; bits = λ i. if i == 0 then x else 0 }

one_byte-IsValid : (x : ℕ) → x < 256 → IsValid (one_byte x)
one_byte-IsValid x lt = record { bytes = λ i. ground arith; small = omega arith }

scan-FirstRun_example :
    (o : Option ℕ) × (scan (one_byte 0xcb) 2 ≡ ok o) × FirstRun (one_byte 0xcb) 2 9 o
unfolding scan_bit
scan-FirstRun_example =
    scan-FirstRun (one_byte-IsValid 0xcb (omega arith)) 2 4 (omega arith) (omega arith) refl

scan-panic_example : scan (one_byte 255) 1 ≡ panic
unfolding scan_bit holds_below
scan-panic_example =
    scan-panic (one_byte-IsValid 255 (omega arith)) 1
      (λ i lt. holds_below-at 8 (scan_bit (one_byte 255)) i refl lt)

scan_overrun_example : scan (one_byte 127) 2 ≡ ok (some 7)
unfolding scan_bit holds_below
scan_overrun_example =
    scan_overrun (one_byte-IsValid 127 (omega arith)) 7 refl
      (λ i lt. holds_below-at 7 (scan_bit (one_byte 127)) i refl lt) refl refl
