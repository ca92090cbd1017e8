-- ===== src/Bitmap/Scan.antt =====
-- `bitmap_scan` finds the first run of free bits.
use os_elephant.Base.{
  ℕ, zero, suc, ◌+◌, ◌-◌, ◌*◌, ◌/◌, ◌%◌, ◌^◌, ◌≤◌, ◌<◌, ◌≡◌, ◌≢◌, refl, ap, Bool, true, false, not,
  ◌&&◌, ◌||◌, Option, some, ◌==◌, ltb, if◌then◌else◌, arith, test_bit, holds_below, holds_below-at,
  test_bit_full, inl, inr, Bool-cases, ok, panic,
}
use native.Mathlib.Decide.{dec_lt, ℕ_discrete}
use os_elephant.Bitmap.{Bitmap, u32, scan_bit, skip_full, skip_used, find_run, scan_from, scan}
use os_elephant.Bitmap.Bits.{IsValid}
use os_elephant.Bitmap.Runs.{FirstRun, Seen, find_run-FirstRun}

-- The byte loop stops at the first bit that is off.
abbrev lowest_off : ℕ → Bool
lowest_off x =
    let r = skip_used 9 x 0 in
    (x == 255) || (ltb r 8 && not (test_bit x r) && holds_below r (test_bit x))

lowest_off_checked : holds_below 256 lowest_off ≡ true
unfolding holds_below skip_used
lowest_off_checked = refl

skip_used_lem :
    (x : ℕ)
    → x < 256
    → x ≢ 255
    → (skip_used 9 x 0 < 8)
      × (test_bit x (skip_used 9 x 0) ≡ false)
      × (holds_below (skip_used 9 x 0) (test_bit x) ≡ true)
skip_used_lem x h ne = ground (arith, holds_below-at 256 lowest_off x lowest_off_checked h)

module _ {b : Bitmap} (valid : IsValid b) where
  record Skipped (byte_index stop : ℕ) : Type 0 where
    from : byte_index ≤ stop
    within : stop ≤ b.bytes_len
    open_byte : stop < b.bytes_len → b.bits stop ≢ 255
    full : (k : ℕ) → byte_index ≤ k → k < stop → b.bits k ≡ 255

  skip_full-Skipped :
      (fuel byte_index : ℕ)
      → byte_index ≤ b.bytes_len
      → b.bytes_len < byte_index + fuel
      → Skipped byte_index (skip_full fuel b byte_index)
  unfolding skip_full
  skip_full-Skipped zero i h e = absurd (omega arith)
  skip_full-Skipped (suc fuel) i h e = elim (Bool-cases ((255 == b.bits i) && ltb i b.bytes_len)) [
    | inl more ↦
        let next : u32 (i + 1) ≡ i + 1 = ground (arith, valid.small) in
        let rest = skip_full-Skipped fuel (u32 (i + 1)) (ground arith) (ground arith) in
        rw (more, skip_full)
          (record {
            from = ground (arith, rest.from);
            within = rest.within;
            open_byte = rest.open_byte;
            full = λ k p q. ground (arith, rest.full k);
          })
    | inr done ↦
        rw (done, skip_full)
          (record {
            from = ground arith;
            within = h;
            open_byte = λ p. ground arith;
            full = λ k p q. absurd (omega arith);
          })
  ]

  -- The bit at which the search begins: the first free bit of the bitmap.
  first_free : ℕ → ℕ
  first_free i = i * 8 + skip_used 9 (b.bits i) 0

  first_free-free : (i : ℕ) → b.bits i ≢ 255 → scan_bit b (first_free i) ≡ false
  unfolding scan_bit first_free
  first_free-free i ne = ground (arith, skip_used_lem (b.bits i) (valid.bytes i) ne)

  first_free-first :
      (i : ℕ) → Skipped 0 i → b.bits i ≢ 255 → (k : ℕ) → k < first_free i → scan_bit b k ≡ true
  unfolding scan_bit first_free
  first_free-first i s ne k h = elim (dec_lt (k / 8) i) [
    | yes p ↦ ground (arith, s.full (k / 8), test_bit_full (k % 8))
    | no p ↦
        let (low, off, on) = skip_used_lem (b.bits i) (valid.bytes i) ne in
        let same : k / 8 ≡ i = omega arith in
        rw same
          (holds_below-at (skip_used 9 (b.bits i) 0) (test_bit (b.bits i)) (k % 8) on (omega arith))
  ]

  -- The last start that the search looks at: for one bit the search ends at the bitmap's end, for
  -- more it also reads the bit behind it.
  Seen-first :
      (count i : ℕ) → 1 < count → Skipped 0 i → b.bits i ≢ 255 → Seen b count (first_free i + 1) 1
  Seen-first count i h s ne = record {
    fits = omega arith;
    short = h;
    run = λ k p q. let same : k ≡ first_free i = omega arith in rw same (first_free-free i ne);
    edge = λ k e. first_free-first i s ne k (omega arith);
    missed = λ t p free.
        ground (arith, free t (omega arith) (omega arith), first_free-first i s ne t (omega arith));
  }

  scan_from-one :
      (i : ℕ) → Skipped 0 i → i < b.bytes_len → FirstRun b 1 (b.bytes_len * 8) (scan_from b 1 i)
  scan_from-one i s h =
      let ne = s.open_byte h in
      let (low, off, on) = skip_used_lem (b.bits i) (valid.bytes i) ne in
      let same : scan_from b 1 i ≡ some (first_free i) =
        unfold scan_from first_free in ap some (omega (arith, valid.small)) in
      let below : first_free i + 1 ≤ b.bytes_len * 8 = unfold first_free in omega arith in
      rw same (
        below,
        λ k p q. let at : k ≡ first_free i = omega arith in rw at (first_free-free i ne),
        λ t p free. ground (arith, free t (omega arith) (omega arith), first_free-first i s ne t p),
      )

  scan_from-many :
      (count i : ℕ)
      → 1 < count
      → Skipped 0 i
      → i < b.bytes_len
      → FirstRun b count (b.bytes_len * 8 + 1) (scan_from b count i)
  scan_from-many count i c s h =
      let ne = s.open_byte h in
      let (low, off, on) = skip_used_lem (b.bits i) (valid.bytes i) ne in
      let below : first_free i + 1 ≤ b.bytes_len * 8 = unfold first_free in omega arith in
      let begin : u32 (i * 8 + skip_used 9 (b.bits i) 0) ≡ first_free i =
        unfold first_free in omega (arith, valid.small) in
      let left : u32 (b.bytes_len * 8 + 2 ^ 32 - first_free i) ≡ b.bytes_len * 8 - first_free i =
        omega (arith, valid.small) in
      let next : u32 (first_free i + 1) ≡ first_free i + 1 = omega (arith, valid.small) in
      let same : scan_from b count i
          ≡ find_run (b.bytes_len * 8 - first_free i) b count (first_free i + 1) 1 =
        unfold scan_from in ground arith in
      rw same (
        find_run-FirstRun b count (b.bytes_len * 8 - first_free i) (first_free i + 1) 1
          (b.bytes_len * 8 + 1) (Seen-first count i c s ne) (omega arith) (omega arith)
          (omega (arith, valid.small)))

  scan-ok :
      (count : ℕ)
      → skip_full (b.bytes_len + 1) b 0 < b.bytes_len
      → scan b count ≡ ok (scan_from b count (skip_full (b.bytes_len + 1) b 0))
  unfolding scan
  scan-ok count h = ground arith

  -- How far the search looks for `count` bits.
  abbrev pub limit : ℕ → ℕ
  limit count = if count == 1 then b.bytes_len * 8 else b.bytes_len * 8 + 1

  stop : Skipped 0 (skip_full (b.bytes_len + 1) b 0)
  stop = skip_full-Skipped (b.bytes_len + 1) 0 (omega arith) (omega arith)

  stop_below :
      (i : ℕ)
      → i < b.bytes_len * 8
      → scan_bit b i ≡ false
      → skip_full (b.bytes_len + 1) b 0 < b.bytes_len
  unfolding scan_bit
  stop_below i h free = elim (dec_lt (skip_full (b.bytes_len + 1) b 0) b.bytes_len) [
    | yes p ↦ p
    | no q ↦ ground (arith, stop.full (i / 8), stop.within, test_bit_full (i % 8))
  ]

  -- If some bit of the bitmap is free, `bitmap_scan` does not stop at its assertion, and what it
  -- returns for `count` bits (not 0) is the first run of that many free bits, or -1 (`none`) if
  -- there is none, among the bits below the bitmap's end, and for `count` above 1 the one bit
  -- behind the end.
  pub scan-FirstRun :
      (count i : ℕ)
      → 0 < count
      → i < b.bytes_len * 8
      → scan_bit b i ≡ false
      → (o : Option ℕ) × (scan b count ≡ ok o) × FirstRun b count (limit count) o
  scan-FirstRun count i pos h free =
      let at = skip_full (b.bytes_len + 1) b 0 in
      let here : at < b.bytes_len = stop_below i h free in
      (
        scan_from b count at,
        scan-ok count here,
        elim (ℕ_discrete count 1) [
          | yes one ↦ rw one (scan_from-one at stop here)
          | no many ↦
              let end : limit count ≡ b.bytes_len * 8 + 1 = ground arith in
              rw end (scan_from-many count at (omega arith) stop here)
        ],
      )

  -- On a valid bitmap with no free bit `bitmap_scan` stops at its assertion: it does not return
  -- -1.
  pub scan-panic :
      (count : ℕ) → ((i : ℕ) → i < b.bytes_len * 8 → scan_bit b i ≡ true) → scan b count ≡ panic
  scan-panic count used = elim (dec_lt (skip_full (b.bytes_len + 1) b 0) b.bytes_len) [
    | yes p ↦
        let i = skip_full (b.bytes_len + 1) b 0 in
        let (low, off, on) = skip_used_lem (b.bits i) (valid.bytes i) (stop.open_byte p) in
        let below : first_free i < b.bytes_len * 8 = unfold first_free in omega arith in
        ground (arith, used (first_free i) below, first_free-free i (stop.open_byte p))
    | no q ↦ unfold scan in ground arith
  ]
