-- ===== src/Bitmap/Edge.antt =====
-- `bitmap_scan` for one bit, as the page and block allocators call it, and at the bitmap's end.
use native.Mathlib.Decide.{dec_lt, ℕ_discrete}
use os_elephant.Base.{
  ℕ, ◌+◌, ◌*◌, ◌<◌, ◌≡◌, refl, true, false, Option, none, some, arith, ok, ap, ◌∙◌, Bool-cases, inl,
  inr,
}
use os_elephant.Bitmap.{Bitmap, scan_bit, scan}
use os_elephant.Bitmap.Bits.{IsValid}
use os_elephant.Bitmap.Runs.{FirstRun}
use os_elephant.Bitmap.Scan.{scan-FirstRun}

module _ {b : Bitmap} (valid : IsValid b) where
  one_bit :
      (i : ℕ) (o : Option ℕ)
      → i < b.bytes_len * 8
      → scan_bit b i ≡ false
      → FirstRun b 1 (b.bytes_len * 8) o
      → (r : ℕ) × (o ≡ some r)
        × (r < b.bytes_len * 8)
        × (scan_bit b r ≡ false)
        × ((k : ℕ) → k < r → scan_bit b k ≡ true)
  one_bit i none h free f =
      absurd (f i (omega arith) λ k p q. let at : k ≡ i = omega arith in rw at free)
  one_bit i (some r) h free f = (
    r,
    refl,
    omega (arith, f.0),
    f.1 r (omega arith) (omega arith),
    λ k p. elim (Bool-cases (scan_bit b k)) [
      | inl used ↦ used
      | inr free ↦ absurd (f.2 k p λ j p q. let at : j ≡ k = omega arith in rw at free)
    ],
  )

  -- Asked for one bit of a valid bitmap in which one is free, `bitmap_scan` returns the lowest
  -- free bit of the bitmap.
  pub scan_one :
      (i : ℕ)
      → i < b.bytes_len * 8
      → scan_bit b i ≡ false
      → (r : ℕ) × (scan b 1 ≡ ok (some r))
        × (r < b.bytes_len * 8)
        × (scan_bit b r ≡ false)
        × ((k : ℕ) → k < r → scan_bit b k ≡ true)
  scan_one i h free =
      let (o, e, f) = scan-FirstRun valid 1 i (omega arith) h free in
      let (r, got, below, off, on) = one_bit i o h free f in (r, rw (← got) e, below, off, on)

  at_last :
      (last : ℕ) (o : Option ℕ)
      → last + 1 ≡ b.bytes_len * 8
      → ((i : ℕ) → i < last → scan_bit b i ≡ true)
      → scan_bit b last ≡ false
      → scan_bit b (last + 1) ≡ false
      → FirstRun b 2 (b.bytes_len * 8 + 1) o
      → o ≡ some last
  at_last last none e used free behind f = absurd (
      f last (omega arith) λ k p q. elim (ℕ_discrete k last) [
        | yes same ↦ rw same free
        | no other ↦ let at : k ≡ last + 1 = omega arith in rw at behind
      ])
  at_last last (some r) e used free behind f = elim (dec_lt r last) [
    | yes p ↦ ground (arith, used r p, f.1 r)
    | no q ↦ ap some (omega (arith, f.0))
  ]

  -- What lies behind the bitmap is read: if only the last bit of a valid bitmap is free and the
  -- bit behind it reads 0, `bitmap_scan` for two bits hands out the last one and the one behind
  -- the bitmap.
  pub scan_overrun :
      (last : ℕ)
      → last + 1 ≡ b.bytes_len * 8
      → ((i : ℕ) → i < last → scan_bit b i ≡ true)
      → scan_bit b last ≡ false
      → scan_bit b (last + 1) ≡ false
      → scan b 2 ≡ ok (some last)
  scan_overrun last e used free behind =
      let (o, got, f) = scan-FirstRun valid 2 last (omega arith) (omega arith) free in
      got ∙ ap ok (at_last last o e used free behind f)
