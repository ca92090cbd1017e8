-- ===== src/Base/Tables.antt =====
-- Facts about the bits of a byte, by evaluation of every case.
use Prim.Native.Nat.{ℕ, zero, suc, ◌-◌, ◌%◌, ◌^◌, ◌<◌, bit_and, bit_or}
use mathlib.Core.Path.{◌≡◌, refl}
use mathlib.Core.Bool.{Bool, true, false, not}
use native.Mathlib.Omega.{arith}
use os_elephant.Base.Tests.{◌==◌, if◌then◌else◌}

-- Whether the test succeeds on every number below the bound.
unfoldable pub holds_below : ℕ → (ℕ → Bool) → Bool
holds_below zero test = true
holds_below (suc bound) test = if test bound then holds_below bound test else false

pub holds_below-at :
    (bound : ℕ) (test : ℕ → Bool) (i : ℕ)
    → holds_below bound test ≡ true
    → i < bound
    → test i ≡ true
unfolding holds_below
holds_below-at zero test i all below = absurd (omega arith)
holds_below-at (suc bound) test i all below = ground (arith, holds_below-at bound test i)

-- Bit `k` of `x`, as the C test `x & (1 << k)` reads it.
abbrev pub test_bit : ℕ → ℕ → Bool
test_bit x k = not (bit_and x (2 ^ k) == 0)

-- `x |= 1 << k` and `x &= ~(1 << k)` on an unsigned char.
abbrev pub bit_on : ℕ → ℕ → ℕ
bit_on x k = bit_or x (2 ^ k) % 256

abbrev pub bit_off : ℕ → ℕ → ℕ
bit_off x k = bit_and x (2 ^ 32 - 1 - 2 ^ k) % 256

abbrev beq : Bool → Bool → Bool
beq true b = b
beq false b = not b

beq_sound : (a b : Bool) → beq a b ≡ true → a ≡ b
beq_sound true b h = ground arith
beq_sound false b h = ground arith

abbrev on_table : ℕ → ℕ → ℕ → Bool
on_table x k j = beq (test_bit (bit_on x k) j) (if j == k then true else test_bit x j)

abbrev off_table : ℕ → ℕ → ℕ → Bool
off_table x k j = beq (test_bit (bit_off x k) j) (if j == k then false else test_bit x j)

on_checked : holds_below 256 (λ x. holds_below 8 (λ k. holds_below 8 (λ j. on_table x k j))) ≡ true
unfolding holds_below
on_checked = refl

off_checked :
    holds_below 256 (λ x. holds_below 8 (λ k. holds_below 8 (λ j. off_table x k j))) ≡ true
unfolding holds_below
off_checked = refl

module _ (x k j : ℕ) (hx : x < 256) (hk : k < 8) (hj : j < 8) where
  three :
      (p : ℕ → ℕ → ℕ → Bool)
      → holds_below 256 (λ x. holds_below 8 (λ k. holds_below 8 (λ j. p x k j))) ≡ true
      → p x k j ≡ true
  three p h = holds_below-at 8 _ j (holds_below-at 8 _ k (holds_below-at 256 _ x h hx) hk) hj

  pub test_bit-bit_on : test_bit (bit_on x k) j ≡ (if j == k then true else test_bit x j)
  test_bit-bit_on = beq_sound _ _ (three on_table on_checked)

  pub test_bit-bit_off : test_bit (bit_off x k) j ≡ (if j == k then false else test_bit x j)
  test_bit-bit_off = beq_sound _ _ (three off_table off_checked)

-- 0xff has no bit off.
pub test_bit_full : (k : ℕ) → k < 8 → test_bit 255 k ≡ true
unfolding holds_below
test_bit_full k h = holds_below-at 8 (test_bit 255) k refl h

pub test_bit_zero : (k : ℕ) → k < 8 → test_bit 0 k ≡ false
unfolding holds_below
test_bit_zero k h = ground (arith, holds_below-at 8 (λ j. not (test_bit 0 j)) k refl h)
