-- ===== src/Stdio/Digits.antt =====
-- The digits that `itoa` writes are those of the number.
use os_elephant.Base.{
  ℕ, zero, suc, ◌+◌, ◌-◌, ◌*◌, ◌/◌, ◌%◌, ◌^◌, ◌<◌, ◌≡◌, refl, ap, ◌∙◌, Bool, true, false, List, [],
  ◌∷◌, ◌++◌, ◌==◌, ltb, if◌then◌else◌, append_assoc, ok, arith, Bool-cases, inl, inr,
}
use os_elephant.Stdio.{itoa, digit_char}

abbrev pub base : Bool → ℕ
base true = 16
base false = 10

-- The digit that a character stands for, and the number that a list of them does.
abbrev pub digit : ℕ → ℕ
digit c = if ltb c 58 then c - 48 else c - 55

abbrev pub number : Bool → ℕ → List ℕ → ℕ
number hex acc [] = acc
number hex acc (c ∷ cs) = number hex (acc * base hex + digit c) cs

number-append :
    (hex : Bool) (acc : ℕ) (xs ys : List ℕ)
    → number hex acc (xs ++ ys) ≡ number hex (number hex acc xs) ys
number-append hex acc [] ys = refl
number-append hex acc (x ∷ xs) ys = number-append hex (acc * base hex + digit x) xs ys

last_digit :
    (hex : Bool) (value : ℕ)
    → value / base hex * base hex + digit (digit_char (value % base hex)) ≡ value
last_digit true value = ground arith
last_digit false value = ground arith

smaller : (hex : Bool) (value fuel : ℕ) → value < 2 ^ suc fuel → value / base hex < 2 ^ fuel
smaller true value fuel lt = omega arith
smaller false value fuel lt = omega arith

only :
    (hex : Bool) (value : ℕ)
    → (value / base hex == 0) ≡ true
    → number hex 0 (digit_char (value % base hex) ∷ []) ≡ value
only true value h = ground arith
only false value h = ground arith

zero_ends : (hex : Bool) → (0 / base hex == 0) ≡ true
zero_ends true = refl
zero_ends false = refl

-- `itoa` of a number below 2 ^ n, in base 10 or 16, with n + 1 units of fuel (33 for an `unsigned int`), ends, and adds to the buffer
-- digits that read back as the number.
pub itoa-number :
    (fuel : ℕ) (hex : Bool) (value : ℕ) (buf : List ℕ)
    → value < 2 ^ fuel
    → (ds : List ℕ) × (itoa (suc fuel) value (base hex) buf ≡ ok (buf ++ ds))
      × (number hex 0 ds ≡ value)
unfolding itoa
itoa-number zero hex value buf lt =
    let none_left : value ≡ 0 = omega arith in
    let last : (value / base hex == 0) ≡ true = rw none_left (zero_ends hex) in
    (digit_char (value % base hex) ∷ [], rw last refl, only hex value last)
itoa-number (suc fuel) hex value buf lt = elim (Bool-cases (value / base hex == 0)) [
  | inl last ↦ (digit_char (value % base hex) ∷ [], rw last refl, only hex value last)
  | inr more ↦
      let (ds, run, reads) =
        itoa-number fuel hex (value / base hex) buf (smaller hex value fuel lt) in
      let char = digit_char (value % base hex) in
      (
        ds ++ char ∷ [],
        rw (more, run) (ap ok (append_assoc buf ds (char ∷ []))),
        number-append hex 0 ds (char ∷ [])
            ∙ ap (λ n. n * base hex + digit char) reads
            ∙ last_digit hex value,
      )
]
