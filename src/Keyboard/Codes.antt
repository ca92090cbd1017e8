-- ===== src/Keyboard/Codes.antt =====
-- The codes that the handler computes from a byte, and the keys that they stand for.
use os_elephant.Base.{
  ℕ, ◌+◌, ◌-◌, ◌%◌, ◌<◌, ◌≤◌, ◌≡◌, refl, sym, ap, ◌∙◌, Bool, true, false, not, ◌&&◌, ◌||◌, ◌==◌,
  ltb, leb, if◌then◌else◌, bit_and, holds_below, holds_below-at, arith, Bool-cases, inl, inr,
}
use os_elephant.Keyboard.{Keyboard, is_served, released, held, extended}
use os_elephant.Keyboard.Chars.{expected, plain_char, upper_char}
use os_elephant.Keyboard.Keys.{sign_key, key_of, switched, sign}

abbrev pub prefix_of : Bool → ℕ
prefix_of prefixed = if prefixed then 57344 else 0

abbrev codes_fit : Bool → ℕ → Bool
codes_fit prefixed byte =
    (extended prefixed byte == prefix_of prefixed + byte)
    && (if leb 128 byte
        then not (bit_and (prefix_of prefixed + byte) 0x80 == 0)
        else bit_and (prefix_of prefixed + byte) 0x80 == 0)
    && (ltb byte 128
        || (bit_and (prefix_of prefixed + byte) 0xff7f == prefix_of prefixed + (byte - 128)))
    && (leb 128 byte || (bit_and (prefix_of prefixed + byte) 0xff == byte))

codes_table : (prefixed : Bool) → holds_below 256 (codes_fit prefixed) ≡ true
unfolding holds_below extended
codes_table true = refl
codes_table false = refl

-- The code that the handler computes for a byte, and its parts.
pub record Codes (prefixed : Bool) (byte : ℕ) : Type 0 where
  pub code : extended prefixed byte ≡ prefix_of prefixed + byte
  pub down : byte < 128 → (bit_and (prefix_of prefixed + byte) 0x80 == 0) ≡ true
  pub up : 128 ≤ byte → (bit_and (prefix_of prefixed + byte) 0x80 == 0) ≡ false
  pub key :
      128 ≤ byte → bit_and (prefix_of prefixed + byte) 0xff7f ≡ prefix_of prefixed + byte % 128
  pub low : byte < 128 → bit_and (prefix_of prefixed + byte) 0xff ≡ byte

pub byte-Codes : (prefixed : Bool) (byte : ℕ) → byte < 256 → Codes prefixed byte
byte-Codes prefixed byte lt =
    let row = holds_below-at 256 (codes_fit prefixed) byte (codes_table prefixed) lt in
    record {
      code = ground (arith, row);
      down = λ small. ground (arith, row);
      up = λ big. ground (arith, row);
      key = λ big. ground (arith, row);
      low = λ small. ground (arith, row);
    }

-- A code with bit 7 cleared releases its key.
pub released-switched :
    (prefixed : Bool) (number : ℕ) (k : Keyboard)
    → number < 128
    → released (prefix_of prefixed + number) k ≡ switched false (key_of prefixed number) k
unfolding released key_of switched
released-switched prefixed number k lt = ground arith

-- The control keys' numbers.
abbrev is_control : ℕ → Bool
is_control i = (i == 29) || (i == 42) || (i == 54) || (i == 56) || (i == 58)

-- A key that the handler serves has a sign just if it is no control key.
abbrev pub key_sign : Bool → Bool → ℕ → ℕ
key_sign shift caps i = expected shift caps (plain_char i) (upper_char i)

abbrev signs_fit : Bool → Bool → ℕ → Bool
signs_fit shift caps i =
    if (i == 0) || is_control i
    then key_sign shift caps i == 0
    else not (key_sign shift caps i == 0)

signs_table : (shift caps : Bool) → holds_below 59 (signs_fit shift caps) ≡ true
unfolding holds_below
signs_table true true = refl
signs_table true false = refl
signs_table false true = refl
signs_table false false = refl

-- A key that the handler serves is a control key just if its character `c` is 0.
abbrev IsChar : ℕ → ℕ → Type 0
IsChar number c = (if (number == 0) || is_control number then c == 0 else not (c == 0)) ≡ true

char-switched :
    (prefixed : Bool) (number c : ℕ) (k : Keyboard)
    → number < 128
    → is_served (prefix_of prefixed + number) ≡ true
    → IsChar number c
    → (if c == 0 then held number k else k) ≡ switched true (key_of prefixed number) k
unfolding held key_of switched
char-switched prefixed number c k lt known is = ground (arith, known, is)

served-small :
    (prefixed : Bool) (number : ℕ)
    → number < 128
    → is_served (prefix_of prefixed + number) ≡ true
    → number < 59
served-small prefixed number lt known = ground (arith, known)

key_sign-IsChar :
    (shift caps : Bool) (number : ℕ) → number < 59 → IsChar number (key_sign shift caps number)
key_sign-IsChar shift caps number lt =
    holds_below-at 59 (signs_fit shift caps) number (signs_table shift caps) lt

pub served_key-switched :
    (prefixed : Bool) (number : ℕ) (k : Keyboard)
    → number < 128
    → is_served (prefix_of prefixed + number) ≡ true
    → (if key_sign k.shift_status k.caps_lock_status number == 0 then held number k else k)
      ≡ switched true (key_of prefixed number) k
served_key-switched prefixed number k lt known =
    char-switched prefixed number (key_sign k.shift_status k.caps_lock_status number) k lt known (
      key_sign-IsChar k.shift_status k.caps_lock_status number
        (served-small prefixed number lt known))

control-sign :
    (prefixed : Bool) (number : ℕ) (k : Keyboard)
    → is_control number ≡ true
    → sign true (key_of prefixed number) k ≡ 0
unfolding key_of sign
control-sign prefixed number k control = ground (arith, control)

other-key :
    (prefixed : Bool) (number : ℕ)
    → number < 128
    → is_served (prefix_of prefixed + number) ≡ true
    → is_control number ≡ false
    → key_of prefixed number ≡ sign_key number
unfolding key_of
other-key prefixed number lt known other = ground (arith, known, other)

char-control : (number c : ℕ) → is_control number ≡ true → IsChar number c → c ≡ 0
char-control number c control is = ground (arith, control, is)

pub served_key-sign :
    (prefixed : Bool) (number : ℕ) (k : Keyboard)
    → number < 128
    → is_served (prefix_of prefixed + number) ≡ true
    → sign true (key_of prefixed number) k ≡ key_sign k.shift_status k.caps_lock_status number
unfolding sign
served_key-sign prefixed number k lt known = elim (Bool-cases (is_control number)) [
  | inl control ↦
      control-sign prefixed number k control
      ∙ sym (
          char-control number (key_sign k.shift_status k.caps_lock_status number) control (
            key_sign-IsChar k.shift_status k.caps_lock_status number
              (served-small prefixed number lt known)))
  | inr other ↦ ap (λ key. sign true key k) (other-key prefixed number lt known other)
]

-- Any other key.
pub unserved_key-switched :
    (prefixed : Bool) (number : ℕ) (k : Keyboard)
    → number < 128
    → is_served (prefix_of prefixed + number) ≡ false
    → record k { errors = k.errors + 1 } ≡ switched true (key_of prefixed number) k
unfolding key_of switched
unserved_key-switched prefixed number k lt unknown = ground (arith, unknown)

pub unserved_key-sign :
    (prefixed : Bool) (number : ℕ) (k : Keyboard)
    → number < 128
    → is_served (prefix_of prefixed + number) ≡ false
    → sign true (key_of prefixed number) k ≡ 0
unfolding key_of sign
unserved_key-sign prefixed number k lt unknown = ground (arith, unknown)
