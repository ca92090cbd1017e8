-- ===== src/Keyboard/Chars.antt =====
-- The characters of the keys.
use os_elephant.Base.{
  ℕ, ◌-◌, ◌<◌, ◌≡◌, refl, ap, Bool, true, false, not, ◌&&◌, none, some, ◌==◌, ltb, leb,
  if◌then◌else◌, get_elem?, holds_below, holds_below-at, Outcome, ok, panic, fault, unfinished,
  arith, bit_and, subst, sym, Bool-cases, inl, inr,
}
use os_elephant.Keyboard.{is_served, keymap, is_shifted, read_keymap}

-- The character that a served make code below 0x3b sends.
abbrev pub key_char : Bool → Bool → ℕ → Outcome ℕ
key_char shift caps scancode =
    read_keymap (is_shifted shift caps scancode) (get_elem? keymap scancode)

abbrev pub plain_char : ℕ → ℕ
plain_char scancode = elim (get_elem? keymap scancode) [ none ↦ 0 | some p ↦ p.0 ]

abbrev pub upper_char : ℕ → ℕ
upper_char scancode = elim (get_elem? keymap scancode) [ none ↦ 0 | some p ↦ p.1 ]

abbrev pub is_letter : ℕ → Bool
is_letter c = leb 97 c && leb c 122

abbrev is_char : ℕ → Outcome ℕ → Bool
is_char c (ok d) = d == c
is_char c _ = false

is_char-ok : (c : ℕ) (r : Outcome ℕ) → is_char c r ≡ true → r ≡ ok c
is_char-ok c (ok d) h = ap ok (ground arith)
is_char-ok c panic h = cc
is_char-ok c fault h = cc
is_char-ok c unfinished h = cc

abbrev xor : Bool → Bool → Bool
xor true b = not b
xor false b = b

-- What a key with lower sign `c` and upper sign `u` should send.
abbrev pub expected : Bool → Bool → ℕ → ℕ → ℕ
expected shift caps c u =
    if is_letter c then (if xor shift caps then c - 32 else c) else if shift then u else c

abbrev as_expected : Bool → Bool → ℕ → Bool
as_expected shift caps i =
    is_char (expected shift caps (plain_char i) (upper_char i)) (key_char shift caps i)

table : (shift caps : Bool) → holds_below 59 (as_expected shift caps) ≡ true
unfolding holds_below is_shifted read_keymap
table true true = refl
table true false = refl
table false true = refl
table false false = refl

-- A key that the keymap has sends its lower or its upper sign: a letter is a capital just if one
-- of shift and caps lock is on, but not both, and its capital is the ASCII code 32 below; any other
-- key heeds shift alone. No key is read past the keymap.
pub key_char-expected :
    (shift caps : Bool) (scancode : ℕ)
    → scancode < 59
    → key_char shift caps scancode
      ≡ ok (expected shift caps (plain_char scancode) (upper_char scancode))
key_char-expected shift caps scancode lt =
    is_char-ok (expected shift caps (plain_char scancode) (upper_char scancode))
      (key_char shift caps scancode)
      (holds_below-at 59 (as_expected shift caps) scancode (table shift caps) lt)

low_byte : (scancode : ℕ) → scancode < 59 → bit_and scancode 0xff ≡ scancode
unfolding holds_below
low_byte scancode lt = ground (arith, holds_below-at 59 (λ i. bit_and i 0xff == i) scancode refl lt)

-- The equation at one code, for every state of the two keys.
abbrev pub Fits : Bool → Bool → ℕ → Type 0
Fits shift caps scancode =
    read_keymap (is_shifted shift caps scancode) (get_elem? keymap (bit_and scancode 0xff))
    ≡ ok (
        expected shift caps (plain_char (bit_and scancode 0xff))
          (upper_char (bit_and scancode 0xff)))

alt_r-Fits : (shift caps : Bool) → Fits shift caps 0xe038
unfolding is_shifted read_keymap
alt_r-Fits true true = refl
alt_r-Fits true false = refl
alt_r-Fits false true = refl
alt_r-Fits false false = refl

ctrl_r-Fits : (shift caps : Bool) → Fits shift caps 0xe01d
unfolding is_shifted read_keymap
ctrl_r-Fits true true = refl
ctrl_r-Fits true false = refl
ctrl_r-Fits false true = refl
ctrl_r-Fits false false = refl

-- Also for the two served keys whose code has two bytes.
pub served-expected :
    (shift caps : Bool) (scancode : ℕ) → is_served scancode ≡ true → Fits shift caps scancode
served-expected shift caps scancode h = elim (Bool-cases (ltb scancode 59)) [
  | inl small ↦
      subst
        (λ i.
          read_keymap (is_shifted shift caps scancode) (get_elem? keymap i)
          ≡ ok (expected shift caps (plain_char i) (upper_char i)))
        (sym (low_byte scancode (ground arith)))
        (key_char-expected shift caps scancode (ground arith))
  | inr wide ↦ elim (Bool-cases (scancode == 0xe038)) [
    | inl alt ↦ subst (Fits shift caps) (ground arith) (alt_r-Fits shift caps)
    | inr other ↦ subst (Fits shift caps) (ground arith) (ctrl_r-Fits shift caps)
  ]
]
