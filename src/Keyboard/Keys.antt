-- ===== src/Keyboard/Keys.antt =====
-- What the bytes from the keyboard mean: the key, whether it goes down or up, the character and the
-- states of the control keys.
use os_elephant.Base.{
  ℕ, ◌+◌, ◌%◌, ◌≡◌, refl, Bool, true, false, not, ◌||◌, ◌==◌, ltb, leb, if◌then◌else◌,
}
use os_elephant.Keyboard.{Keyboard}
use os_elephant.Keyboard.Chars.{expected, plain_char, upper_char}

-- The keys: two each of ctrl, shift and alt, the caps lock, those with signs, and all others.
pub data Key : Type 0 where
  ctrl_key shift_key alt_key caps_lock_key unknown_key : Key
  sign_key : (index : ℕ) → Key

-- The key of a number below 128. After a prefix 0xe0 only the right ctrl and the right alt are
-- known, which have the numbers of the left ones.
unfoldable pub key_of : (prefixed : Bool) → (number : ℕ) → Key
key_of prefixed number =
    if number == 29
    then ctrl_key
    else if number == 56
    then alt_key
    else if prefixed || (number == 0) || leb 59 number
    then unknown_key
    else if (number == 42) || (number == 54)
    then shift_key
    else if number == 58
    then caps_lock_key
    else sign_key number

-- The states after a key goes down or up: ctrl, shift and alt are on while down, the caps lock turns
-- over when it goes down, and a press of a key that is not known is reported.
unfoldable pub switched : (down : Bool) → Key → Keyboard → Keyboard
switched down ctrl_key k = record k { ctrl_status = down }
switched down shift_key k = record k { shift_status = down }
switched down alt_key k = record k { alt_status = down }
switched down (sign_key index) k = k
switched true caps_lock_key k = record k { caps_lock_status = not k.caps_lock_status }
switched false caps_lock_key k = k
switched true unknown_key k = record k { errors = k.errors + 1 }
switched false unknown_key k = k

-- The character that a key sends when it goes down or up; 0 is none.
unfoldable pub sign : (down : Bool) → Key → Keyboard → ℕ
sign true (sign_key index) k =
    expected k.shift_status k.caps_lock_status (plain_char index) (upper_char index)
sign down key k = 0

-- What follows a byte: 0xe0 is the prefix of the next byte; any other has the number of a key below
-- 128, with 128 added to it when the key goes up.
unfoldable pub states_after : ℕ → Keyboard → Keyboard
states_after byte k =
    if byte == 224
    then record k { ext_scancode = true }
    else switched (ltb byte 128) (key_of k.ext_scancode (byte % 128))
        (record k { ext_scancode = false })

unfoldable pub char_of : ℕ → Keyboard → ℕ
char_of byte k =
    if byte == 224 then 0 else sign (ltb byte 128) (key_of k.ext_scancode (byte % 128)) k

-- The character does not depend on the prefix that was noted.
pub sign-ext :
    (key : Key) (k : Keyboard) → sign true key (record k { ext_scancode = false }) ≡ sign true key k
unfolding sign
sign-ext ctrl_key k = refl
sign-ext shift_key k = refl
sign-ext alt_key k = refl
sign-ext caps_lock_key k = refl
sign-ext unknown_key k = refl
sign-ext (sign_key index) k = refl

-- A key that goes up sends none.
pub sign-up : (key : Key) (k : Keyboard) → sign false key k ≡ 0
unfolding sign
sign-up ctrl_key k = refl
sign-up shift_key k = refl
sign-up alt_key k = refl
sign-up caps_lock_key k = refl
sign-up unknown_key k = refl
sign-up (sign_key index) k = refl

pub switched-port :
    (down : Bool) (key : Key) (k : Keyboard) → (switched down key k).keyboard_buf ≡ k.keyboard_buf
unfolding switched
switched-port true ctrl_key k = refl
switched-port true shift_key k = refl
switched-port true alt_key k = refl
switched-port true caps_lock_key k = refl
switched-port true unknown_key k = refl
switched-port true (sign_key index) k = refl
switched-port false ctrl_key k = refl
switched-port false shift_key k = refl
switched-port false alt_key k = refl
switched-port false caps_lock_key k = refl
switched-port false unknown_key k = refl
switched-port false (sign_key index) k = refl
