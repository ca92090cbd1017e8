-- ===== src/Keyboard.antt =====
-- device/c10e_keyboard.c: the keyboard interrupt. A key press sends a make code, its release the
-- code with bit 7 set; 0xe0 announces a second byte. The byte that `inb` reads is the argument of
-- the handler. Characters are ASCII codes.
pub mod Chars
pub mod Keys
pub mod Codes
pub mod Handler
mod Tests
use os_elephant.Base.Command.{and_then, pure, ◌>>=◌, ◌>>◌, modify}
use os_elephant.Base.{
  ℕ, ◌+◌, ◌%◌, Bool, true, false, not, ◌&&◌, ◌||◌, Option, none, some, List, [], ◌∷◌, ◌==◌, ltb,
  if◌then◌else◌, get_elem?, bit_and, bit_or, Outcome, ok, panic, fault, unfinished,
}
use os_elephant.Ioqueue
use os_elephant.Ioqueue.{Port}

-- Which control keys are held, whether a 0xe0 came last, and the buffer of characters with the
-- kernel whose threads it wakes. `errors` counts the messages about unknown keys.
pub record Keyboard : Type 0 where
  pub ctrl_status : Bool
  pub shift_status : Bool
  pub alt_status : Bool
  pub caps_lock_status : Bool
  pub ext_scancode : Bool
  pub keyboard_buf : Port
  pub errors : ℕ

abbrev pub Cmd : Type 0 → Type 0
Cmd A = Keyboard → Outcome (A × Keyboard)

abbrev pub with_port : {A : Type 0} → Outcome (A × Port) → Cmd A
with_port (ok (a, p)) k = ok (a, record k { keyboard_buf = p })
with_port panic k = panic
with_port fault k = fault
with_port unfinished k = unfinished

abbrev pub on_port : {A : Type 0} → Ioqueue.Cmd A → Cmd A
on_port c k = with_port (c k.keyboard_buf) k

abbrev pub shift_l_make : ℕ
shift_l_make = 0x2a

abbrev pub shift_r_make : ℕ
shift_r_make = 0x36

abbrev pub alt_l_make : ℕ
alt_l_make = 0x38

abbrev pub alt_r_make : ℕ
alt_r_make = 0xe038

abbrev pub ctrl_l_make : ℕ
ctrl_l_make = 0x1d

abbrev pub ctrl_r_make : ℕ
ctrl_r_make = 0xe01d

abbrev pub caps_lock_make : ℕ
caps_lock_make = 0x3a

-- The character of each make code, without and with shift; 0 where there is none.
abbrev pub keymap : List (ℕ × ℕ)
keymap =
    (0, 0)
    ∷ (27, 27)
    ∷ (49, 33)
    ∷ (50, 64)
    ∷ (51, 35)
    ∷ (52, 36)
    ∷ (53, 37)
    ∷ (54, 94)
    ∷ (55, 38)
    ∷ (56, 42)
    ∷ (57, 40)
    ∷ (48, 41)
    ∷ (45, 95)
    ∷ (61, 43)
    ∷ (8, 8)
    ∷ (9, 9)
    ∷ (113, 81)
    ∷ (119, 87)
    ∷ (101, 69)
    ∷ (114, 82)
    ∷ (116, 84)
    ∷ (121, 89)
    ∷ (117, 85)
    ∷ (105, 73)
    ∷ (111, 79)
    ∷ (112, 80)
    ∷ (91, 123)
    ∷ (93, 125)
    ∷ (13, 13)
    ∷ (0, 0)
    ∷ (97, 65)
    ∷ (115, 83)
    ∷ (100, 68)
    ∷ (102, 70)
    ∷ (103, 71)
    ∷ (104, 72)
    ∷ (106, 74)
    ∷ (107, 75)
    ∷ (108, 76)
    ∷ (59, 58)
    ∷ (39, 34)
    ∷ (96, 126)
    ∷ (0, 0)
    ∷ (92, 124)
    ∷ (122, 90)
    ∷ (120, 88)
    ∷ (99, 67)
    ∷ (118, 86)
    ∷ (98, 66)
    ∷ (110, 78)
    ∷ (109, 77)
    ∷ (44, 60)
    ∷ (46, 62)
    ∷ (47, 63)
    ∷ (0, 0)
    ∷ (42, 42)
    ∷ (0, 0)
    ∷ (32, 32)
    ∷ (0, 0)
    ∷ []

-- A break code: the key is no longer held.
pub released : ℕ → Keyboard → Keyboard
released make_code k =
    if (make_code == ctrl_l_make) || (make_code == ctrl_r_make)
    then record k { ctrl_status = false }
    else if (make_code == shift_l_make) || (make_code == shift_r_make)
    then record k { shift_status = false }
    else if (make_code == alt_l_make) || (make_code == alt_r_make)
    then record k { alt_status = false }
    else k

-- The keys that the handler serves.
abbrev pub is_served : ℕ → Bool
is_served scancode =
    (ltb 0 scancode && ltb scancode 0x3b) || (scancode == alt_r_make) || (scancode == ctrl_r_make)

-- The keys with two signs on them.
abbrev pub is_double : ℕ → Bool
is_double scancode =
    ltb scancode 0x0e
    || (scancode == 0x29)
    || (scancode == 0x1a)
    || (scancode == 0x1b)
    || (scancode == 0x2b)
    || (scancode == 0x27)
    || (scancode == 0x28)
    || (scancode == 0x33)
    || (scancode == 0x34)
    || (scancode == 0x35)

-- Whether the upper sign of the key is meant.
pub is_shifted : Bool → Bool → ℕ → Bool
is_shifted shift_down_last caps_lock_last scancode =
    if is_double scancode
    then (if shift_down_last then true else false)
    else if shift_down_last && caps_lock_last
    then false
    else if shift_down_last || caps_lock_last
    then true
    else false

-- `keymap[index][shift]`; an index past the array would be a fault.
pub read_keymap : Bool → Option (ℕ × ℕ) → Outcome ℕ
read_keymap shift none = fault
read_keymap shift (some (plain, upper)) = ok (if shift then upper else plain)

-- A key without a character: it is held from now on, or turns the caps lock over.
pub held : ℕ → Keyboard → Keyboard
held scancode k =
    if (scancode == ctrl_l_make) || (scancode == ctrl_r_make)
    then record k { ctrl_status = true }
    else if (scancode == shift_l_make) || (scancode == shift_r_make)
    then record k { shift_status = true }
    else if (scancode == alt_l_make) || (scancode == alt_r_make)
    then record k { alt_status = true }
    else if scancode == caps_lock_make
    then record k { caps_lock_status = not k.caps_lock_status }
    else k

abbrev pub put_unless : Bool → ℕ → Cmd (Unit {0})
put_unless true current_char = pure tt
put_unless false current_char = do put ← on_port (Ioqueue.ioq_putchar current_char); pure tt

-- A character goes to the buffer, if that has room; so `ioq_putchar` does not wait here.
unfoldable pub typed : ℕ → Cmd (Unit {0})
typed current_char = do full ← on_port Ioqueue.ioq_full; put_unless full current_char

abbrev pub served : Outcome ℕ → ℕ → Cmd (Unit {0})
served (ok current_char) scancode k =
    if not (current_char == 0) then typed current_char k else ok (tt, held scancode k)
served panic scancode k = panic
served fault scancode k = fault
served unfinished scancode k = unfinished

-- A make code.
pub pressed : ℕ → Cmd (Unit {0})
pressed scancode k =
    if is_served scancode
    then (let shift = is_shifted k.shift_status k.caps_lock_status scancode in
        let index = bit_and scancode 0xff in
        served (read_keymap shift (get_elem? keymap index)) index k)
    else ok (tt, record k { errors = k.errors + 1 })

unfoldable pub extended : Bool → ℕ → ℕ
extended ext scancode = if ext then bit_or 0xe000 scancode else scancode

unfoldable pub intr_keyboard_handler : ℕ → Cmd (Unit {0})
intr_keyboard_handler byte k =
    if byte == 0xe0
    then ok (tt, record k { ext_scancode = true })
    else (let scancode = extended k.ext_scancode byte in
        let next = record k { ext_scancode = false } in
        if not (bit_and scancode 0x80 == 0)
        then ok (tt, released (bit_and scancode 0xff7f) next)
        else pressed scancode next)
