-- ===== src/Keyboard/Tests.antt =====
-- The keyboard's theorems on a key press: `a` with shift held, and the key of `1` with caps lock.
use os_elephant.Base.{◌≡◌, true, false, [], ◌∷◌, ok, arith}
use os_elephant.Ioqueue.Samples.{sample_port, sample_port-IsPort}
use os_elephant.Keyboard.{Keyboard, intr_keyboard_handler}
use os_elephant.Keyboard.Chars.{key_char, key_char-expected}
use os_elephant.Keyboard.Keys.{char_of, states_after, key_of, sign, switched}
use os_elephant.Keyboard.Handler.{Leaves, intr_keyboard_handler-Leaves}

abbrev sample_keyboard : Keyboard
sample_keyboard = record {
  ctrl_status = false;
  shift_status = true;
  alt_status = false;
  caps_lock_status = false;
  ext_scancode = false;
  keyboard_buf = sample_port;
  errors = 0;
}

key_char-expected_example : key_char false true 2 ≡ ok 49
key_char-expected_example = key_char-expected false true 2 (omega arith)

-- `A` is in the buffer already; the key of `a` goes down.
intr_keyboard_handler-Leaves_example :
    Leaves (intr_keyboard_handler 30) sample_keyboard (65 ∷ 65 ∷ []) sample_keyboard
unfolding char_of states_after key_of sign switched
intr_keyboard_handler-Leaves_example =
    intr_keyboard_handler-Leaves sample_keyboard 30 (omega arith) sample_port-IsPort
