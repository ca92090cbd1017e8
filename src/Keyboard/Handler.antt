-- ===== src/Keyboard/Handler.antt =====
-- The handler as a whole, by the meaning that Keyboard.Keys gives to the bytes.
use os_elephant.Base.{
  ℕ, ◌+◌, ◌%◌, ◌<◌, ◌≤◌, zero, suc, ◌≡◌, refl, sym, ap, ◌∙◌, subst, Bool, true, false, List, ◌==◌,
  ltb, lt→ltb, if◌then◌else◌, bit_and, ok, arith, Bool-cases, inl, inr,
}
use native.Mathlib.Decide.{dec_lt}
use os_elephant.Ioqueue.Refine.{IsPort, has_room, pushed, ioq_full-IsPort, ioq_putchar-IsPort}
use os_elephant.Keyboard.{
  Keyboard, Cmd, is_served, released, held, typed, served, pressed, intr_keyboard_handler,
}
use os_elephant.Keyboard.Chars.{served-expected}
use os_elephant.Keyboard.Keys.{
  key_of, switched, sign, states_after, char_of, sign-ext, sign-up, switched-port,
}
use os_elephant.Keyboard.Codes.{
  prefix_of, Codes, key_sign, byte-Codes, released-switched, served_key-switched, served_key-sign,
  unserved_key-switched, unserved_key-sign,
}

-- The contents of the buffer after the character; 0 is none.
abbrev pub arrived : ℕ → List ℕ → List ℕ
arrived zero xs = xs
arrived (suc c) xs = pushed (suc c) xs

-- What a command leaves: it ended, the buffer holds `xs`, and all else is as in `states`.
pub record Leaves (c : Cmd (Unit {0})) (k : Keyboard) (xs : List ℕ) (states : Keyboard)
    : Type 0 where
  pub next : Keyboard
  pub runs : c k ≡ ok (tt, next)
  pub port : IsPort next.keyboard_buf xs
  pub keys : next ≡ record states { keyboard_buf = next.keyboard_buf }

typed-Leaves :
    (k : Keyboard) {xs : List ℕ} (c : ℕ)
    → IsPort k.keyboard_buf xs
    → Leaves (typed c) k (pushed c xs) k
unfolding typed
typed-Leaves k {xs} c h = elim (Bool-cases (has_room xs)) [
  | inl free ↦
      let (p, run, there, wakes) = ioq_putchar-IsPort c h in
      record {
        next = record k { keyboard_buf = p };
        runs = simp (ioq_full-IsPort h, free, run);
        port = there;
        keys = refl;
      }
  | inr full ↦ record {
    next = k;
    runs = simp (ioq_full-IsPort h, full);
    port = rw full h;
    keys = refl;
  }
]

held-port : (scancode : ℕ) (k : Keyboard) → (held scancode k).keyboard_buf ≡ k.keyboard_buf
unfolding held
held-port scancode k = ground arith

released-port : (scancode : ℕ) (k : Keyboard) → (released scancode k).keyboard_buf ≡ k.keyboard_buf
unfolding released
released-port scancode k = ground arith

served-Leaves :
    (k : Keyboard) {xs : List ℕ} (c number : ℕ)
    → IsPort k.keyboard_buf xs
    → Leaves (served (ok c) number) k (arrived c xs) (if c == 0 then held number k else k)
served-Leaves k zero number h = record {
  next = held number k;
  runs = refl;
  port = rw (held-port number k) h;
  keys = refl;
}
served-Leaves k (suc c) number h =
    let rest = typed-Leaves k (suc c) h in
    let char : (suc c == 0) ≡ false = ground arith in
    record {
      next = rest.next;
      runs = rw char rest.runs;
      port = rest.port;
      keys = rw char rest.keys;
    }

-- A command that runs as another leaves the same, by equal descriptions.
Leaves-same :
    {c d : Cmd (Unit {0})} {j k : Keyboard} {xs ys : List ℕ} {states after : Keyboard}
    → c j ≡ d k
    → xs ≡ ys
    → states ≡ after
    → Leaves c j xs states
    → Leaves d k ys after
Leaves-same same list keys l = record {
  next = l.next;
  runs = sym same ∙ l.runs;
  port = subst (IsPort l.next.keyboard_buf) list l.port;
  keys = l.keys ∙ ap {A = Keyboard} (λ s. record s { keyboard_buf = l.next.keyboard_buf }) keys;
}

pressed-served :
    (k : Keyboard) (code number : ℕ)
    → is_served code ≡ true
    → bit_and code 0xff ≡ number
    → served (ok (key_sign k.shift_status k.caps_lock_status number)) number k ≡ pressed code k
unfolding pressed
pressed-served k code number known low =
    let char = served-expected k.shift_status k.caps_lock_status code known in
    subst (λ i. served (ok (key_sign k.shift_status k.caps_lock_status i)) i k ≡ pressed code k) low
      (rw (known, char) refl)

pressed-unserved :
    (k : Keyboard) (code : ℕ)
    → is_served code ≡ false
    → pressed code k ≡ ok (tt, record k { errors = k.errors + 1 })
unfolding pressed
pressed-unserved k code unknown = rw unknown refl

-- A make code, by the number of its key.
pressed-Leaves :
    (k : Keyboard) {xs : List ℕ} (prefixed : Bool) (number : ℕ)
    → number < 128
    → Codes prefixed number
    → IsPort k.keyboard_buf xs
    → Leaves
        (pressed (prefix_of prefixed + number))
        k
        (arrived (sign true (key_of prefixed number) k) xs)
        (switched true (key_of prefixed number) k)
pressed-Leaves k {xs} prefixed number lt codes h =
    let code = prefix_of prefixed + number in
    elim (Bool-cases (is_served code)) [
      | inl known ↦
          Leaves-same (pressed-served k code number known (codes.low lt))
            (ap (λ c. arrived c xs) (sym (served_key-sign prefixed number k lt known)))
            (served_key-switched prefixed number k lt known)
            (served-Leaves k (key_sign k.shift_status k.caps_lock_status number) number h)
      | inr unknown ↦ record {
        next = record k { errors = k.errors + 1 };
        runs = pressed-unserved k code unknown;
        port =
            subst (λ c. IsPort k.keyboard_buf (arrived c xs))
              (sym (unserved_key-sign prefixed number k lt unknown)) h;
        keys =
            ap {A = Keyboard} (λ s. record s { keyboard_buf = k.keyboard_buf })
              (unserved_key-switched prefixed number k lt unknown);
      }
    ]

-- The handler for a byte that is not the prefix.
make-run :
    (k : Keyboard) (byte : ℕ)
    → (byte == 0xe0) ≡ false
    → byte < 128
    → Codes k.ext_scancode byte
    → pressed (prefix_of k.ext_scancode + byte) (record k { ext_scancode = false })
      ≡ intr_keyboard_handler byte k
unfolding intr_keyboard_handler
make-run k byte code small codes = rw (code, codes.code, codes.down small) refl

break-run :
    (k : Keyboard) (byte : ℕ)
    → (byte == 0xe0) ≡ false
    → 128 ≤ byte
    → Codes k.ext_scancode byte
    → intr_keyboard_handler byte k
      ≡ ok (
        tt,
        switched false (key_of k.ext_scancode (byte % 128)) (record k { ext_scancode = false }),
      )
unfolding intr_keyboard_handler
break-run k byte code big codes =
    rw
      (
        code,
        codes.code,
        codes.up big,
        codes.key big,
        released-switched k.ext_scancode (byte % 128) (record k { ext_scancode = false })
            (omega arith),
      )
      refl

-- The keyboard interrupt, for any byte and any history of keys, with interrupts off, a consistent
-- kernel and a buffer whose waiting threads sleep: it stops at no assertion and reads the keymap
-- in bounds; 0xe0 is noted as the prefix of the next byte, and any other byte is a key that goes
-- down or, with 128 added, up; the buffer gets the character of a key that goes down as its newest
-- if it has room, and else loses it; ctrl, shift and alt are on just while down, the caps lock
-- turns over when it goes down, a key that goes down and is not known is reported, and all else
-- stays as it was; and the buffer's waiting threads, if there are any left, still sleep.
pub intr_keyboard_handler-Leaves :
    (k : Keyboard) {xs : List ℕ} (byte : ℕ)
    → byte < 256
    → IsPort k.keyboard_buf xs
    → Leaves (intr_keyboard_handler byte) k (arrived (char_of byte k) xs) (states_after byte k)
unfolding intr_keyboard_handler char_of states_after
intr_keyboard_handler-Leaves k {xs} byte lt h =
    let codes = byte-Codes k.ext_scancode byte lt in
    elim (Bool-cases (byte == 0xe0)) [
      | inl prefix ↦ record {
        next = record k { ext_scancode = true };
        runs = rw prefix refl;
        port = rw prefix h;
        keys = rw prefix refl;
      }
      | inr code ↦ elim (dec_lt byte 128) [
        | yes small ↦
            let down : ltb byte 128 ≡ true = lt→ltb byte 128 small in
            let number : byte % 128 ≡ byte = omega arith in
            let rest =
              pressed-Leaves (record k { ext_scancode = false }) k.ext_scancode byte small codes
                h in
            Leaves-same (make-run k byte code small codes)
              (rw (code, down, number)
                (ap (λ c. arrived c xs) (sign-ext (key_of k.ext_scancode byte) k)))
              (rw (code, down, number) refl) rest
        | no big ↦
            let up : ltb byte 128 ≡ false = ground arith in
            let next : Keyboard =
              switched false (key_of k.ext_scancode (byte % 128))
                (record k { ext_scancode = false }) in
            record {
              next = next;
              runs = break-run k byte code (omega arith) codes;
              port =
                  rw (code, up, sign-up (key_of k.ext_scancode (byte % 128)) k)
                    (subst (λ p. IsPort p xs)
                      (sym (
                        switched-port false (key_of k.ext_scancode (byte % 128))
                          (record k { ext_scancode = false })))
                      h);
              keys = rw (code, up) refl;
            }
      ]
    ]
