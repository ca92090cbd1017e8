-- ===== src/Stdio.antt =====
-- lib/c12b_stdio.c: `itoa`. The buffer is the list of the characters written so far, since each
-- write is at `*buf_ptr_addr`, which it advances by one. The recursion runs on fuel.
pub mod Digits
mod Tests
use os_elephant.Base.{
  ℕ, zero, suc, ◌+◌, ◌-◌, ◌/◌, ◌%◌, not, List, [], ◌∷◌, ◌++◌, ◌==◌, ltb, if◌then◌else◌, Outcome, ok,
  panic, fault, unfinished, ◌>>=◌, ◌>>◌,
}

abbrev pub digit_char : ℕ → ℕ
digit_char m = if ltb m 10 then m + 48 else m - 10 + 65

unfoldable pub itoa : ℕ → (value base : ℕ) → List ℕ → Outcome (List ℕ)
itoa zero value base buf = unfinished
itoa (suc fuel) value base buf =
    let m = value % base in
    let i = value / base in
    let deeper = itoa fuel i base buf in
    do written ← (if not (i == 0) then deeper else ok buf); ok (written ++ digit_char m ∷ [])
