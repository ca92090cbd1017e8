-- ===== src/Base/Command.antt =====
-- Commands: functions of a state that end with a value and a new state, or stop.
use os_elephant.Base.Stops.{Outcome, ok, panic, fault, unfinished}
use mathlib.Core.Bool.{Bool, true, false}

module _ {S : Type 0} where
  -- What follows a command, given how the command ended.
  abbrev pub and_then :
      {A B : Type 0} → Outcome (A × S) → (A → S → Outcome (B × S)) → Outcome (B × S)
  and_then (ok (a, s)) k = k a s
  and_then panic k = panic
  and_then fault k = fault
  and_then unfinished k = unfinished

  abbrev pub pure : {A : Type 0} → A → S → Outcome (A × S)
  pure a s = ok (a, s)

  infixl 5 ◌>>=◌ ◌>>◌
  abbrev pub ◌>>=◌ :
      {A B : Type 0} → (S → Outcome (A × S)) → (A → S → Outcome (B × S)) → S → Outcome (B × S)
  ◌>>=◌ c k s = and_then (c s) k

  abbrev pub ◌>>◌ :
      {B : Type 0} → (S → Outcome (Unit {0} × S)) → (S → Outcome (B × S)) → S → Outcome (B × S)
  c >> k = c >>= λ _. k

  abbrev pub checked : Bool → S → Outcome (Unit {0} × S)
  checked true s = ok (tt, s)
  checked false s = panic

  -- `ASSERT`: a condition read off the state.
  abbrev pub assert : (S → Bool) → S → Outcome (Unit {0} × S)
  assert test s = checked (test s) s

  abbrev pub modify : (S → S) → S → Outcome (Unit {0} × S)
  modify f s = ok (tt, f s)
