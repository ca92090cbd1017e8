-- ===== src/Base/Lists.antt =====
-- Lists measured and indexed by native numbers, under the library's names.
use Prim.Native.Nat.{ℕ, zero, suc, ◌+◌}
use mathlib.Core.Path.{◌≡◌, refl}
use mathlib.Core.List.{List, [], ◌∷◌, ◌++◌}
use mathlib.Core.Option.{Option, none, some}
use mathlib.Core.Bool.{Bool, true, false, ◌||◌}
use native.Mathlib.Omega.{arith}
use os_elephant.Base.Tests.{◌==◌, if◌then◌else◌}

module _ {ℓ} {A : Type ℓ} where
  abbrev pub length : List A → ℕ
  length [] = 0
  length (x ∷ xs) = suc (length xs)

  abbrev pub get_elem? : List A → ℕ → Option A
  get_elem? [] i = none
  get_elem? (x ∷ xs) zero = some x
  get_elem? (x ∷ xs) (suc i) = get_elem? xs i

  abbrev pub get_or : List A → ℕ → A → A
  get_or [] i d = d
  get_or (x ∷ xs) zero d = x
  get_or (x ∷ xs) (suc i) d = get_or xs i d

  -- A write out of bounds changes nothing.
  abbrev pub set : List A → ℕ → A → List A
  set [] i v = []
  set (x ∷ xs) zero v = v ∷ xs
  set (x ∷ xs) (suc i) v = x ∷ set xs i v

  abbrev pub is_some : Option A → Bool
  is_some none = false
  is_some (some x) = true

  abbrev pub is_nil : List A → Bool
  is_nil [] = true
  is_nil (x ∷ xs) = false

  pub length-append : (xs ys : List A) → length (xs ++ ys) ≡ length xs + length ys
  length-append [] ys = omega arith
  length-append (x ∷ xs) ys = omega (arith, length-append xs ys)

-- Membership of a number, as a test.
abbrev pub has : ℕ → List ℕ → Bool
has a [] = false
has a (x ∷ xs) = (x == a) || has a xs

pub has-append : (y : ℕ) (us vs : List ℕ) → has y (us ++ vs) ≡ (has y us || has y vs)
has-append y [] vs = refl
has-append y (u ∷ us) vs = ground (arith, has-append y us vs)

abbrev pub Distinct : List ℕ → Type 0
Distinct [] = Unit {0}
Distinct (x ∷ xs) = (has x xs ≡ false) × Distinct xs

pub Distinct-insert :
    (e : ℕ) (us ws : List ℕ)
    → Distinct (us ++ ws)
    → has e (us ++ ws) ≡ false
    → Distinct (us ++ e ∷ ws)
Distinct-insert e [] ws d new = (new, d)
Distinct-insert e (u ∷ us) ws d new = (
  ground (arith, has-append u us ws, has-append u us (e ∷ ws)),
  Distinct-insert e us ws d.1 (ground arith),
)

pub Distinct-drop : (e : ℕ) (us ws : List ℕ) → Distinct (us ++ e ∷ ws) → Distinct (us ++ ws)
Distinct-drop e [] ws d = d.1
Distinct-drop e (u ∷ us) ws d =
    (ground (arith, has-append u us ws, has-append u us (e ∷ ws)), Distinct-drop e us ws d.1)

pub Distinct-last : (t : ℕ) (xs : List ℕ) → Distinct (xs ++ t ∷ []) → has t xs ≡ false
Distinct-last t [] d = refl
Distinct-last t (x ∷ xs) d = ground (arith, Distinct-last t xs d.1, has-append x xs (t ∷ []))

-- An element of the middle is none of those before it.
pub Distinct-middle : (e : ℕ) (us ws : List ℕ) → Distinct (us ++ e ∷ ws) → has e (us ++ ws) ≡ false
Distinct-middle e [] ws d = d.0
Distinct-middle e (u ∷ us) ws d =
    ground (arith, Distinct-middle e us ws d.1, has-append u us (e ∷ ws))

-- A total function changed at one point: a field of every object, or a byte of memory.
abbrev pub update {ℓ} : {Value : Type ℓ} → (ℕ → Value) → (at : ℕ) (value : Value) → ℕ → Value
update table at value i = if i == at then value else table i

pub has_nil : (a : ℕ) (xs : List ℕ) → is_nil xs ≡ true → has a xs ≡ false
has_nil a [] h = refl
has_nil a (x ∷ xs) h = cc
