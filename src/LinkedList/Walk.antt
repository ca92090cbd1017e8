-- ===== src/LinkedList/Walk.antt =====
-- The loops that walk a list: with fuel for one round more than the list has elements they end,
-- and give what the sequence of elements gives.
use os_elephant.Base.{
  Distinct-last, ℕ, zero, suc, ◌+◌, ◌<◌, ◌≡◌, ap, ◌≢◌, Bool, Bool-cases, inl, inr, ◌∙◌, true, false,
  Option, none, some, List, [], ◌∷◌, ◌++◌, arith, ◌==◌, if◌then◌else◌, has, has-append, length, ok,
}
use os_elephant.Base.Command.{and_then}
use os_elephant.LinkedList.{
  Ptr, null, Memory, Anchors, elem_find, find_from, list_traversal, traverse_from, list_len,
  len_from, get_next,
}
use os_elephant.LinkedList.Chain.{Chain, IsList}
use os_elephant.LinkedList.Update.{get_next-ok}
use os_elephant.LinkedList.Deque.{list_empty-IsList}

-- The first element that passes a test.
abbrev pub find_first : (Ptr → Bool) → List Ptr → Option Ptr
find_first p [] = none
find_first p (x ∷ xs) = if p x then some x else find_first p xs

module _ (m : Memory) (l : Anchors) where
  abbrev Left : List Ptr → Type 0
  Left xs = (has l.tail xs ≡ false) × (has null xs ≡ false)

  len_from-more :
      (fuel n : ℕ) (x : Ptr)
      → (x == l.tail) ≡ false
      → len_from (suc fuel) l x n m ≡ and_then (get_next x m) (λ e. len_from fuel l e (n + 1))
  unfolding len_from
  len_from-more fuel n x h = rw (h, len_from)

  find_from-more :
      (fuel : ℕ) (x obj : Ptr)
      → (x == l.tail) ≡ false
      → find_from (suc fuel) l x obj m
        ≡ (if x == obj then ok (true, m) else and_then (get_next x m) (λ e. find_from fuel l e obj))
  unfolding find_from
  find_from-more fuel x obj h =
      rw (h, find_from) (elim (Bool-cases (x == obj)) [ inl hit ↦ rw hit | inr miss ↦ rw miss ])

  traverse_from-more :
      (func : Ptr → ℕ → Bool) (arg fuel : ℕ) (x : Ptr)
      → (x == l.tail) ≡ false
      → traverse_from (suc fuel) l func arg x m ≡ (
          if func x arg
          then ok (some x, m)
          else and_then (get_next x m) (traverse_from fuel l func arg))
  unfolding traverse_from
  traverse_from-more func arg fuel x h =
      rw (h, traverse_from)
        (elim (Bool-cases (func x arg)) [ inl hit ↦ rw hit | inr miss ↦ rw miss ])

  len_from-Chain :
      (fuel n : ℕ) (a : Ptr) (xs : List Ptr)
      → Chain m a (xs ++ l.tail ∷ [])
      → Left xs
      → length xs < fuel
      → a ≢ null
      → and_then (get_next a m) (λ e. len_from fuel l e n) ≡ ok (n + length xs, m)
  len_from-Chain zero n a xs c f h ne = absurd (omega arith)
  len_from-Chain (suc fuel) n a [] c f h ne =
      rw (get_next-ok a ne, c.0) (unfold len_from in ground arith)
  len_from-Chain (suc fuel) n a (x ∷ xs) c f h ne =
      rw (get_next-ok a ne, c.0, len_from-more fuel n x (ground arith))
        (len_from-Chain fuel (n + 1) x xs c.2 (ground arith, ground arith) (omega arith)
            (ground arith)
          ∙ ap (λ k. ok (k, m)) (omega arith))

  find_from-Chain :
      (obj : Ptr) (fuel : ℕ) (a : Ptr) (xs : List Ptr)
      → Chain m a (xs ++ l.tail ∷ [])
      → Left xs
      → length xs < fuel
      → a ≢ null
      → and_then (get_next a m) (λ e. find_from fuel l e obj) ≡ ok (has obj xs, m)
  find_from-Chain obj zero a xs c f h ne = absurd (omega arith)
  find_from-Chain obj (suc fuel) a [] c f h ne =
      rw (get_next-ok a ne, c.0) (unfold find_from in ground arith)
  find_from-Chain obj (suc fuel) a (x ∷ xs) c f h ne =
      rw (get_next-ok a ne, c.0, find_from-more fuel x obj (ground arith))
        (elim (Bool-cases (x == obj)) [
          | inl hit ↦ rw hit
          | inr miss ↦ rw miss (
              find_from-Chain obj fuel x xs c.2 (ground arith, ground arith) (omega arith)
                (ground arith))
        ])

  traverse_from-Chain :
      (func : Ptr → ℕ → Bool) (arg fuel : ℕ) (a : Ptr) (xs : List Ptr)
      → Chain m a (xs ++ l.tail ∷ [])
      → Left xs
      → length xs < fuel
      → a ≢ null
      → and_then (get_next a m) (traverse_from fuel l func arg)
        ≡ ok (find_first (λ x. func x arg) xs, m)
  traverse_from-Chain func arg zero a xs c f h ne = absurd (omega arith)
  traverse_from-Chain func arg (suc fuel) a [] c f h ne =
      rw (get_next-ok a ne, c.0) (unfold traverse_from in ground arith)
  traverse_from-Chain func arg (suc fuel) a (x ∷ xs) c f h ne =
      rw (get_next-ok a ne, c.0, traverse_from-more func arg fuel x (ground arith))
        (elim (Bool-cases (func x arg)) [
          | inl hit ↦ rw hit
          | inr miss ↦ rw miss (
              traverse_from-Chain func arg fuel x xs c.2 (ground arith, ground arith) (omega arith)
                (ground arith))
        ])

module _ {m : Memory} {l : Anchors} (xs : List Ptr) (is : IsList m l xs) (fuel : ℕ)
    (enough : length xs < fuel) where
  left : (has l.tail xs ≡ false) × (has null xs ≡ false)
  left = (
    ground (arith, Distinct-last l.tail (l.head ∷ xs) is.distinct),
    ground (arith, has-append null xs (l.tail ∷ []), is.allocated),
  )

  start : l.head ≢ null
  start = ground (arith, is.allocated)

  -- `elem_find` on a well-formed list, with more fuel than elements, returns and says whether the
  -- element is one of the list's; memory is unchanged.
  pub elem_find-IsList : (obj : Ptr) → elem_find fuel l obj m ≡ ok (has obj xs, m)
  unfolding elem_find
  elem_find-IsList obj = find_from-Chain m l obj fuel l.head xs is.chain left enough start

  -- `list_len` counts the elements.
  pub list_len-IsList : list_len fuel l m ≡ ok (length xs, m)
  unfolding list_len
  list_len-IsList =
      len_from-Chain m l fuel 0 l.head xs is.chain left enough start
      ∙ ap (λ k. ok (k, m)) (omega arith)

  -- `list_traversal` on a well-formed list, with more fuel than elements, returns the first
  -- element on which the callback is true, or NULL; memory is unchanged.
  pub list_traversal-IsList :
      (func : Ptr → ℕ → Bool) (arg : ℕ)
      → list_traversal fuel l func arg m ≡ ok (find_first (λ x. func x arg) xs, m)
  unfolding list_traversal
  list_traversal-IsList func arg = walk xs is enough left
    where
      walk :
          (ys : List Ptr)
          → IsList m l ys
          → length ys < fuel
          → (has l.tail ys ≡ false) × (has null ys ≡ false)
          → list_traversal fuel l func arg m ≡ ok (find_first (λ x. func x arg) ys, m)
      walk [] is' h f = rw (get_next-ok l.head start, list_empty-IsList [] is')
      walk (y ∷ ys) is' h f =
          let rest = traverse_from-Chain m l func arg fuel l.head (y ∷ ys) is'.chain f h start in
          rw (get_next-ok l.head start, list_empty-IsList (y ∷ ys) is')
            (rw (get_next-ok l.head start) at rest)
