-- ===== src/LinkedList/Chain.antt =====
-- When a stretch of memory holds a list: the forward and the backward links agree.
use os_elephant.Base.{◌≡◌, true, false, List, [], ◌∷◌, ◌++◌, arith, has, Distinct}
use os_elephant.LinkedList.{Ptr, null, Memory, Anchors}

-- From `a` the links lead through `xs`, and back.
abbrev pub Chain : Memory → Ptr → List Ptr → Type 0
Chain m a [] = Unit {0}
Chain m a (b ∷ xs) = (m.next a ≡ b) × (m.prev b ≡ a) × Chain m b xs

-- The nodes of a list: its sentinels with the elements between them.
abbrev pub nodes : Anchors → List Ptr → List Ptr
nodes l xs = l.head ∷ (xs ++ l.tail ∷ [])

-- `l` is the list of the elements `xs`, in order.
pub record IsList (m : Memory) (l : Anchors) (xs : List Ptr) : Type 0 where
  pub chain : Chain m l.head (xs ++ l.tail ∷ [])
  pub distinct : Distinct (nodes l xs)
  pub allocated : has null (nodes l xs) ≡ false
  pub last : m.next l.tail ≡ null

module _ (m : Memory) where
  -- The element before `b` is one of those on the way to it.
  pub has-prev :
      (h b : Ptr) (us vs : List Ptr) → Chain m h (us ++ b ∷ vs) → has (m.prev b) (h ∷ us) ≡ true
  has-prev h b [] vs c = ground arith
  has-prev h b (u ∷ us) vs c = ground (arith, has-prev u b us vs c.2)

  pub has-next : (h e b : Ptr) (us vs : List Ptr) → Chain m h (us ++ e ∷ b ∷ vs) → m.next e ≡ b
  has-next h e b [] vs c = c.2.0
  has-next h e b (u ∷ us) vs c = has-next u e b us vs c.2

  -- A change elsewhere leaves the chain.
  pub frame :
      (g : Memory) (h : Ptr) (xs : List Ptr)
      → Chain m h xs
      → ((a : Ptr) → has a (h ∷ xs) ≡ true → g.next a ≡ m.next a)
      → ((a : Ptr) → has a xs ≡ true → g.prev a ≡ m.prev a)
      → Chain g h xs
  frame g h [] c n p = tt
  frame g h (x ∷ xs) c n p = (
    ground (arith, n h),
    ground (arith, p x),
    frame g x xs c.2 (λ a i. n a (ground arith)) (λ a i. p a (ground arith)),
  )
