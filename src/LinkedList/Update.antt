-- ===== src/LinkedList/Update.antt =====
-- `list_insert_before` and `list_remove` on a chain, and the memory each leaves.
use os_elephant.Base.{
  Distinct, ◌≡◌, ne→==, ◌≢◌, false, List, [], ◌∷◌, ◌++◌, arith, has, has-append, update, ok,
}
use os_elephant.LinkedList.{
  Ptr, null, Memory, insert_before, list_remove, get_prev, get_next, put_prev, put_next,
}
use os_elephant.LinkedList.Chain.{Chain, has-prev, has-next, frame}

-- The memory after `elem` is linked in before `before`.
abbrev pub inserted : Memory → (before elem : Ptr) → Memory
inserted m before elem = record m {
  next = update (update m.next (m.prev before) elem) elem before;
  prev = update (update m.prev elem (m.prev before)) before elem;
}

-- The memory after `elem` is unlinked.
abbrev pub removed : Memory → Ptr → Memory
removed m elem = record m {
  next = update m.next (m.prev elem) (m.next elem);
  prev = update m.prev (m.next elem) (m.prev elem);
}

module _ (p : Ptr) (h : p ≢ null) where
  pub get_prev-ok : (m : Memory) → get_prev p m ≡ ok (m.prev p, m)
  unfolding get_prev
  get_prev-ok m = rw (ne→== h)

  pub get_next-ok : (m : Memory) → get_next p m ≡ ok (m.next p, m)
  unfolding get_next
  get_next-ok m = rw (ne→== h)

  pub put_prev-ok :
      (q : Ptr) (m : Memory) → put_prev p q m ≡ ok (tt, record m { prev = update m.prev p q })
  unfolding put_prev
  put_prev-ok q m = rw (ne→== h)

  pub put_next-ok :
      (q : Ptr) (m : Memory) → put_next p q m ≡ ok (tt, record m { next = update m.next p q })
  unfolding put_next
  put_next-ok q m = rw (ne→== h)

pub insert_before-ok :
    (m : Memory) (before elem : Ptr)
    → before ≢ null
    → elem ≢ null
    → m.prev before ≢ null
    → before ≢ elem
    → insert_before before elem m ≡ ok (tt, inserted m before elem)
unfolding insert_before
insert_before-ok m before elem b e p ne = simp (
  get_prev-ok before b,
  put_next-ok (m.prev before) p,
  put_prev-ok elem e,
  put_next-ok elem e,
  put_prev-ok before b,
)

pub list_remove-ok :
    (m : Memory) (elem : Ptr)
    → elem ≢ null
    → m.prev elem ≢ null
    → m.next elem ≢ null
    → m.prev elem ≢ elem
    → list_remove elem m ≡ ok (tt, removed m elem)
unfolding list_remove
list_remove-ok m elem e p n ne =
    let same : update m.next (m.prev elem) (m.next elem) elem ≡ m.next elem = ground arith in
    simp (
      same,
      get_prev-ok elem e,
      get_next-ok elem e,
      put_next-ok (m.prev elem) p,
      put_prev-ok (m.next elem) n,
    )

module _ (m : Memory) where
  pub Chain-inserted :
      (h b e : Ptr) (us vs : List Ptr)
      → Chain m h (us ++ b ∷ vs)
      → Distinct (h ∷ (us ++ b ∷ vs))
      → has e (h ∷ (us ++ b ∷ vs)) ≡ false
      → Chain (inserted m b e) h (us ++ e ∷ b ∷ vs)
  Chain-inserted h b e [] vs c d new = (
    ground arith,
    ground arith,
    (
      ground arith,
      ground arith,
      frame m (inserted m b e) b vs c.2 (λ a i. ground arith) (λ a i. ground arith),
    ),
  )
  Chain-inserted h b e (u ∷ us) vs c d new = (
    ground (arith, has-prev m u b us vs c.2, has-append (m.prev b) us (b ∷ vs)),
    ground (arith, has-append b us (b ∷ vs)),
    Chain-inserted u b e us vs c.2 d.1 (ground arith),
  )

  not-has-middle :
      (u : Ptr) (us : List Ptr) (e b : Ptr) (vs : List Ptr)
      → Distinct (u ∷ (us ++ e ∷ b ∷ vs))
      → u ≢ b
  not-has-middle u us e b vs d = ground (arith, has-append b us (e ∷ b ∷ vs))

  pub Chain-removed :
      (h e b : Ptr) (us vs : List Ptr)
      → Chain m h (us ++ e ∷ b ∷ vs)
      → Distinct (h ∷ (us ++ e ∷ b ∷ vs))
      → Chain (removed m e) h (us ++ b ∷ vs)
  Chain-removed h e b [] vs c d = (
    ground arith,
    ground arith,
    frame m (removed m e) b vs c.2.2 (λ a i. ground arith) (λ a i. ground arith),
  )
  Chain-removed h e b (u ∷ us) vs c d = (
    ground (arith, has-prev m u e us (b ∷ vs) c.2, has-append (m.prev e) us (e ∷ b ∷ vs)),
    ground (
      arith,
      has-next m u e b us vs c.2,
      has-append b us (e ∷ b ∷ vs),
      not-has-middle u us e b vs d.1,
    ),
    Chain-removed u e b us vs c.2 d.1,
  )

-- An element is not its own predecessor.
prev-ne :
    (m : Memory) (e h : Ptr) (us vs : List Ptr)
    → Chain m h (us ++ e ∷ vs)
    → Distinct (h ∷ (us ++ e ∷ vs))
    → m.prev e ≢ e
prev-ne m e h [] vs c d = ground arith
prev-ne m e h (u ∷ us) vs c d = prev-ne m e u us vs c.2 d.1

-- `list_insert_before` links a new element in before `b`, wherever in a chain that stands.
pub insert_before-Chain :
    (m : Memory) (h b e : Ptr) (us vs : List Ptr)
    → Chain m h (us ++ b ∷ vs)
    → Distinct (h ∷ (us ++ b ∷ vs))
    → has null (h ∷ (us ++ b ∷ vs)) ≡ false
    → has e (null ∷ h ∷ (us ++ b ∷ vs)) ≡ false
    → (insert_before b e m ≡ ok (tt, inserted m b e)) × Chain (inserted m b e) h (us ++ e ∷ b ∷ vs)
insert_before-Chain m h b e us vs c d all new = (
  insert_before-ok m b e (ground (arith, has-append null us (b ∷ vs))) (ground arith)
      (ground (arith, has-append null us (b ∷ vs), has-prev m h b us vs c))
      (ground (arith, has-append e us (b ∷ vs))),
  Chain-inserted m h b e us vs c d (ground arith),
)

-- `list_remove` takes an element out of a chain, wherever it stands between two others.
pub list_remove-Chain :
    (m : Memory) (h e b : Ptr) (us vs : List Ptr)
    → Chain m h (us ++ e ∷ b ∷ vs)
    → Distinct (h ∷ (us ++ e ∷ b ∷ vs))
    → has null (h ∷ (us ++ e ∷ b ∷ vs)) ≡ false
    → (list_remove e m ≡ ok (tt, removed m e)) × Chain (removed m e) h (us ++ b ∷ vs)
list_remove-Chain m h e b us vs c d all = (
  list_remove-ok m e (ground (arith, has-append null us (e ∷ b ∷ vs)))
      (ground (arith, has-append null us (e ∷ b ∷ vs), has-prev m h e us (b ∷ vs) c))
      (ground (arith, has-append null us (e ∷ b ∷ vs), has-next m h e b us vs c))
      (prev-ne m e h us (b ∷ vs) c d),
  Chain-removed m h e b us vs c d,
)
