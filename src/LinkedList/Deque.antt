-- ===== src/LinkedList/Deque.antt =====
-- The operations on whole lists: what each does to the sequence of elements.
use os_elephant.Base.{
  Distinct, Distinct-insert, Distinct-drop, Distinct-last, ◌≡◌, refl, ◌≢◌, true, false, List, [],
  ◌∷◌, ◌++◌, append_assoc, append-nil, is_nil, arith, ◌==◌, has, has-append, update, ok, fault,
  if_same,
}
use os_elephant.LinkedList.{
  Ptr, null, Memory, Anchors, list_init, insert_before, list_push, list_append, list_remove,
  list_pop, list_empty, put_prev,
}
use os_elephant.LinkedList.Chain.{Chain, nodes, IsList, has-prev}
use os_elephant.LinkedList.Update.{
  inserted, removed, insert_before-Chain, list_remove-Chain, get_next-ok, put_prev-ok, put_next-ok,
  get_prev-ok,
}

front : (ws : List Ptr) (t : Ptr) → (b : Ptr) × (vs : List Ptr) × (ws ++ t ∷ [] ≡ b ∷ vs)
front [] t = (t, [], refl)
front (w ∷ ws) t = (w, ws ++ t ∷ [], refl)

-- A list with two parts, seen from its first node: the elements `us`, then `ws` and the sentinel.
module _ {m : Memory} {l : Anchors} (e : Ptr) (us ws : List Ptr) where
  -- Linking `e` in between the elements `us` and `ws`, before the node `b` that follows `us`.
  insert-IsList :
      (b : Ptr) (vs : List Ptr)
      → ws ++ l.tail ∷ [] ≡ b ∷ vs
      → IsList m l (us ++ ws)
      → has e (null ∷ nodes l (us ++ ws)) ≡ false
      → (insert_before b e m ≡ ok (tt, inserted m b e)) × IsList (inserted m b e) l (us ++ e ∷ ws)
  insert-IsList b vs at is new =
      let c : Chain m l.head (us ++ b ∷ vs) =
        rw (← at, ← append_assoc us ws (l.tail ∷ [])) is.chain in
      let d : Distinct (l.head ∷ (us ++ b ∷ vs)) =
        rw (← at, ← append_assoc us ws (l.tail ∷ [])) is.distinct in
      let n : has null (l.head ∷ (us ++ b ∷ vs)) ≡ false =
        rw (← at, ← append_assoc us ws (l.tail ∷ [])) is.allocated in
      let f : has e (null ∷ l.head ∷ (us ++ b ∷ vs)) ≡ false =
        rw (← at, ← append_assoc us ws (l.tail ∷ [])) new in
      let (run, chain) = insert_before-Chain m l.head b e us vs c d n f in
      (
        run,
        record {
          chain = rw (append_assoc us (e ∷ ws) (l.tail ∷ []), at) chain;
          distinct =
              rw (append_assoc us (e ∷ ws) (l.tail ∷ []), at)
                (Distinct-insert e (l.head ∷ us) (b ∷ vs) d (ground arith));
          allocated = ground (
            arith,
            has-append null (us ++ e ∷ ws) (l.tail ∷ []),
            has-append null (us ++ ws) (l.tail ∷ []),
            has-append null us (e ∷ ws),
            has-append null us ws,
            is.allocated,
          );
          last = ground (
            arith,
            is.last,
            new,
            has-append e (us ++ ws) (l.tail ∷ []),
            has-prev m l.head b us vs c,
            Distinct-last l.tail (l.head ∷ (us ++ ws)) is.distinct,
            has-append l.tail us ws,
          );
        },
      )

  -- `list_remove` of an element `e` of a well-formed list, between the elements `us` and `ws`,
  -- returns, and the list is well-formed with those in order.
  pub list_remove-IsList :
      IsList m l (us ++ e ∷ ws)
      → (list_remove e m ≡ ok (tt, removed m e)) × IsList (removed m e) l (us ++ ws)
  list_remove-IsList is =
      let (b, vs, at) = front ws l.tail in
      let c : Chain m l.head (us ++ e ∷ b ∷ vs) =
        rw (← at, ← append_assoc us (e ∷ ws) (l.tail ∷ [])) is.chain in
      let d : Distinct (l.head ∷ (us ++ e ∷ b ∷ vs)) =
        rw (← at, ← append_assoc us (e ∷ ws) (l.tail ∷ [])) is.distinct in
      let n : has null (l.head ∷ (us ++ e ∷ b ∷ vs)) ≡ false =
        rw (← at, ← append_assoc us (e ∷ ws) (l.tail ∷ [])) is.allocated in
      let (run, chain) = list_remove-Chain m l.head e b us vs c d n in
      (
        run,
        record {
          chain = rw (append_assoc us ws (l.tail ∷ []), at) chain;
          distinct =
              rw (append_assoc us ws (l.tail ∷ []), at) (Distinct-drop e (l.head ∷ us) (b ∷ vs) d);
          allocated = ground (
            arith,
            has-append null (us ++ e ∷ ws) (l.tail ∷ []),
            has-append null (us ++ ws) (l.tail ∷ []),
            has-append null us (e ∷ ws),
            has-append null us ws,
            is.allocated,
          );
          last = ground (
            arith,
            is.last,
            has-prev m l.head e us (b ∷ vs) c,
            Distinct-last l.tail (l.head ∷ (us ++ e ∷ ws)) is.distinct,
            has-append l.tail us (e ∷ ws),
          );
        },
      )

module _ {m : Memory} {l : Anchors} where
  -- `list_append` of a node, not NULL and not in a well-formed list, returns, and the list is
  -- well-formed with the node behind its other elements.
  pub list_append-IsList :
      (e : Ptr) (xs : List Ptr)
      → IsList m l xs
      → has e (null ∷ nodes l xs) ≡ false
      → (list_append l e m ≡ ok (tt, inserted m l.tail e))
        × IsList (inserted m l.tail e) l (xs ++ e ∷ [])
  unfolding list_append
  list_append-IsList e xs is new =
      let same : xs ++ [] ≡ xs = append-nil xs in
      insert-IsList e xs [] l.tail [] refl (rw same is) (rw same new)

  -- `list_push` of a node, not NULL and not in a well-formed list, returns, and the list is
  -- well-formed with the node before its other elements.
  pub list_push-IsList :
      (e : Ptr) (xs : List Ptr)
      → IsList m l xs
      → has e (null ∷ nodes l xs) ≡ false
      → (list_push l e m ≡ ok (tt, inserted m (m.next l.head) e))
        × IsList (inserted m (m.next l.head) e) l (e ∷ xs)
  unfolding list_push
  list_push-IsList e [] is new =
      rw (get_next-ok l.head (ground (arith, is.allocated)), is.chain.0)
        (insert-IsList e [] [] l.tail [] refl is new)
  list_push-IsList e (x ∷ xs) is new =
      rw (get_next-ok l.head (ground (arith, is.allocated)), is.chain.0)
        (insert-IsList e [] (x ∷ xs) x (xs ++ l.tail ∷ []) refl is new)

  -- `list_pop` of a well-formed list with an element returns the first one, and the list is
  -- well-formed with the others in order.
  pub list_pop-IsList :
      (e : Ptr) (xs : List Ptr)
      → IsList m l (e ∷ xs)
      → (list_pop l m ≡ ok (e, removed m e)) × IsList (removed m e) l xs
  unfolding list_pop
  list_pop-IsList e xs is =
      let (run, rest) = list_remove-IsList e [] xs is in
      (rw (get_next-ok l.head (ground (arith, is.allocated)), is.chain.0) (rw run), rest)

  -- On an empty list `list_pop` takes the sentinel for an element and faults through its NULL link.
  pub list_pop-nil : IsList m l [] → list_pop l m ≡ fault
  unfolding list_pop list_remove put_prev
  list_pop-nil is =
      let h : l.head ≢ null = ground (arith, is.allocated) in
      let t : l.tail ≢ null = ground (arith, is.allocated) in
      simp (
        get_next-ok l.head h,
        is.chain.0,
        get_prev-ok l.tail t,
        is.chain.1,
        get_next-ok l.tail t,
        is.last,
        put_next-ok l.head h,
        if_same,
      )

  pub list_empty-IsList : (xs : List Ptr) → IsList m l xs → list_empty l m ≡ ok (is_nil xs, m)
  unfolding list_empty
  list_empty-IsList [] is =
      rw (get_next-ok l.head (ground (arith, is.allocated)))
        (let t : (m.next l.head == l.tail) ≡ true = ground (arith, is.chain.0) in rw t)
  list_empty-IsList (x ∷ xs) is = rw (get_next-ok l.head (ground (arith, is.allocated))) (
      let t : (m.next l.head == l.tail) ≡ false = ground (
        arith,
        is.chain.0,
        is.distinct,
        has-append x xs (l.tail ∷ []),
        has-append l.tail xs (l.tail ∷ []),
      ) in
      rw t)

-- `list_init` makes an empty list of two sentinels.
pub list_init-IsList :
    (m : Memory) (l : Anchors)
    → l.head ≢ null
    → l.tail ≢ null
    → l.head ≢ l.tail
    → (g : Memory) × (list_init l m ≡ ok (tt, g)) × IsList g l []
unfolding list_init
list_init-IsList m l h t ne = (
  record {
    prev = update (update m.prev l.head null) l.tail l.head;
    next = update (update m.next l.head l.tail) l.tail null;
    interrupts = m.interrupts;
  },
  simp (put_prev-ok l.head h, put_next-ok l.head h, put_prev-ok l.tail t, put_next-ok l.tail t),
  record {
    chain = (ground arith, ground arith, tt);
    distinct = (ground arith, ground arith);
    allocated = ground arith;
    last = ground arith;
  },
)
