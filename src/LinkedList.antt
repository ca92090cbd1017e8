-- ===== src/LinkedList.antt =====
-- lib/list.c: doubly linked lists of `struct list_elem`, on an explicit memory. The state also has
-- the processor's interrupt flag, which the functions that write save, clear and set back
-- (`intr_disable` and `intr_set_status` of kernel/c13a_interrupt.c).
pub mod Chain
pub mod Update
pub mod Deque
pub mod Walk
mod Tests
use os_elephant.Base.Command.{and_then, pure, ◌>>=◌, ◌>>◌}
use os_elephant.Base.{
  ℕ, zero, suc, ◌+◌, Bool, true, false, Option, none, some, ◌==◌, if◌then◌else◌, update, Outcome,
  ok, fault, unfinished, panic,
}

abbrev pub Ptr : Type 0
Ptr = ℕ

abbrev pub null : Ptr
null = 0

pub record Memory : Type 0 where
  pub prev : Ptr → Ptr
  pub next : Ptr → Ptr
  pub interrupts : Bool

-- `struct list`: the addresses of its two sentinels.
pub record Anchors : Type 0 where
  pub head : Ptr
  pub tail : Ptr

abbrev pub Cmd : Type 0 → Type 0
Cmd A = Memory → Outcome (A × Memory)

-- `p->prev`, `p->next` and writes to them; through NULL they fault.
unfoldable pub get_prev : Ptr → Cmd Ptr
get_prev p m = if p == null then fault else ok (m.prev p, m)

unfoldable pub get_next : Ptr → Cmd Ptr
get_next p m = if p == null then fault else ok (m.next p, m)

unfoldable pub put_prev : Ptr → Ptr → Cmd (Unit {0})
put_prev p q m = if p == null then fault else ok (tt, record m { prev = update m.prev p q })

unfoldable pub put_next : Ptr → Ptr → Cmd (Unit {0})
put_next p q m = if p == null then fault else ok (tt, record m { next = update m.next p q })

abbrev pub intr_disable : Cmd Bool
intr_disable m = ok (m.interrupts, record m { interrupts = false })

abbrev pub intr_set_status : Bool → Cmd (Unit {0})
intr_set_status s m = ok (tt, record m { interrupts = s })

unfoldable pub list_init : Anchors → Cmd (Unit {0})
list_init l = do
  put_prev l.head null
  put_next l.head l.tail
  put_prev l.tail l.head
  put_next l.tail null

unfoldable pub insert_before : Ptr → Ptr → Cmd (Unit {0})
insert_before before elem = do
  old_status ← intr_disable
  p ← get_prev before
  put_next p elem
  q ← get_prev before
  put_prev elem q
  put_next elem before
  put_prev before elem
  intr_set_status old_status

unfoldable pub list_push : Anchors → Ptr → Cmd (Unit {0})
list_push l elem = do first ← get_next l.head; insert_before first elem

unfoldable pub list_append : Anchors → Ptr → Cmd (Unit {0})
list_append l elem = insert_before l.tail elem

unfoldable pub list_remove : Ptr → Cmd (Unit {0})
list_remove pelem = do
  old_status ← intr_disable
  p ← get_prev pelem
  n ← get_next pelem
  put_next p n
  n' ← get_next pelem
  p' ← get_prev pelem
  put_prev n' p'
  intr_set_status old_status

unfoldable pub list_pop : Anchors → Cmd Ptr
list_pop l = do elem ← get_next l.head; list_remove elem; pure elem

-- The loops walk from `elem` on; the fuel bounds the number of elements.
find_from : ℕ → Anchors → (elem obj_elem : Ptr) → Cmd Bool
find_from zero l elem obj_elem = λ m. unfinished
find_from (suc fuel) l elem obj_elem = elim (elem == l.tail) [
  | true ↦ pure false
  | false ↦ elim (elem == obj_elem) [
    | true ↦ pure true
    | false ↦ get_next elem >>= λ n. find_from fuel l n obj_elem
  ]
]

unfoldable pub elem_find : ℕ → Anchors → Ptr → Cmd Bool
unfolding find_from
elem_find fuel l obj_elem = do elem ← get_next l.head; find_from fuel l elem obj_elem

unfoldable pub list_empty : Anchors → Cmd Bool
list_empty l = do first ← get_next l.head; pure (first == l.tail)

traverse_from : ℕ → Anchors → (Ptr → ℕ → Bool) → ℕ → Ptr → Cmd (Option Ptr)
traverse_from zero l func arg elem = λ m. unfinished
traverse_from (suc fuel) l func arg elem = elim (elem == l.tail) [
  | true ↦ pure none
  | false ↦ elim (func elem arg) [
    | true ↦ pure (some elem)
    | false ↦ get_next elem >>= traverse_from fuel l func arg
  ]
]

-- The callback is a test of the element and the argument; `none` is NULL.
unfoldable pub list_traversal : ℕ → Anchors → (Ptr → ℕ → Bool) → ℕ → Cmd (Option Ptr)
unfolding traverse_from
list_traversal fuel l func arg = do
  elem ← get_next l.head
  empty ← list_empty l
  if empty then pure none else traverse_from fuel l func arg elem

len_from : ℕ → Anchors → Ptr → ℕ → Cmd ℕ
len_from zero l elem len = λ m. unfinished
len_from (suc fuel) l elem len = elim (elem == l.tail) [
  | true ↦ pure len
  | false ↦ get_next elem >>= λ n. len_from fuel l n (len + 1)
]

unfoldable pub list_len : ℕ → Anchors → Cmd ℕ
unfolding len_from
list_len fuel l = do elem ← get_next l.head; len_from fuel l elem 0
