-- ===== src/LinkedList/Tests.antt =====
-- The list's theorems on a list of the elements 30 and 40 between the sentinels 10 and 20.
use os_elephant.Base.{◌≡◌, refl, true, [], ◌∷◌, ok, ◌==◌, if◌then◌else◌}
use os_elephant.LinkedList.{Memory, Anchors, list_append, list_remove}
use os_elephant.LinkedList.Chain.{IsList}
use os_elephant.LinkedList.Update.{inserted, removed}
use os_elephant.LinkedList.Deque.{list_append-IsList, list_remove-IsList}

abbrev anchors : Anchors
anchors = record { head = 10; tail = 20 }

abbrev two_elements : Memory
two_elements = record {
  prev = λ p. if p == 30 then 10 else if p == 40 then 30 else if p == 20 then 40 else 0;
  next = λ p. if p == 10 then 30 else if p == 30 then 40 else if p == 40 then 20 else 0;
  interrupts = true;
}

two_elements-IsList : IsList two_elements anchors (30 ∷ 40 ∷ [])
two_elements-IsList = record {
  chain = (refl, refl, (refl, refl, (refl, refl, tt)));
  distinct = (refl, (refl, (refl, (refl, tt))));
  allocated = refl;
  last = refl;
}

list_append-IsList_example :
    (list_append anchors 50 two_elements ≡ ok (tt, inserted two_elements 20 50))
    × IsList (inserted two_elements 20 50) anchors (30 ∷ 40 ∷ 50 ∷ [])
list_append-IsList_example = list_append-IsList 50 (30 ∷ 40 ∷ []) two_elements-IsList refl

list_remove-IsList_example :
    (list_remove 40 two_elements ≡ ok (tt, removed two_elements 40))
    × IsList (removed two_elements 40) anchors (30 ∷ [])
list_remove-IsList_example = list_remove-IsList 40 (30 ∷ []) [] two_elements-IsList
