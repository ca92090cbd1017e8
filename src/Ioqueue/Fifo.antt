-- ===== src/Ioqueue/Fifo.antt =====
-- The ring as a queue of bytes: positions and contents.
use native.Mathlib.Decide.{ℕ_discrete}
use os_elephant.Base.{
  ℕ, zero, suc, ◌+◌, ◌<◌, ◌%◌, ◌≡◌, refl, List, [], ◌∷◌, ◌++◌, ◌==◌, if◌then◌else◌, length,
  length-append, get_or, update, arith, sym, subst, ◌≢◌,
}
use os_elephant.Ioqueue.{Ioqueue, next_pos, ioqueue_init}

-- The ring holds the bytes `xs`, the oldest first.
pub record Holds (q : Ioqueue) (xs : List ℕ) : Type 0 where
  pub tail_bound : q.tail < 64
  pub room : length xs < 64
  pub head_at : q.head ≡ (q.tail + length xs) % 64
  pub byte_at : (i : ℕ) → i < length xs → q.buf ((q.tail + i) % 64) ≡ get_or xs i 0

pub get_or-append :
    (xs : List ℕ) (y i : ℕ)
    → get_or (xs ++ y ∷ []) i 0 ≡ (if i == length xs then y else get_or xs i 0)
get_or-append [] y zero = refl
get_or-append [] y (suc i) = ground arith
get_or-append (x ∷ xs) y zero = ground arith
get_or-append (x ∷ xs) y (suc i) = ground (arith, get_or-append xs y i)

abbrev pub added : ℕ → Ioqueue → Ioqueue
added byte q = record q { buf = update q.buf q.head byte; head = next_pos q.head }

abbrev pub dropped : Ioqueue → Ioqueue
dropped q = record q { tail = next_pos q.tail }

pub added-Holds :
    {q : Ioqueue} {xs : List ℕ} (byte : ℕ)
    → Holds q xs
    → suc (length xs) < 64
    → Holds (added byte q) (xs ++ byte ∷ [])
unfolding next_pos
added-Holds {q} {xs} byte h less = record {
  tail_bound = h.tail_bound;
  room = omega (arith, length-append xs (byte ∷ []));
  head_at = omega (arith, length-append xs (byte ∷ []), h.head_at);
  byte_at = λ i lt. elim (ℕ_discrete i (length xs)) [
    | yes e ↦
        let last : (q.tail + i) % 64 ≡ q.head = rw e (sym h.head_at) in
        ground (arith, get_or-append xs byte i)
    | no ne ↦
        let within : i < length xs = omega (arith, length-append xs (byte ∷ [])) in
        let other : (q.tail + i) % 64 ≢ q.head =
          λ e. ne (omega (arith, h.head_at, h.room, h.tail_bound)) in
        ground (arith, get_or-append xs byte i, h.byte_at i within)
  ];
}

pub dropped-Holds : {q : Ioqueue} {x : ℕ} {xs : List ℕ} → Holds q (x ∷ xs) → Holds (dropped q) xs
unfolding next_pos
dropped-Holds {q} {x} {xs} h = record {
  tail_bound = omega arith;
  room = omega (arith, h.room);
  head_at = omega (arith, h.head_at, h.tail_bound);
  byte_at = λ i lt.
      let same : ((q.tail + 1) % 64 + i) % 64 ≡ (q.tail + suc i) % 64 = omega arith in
      rw same (h.byte_at (suc i) (omega arith));
}

pub first-Holds : {q : Ioqueue} {x : ℕ} {xs : List ℕ} → Holds q (x ∷ xs) → q.buf q.tail ≡ x
first-Holds {q} {x} h =
    let same : (q.tail + 0) % 64 ≡ q.tail = omega (arith, h.tail_bound) in
    subst (λ i. q.buf i ≡ x) same (h.byte_at 0 (omega arith))

pub ioqueue_init-Holds : (q : Ioqueue) → Holds (ioqueue_init q) []
unfolding ioqueue_init
ioqueue_init-Holds q = record {
  tail_bound = omega arith;
  room = omega arith;
  head_at = refl;
  byte_at = λ i lt. absurd (omega arith);
}
