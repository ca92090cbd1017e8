-- ===== src/Strings/Writes.antt =====
-- The operations that write: what the destination holds afterwards, and that nothing else changes.
use os_elephant.Base.{
  ℕ, zero, suc, ◌+◌, ◌-◌, ◌%◌, ◌<◌, ◌≤◌, ◌≡◌, ◌≢◌, ◌⊎◌, inl, inr, refl, subst, ap, ◌∙◌, Bool, true,
  false, not, ◌&&◌, ◌||◌, List, [], ◌∷◌, ◌++◌, ◌==◌, ltb, leb, if◌then◌else◌, length, update, ok,
  arith, Bool-cases,
}
use os_elephant.Strings.{Memory, fill, memset, copy, memcpy, copy_string, strcpy, strcat}
use os_elephant.Strings.Reads.{IsString, skip_string-IsString}

-- Whether address `q` is one of the `n` from `p` on.
abbrev pub within : ℕ → ℕ → ℕ → Bool
within p n q = leb p q && ltb q (p + n)

fill-within :
    (dst value n : ℕ) (m : Memory) (q : ℕ)
    → fill dst value n m q ≡ (if within dst n q then value else m q)
unfolding fill
fill-within dst value zero m q = ground arith
fill-within dst value (suc n) m q =
    ground (arith, fill-within (dst + 1) value n (update m dst value) q)

-- `memset` at an address other than 0 ends, and sets the given number of bytes from there on to
-- the low byte of the value, and no other byte.
pub memset-within :
    (dst value n : ℕ) (m : Memory)
    → dst ≢ 0
    → (after : Memory) × (memset dst value n m ≡ ok after)
      × ((q : ℕ) → after q ≡ (if within dst n q then value % 256 else m q))
unfolding memset
memset-within dst value n m ne =
    let there : not (dst == 0) ≡ true = ground arith in
    (fill dst (value % 256) n m, simp there, fill-within dst (value % 256) n m)

-- The blocks of `n` bytes at the two addresses do not overlap, or the first is not above the second.
abbrev pub Apart : ℕ → ℕ → ℕ → Type 0
Apart dst n src = (dst ≤ src) ⊎ (src + n ≤ dst)

copy-within :
    (dst src n : ℕ) (m : Memory) (q : ℕ)
    → Apart dst n src
    → copy dst src n m q ≡ (if within dst n q then m (src + (q - dst)) else m q)
unfolding copy
copy-within dst src zero m q apart = ground arith
copy-within dst src (suc n) m q apart =
    let next : Memory = update m dst (m src) in
    let rest = copy-within (dst + 1) (src + 1) n next q (ground arith) in
    elim (Bool-cases (within (dst + 1) n q)) [
      | inl later ↦
          let at : src + 1 + (q - (dst + 1)) ≡ src + (q - dst) = ground arith in
          let other : (src + (q - dst) == dst) ≡ false = ground arith in
          let run : copy (dst + 1) (src + 1) n next q ≡ next (src + (q - dst)) =
            rest ∙ rw later (ap next at) in
          ground arith
      | inr first ↦
          let run : copy (dst + 1) (src + 1) n next q ≡ next q = rest ∙ rw first refl in
          elim (Bool-cases (q == dst)) [
            | inl here ↦
                let e : q ≡ dst = ground arith in
                let at : src + (q - dst) ≡ src = omega arith in run ∙ rw (at, e) (ground arith)
            | inr out ↦ ground arith
          ]
    ]

-- `memcpy` between addresses other than 0, where the blocks do not overlap or the destination is not above
-- the source, ends; each byte of the destination is then the one that the source had before, and
-- no other byte has changed.
pub memcpy-within :
    (dst src n : ℕ) (m : Memory)
    → dst ≢ 0
    → src ≢ 0
    → Apart dst n src
    → (after : Memory) × (memcpy dst src n m ≡ ok after)
      × ((q : ℕ) → after q ≡ (if within dst n q then m (src + (q - dst)) else m q))
unfolding memcpy
memcpy-within dst src n m nd ns apart =
    let there : (not (dst == 0) && not (src == 0)) ≡ true = ground arith in
    (copy dst src n m, simp there, λ q. copy-within dst src n m q apart)

IsString-frame :
    (m after : Memory) (p : ℕ) (cs : List ℕ)
    → ((q : ℕ) → p ≤ q → q ≤ p + length cs → after q ≡ m q)
    → IsString m p cs
    → IsString after p cs
IsString-frame m after p [] same h = same p (omega arith) (omega arith) ∙ h
IsString-frame m after p (c ∷ cs) same (at, ne, byte, h) = (
  same p (omega arith) (omega arith) ∙ at,
  ne,
  byte,
  IsString-frame m after (p + 1) cs (λ q lo hi. same q (omega arith) (omega arith)) h,
)

-- The string of `n` characters and the copy of it have no byte in common.
abbrev pub Disjoint : ℕ → ℕ → ℕ → Type 0
Disjoint dst n src = (dst + n < src) ⊎ (src + n < dst)

copy_string-IsString :
    (fuel dst src : ℕ) (m : Memory) (cs : List ℕ)
    → IsString m src cs
    → Disjoint dst (length cs) src
    → length cs < fuel
    → (after : Memory) × (copy_string fuel dst src m ≡ ok (dst + length cs + 1, after))
      × IsString after dst cs
      × ((q : ℕ) → within dst (length cs + 1) q ≡ false → after q ≡ m q)
unfolding copy_string
copy_string-IsString zero dst src m cs h apart lt = absurd (omega arith)
copy_string-IsString (suc fuel) dst src m [] h apart lt =
    (update m dst (m src), ground arith, ground arith, λ q out. ground arith)
copy_string-IsString (suc fuel) dst src m (c ∷ cs) (at, ne, byte, h) apart lt =
    let next : Memory = update m dst (m src) in
    let kept : IsString next (src + 1) cs =
      IsString-frame m next (src + 1) cs (λ q lo hi. ground arith) h in
    let (after, run, there, same) =
      copy_string-IsString fuel (dst + 1) (src + 1) next cs kept (ground arith) (omega arith) in
    (
      after,
      ground arith,
      (ground (arith, same dst), ne, byte, there),
      λ q out. ground (arith, same q),
    )

-- `strcpy` of a string of `cs` to a place, not at address 0, that has no byte in common with it, with
-- more fuel than `cs` has characters: it ends, the place then holds the same string and no byte
-- outside it has changed; the address returned is the one behind the copy, not its start.
pub strcpy-IsString :
    (fuel dst src : ℕ) (m : Memory) (cs : List ℕ)
    → IsString m src cs
    → dst ≢ 0
    → Disjoint dst (length cs) src
    → length cs < fuel
    → (after : Memory) × (strcpy fuel dst src m ≡ ok (dst + length cs + 1, after))
      × IsString after dst cs
      × ((q : ℕ) → within dst (length cs + 1) q ≡ false → after q ≡ m q)
unfolding strcpy
strcpy-IsString fuel dst src m cs h ne apart lt =
    let there : (not (dst == 0) || not (src == 0)) ≡ true = ground arith in
    let (after, run, there_cs, same) = copy_string-IsString fuel dst src m cs h apart lt in
    (after, simp (there, run), there_cs, same)

joined :
    (after : Memory) (p : ℕ) (cs ds : List ℕ) (m : Memory)
    → IsString m p cs
    → ((q : ℕ) → within p (length cs) q ≡ true → after q ≡ m q)
    → IsString after (p + length cs) ds
    → IsString after p (cs ++ ds)
joined after p [] ds m h same tail = subst (λ q. IsString after q ds) (omega arith) tail
joined after p (c ∷ cs) ds m (at, ne, byte, h) same tail = (
  same p (ground arith) ∙ at,
  ne,
  byte,
  joined after (p + 1) cs ds m h (λ q lt. same q (ground arith))
      (subst (λ q. IsString after q ds) (omega arith) tail),
)

-- `strcat` of a string of `ds` to one of `cs`, neither at address 0, where the place that the result takes
-- up behind `cs` has no byte in common with the source, with more fuel than either has characters:
-- it ends and returns the destination, which then holds `cs ++ ds`; no byte outside the part that
-- was added has changed.
pub strcat-IsString :
    (fuel dst src : ℕ) (m : Memory) (cs ds : List ℕ)
    → IsString m dst cs
    → IsString m src ds
    → dst ≢ 0
    → src ≢ 0
    → Disjoint (dst + length cs) (length ds) src
    → length cs < fuel
    → length ds < fuel
    → (after : Memory) × (strcat fuel dst src m ≡ ok (dst, after))
      × IsString after dst (cs ++ ds)
      × ((q : ℕ) → within (dst + length cs) (length ds + 1) q ≡ false → after q ≡ m q)
unfolding strcat
strcat-IsString fuel dst src m cs ds h g nd ns apart lc ld =
    let there : (not (dst == 0) && not (src == 0)) ≡ true = ground arith in
    let back : dst + length cs + 1 - 1 ≡ dst + length cs = omega arith in
    let (after, run, there_ds, same) =
      copy_string-IsString fuel (dst + length cs) src m ds g apart ld in
    (
      after,
      simp (there, skip_string-IsString fuel dst m cs h lc, back, run),
      joined after dst cs ds m h (λ q lt. same q (ground arith)) there_ds,
      same,
    )
