-- ===== src/Strings/Reads.antt =====
-- The operations that read strings, against lists of characters.
use os_elephant.Base.{
  ℕ, zero, suc, ◌+◌, ◌-◌, ◌%◌, ◌^◌, ◌<◌, ◌≡◌, ◌≢◌, Bool, true, false, not, ◌&&◌, List, [], ◌∷◌,
  ◌==◌, if◌then◌else◌, length, ok, arith, Bool-cases, inl, inr,
}
use os_elephant.Strings.{
  Memory, skip_string, strlen, skip_equal, differ, strcmp, matches, count_char, strchrs,
}

-- The string at `p` has the characters `cs`: bytes that are not 0, then a 0.
abbrev pub IsString : Memory → ℕ → List ℕ → Type 0
IsString m p [] = m p ≡ 0
IsString m p (c ∷ cs) = (m p ≡ c) × (c ≢ 0) × (c < 256) × IsString m (p + 1) cs

pub skip_string-IsString :
    (fuel : ℕ) (p : ℕ) (m : Memory) (cs : List ℕ)
    → IsString m p cs
    → length cs < fuel
    → skip_string fuel p m ≡ ok (p + length cs + 1)
unfolding skip_string
skip_string-IsString zero p m cs h lt = absurd (omega arith)
skip_string-IsString (suc fuel) p m [] h lt = ground arith
skip_string-IsString (suc fuel) p m (c ∷ cs) (at, some_char, byte, h) lt =
    ground (arith, skip_string-IsString fuel (p + 1) m cs h (omega arith))

-- `strlen` of a string that is not at address 0, with more fuel than it has characters, ends with
-- the number of its characters.
pub strlen-IsString :
    (fuel : ℕ) (p : ℕ) (m : Memory) (cs : List ℕ)
    → IsString m p cs
    → p ≢ 0
    → length cs < fuel
    → strlen fuel p m ≡ ok (length cs)
unfolding strlen
strlen-IsString fuel p m cs h ne lt =
    let there : not (p == 0) ≡ true = ground arith in
    let len : p + length cs + 1 - p - 1 ≡ length cs = omega arith in
    simp (there, skip_string-IsString fuel p m cs h lt, len)

-- Whether two lists of characters are equal.
abbrev pub equal : List ℕ → List ℕ → Bool
equal [] [] = true
equal (c ∷ cs) (d ∷ ds) = (c == d) && equal cs ds
equal _ _ = false

skip_equal-ends :
    (fuel : ℕ) (a b : ℕ) (m : Memory) (cs ds : List ℕ)
    → IsString m a cs
    → IsString m b ds
    → length cs < fuel
    → (e : ℕ × ℕ) × (skip_equal fuel a b m ≡ ok e) × (differ e m ≡ (if equal cs ds then 0 else 1))
unfolding skip_equal
skip_equal-ends zero a b m cs ds h g lt = absurd (omega arith)
skip_equal-ends (suc fuel) a b m [] [] h g lt = ((a, b), ground arith, ground arith)
skip_equal-ends (suc fuel) a b m [] (d ∷ ds) h (at, ne, byte, g) lt =
    ((a, b), ground arith, ground arith)
skip_equal-ends (suc fuel) a b m (c ∷ cs) [] (at, ne, byte, h) g lt =
    ((a, b), ground arith, ground arith)
skip_equal-ends (suc fuel) a b m (c ∷ cs) (d ∷ ds) (at_a, ne, byte, h) (at_b, de, dyte, g) lt =
    let (e, run, ends) = skip_equal-ends fuel (a + 1) (b + 1) m cs ds h g (omega arith) in
    elim (Bool-cases (c == d)) [
      | inl equals ↦ (e, ground arith, ground arith)
      | inr differs ↦ ((a, b), ground arith, ground arith)
    ]

-- `strcmp` of two strings that are not at address 0, with more fuel than the first has characters,
-- ends with 0 if they are equal and with 1 if they are not, whichever of them is the greater.
pub strcmp-equal :
    (fuel : ℕ) (a b : ℕ) (m : Memory) (cs ds : List ℕ)
    → IsString m a cs
    → IsString m b ds
    → a ≢ 0
    → b ≢ 0
    → length cs < fuel
    → strcmp fuel a b m ≡ ok (if equal cs ds then 0 else 1)
unfolding strcmp
strcmp-equal fuel a b m cs ds h g na nb lt =
    let there : (not (a == 0) && not (b == 0)) ≡ true = ground arith in
    let (e, run, ends) = skip_equal-ends fuel a b m cs ds h g lt in simp (there, run, ends)

-- How often a character occurs; `matches` is the comparison that the code makes.
abbrev pub occurrences : ℕ → List ℕ → ℕ
occurrences ch [] = 0
occurrences ch (c ∷ cs) = (if matches c ch then 1 else 0) + occurrences ch cs

count_char-occurrences :
    (fuel : ℕ) (ch p n : ℕ) (m : Memory) (cs : List ℕ)
    → IsString m p cs
    → length cs < fuel
    → n < 2 ^ 32
    → count_char fuel ch p n m ≡ ok ((n + occurrences ch cs) % 2 ^ 32)
unfolding count_char
count_char-occurrences zero ch p n m cs h lt small = absurd (omega arith)
count_char-occurrences (suc fuel) ch p n m [] h lt small = ground arith
count_char-occurrences (suc fuel) ch p n m (c ∷ cs) (at, ne, byte, h) lt small =
    elim (Bool-cases (matches c ch)) [
      | inl found ↦
          let rest =
            count_char-occurrences fuel ch (p + 1) ((n + 1) % 2 ^ 32) m cs h (omega arith)
              (omega arith) in
          let sum : ((n + 1) % 2 ^ 32 + occurrences ch cs) % 2 ^ 32
              ≡ (n + (1 + occurrences ch cs)) % 2 ^ 32 =
            omega arith in
          ground arith
      | inr other ↦
          let rest = count_char-occurrences fuel ch (p + 1) n m cs h (omega arith) small in
          ground arith
    ]

-- `strchrs` of a string that is not at address 0, with more fuel than it has characters, ends with
-- the number of times that the character occurs, modulo 2 ^ 32.
pub strchrs-occurrences :
    (fuel : ℕ) (ch p : ℕ) (m : Memory) (cs : List ℕ)
    → IsString m p cs
    → p ≢ 0
    → length cs < fuel
    → strchrs fuel p ch m ≡ ok (occurrences ch cs % 2 ^ 32)
unfolding strchrs
strchrs-occurrences fuel ch p m cs h ne lt =
    let there : not (p == 0) ≡ true = ground arith in
    let sum : 0 + occurrences ch cs ≡ occurrences ch cs = omega arith in
    simp (there, count_char-occurrences fuel ch p 0 m cs h lt (omega arith), sum)
