-- ===== src/Paths/Depth.antt =====
-- `path_depth_count` counts the names of a path.
use os_elephant.Base.{
  ℕ, zero, suc, ◌+◌, ◌^◌, ◌%◌, ◌<◌, ◌≤◌, ◌≡◌, ◌≢◌, ◌⊎◌, inl, inr, refl, sym, ap, ◌∙◌, Bool, true,
  false, none, List, [], ◌∷◌, ◌==◌, leb, ltb, if◌then◌else◌, ok, arith, Bool-cases,
}
use os_elephant.Ide.{Buffer}
use os_elephant.Fs.{put_bytes}
use os_elephant.Dir.{length, name_byte}
use os_elephant.Paths.{
  skip_slashes, first_name, or_null, start_of_name, path_parse, count_names, path_depth_count,
}

-- How many names begin in a path, read from inside a name or not.
abbrev pub names : (inside : Bool) → List ℕ → ℕ
names inside [] = 0
names inside (c ∷ path) =
    if c == 47 then names false path else if inside then names true path else suc (names true path)

-- No name is longer than 16 characters, `k` of one being read; no character is 0.
abbrev pub IsPath : (k : ℕ) → List ℕ → Type 0
IsPath k [] = k ≤ 16
IsPath k (c ∷ path) = (k ≤ 16) × (c ≢ 0) × IsPath (if c == 47 then 0 else suc k) path

skip_slashes-names : (path : List ℕ) → names false (skip_slashes path) ≡ names false path
unfolding skip_slashes
skip_slashes-names [] = refl
skip_slashes-names (c ∷ path) = elim (Bool-cases (c == 47)) [
  | inl slash ↦ rw slash (skip_slashes-names path)
  | inr char ↦ rw char (rw char refl)
]

skip_slashes-IsPath : (path : List ℕ) → IsPath 0 path → IsPath 0 (skip_slashes path)
unfolding skip_slashes
skip_slashes-IsPath [] is = is
skip_slashes-IsPath (c ∷ path) is = elim (Bool-cases (c == 47)) [
  | inl slash ↦ rw slash (skip_slashes-IsPath path (rw slash at is.2))
  | inr char ↦ rw char is
]

skip_slashes-length : (path : List ℕ) → length (skip_slashes path) ≤ length path
unfolding skip_slashes
skip_slashes-length [] = omega arith
skip_slashes-length (c ∷ path) = ground (arith, skip_slashes-length path)

-- The first name of a path that is read inside a name, and what follows it.
record Split (k : ℕ) (path name rest : List ℕ) : Type 0 where
  count : names true path ≡ names false rest
  short : k + length name ≤ 16
  still : IsPath 0 rest
  parts : length name + length rest ≡ length path

first_name-Split :
    (k : ℕ) (path : List ℕ)
    → IsPath k path
    → Split k path ((first_name path).0) ((first_name path).1)
unfolding first_name
first_name-Split k [] is = record {
  count = refl;
  short = omega arith;
  still = omega arith;
  parts = omega arith;
}
first_name-Split k (c ∷ path) is = elim (Bool-cases (c == 47)) [
  | inl slash ↦ rw slash (record {
    count = rw slash refl;
    short = omega (arith, is.0);
    still = rw slash (omega arith, is.1, rw slash at is.2);
    parts = omega arith;
  })
  | inr char ↦
      let later = first_name-Split (suc k) path (rw char at is.2) in
      rw char (record {
        count = rw char later.count;
        short = omega (arith, later.short);
        still = later.still;
        parts = omega (arith, later.parts);
      })
]

-- What `path_parse` answers: there is no name, or there is one, which is not empty, and less is left.
record Named (path : List ℕ) (store : Buffer) (rest : List ℕ) (buf : Buffer) : Type 0 where
  runs : path_parse path store ≡ ok (or_null rest, buf)
  first : (buf 0 == 0) ≡ false
  count : names false path ≡ suc (names false rest)
  still : IsPath 0 rest
  less : length rest < length path

abbrev Nameless : List ℕ → Buffer → Type 0
Nameless path store =
    (names false path ≡ 0)
    × ((buf : Buffer) × (path_parse path store ≡ ok (none, buf)) × (buf 0 ≡ store 0))

path_parse-cases_from :
    (path start : List ℕ) (store : Buffer)
    → start_of_name path ≡ start
    → names false path ≡ names false start
    → length start ≤ length path
    → IsPath 0 start
    → ((c : ℕ) (cs : List ℕ) → start ≡ c ∷ cs → (c == 47) ≡ false)
    → Nameless path store ⊎ ((rest : List ℕ) × (buf : Buffer) × Named path store rest buf)
unfolding path_parse first_name
path_parse-cases_from path [] store e same le is char =
    inl (same, (put_bytes store 0 0 (name_byte []), rw e refl, ground arith))
path_parse-cases_from path (c ∷ cs) store e same le is char =
    let here : (c == 47) ≡ false = char c cs refl in
    let split = first_name-Split 1 cs (rw here at is.2) in
    let room : leb (suc (length (first_name cs).0)) 16 ≡ true = ground (arith, split.short) in
    let filled : (c == 0) ≡ false = ground (arith, is.1) in
    let one : ltb 0 (0 + suc (length (first_name cs).0)) ≡ true = ground arith in
    inr (
      (first_name cs).1,
      put_bytes store 0 (suc (length (first_name cs).0)) (name_byte (c ∷ (first_name cs).0)),
      record {
        runs = rw (e, here, room) refl;
        first = rw one filled;
        count = same ∙ rw here (ap suc split.count);
        still = split.still;
        less = omega (arith, split.parts);
      },
    )

head_eq : (x c : ℕ) (xs cs : List ℕ) → x ∷ xs ≡ c ∷ cs → x ≡ c
head_eq x c xs cs e = cc

skip_slashes-char :
    (path : List ℕ) (c : ℕ) (cs : List ℕ) → skip_slashes path ≡ c ∷ cs → (c == 47) ≡ false
unfolding skip_slashes
skip_slashes-char [] c cs e = cc
skip_slashes-char (x ∷ path) c cs e = elim (Bool-cases (x == 47)) [
  | inl slash ↦ skip_slashes-char path c cs (rw slash at e)
  | inr char ↦ ap (λ h. h == 47) (sym (head_eq x c path cs (rw char at e))) ∙ char
]

path_parse-cases :
    (path : List ℕ) (store : Buffer)
    → IsPath 0 path
    → Nameless path store ⊎ ((rest : List ℕ) × (buf : Buffer) × Named path store rest buf)
path_parse-cases [] store is =
    path_parse-cases_from [] [] store refl refl (omega arith) is (λ c cs e. cc)
path_parse-cases (c ∷ path) store is = elim (Bool-cases (c == 47)) [
  | inl slash ↦
      path_parse-cases_from (c ∷ path) (skip_slashes path) store (rw slash refl)
        (rw slash (sym (skip_slashes-names path))) (omega (arith, skip_slashes-length path))
        (skip_slashes-IsPath path (rw slash at is.2)) (skip_slashes-char path)
  | inr char ↦
      path_parse-cases_from (c ∷ path) (c ∷ path) store (rw char refl) refl (omega arith) is
        (λ x cs e. ap (λ h. h == 47) (sym (head_eq c x path cs e)) ∙ char)
]

-- The loop, where a name has been parsed and `rest` is left.
count_names-names :
    (fuel depth : ℕ) (rest : List ℕ) (buf : Buffer)
    → length rest < fuel
    → IsPath 0 rest
    → depth + 1 + names false rest < 2 ^ 32
    → (buf 0 == 0) ≡ false
    → count_names (suc fuel) depth (or_null rest, buf) ≡ ok (depth + 1 + names false rest)
unfolding count_names
count_names-names zero depth rest buf lt is small first = absurd (omega arith)
count_names-names (suc fuel) depth [] buf lt is small first =
    let next : (depth + 1) % 2 ^ 32 ≡ depth + 1 + 0 = omega arith in rw (first, next) refl
count_names-names (suc fuel) depth (c ∷ cs) buf lt is small first =
    let cleared : Buffer = put_bytes buf 0 16 (λ i. 0) in
    elim (path_parse-cases (c ∷ cs) cleared is) [
      | inl nameless ↦
          let (none_left, (after, runs, same)) = nameless in
          let next : (depth + 1) % 2 ^ 32 ≡ depth + 1 + names false (c ∷ cs) =
            omega (arith, none_left) in
          let zero_first : (after 0 == 0) ≡ true = ground (arith, same) in
          rw (first, runs, zero_first) (ap ok next)
      | inr found ↦
          let (rest, after, named) = found in
          let next : (depth + 1) % 2 ^ 32 ≡ depth + 1 = omega arith in
          let sum : depth + 1 + 1 + names false rest ≡ depth + 1 + names false (c ∷ cs) =
            omega (arith, named.count) in
          rw (first, named.runs, next)
            (count_names-names fuel (depth + 1) rest after (omega (arith, named.less)) named.still
                (omega (arith, named.count)) named.first
              ∙ ap ok sum)
    ]

-- `path_depth_count` of a path whose names have at most 16 characters and that has a name, or with
-- a 0 at the start of the array for names, ends with the number of names in the path, runs of
-- characters other than slashes, if that is below 2 ^ 32.
pub path_depth_count-names :
    (path : List ℕ) (name : Buffer)
    → IsPath 0 path
    → names false path < 2 ^ 32
    → (0 < names false path) ⊎ (name 0 ≡ 0)
    → path_depth_count path name ≡ ok (names false path)
unfolding path_depth_count count_names
path_depth_count-names path name is small start = elim (path_parse-cases path name is) [
  | inl nameless ↦
      let (none_there, (buf, runs, same)) = nameless in
      let zero_first : (buf 0 == 0) ≡ true = ground (arith, same, none_there, start) in
      rw (runs, zero_first) (ap ok (sym none_there))
  | inr found ↦
      let (rest, buf, named) = found in
      rw named.runs (
        count_names-names (length path) 0 rest buf named.less named.still
          (omega (arith, named.count)) named.first
        ∙ ap ok (omega (arith, named.count)))
]
