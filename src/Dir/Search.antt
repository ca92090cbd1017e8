-- ===== src/Dir/Search.antt =====
-- `search_dir_entry` finds an entry of the name if the directory has one.
use os_elephant.Base.{
  ℕ, zero, suc, ◌+◌, ◌*◌, ◌/◌, ◌<◌, ◌≤◌, ◌≡◌, ◌≢◌, inl, inr, refl, sym, subst, true, false, Option,
  none, some, List, ◌==◌, ok, arith, Bool-cases,
}
use native.Mathlib.Decide.{ℕ_discrete}
use os_elephant.Ide.{Disk, Buffer, max_lba, ide_read}
use os_elephant.Ide.Transfer.{Answers, loaded, ide_read-loaded}
use os_elephant.Fs.{Inode, put_bytes}
use os_elephant.Blocks.{Volume}
use os_elephant.Blocks.Release.{block_of, collect_blocks-block_of}
use os_elephant.Dir.{clear, has_name, find_entry, search_blocks, search_dir_entry}

-- A sector of the disk, as the code reads it.
abbrev pub sector : Disk → ℕ → Buffer
sector d lba = loaded d lba 1 clear

-- Among `left` entries from `lo` on: none has the name, or the one at an offset is the first.
abbrev FoundEntry : List ℕ → Buffer → (lo left : ℕ) → Option ℕ → Type 0
FoundEntry name buf lo left none =
    (i : ℕ) → lo ≤ i → i < lo + left → has_name name buf (i * 24) ≡ false
FoundEntry name buf lo left (some at) =
    (i : ℕ) × (at ≡ i * 24)
    × (lo ≤ i)
    × (i < lo + left)
    × (has_name name buf (i * 24) ≡ true)
    × ((j : ℕ) → lo ≤ j → j < i → has_name name buf (j * 24) ≡ false)

FoundEntry-cons :
    (name : List ℕ) (buf : Buffer) (lo left : ℕ) (o : Option ℕ)
    → has_name name buf (lo * 24) ≡ false
    → FoundEntry name buf (lo + 1) left o
    → FoundEntry name buf lo (suc left) o
FoundEntry-cons name buf lo left none other f = λ i low high. elim (ℕ_discrete i lo) [
  | yes same ↦ subst (λ x. has_name name buf (x * 24) ≡ false) (sym same) other
  | no more ↦ f i (omega arith) (omega arith)
]
FoundEntry-cons name buf lo left (some at) other f =
    let (i, e, low, high, hit, earlier) = f in
    (
      i,
      e,
      omega arith,
      omega arith,
      hit,
      λ j jl jh. elim (ℕ_discrete j lo) [
        | yes same ↦ subst (λ x. has_name name buf (x * 24) ≡ false) (sym same) other
        | no more ↦ earlier j (omega arith) jh
      ],
    )

find_entry-FoundEntry :
    (left lo : ℕ) (name : List ℕ) (buf : Buffer)
    → FoundEntry name buf lo left (find_entry left lo name buf)
unfolding find_entry
find_entry-FoundEntry zero lo name buf = λ i low high. absurd (omega arith)
find_entry-FoundEntry (suc left) lo name buf = elim (Bool-cases (has_name name buf (lo * 24))) [
  | inl hit ↦ rw hit (lo, refl, omega arith, omega arith, hit, λ j jl jh. absurd (omega arith))
  | inr other ↦ rw other (
      FoundEntry-cons name buf lo left (find_entry left (lo + 1) name buf) other
        (find_entry-FoundEntry left (lo + 1) name buf))
]

module _ (size : ℕ) (d : Disk) (blocks : ℕ → ℕ) (name : List ℕ) (dir_e : Buffer) where
  -- What a search of `left` blocks from `lo` on answers: no entry of a block in use has the name, or the answer
  -- is a copy of one that has.
  abbrev pub Searched : (lo left : ℕ) → Option Buffer → Type 0
  Searched lo left none =
      (b i : ℕ)
      → lo ≤ b
      → b < lo + left
      → blocks b ≢ 0
      → i < 512 / size
      → has_name name (sector d (blocks b)) (i * 24) ≡ false
  Searched lo left (some entry) =
      (b i : ℕ) × (lo ≤ b)
      × (b < lo + left)
      × (blocks b ≢ 0)
      × (i < 512 / size)
      × (has_name name (sector d (blocks b)) (i * 24) ≡ true)
      × (entry ≡ put_bytes dir_e 0 size (λ k. sector d (blocks b) (i * 24 + k)))

  Searched-skip :
      (lo left : ℕ) (o : Option Buffer)
      → (blocks lo ≢ 0
          → (i : ℕ) → i < 512 / size
          → has_name name (sector d (blocks lo)) (i * 24) ≡ false)
      → Searched (lo + 1) left o
      → Searched lo (suc left) o
  Searched-skip lo left none here f = λ b i low high used lt. elim (ℕ_discrete b lo) [
    | yes same ↦
        subst (λ x. has_name name (sector d (blocks x)) (i * 24) ≡ false) (sym same)
          (here (subst (λ x. blocks x ≢ 0) same used) i lt)
    | no more ↦ f b i (omega arith) (omega arith) used lt
  ]
  Searched-skip lo left (some entry) here f =
      let (b, i, low, high, used, lt, hit, copy) = f in
      (b, i, omega arith, omega arith, used, lt, hit, copy)

  -- One block that is in use, by what `find_entry` answers for it.
  in_block :
      (left lo : ℕ) (o : Option Buffer) (hit : Option ℕ)
      → search_blocks left (lo + 1) size d blocks name dir_e ≡ ok o
      → Searched (lo + 1) left o
      → blocks lo ≢ 0
      → (blocks lo == 0) ≡ false
      → ide_read d (blocks lo) clear 1 ≡ ok (sector d (blocks lo))
      → find_entry (512 / size) 0 name (sector d (blocks lo)) ≡ hit
      → FoundEntry name (sector d (blocks lo)) 0 (512 / size) hit
      → (after : Option Buffer) × (search_blocks (suc left) lo size d blocks name dir_e ≡ ok after)
        × Searched lo (suc left) after
  unfolding search_blocks
  in_block left lo o none run f used filled reads e found = (
    o,
    rw (filled, reads, e) run,
    Searched-skip lo left o (λ u i lt. found i (omega arith) (omega arith)) f,
  )
  in_block left lo o (some at) run f used filled reads e found =
      let (i, offset, low, high, hit, earlier) = found in
      (
        some (put_bytes dir_e 0 size (λ k. sector d (blocks lo) (i * 24 + k))),
        rw (filled, reads, e, offset) refl,
        (lo, i, omega arith, omega arith, used, omega arith, hit, refl),
      )

  pub search_blocks-Searched :
      (left lo : ℕ)
      → Answers d
      → ((b : ℕ) → blocks b ≤ max_lba)
      → (o : Option Buffer) × (search_blocks left lo size d blocks name dir_e ≡ ok o)
        × Searched lo left o
  unfolding search_blocks
  search_blocks-Searched zero lo ready within = (none, refl, λ b i low high. absurd (omega arith))
  search_blocks-Searched (suc left) lo ready within =
      let (o, run, f) = search_blocks-Searched left (lo + 1) ready within in
      elim (Bool-cases (blocks lo == 0)) [
        | inl empty ↦
            (o, rw empty run, Searched-skip lo left o (λ used i lt. absurd (ground arith)) f)
        | inr filled ↦
            let reads =
              ide_read-loaded d (blocks lo) 1 clear ready (omega arith)
                (omega (arith, within lo)) in
            in_block left lo o (find_entry (512 / size) 0 name (sector d (blocks lo))) run f
              (ground arith) filled reads refl
              (find_entry-FoundEntry (512 / size) 0 name (sector d (blocks lo)))
      ]

pub search_dir_entry-Searched :
    (v : Volume) (dir : Inode) (name : List ℕ) (dir_e : Buffer)
    → Answers v.disk
    → dir.inode_blocks 12 ≤ max_lba
    → ((b : ℕ) → block_of v.disk dir b ≤ max_lba)
    → (o : Option Buffer) × (search_dir_entry true v dir name dir_e ≡ ok o)
      × Searched v.part.sbk.directory_entry_size v.disk (block_of v.disk dir) name dir_e 0 140 o
unfolding search_dir_entry
search_dir_entry-Searched v dir name dir_e ready table within =
    let (o, run, f) =
      search_blocks-Searched v.part.sbk.directory_entry_size v.disk (block_of v.disk dir) name dir_e
        140 0 ready within in
    (o, rw (collect_blocks-block_of v.disk dir ready table) run, f)
