-- ===== src/Dir/Found.antt =====
-- `search_dir_entry` finds the entry that `sync_dir_entry` has put.
use native.Mathlib.Decide.{ℕ_discrete, dec_lt}
use os_elephant.Base.{
  ℕ, ◌+◌, ◌-◌, ◌*◌, ◌/◌, ◌%◌, ◌<◌, ◌≤◌, ◌≡◌, ◌≢◌, ◌⊎◌, inl, inr, refl, ap, ◌∙◌, subst, true, false,
  ◌&&◌, Option, none, some, List, [], ◌∷◌, ◌==◌, leb, ltb, if◌then◌else◌, ok, arith,
}
use os_elephant.Ide.{Buffer, max_lba}
use os_elephant.Fs.{Inode, put_bytes}
use os_elephant.Blocks.{Volume}
use os_elephant.Blocks.Bits.{blocks, used}
use os_elephant.Blocks.Release.{block_of}
use os_elephant.Dir.{has_name, length, search_dir_entry, sync_dir_entry}
use os_elephant.Dir.Search.{sector, Searched, search_dir_entry-Searched}
use os_elephant.Dir.Grow.{IsDir, Placed, sync_dir_entry-Placed}

-- Whether an entry has a name depends on the bytes of the name and one more.
pub has_name-same :
    (name : List ℕ) (x y : Buffer) (at to : ℕ)
    → ((k : ℕ) → k ≤ length name → x (at + k) ≡ y (to + k))
    → has_name name x at ≡ has_name name y to
unfolding has_name
has_name-same [] x y at to same =
    let first : x at ≡ y to = ap x (omega arith) ∙ same 0 (omega arith) ∙ ap y (omega arith) in
    rw first refl
has_name-same (c ∷ name) x y at to same =
    let first : x at ≡ y to = ap x (omega arith) ∙ same 0 (omega arith) ∙ ap y (omega arith) in
    let rest =
      has_name-same name x y (at + 1) (to + 1)
        (λ k le. ap x (omega arith) ∙ same (k + 1) (omega arith) ∙ ap y (omega arith)) in
    rw (first, rest) refl

-- No entry of the directory has the name.
abbrev pub IsNew : Volume → Inode → List ℕ → Type 0
IsNew v dir name =
    (b i : ℕ)
    → b < 12
    → dir.inode_blocks b ≢ 0
    → i < 21
    → has_name name (sector v.disk (dir.inode_blocks b)) (i * 24) ≡ false

module _ (v w : Volume) (dir after : Inode) (p_de : Buffer) (b i c : ℕ) (name : List ℕ)
    (is : IsDir v dir) (placed : Placed v dir p_de after w b i) (short : length (c ∷ name) < 24)
    (new : IsNew v dir (c ∷ name)) (char : c ≢ 0) (pos : 0 < v.part.sbk.data_start_lba) where
  -- The entry that was put has its name.
  put-has_name :
      has_name (c ∷ name) (sector w.disk (after.inode_blocks b)) (i * 24)
      ≡ has_name (c ∷ name) p_de 0
  put-has_name =
      has_name-same (c ∷ name) (sector w.disk (after.inode_blocks b)) p_de (i * 24) 0 (λ k le.
        let entry_in = placed.entry_in in
        let low : ltb (i * 24 + k) 512 ≡ true = ground arith in
        let at_sector : (i * 24 + k) / 512 ≡ 0 = omega arith in
        let at_offset : (i * 24 + k) % 512 ≡ i * 24 + k = omega arith in
        let at : 0 + k ≡ k = omega arith in
        let lba : after.inode_blocks b + 0 ≡ after.inode_blocks b = omega arith in
        rw (low, at_sector, at_offset, at, lba) (placed.entry k (omega arith)))

  -- Another entry of the same block does not have the name.
  same_block :
      (j : ℕ)
      → j < 21
      → j ≢ i
      → has_name (c ∷ name) (sector w.disk (after.inode_blocks b)) (j * 24) ≡ false
  unfolding has_name
  same_block j lt ne = elim placed.kept [
    | inl fresh ↦
        let low : ltb (j * 24) 512 ≡ true = ground arith in
        let at_sector : after.inode_blocks b + j * 24 / 512 ≡ after.inode_blocks b = omega arith in
        let at_offset : j * 24 % 512 ≡ j * 24 = omega arith in
        let apart : (j * 24 < i * 24) ⊎ (i * 24 + 24 ≤ j * 24) = ground arith in
        let zero_byte = fresh.1 (j * 24) (omega arith) apart in
        let differs : (0 == c) ≡ false = ground (arith, char) in
        rw (low, at_sector, at_offset, zero_byte, differs) refl
    | inr old ↦
        let filled : dir.inode_blocks b ≢ 0 = omega (arith, placed.in_data.0, old.0, pos) in
        has_name-same (c ∷ name) (sector w.disk (after.inode_blocks b))
          (sector v.disk (dir.inode_blocks b)) (j * 24) (j * 24)
          (λ k le.
            let below : ltb (j * 24 + k) 512 ≡ true = ground arith in
            let at_sector : (j * 24 + k) / 512 ≡ 0 = omega arith in
            let at_offset : (j * 24 + k) % 512 ≡ j * 24 + k = omega arith in
            let lba : after.inode_blocks b + 0 ≡ after.inode_blocks b = omega arith in
            let lba_old : dir.inode_blocks b + 0 ≡ after.inode_blocks b = omega (arith, old.0) in
            let apart : (j * 24 + k < i * 24) ⊎ (i * 24 + 24 ≤ j * 24 + k) = ground arith in
            rw (below, at_sector, at_offset, lba, lba_old) (old.1 (j * 24 + k) (omega arith) apart))
        ∙ new b j placed.direct filled lt
  ]

  other_block :
      (x j : ℕ)
      → x < 12
      → j < 21
      → after.inode_blocks x ≢ 0
      → after.inode_blocks x ≢ after.inode_blocks b
      → has_name (c ∷ name) (sector w.disk (after.inode_blocks x)) (j * 24) ≡ false
  other_block x j low lt filled other =
      let unlike : x ≢ b = λ e. other (ap after.inode_blocks e) in
      let same_lba = placed.other_blocks x unlike in
      let old : dir.inode_blocks x ≢ 0 = λ e. filled (same_lba ∙ e) in
      let (first, last) = is.direct x low old in
      has_name-same (c ∷ name) (sector w.disk (after.inode_blocks x))
        (sector v.disk (dir.inode_blocks x)) (j * 24) (j * 24)
        (λ k le.
          let below : ltb (j * 24 + k) 512 ≡ true = ground arith in
          let at_sector : (j * 24 + k) / 512 ≡ 0 = omega arith in
          let lba : after.inode_blocks x + 0 ≡ after.inode_blocks x = omega arith in
          let lba_old : dir.inode_blocks x + 0 ≡ after.inode_blocks x = omega (arith, same_lba) in
          rw (below, at_sector, lba, lba_old)
            (placed.elsewhere (after.inode_blocks x) ((j * 24 + k) % 512) (omega (arith, same_lba))
              other))
      ∙ new x j low old lt

  no_table : after.inode_blocks 12 ≡ 0
  no_table = placed.other_blocks 12 (omega (arith, placed.direct)) ∙ is.no_table

  -- The addresses of the blocks, as a search collects them.
  addresses : (x : ℕ) → block_of w.disk after x ≡ (if ltb x 12 then after.inode_blocks x else 0)
  addresses x = ground (arith, no_table)

  within : (x : ℕ) → x < 12 → after.inode_blocks x ≤ max_lba
  within x low = elim (ℕ_discrete x b) [
    | yes same ↦
        let at = ap after.inode_blocks same in omega (arith, at, placed.in_data.1, is.inside)
    | no other ↦ elim (ℕ_discrete (dir.inode_blocks x) 0) [
      | yes none_here ↦ omega (arith, placed.other_blocks x other)
      | no filled ↦
          let (first, last) = is.direct x low filled in
          omega (arith, placed.other_blocks x other, is.inside)
    ]
  ]

  in_range : (x : ℕ) → block_of w.disk after x ≤ max_lba
  in_range x = elim (dec_lt x 12) [
    | yes low ↦ ground (arith, within x low)
    | no high ↦ ground (arith, addresses x)
  ]

  -- A block that a search looks at is a direct one.
  direct_block :
      (x : ℕ)
      → block_of w.disk after x ≢ 0
      → (x < 12) × (block_of w.disk after x ≡ after.inode_blocks x)
  direct_block x filled = elim (dec_lt x 12) [
    | yes low ↦ (low, ground arith)
    | no high ↦ absurd (filled (ground (arith, addresses x)))
  ]

  -- An entry with the name is the one that was put.
  same_entry :
      (x j : ℕ)
      → x < 12
      → j < 21
      → after.inode_blocks x ≢ 0
      → has_name (c ∷ name) (sector w.disk (after.inode_blocks x)) (j * 24) ≡ true
      → (after.inode_blocks x ≡ after.inode_blocks b) × (j ≡ i)
  same_entry x j low lt filled hit =
      elim (ℕ_discrete (after.inode_blocks x) (after.inode_blocks b)) [
        | yes same ↦ elim (ℕ_discrete j i) [
          | yes equal ↦ (same, equal)
          | no ne ↦
              let here =
                subst (λ l. has_name (c ∷ name) (sector w.disk l) (j * 24) ≡ true) same hit in
              absurd (ground (arith, here, same_block j lt ne))
        ]
        | no other ↦ absurd (ground (arith, hit, other_block x j low lt filled other))
      ]

  entry_byte :
      (dir_e : Buffer) (k : ℕ)
      → k < 24
      → put_bytes dir_e 0 24 (λ o. sector w.disk (after.inode_blocks b) (i * 24 + o)) k ≡ p_de k
  entry_byte dir_e k small =
      let entry_in = placed.entry_in in
      let inside : (leb 0 k && ltb k (0 + 24)) ≡ true = ground arith in
      let low : ltb (i * 24 + (k - 0)) 512 ≡ true = ground arith in
      let at_sector : after.inode_blocks b + (i * 24 + (k - 0)) / 512 ≡ after.inode_blocks b =
        omega arith in
      let at_offset : (i * 24 + (k - 0)) % 512 ≡ i * 24 + k = omega arith in
      rw (inside, low, at_sector, at_offset) (placed.entry k small)

  -- What a search answers is the entry that was put.
  answer :
      (dir_e : Buffer) (o : Option Buffer)
      → has_name (c ∷ name) p_de 0 ≡ true
      → Searched 24 w.disk (block_of w.disk after) (c ∷ name) dir_e 0 140 o
      → (e : Buffer) × (o ≡ some e) × ((k : ℕ) → k < 24 → e k ≡ p_de k)
  answer dir_e none named f =
      let direct : ltb b 12 ≡ true = ground (arith, placed.direct) in
      let at : block_of w.disk after b ≡ after.inode_blocks b = rw direct refl in
      let filled : block_of w.disk after b ≢ 0 = omega (arith, at, placed.in_data.0, pos) in
      let missed = f b i (omega arith) (omega (arith, placed.direct)) filled placed.entry_in in
      let none_there =
        subst (λ l. has_name (c ∷ name) (sector w.disk l) (i * 24) ≡ false) at missed in
      absurd (ground (arith, none_there, put-has_name, named))
  answer dir_e (some e) named f =
      let (x, j, from, to, filled, lt, hit, copy) = f in
      let (low, at) = direct_block x filled in
      let hit_there = subst (λ l. has_name (c ∷ name) (sector w.disk l) (j * 24) ≡ true) at hit in
      let (same, equal) = same_entry x j low lt (λ z. filled (at ∙ z)) hit_there in
      let exact : e
          ≡ put_bytes dir_e 0 24 (λ o. sector w.disk (after.inode_blocks b) (i * 24 + o)) =
        copy
        ∙ ap (λ l. put_bytes dir_e 0 24 (λ o. sector w.disk l (j * 24 + o))) (at ∙ same)
        ∙ ap (λ y. put_bytes dir_e 0 24 (λ o. sector w.disk (after.inode_blocks b) (y * 24 + o)))
            equal in
      (e, refl, λ k small. ap (λ g. g k) exact ∙ entry_byte dir_e k small)

  search-found :
      (dir_e : Buffer)
      → has_name (c ∷ name) p_de 0 ≡ true
      → (e : Buffer) × (search_dir_entry true w after (c ∷ name) dir_e ≡ ok (some e))
        × ((k : ℕ) → k < 24 → e k ≡ p_de k)
  search-found dir_e named =
      let (o, run, f) =
        search_dir_entry-Searched w after (c ∷ name) dir_e placed.answers (omega (arith, no_table))
          in_range in
      let size : w.part.sbk.directory_entry_size ≡ 24 =
        ap (λ s. s.directory_entry_size) placed.same_sbk ∙ is.entry_size in
      let (e, found, bytes) =
        answer dir_e o named (
          subst (λ s. Searched s w.disk (block_of w.disk after) (c ∷ name) dir_e 0 140 o) size f) in
      (e, run ∙ ap ok found, bytes)

-- The entry that `sync_dir_entry` has put, with a name that the directory did not have, is what a search finds.
pub search_dir_entry-sync_dir_entry :
    (v : Volume) (dir : Inode) (p_de dir_e : Buffer) (c : ℕ) (name : List ℕ) (z free : ℕ)
    → IsDir v dir
    → 0 < v.part.sbk.data_start_lba
    → z < 12
    → dir.inode_blocks z ≡ 0
    → free < blocks v
    → used v free ≡ false
    → c ≢ 0
    → length (c ∷ name) < 24
    → IsNew v dir (c ∷ name)
    → has_name (c ∷ name) p_de 0 ≡ true
    → (after : Inode) × (w : Volume) × (e : Buffer) × (sync_dir_entry p_de dir v
        ≡ ok (true, after, w))
      × (search_dir_entry true w after (c ∷ name) dir_e ≡ ok (some e))
      × ((k : ℕ) → k < 24 → e k ≡ p_de k)
search_dir_entry-sync_dir_entry v dir p_de dir_e c name z free is pos low empty below off char short
      new named =
    let (after, w, b, i, run, placed) =
      sync_dir_entry-Placed v dir p_de z free is low empty below off pos in
    let (e, found, bytes) =
      search-found v w dir after p_de b i c name is placed short new char pos dir_e named in
    (after, w, e, run, found, bytes)
