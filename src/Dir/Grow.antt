-- ===== src/Dir/Grow.antt =====
-- `sync_dir_entry` puts an entry where there was none, while the directory has a direct block left.
use native.Mathlib.Decide.{ℕ_discrete}
use os_elephant.Base.{
  ℕ, zero, suc, ◌+◌, ◌*◌, ◌/◌, ◌%◌, ◌^◌, ◌<◌, ◌≤◌, ◌≡◌, ◌≢◌, ◌⊎◌, inl, inr, refl, sym, ap, ◌∙◌,
  subst, true, false, Option, none, some, ◌==◌, ltb, if◌then◌else◌, update, ok, ◌>>=◌, arith,
  Bool-cases,
}
use os_elephant.Ide.{Buffer, max_lba}
use os_elephant.Ide.Transfer.{Answers, written, ide_read-loaded, ide_write-written}
use os_elephant.Fs.{Inode, put_bytes}
use os_elephant.Blocks.{Volume, new_block}
use os_elephant.Blocks.Bits.{IsVolume, blocks, used, new_block-Marked}
use os_elephant.Dir.{
  clear, entry_file_type, free_entry, put_first, put_entry, grow, sync_blocks, sync_dir_entry,
}
use os_elephant.Dir.Search.{sector}

-- The address of a block of the volume.
abbrev pub InData : Volume → ℕ → Type 0
InData v lba = (v.part.sbk.data_start_lba ≤ lba) × (lba < v.part.sbk.data_start_lba + blocks v)

-- A directory without an indirect table on a consistent volume whose blocks lie behind its bitmap.
pub record IsDir (v : Volume) (dir : Inode) : Type 0 where
  pub volume : IsVolume v
  pub entry_size : v.part.sbk.directory_entry_size ≡ 24
  pub whole : dir.inode_size % 24 ≡ 0
  pub apart :
      v.part.sbk.block_bitmap_lba + v.part.block_bitmap.bytes_len / 512 < v.part.sbk.data_start_lba
  pub inside : v.part.sbk.data_start_lba + blocks v ≤ max_lba + 1
  pub direct : (b : ℕ) → b < 12 → dir.inode_blocks b ≢ 0 → InData v (dir.inode_blocks b)
  pub no_table : dir.inode_blocks 12 ≡ 0

-- The entry stands at number `i` of block `b`, and all other bytes of the volume's blocks are as
-- before, or 0 in a block that is new.
pub record Placed (v : Volume) (dir : Inode) (p_de : Buffer) (after : Inode) (w : Volume) (b i : ℕ)
    : Type 0 where
  pub direct : b < 12
  pub entry_in : i < 21
  pub in_data : InData v (after.inode_blocks b)
  pub entry : (k : ℕ) → k < 24 → w.disk.sectors (after.inode_blocks b) (i * 24 + k) ≡ p_de k
  pub kept :
      ((dir.inode_blocks b ≡ 0)
        × ((o : ℕ)
            → o < 512
            → (o < i * 24) ⊎ (i * 24 + 24 ≤ o)
            → w.disk.sectors (after.inode_blocks b) o ≡ 0))
      ⊎ ((dir.inode_blocks b ≡ after.inode_blocks b)
          × ((o : ℕ)
              → o < 512
              → (o < i * 24) ⊎ (i * 24 + 24 ≤ o)
              → w.disk.sectors (after.inode_blocks b) o ≡ v.disk.sectors (after.inode_blocks b) o))
  pub elsewhere :
      (l o : ℕ)
      → v.part.sbk.data_start_lba ≤ l
      → l ≢ after.inode_blocks b
      → w.disk.sectors l o ≡ v.disk.sectors l o
  pub other_blocks : (j : ℕ) → j ≢ b → after.inode_blocks j ≡ dir.inode_blocks j
  pub size : after.inode_size ≡ (dir.inode_size + 24) % 2 ^ 32
  pub answers : Answers w.disk
  pub same_sbk : w.part.sbk ≡ v.part.sbk

-- An entry that is not in use.
abbrev FreeEntry : Buffer → (lo left : ℕ) → Option ℕ → Type 0
FreeEntry buf lo left none = (i : ℕ) → lo ≤ i → i < lo + left → entry_file_type buf (i * 24) ≢ 0
FreeEntry buf lo left (some at) =
    (i : ℕ) × (at ≡ i * 24) × (i < lo + left) × (entry_file_type buf (i * 24) ≡ 0)

FreeEntry-cons :
    (buf : Buffer) (lo left : ℕ) (o : Option ℕ)
    → entry_file_type buf (lo * 24) ≢ 0
    → FreeEntry buf (lo + 1) left o
    → FreeEntry buf lo (suc left) o
FreeEntry-cons buf lo left none here f = λ i low high. elim (ℕ_discrete i lo) [
  | yes same ↦ subst (λ x. entry_file_type buf (x * 24) ≢ 0) (sym same) here
  | no more ↦ f i (omega arith) (omega arith)
]
FreeEntry-cons buf lo left (some at) here f = let (i, e, lt, free) = f in (i, e, omega arith, free)

free_entry-FreeEntry : (left lo : ℕ) (buf : Buffer) → FreeEntry buf lo left (free_entry left lo buf)
unfolding free_entry
free_entry-FreeEntry zero lo buf = λ i low high. absurd (omega arith)
free_entry-FreeEntry (suc left) lo buf = elim (Bool-cases (entry_file_type buf (lo * 24) == 0)) [
  | inl free ↦ rw free (lo, refl, omega arith, ground arith)
  | inr taken ↦ rw taken (
      FreeEntry-cons buf lo left (free_entry left (lo + 1) buf) (ground arith)
        (free_entry-FreeEntry left (lo + 1) buf))
]

-- An entry of a block that the directory has.
put_entry-Placed :
    (v : Volume) (dir : Inode) (p_de : Buffer) (b i : ℕ)
    → IsDir v dir
    → b < 12
    → dir.inode_blocks b ≢ 0
    → i < 21
    → (after : Inode) × (w : Volume) × (put_entry
          (dir.inode_blocks b)
          (sector v.disk (dir.inode_blocks b))
          p_de
          dir
          v
          (i * 24)
        ≡ ok (true, after, w))
      × Placed v dir p_de after w b i
unfolding put_entry
put_entry-Placed v dir p_de b i is low filled lt =
    let (first, last) = is.direct b low filled in
    let lba = dir.inode_blocks b in
    let buf = put_bytes (sector v.disk lba) (i * 24) 24 p_de in
    (
      record dir { inode_size = (dir.inode_size + 24) % 2 ^ 32 },
      record v { disk = written buf lba 1 v.disk },
      rw
          (
            is.entry_size,
            ide_write-written v.disk lba 1 buf is.volume.answers (omega arith)
                (omega (arith, is.inside)),
          )
          refl,
      record {
        direct = low;
        entry_in = lt;
        in_data = (first, last);
        entry = λ k small. ground arith;
        kept = inr (refl, λ o inside out. ground (arith, out));
        elsewhere = λ l o behind other. ground (arith, other);
        other_blocks = λ j ne. refl;
        size = refl;
        answers = is.volume.answers;
        same_sbk = refl;
      },
    )

-- A new block for the directory, with the entry at its start.
new_block-Placed :
    (v : Volume) (dir : Inode) (p_de : Buffer) (all_blocks : ℕ → ℕ) (b free : ℕ)
    → IsDir v dir
    → b < 12
    → dir.inode_blocks b ≡ 0
    → free < blocks v
    → used v free ≡ false
    → 0 < v.part.sbk.data_start_lba
    → (after : Inode) × (w : Volume) × ((new_block v >>= grow b all_blocks p_de dir)
        ≡ ok (true, after, w))
      × Placed v dir p_de after w b 0
unfolding grow put_first
new_block-Placed v dir p_de all_blocks b free is low empty lt off pos =
    let (block, between, run, below, clear_bit, on, marked) =
      new_block-Marked v free is.volume lt off in
    let lba = v.part.sbk.data_start_lba + block in
    let buf : Buffer = put_bytes clear 0 24 p_de in
    let direct : ltb b 12 ≡ true = ground arith in
    let entry_size : between.part.sbk.directory_entry_size ≡ 24 =
      ap (λ s. s.directory_entry_size) marked.same_sbk ∙ is.entry_size in
    let self : (b == b) ≡ true = ground arith in
    (
      record dir {
        inode_blocks = update dir.inode_blocks b lba;
        inode_size = (dir.inode_size + 24) % 2 ^ 32;
      },
      record between { disk = written buf lba 1 between.disk },
      rw
          (
            run,
            direct,
            entry_size,
            ide_write-written between.disk lba 1 buf marked.volume.answers (omega arith)
                (omega (arith, is.inside)),
          )
          refl,
      record {
        direct = low;
        entry_in = omega arith;
        in_data = rw self (omega arith, omega arith);
        entry = λ k small. rw self (ground arith);
        kept = inl (empty, λ o inside out. rw self (ground (arith, out)));
        elsewhere = λ l o behind other.
            ground (arith, other, marked.outside l o (inr (omega (arith, is.apart))));
        other_blocks = λ j ne. ground (arith, ne);
        size = refl;
        answers = marked.volume.answers;
        same_sbk = marked.same_sbk;
      },
    )

-- One block that the directory has, by the free entry that is found in it.
in_block :
    (left lo z : ℕ) (v : Volume) (dir : Inode) (all_blocks : ℕ → ℕ) (p_de : Buffer) (hit : Option ℕ)
    → IsDir v dir
    → lo < 12
    → all_blocks lo ≡ dir.inode_blocks lo
    → dir.inode_blocks lo ≢ 0
    → free_entry 21 0 (sector v.disk (dir.inode_blocks lo)) ≡ hit
    → FreeEntry (sector v.disk (dir.inode_blocks lo)) 0 21 hit
    → ((after : Inode) × (w : Volume) × (b i : ℕ) × (sync_blocks left (lo + 1) all_blocks p_de dir v
          ≡ ok (true, after, w))
        × Placed v dir p_de after w b i)
    → (after : Inode) × (w : Volume) × (b i : ℕ) × (sync_blocks (suc left) lo all_blocks p_de dir v
        ≡ ok (true, after, w))
      × Placed v dir p_de after w b i
unfolding sync_blocks
in_block left lo z v dir all_blocks p_de none is low at filled e f rest =
    let (after, w, b, i, run, placed) = rest in
    let per : 512 / v.part.sbk.directory_entry_size ≡ 21 = ap (λ s. 512 / s) is.entry_size in
    let some_block : (dir.inode_blocks lo == 0) ≡ false = ground (arith, filled) in
    let (first, last) = is.direct lo low filled in
    (
      after,
      w,
      b,
      i,
      rw
          (
            at,
            some_block,
            ide_read-loaded v.disk (dir.inode_blocks lo) 1 clear is.volume.answers (omega arith)
                (omega (arith, is.inside)),
            per,
            e,
          )
          run,
      placed,
    )
in_block left lo z v dir all_blocks p_de (some offset) is low at filled e f rest =
    let (i, same, lt, free) = f in
    let (after, w, run, placed) = put_entry-Placed v dir p_de lo i is low filled (omega arith) in
    let at_offset =
      subst
        (λ x.
          put_entry (dir.inode_blocks lo) (sector v.disk (dir.inode_blocks lo)) p_de dir v x
          ≡ ok (true, after, w))
        (sym same) run in
    let per : 512 / v.part.sbk.directory_entry_size ≡ 21 = ap (λ s. 512 / s) is.entry_size in
    let some_block : (dir.inode_blocks lo == 0) ≡ false = ground (arith, filled) in
    let (first, last) = is.direct lo low filled in
    (
      after,
      w,
      lo,
      i,
      rw
          (
            at,
            some_block,
            ide_read-loaded v.disk (dir.inode_blocks lo) 1 clear is.volume.answers (omega arith)
                (omega (arith, is.inside)),
            per,
            e,
          )
          at_offset,
      placed,
    )

sync_blocks-Placed :
    (left lo z free : ℕ) (v : Volume) (dir : Inode) (p_de : Buffer)
    → IsDir v dir
    → lo ≤ z
    → z < 12
    → z < lo + left
    → dir.inode_blocks z ≡ 0
    → free < blocks v
    → used v free ≡ false
    → 0 < v.part.sbk.data_start_lba
    → (after : Inode) × (w : Volume) × (b i : ℕ) × (sync_blocks left lo
          (λ j. if ltb j 12 then dir.inode_blocks j else 0)
          p_de
          dir
          v
        ≡ ok (true, after, w))
      × Placed v dir p_de after w b i
unfolding sync_blocks
sync_blocks-Placed zero lo z free v dir p_de is le low lt empty below off pos = absurd (omega arith)
sync_blocks-Placed (suc left) lo z free v dir p_de is le low lt empty below off pos =
    let all_blocks : ℕ → ℕ = λ j. if ltb j 12 then dir.inode_blocks j else 0 in
    let at : all_blocks lo ≡ dir.inode_blocks lo = ground arith in
    elim (ℕ_discrete (dir.inode_blocks lo) 0) [
      | yes none_here ↦
          let (after, w, run, placed) =
            new_block-Placed v dir p_de all_blocks lo free is (omega arith) none_here below off
              pos in
          let no_block : (all_blocks lo == 0) ≡ true = ground arith in
          (after, w, lo, 0, rw no_block run, placed)
      | no filled ↦
          in_block left lo z v dir all_blocks p_de
            (free_entry 21 0 (sector v.disk (dir.inode_blocks lo))) is (omega arith) at filled refl
            (free_entry-FreeEntry 21 0 (sector v.disk (dir.inode_blocks lo)))
            (sync_blocks-Placed left (lo + 1) z free v dir p_de is
              (elim (ℕ_discrete lo z) [
                | yes same ↦ absurd (filled (ap dir.inode_blocks same ∙ empty))
                | no more ↦ omega arith
              ])
              low (omega arith) empty below off pos)
    ]

pub sync_dir_entry-Placed :
    (v : Volume) (dir : Inode) (p_de : Buffer) (z free : ℕ)
    → IsDir v dir
    → z < 12
    → dir.inode_blocks z ≡ 0
    → free < blocks v
    → used v free ≡ false
    → 0 < v.part.sbk.data_start_lba
    → (after : Inode) × (w : Volume) × (b i : ℕ) × (sync_dir_entry p_de dir v ≡ ok (true, after, w))
      × Placed v dir p_de after w b i
unfolding sync_dir_entry
sync_dir_entry-Placed v dir p_de z free is low empty below off pos =
    let (after, w, b, i, run, placed) =
      sync_blocks-Placed 140 0 z free v dir p_de is (omega arith) low (omega arith) empty below off
        pos in
    let whole : (dir.inode_size % 24 == 0) ≡ true = ground (arith, is.whole) in
    let exact = subst (λ s. (dir.inode_size % s == 0) ≡ true) (sym is.entry_size) whole in
    (after, w, b, i, rw exact run, placed)
