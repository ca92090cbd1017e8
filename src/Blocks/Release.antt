-- ===== src/Blocks/Release.antt =====
-- The blocks of an inode that `inode_release` gives back.
use os_elephant.Base.{
  ℕ, zero, suc, ◌+◌, ◌-◌, ◌*◌, ◌<◌, ◌≤◌, ◌≡◌, ◌≢◌, inl, inr, refl, ap, ◌∙◌, fun_ext, subst, Bool,
  true, false, not, ◌&&◌, ◌||◌, some, ◌==◌, ltb, if◌then◌else◌, ok, arith, Bool-cases,
}
use os_elephant.Ide.{Disk, max_lba}
use os_elephant.Ide.Transfer.{Answers, loaded, ide_read-loaded}
use os_elephant.Fs.{Inode, word_at}
use os_elephant.Blocks.{Volume, new_block, free_block, collect_blocks, release_blocks}
use os_elephant.Blocks.Bits.{IsVolume, blocks, used, new_block-Marked, free_block-Marked}

-- On a consistent volume whose block 0 is in use and that has a free block, the allocation of a
-- block with its `bitmap_sync` returns a block, and giving that block back returns, with every bit
-- of the bitmap as it was; the bitmap on the disk is the one in memory after each of the two.
pub free_block-new_block :
    (v : Volume) (i : ℕ)
    → IsVolume v
    → used v 0 ≡ true
    → i < blocks v
    → used v i ≡ false
    → (block_lba : ℕ) × (between after : Volume) × (new_block v ≡ ok (some block_lba, between))
      × (free_block block_lba between ≡ ok after)
      × IsVolume between
      × IsVolume after
      × ((k : ℕ) → used after k ≡ used v k)
free_block-new_block v i vol root lt free =
    let (block, between, run, below, off, on, marked) = new_block-Marked v i vol lt free in
    let pos : 0 < block = ground (arith, off, root) in
    let inside : block < blocks between = ground (arith, marked.same_size, below) in
    let (after, back, again) = free_block-Marked between block marked.volume pos inside in
    let start : between.part.sbk.data_start_lba ≡ v.part.sbk.data_start_lba =
      ap (λ s. s.data_start_lba) marked.same_sbk in
    (
      v.part.sbk.data_start_lba + block,
      between,
      after,
      run,
      subst (λ s. free_block (s + block) between ≡ ok after) start back,
      marked.volume,
      again.volume,
      λ k. ground (arith, again.bits k, marked.bits k, off),
    )

-- The address of block `i` of an inode: 0 where there is none.
abbrev pub block_of : Disk → Inode → ℕ → ℕ
block_of d inode i =
    if ltb i 12
    then inode.inode_blocks i
    else if inode.inode_blocks 12 == 0
    then 0
    else word_at (loaded d (inode.inode_blocks 12) 1 (λ q. 0)) (4 * (i - 12))

pub collect_blocks-block_of :
    (d : Disk) (inode : Inode)
    → Answers d
    → inode.inode_blocks 12 ≤ max_lba
    → collect_blocks d inode ≡ ok (block_of d inode)
unfolding collect_blocks
collect_blocks-block_of d inode ready within = elim (Bool-cases (inode.inode_blocks 12 == 0)) [
  | inl clear ↦ rw clear (ap ok (fun_ext λ i. ground (arith, clear)))
  | inr table ↦
      rw
        (
          table,
          ide_read-loaded d (inode.inode_blocks 12) 1 (λ q. 0) ready (omega arith) (omega arith),
        )
        (ap ok (fun_ext λ i. ground (arith, table)))
]

-- Whether block `k`, counted from sector `start`, is among the next `left` addresses.
abbrev pub listed : (start : ℕ) → (ℕ → ℕ) → (left i k : ℕ) → Bool
listed start all_blocks zero i k = false
listed start all_blocks (suc left) i k =
    (all_blocks i == start + k) || listed start all_blocks left (i + 1) k

-- An address that is 0, or that of a block other than the first, of `size` blocks from `start` on.
abbrev pub IsBlock : (start size lba : ℕ) → Type 0
IsBlock start size lba = lba ≢ 0 → (start < lba) × (lba < start + size)

-- What releasing leaves: the blocks that are gone are free, the others as before.
pub record Released (v : Volume) (gone : ℕ → Bool) (after : Volume) : Type 0 where
  pub volume : IsVolume after
  pub bits : (k : ℕ) → used after k ≡ (used v k && not (gone k))
  pub same_sbk : after.part.sbk ≡ v.part.sbk
  pub same_size : blocks after ≡ blocks v
  pub same_inodes : after.part.inode_bitmap ≡ v.part.inode_bitmap

module _ (start size : ℕ) (pos : 0 < start) where
  pub release_one :
      (v : Volume) (lba : ℕ)
      → v.part.sbk.data_start_lba ≡ start
      → blocks v ≡ size
      → IsVolume v
      → IsBlock start size lba
      → (after : Volume) × ((if lba == 0 then ok v else free_block lba v) ≡ ok after)
        × Released v (λ k. lba == start + k) after
  release_one v lba at_start has_size vol is = elim (Bool-cases (lba == 0)) [
    | inl clear ↦ (
      v,
      rw clear refl,
      record {
        volume = vol;
        bits = λ k. ground arith;
        same_sbk = refl;
        same_size = refl;
        same_inodes = refl;
      },
    )
    | inr filled ↦
        let (low, high) = is (ground arith) in
        let at : v.part.sbk.data_start_lba + (lba - start) ≡ lba = omega arith in
        let (after, run, marked) =
          free_block-Marked v (lba - start) vol (omega arith) (omega arith) in
        (
          after,
          rw filled (subst (λ l. free_block l v ≡ ok after) at run),
          record {
            volume = marked.volume;
            bits = λ k. ground (arith, marked.bits k);
            same_sbk = marked.same_sbk;
            same_size = marked.same_size;
            same_inodes = marked.same_inodes;
          },
        )
  ]

  pub Released-then :
      {v between after : Volume} (first second : ℕ → Bool)
      → Released v first between
      → Released between second after
      → Released v (λ k. first k || second k) after
  Released-then first second a b = record {
    volume = b.volume;
    bits = λ k. ground (arith, a.bits k, b.bits k);
    same_sbk = b.same_sbk ∙ a.same_sbk;
    same_size = b.same_size ∙ a.same_size;
    same_inodes = b.same_inodes ∙ a.same_inodes;
  }

  -- In a consistent volume, the loop over `left` addresses that are 0 or those of blocks other than
  -- the first returns; the blocks of those addresses are then free and all others as before, and
  -- the bitmap on the disk is the one in memory.
  pub release_blocks-Released :
      (left i : ℕ) (all_blocks : ℕ → ℕ) (v : Volume)
      → v.part.sbk.data_start_lba ≡ start
      → blocks v ≡ size
      → IsVolume v
      → ((j : ℕ) → IsBlock start size (all_blocks j))
      → (after : Volume) × (release_blocks left i all_blocks v ≡ ok after)
        × Released v (listed start all_blocks left i) after
  unfolding release_blocks
  release_blocks-Released zero i all_blocks v at_start has_size vol is = (
    v,
    refl,
    record {
      volume = vol;
      bits = λ k. ground arith;
      same_sbk = refl;
      same_size = refl;
      same_inodes = refl;
    },
  )
  release_blocks-Released (suc left) i all_blocks v at_start has_size vol is =
      let (next, run, one) = release_one v (all_blocks i) at_start has_size vol (is i) in
      let (after, runs, rest) =
        release_blocks-Released left (i + 1) all_blocks next
          (ap (λ s. s.data_start_lba) one.same_sbk ∙ at_start) (one.same_size ∙ has_size) one.volume
          is in
      (
        after,
        rw run runs,
        Released-then (λ k. all_blocks i == start + k) (listed start all_blocks left (i + 1)) one
            rest,
      )
