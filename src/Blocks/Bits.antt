-- ===== src/Blocks/Bits.antt =====
-- The block bitmap on the disk is the one in memory, through every allocation and release.
use native.Mathlib.Decide.{ℕ_discrete}
use os_elephant.Base.{
  ℕ, ◌+◌, ◌-◌, ◌*◌, ◌/◌, ◌%◌, ◌^◌, ◌<◌, ◌≤◌, ◌≡◌, ◌⊎◌, refl, Bool, true, false, ◌&&◌, some, ◌==◌,
  leb, ltb, if◌then◌else◌, ok, arith,
}
use os_elephant.Bitmap.{scan_bit, set}
use os_elephant.Bitmap.Bits.{IsValid, scan_bit-set, set-IsValid}
use os_elephant.Bitmap.Edge.{scan_one}
use os_elephant.Ide.{max_lba}
use os_elephant.Ide.Transfer.{Answers, written, ide_write-written}
use os_elephant.Blocks.{
  Volume, of_blocks, mark, block_allocated, block_bitmap_alloc, bitmap_sync, block_bitmap_idx,
  synced, new_block, free_block,
}

-- How many blocks the bitmap counts.
abbrev pub blocks : Volume → ℕ
blocks v = v.part.block_bitmap.bytes_len * 8

abbrev pub used : Volume → ℕ → Bool
used v = scan_bit v.part.block_bitmap

-- The drive answers, the bitmap is valid and lies within what the driver writes, the blocks have
-- addresses, and the disk holds the bytes of the bitmap.
pub record IsVolume (v : Volume) : Type 0 where
  pub answers : Answers v.disk
  pub valid : IsValid v.part.block_bitmap
  pub within : v.part.sbk.block_bitmap_lba + v.part.block_bitmap.bytes_len / 512 ≤ max_lba
  pub small : v.part.sbk.data_start_lba + blocks v < 2 ^ 32
  pub on_disk :
      (i : ℕ)
      → i < v.part.block_bitmap.bytes_len
      → v.disk.sectors (v.part.sbk.block_bitmap_lba + i / 512) (i % 512)
        ≡ v.part.block_bitmap.bits i

-- What an operation on the bit of one block leaves: the bit has the value, the others are as before,
-- the disk agrees, and no sector outside the bitmap is changed.
pub record Marked (v : Volume) (block : ℕ) (value : Bool) (after : Volume) : Type 0 where
  pub volume : IsVolume after
  pub bits : (k : ℕ) → used after k ≡ (if k == block then value else used v k)
  pub same_sbk : after.part.sbk ≡ v.part.sbk
  pub same_size : blocks after ≡ blocks v
  pub same_inodes : after.part.inode_bitmap ≡ v.part.inode_bitmap
  pub outside :
      (l o : ℕ)
      → (l < v.part.sbk.block_bitmap_lba)
        ⊎ (v.part.sbk.block_bitmap_lba + v.part.block_bitmap.bytes_len / 512 < l)
      → after.disk.sectors l o ≡ v.disk.sectors l o

abbrev after_mark : ℕ → Bool → Volume → Volume
after_mark block value v = record (mark of_blocks block value v) {
  disk =
      written (λ q. (set v.part.block_bitmap block value).bits (block / 4096 * 512 + q))
        (v.part.sbk.block_bitmap_lba + block / 4096) 1 v.disk;
}

after_mark-on_disk :
    (v : Volume) (block i : ℕ) (value : Bool)
    → IsVolume v
    → i < v.part.block_bitmap.bytes_len
    → (after_mark block value v).disk.sectors (v.part.sbk.block_bitmap_lba + i / 512) (i % 512)
      ≡ (set v.part.block_bitmap block value).bits i
unfolding set
after_mark-on_disk v block i value vol lt = elim (ℕ_discrete (i / 512) (block / 4096)) [
  | yes same ↦
      let at : block / 4096 * 512
            + ((v.part.sbk.block_bitmap_lba
                    + i / 512
                    - (v.part.sbk.block_bitmap_lba + block / 4096))
                  * 512
                + i % 512)
          ≡ i =
        omega arith in
      let here : (leb (v.part.sbk.block_bitmap_lba + block / 4096)
              (v.part.sbk.block_bitmap_lba + i / 512)
            && ltb (v.part.sbk.block_bitmap_lba + i / 512)
                (v.part.sbk.block_bitmap_lba + block / 4096 + 1)
            && ltb (i % 512) 512)
          ≡ true =
        ground arith in
      rw (here, at) refl
  | no other ↦ ground (arith, vol.on_disk i lt)
]

mark-Marked :
    (v : Volume) (block : ℕ) (value : Bool)
    → IsVolume v
    → block < blocks v
    → (bitmap_sync of_blocks block (mark of_blocks block value v) ≡ ok (after_mark block value v))
      × Marked v block value (after_mark block value v)
unfolding bitmap_sync
mark-Marked v block value vol lt =
    let lba : (v.part.sbk.block_bitmap_lba + block / 4096) % 2 ^ 32
        ≡ v.part.sbk.block_bitmap_lba + block / 4096 =
      omega (arith, vol.within) in
    (
      rw
          (
            lba,
            ide_write-written v.disk (v.part.sbk.block_bitmap_lba + block / 4096) 1
                (λ q. (set v.part.block_bitmap block value).bits (block / 4096 * 512 + q))
                vol.answers (omega arith) (omega (arith, vol.within)),
          )
          refl,
      record {
        volume = record {
          answers = vol.answers;
          valid = set-IsValid block value vol.valid;
          within = unfold set in vol.within;
          small = unfold set in vol.small;
          on_disk = λ i h. after_mark-on_disk v block i value vol (unfold set in h);
        };
        bits = λ k. scan_bit-set block k value vol.valid;
        same_sbk = refl;
        same_size = unfold set in refl;
        same_inodes = refl;
        outside = λ l o out. ground (arith, out);
      },
    )

-- The index of the address of a block.
block_bitmap_idx-block :
    (v : Volume) (block : ℕ)
    → v.part.sbk.data_start_lba + block < 2 ^ 32
    → block_bitmap_idx v (v.part.sbk.data_start_lba + block) ≡ block
block_bitmap_idx-block v block lt = omega arith

pub new_block-Marked :
    (v : Volume) (i : ℕ)
    → IsVolume v
    → i < blocks v
    → used v i ≡ false
    → (block : ℕ) × (after : Volume) × (new_block v
        ≡ ok (some (v.part.sbk.data_start_lba + block), after))
      × (block < blocks v)
      × (used v block ≡ false)
      × ((k : ℕ) → k < block → used v k ≡ true)
      × Marked v block true after
unfolding new_block block_bitmap_alloc block_allocated synced
new_block-Marked v i vol lt free =
    let (block, found, below, off, on) = scan_one vol.valid i lt free in
    let at : (v.part.sbk.data_start_lba + block) % 2 ^ 32 ≡ v.part.sbk.data_start_lba + block =
      omega (arith, vol.small) in
    let index = block_bitmap_idx-block v block (omega (arith, vol.small)) in
    let (run, marked) = mark-Marked v block true vol below in
    (block, after_mark block true v, rw (found, at, index, run) refl, below, off, on, marked)

pub free_block-Marked :
    (v : Volume) (block : ℕ)
    → IsVolume v
    → 0 < block
    → block < blocks v
    → (after : Volume) × (free_block (v.part.sbk.data_start_lba + block) v ≡ ok after)
      × Marked v block false after
unfolding free_block
free_block-Marked v block vol pos lt =
    let index = block_bitmap_idx-block v block (omega (arith, vol.small)) in
    let (run, marked) = mark-Marked v block false vol lt in
    let some_block : ltb 0 block ≡ true = ground arith in
    (after_mark block false v, rw (index, some_block, run) refl, marked)
