-- ===== src/Blocks.antt =====
-- fs/c14c_file.c and fs/c14c_inode.c: the two bitmaps of a partition, in memory and on the disk, and
-- the blocks that files and directories get from them and give back. `-1` is `none`.
pub mod Bits
pub mod Release
pub mod Inodes
mod Tests
use os_elephant.Base.{
  ℕ, zero, suc, ◌+◌, ◌-◌, ◌*◌, ◌/◌, ◌%◌, ◌^◌, Bool, true, false, Option, none, some, ◌==◌, ltb,
  if◌then◌else◌, Outcome, ok, ◌>>=◌, ◌>>◌, assert,
}
use os_elephant.Bitmap
use os_elephant.Bitmap.{Bitmap}
use os_elephant.Ide.{Disk, Buffer, ide_read, ide_write}
use os_elephant.Fs.{SuperBlock, Partition, Inode, word_at}
use os_elephant.Inode.{u32, OpenInodes, inode_open, inode_close, inode_delete}

-- `current_part`, and what its disk holds.
pub record Volume : Type 0 where
  pub part : Partition
  pub disk : Disk

pub data BitmapType : Type 0 where
  of_inodes : BitmapType
  of_blocks : BitmapType

abbrev pub bitmap_of : BitmapType → Partition → Bitmap
bitmap_of of_inodes part = part.inode_bitmap
bitmap_of of_blocks part = part.block_bitmap

abbrev pub bitmap_lba : BitmapType → Partition → ℕ
bitmap_lba of_inodes part = part.sbk.inode_bitmap_lba
bitmap_lba of_blocks part = part.sbk.block_bitmap_lba

-- `bitmap_set` in one of the bitmaps.
abbrev pub mark : BitmapType → ℕ → Bool → Volume → Volume
mark of_inodes bit_index value v = record v {
  part = record (v.part) { inode_bitmap = Bitmap.set v.part.inode_bitmap bit_index value };
}
mark of_blocks bit_index value v = record v {
  part = record (v.part) { block_bitmap = Bitmap.set v.part.block_bitmap bit_index value };
}

-- From the answer of `bitmap_scan` on.
pub inode_allocated : Volume → Option ℕ → Option ℕ × Volume
inode_allocated v none = (none, v)
inode_allocated v (some bit_index) = (some bit_index, mark of_inodes bit_index true v)

unfoldable pub block_allocated : Volume → Option ℕ → Option ℕ × Volume
block_allocated v none = (none, v)
block_allocated v (some bit_index) =
    (some (u32 (v.part.sbk.data_start_lba + bit_index)), mark of_blocks bit_index true v)

unfoldable pub inode_bitmap_alloc : Volume → Outcome (Option ℕ × Volume)
inode_bitmap_alloc v = do
  bit_index ← Bitmap.scan v.part.inode_bitmap 1
  ok (inode_allocated v bit_index)

unfoldable pub block_bitmap_alloc : Volume → Outcome (Option ℕ × Volume)
block_bitmap_alloc v = do
  bit_index ← Bitmap.scan v.part.block_bitmap 1
  ok (block_allocated v bit_index)

unfoldable pub bitmap_sync : BitmapType → ℕ → Volume → Outcome Volume
bitmap_sync bitmap_type bit_index v = do
  let offset_sector = bit_index / 4096
  let sector_lba = u32 (bitmap_lba bitmap_type v.part + offset_sector)
  disk ←
      ide_write v.disk sector_lba
        (λ q. (bitmap_of bitmap_type v.part).bits (offset_sector * 512 + q)) 1
  ok (record v { disk = disk })

-- The index of a block in the bitmap.
abbrev pub block_bitmap_idx : Volume → ℕ → ℕ
block_bitmap_idx v block_lba = u32 (block_lba + 2 ^ 32 - v.part.sbk.data_start_lba)

pub synced : Option ℕ × Volume → Outcome (Option ℕ × Volume)
synced (none, v) = ok (none, v)
synced (some block_lba, v) = do
  after ← bitmap_sync of_blocks (block_bitmap_idx v block_lba) v
  ok (some block_lba, after)

-- A block is allocated, and the bitmap written to the disk where there was one.
unfoldable pub new_block : Volume → Outcome (Option ℕ × Volume)
new_block v = block_bitmap_alloc v >>= synced

-- A block is given back.
unfoldable pub free_block : ℕ → Volume → Outcome Volume
free_block block_lba v = do
  let idx = block_bitmap_idx v block_lba
  assert (ltb 0 idx)
  bitmap_sync of_blocks idx (mark of_blocks idx false v)

-- The addresses of the blocks of an inode, in an array that `sys_malloc` or `= {0}` has cleared: 12
-- that the inode holds, then those of the table that it points to.
unfoldable pub collect_blocks : Disk → Inode → Outcome (ℕ → ℕ)
collect_blocks d inode =
    if inode.inode_blocks 12 == 0
    then ok (λ i. if ltb i 12 then inode.inode_blocks i else 0)
    else do
      table ← ide_read d (inode.inode_blocks 12) (λ q. 0) 1
      ok (λ i. if ltb i 12 then inode.inode_blocks i else word_at table (4 * (i - 12)))

-- The loop of `inode_release` over the blocks.
pub release_blocks : (left block_idx : ℕ) → (ℕ → ℕ) → Volume → Outcome Volume
release_blocks zero block_idx all_blocks v = ok v
release_blocks (suc left) block_idx all_blocks v = do
  after ← if all_blocks block_idx == 0 then ok v else free_block (all_blocks block_idx) v
  release_blocks left (block_idx + 1) all_blocks after

-- `new` is the address that `sys_malloc` returns where the inode is not open.
unfoldable pub inode_release :
    (inode_no new : ℕ) → OpenInodes → Volume → Outcome (OpenInodes × Volume)
inode_release inode_no new s v = do
  opened ← inode_open v.part inode_no new (λ q. 0) v.disk s
  let inode = opened.1.inodes opened.0
  assert (inode.inode_id == inode_no)
  all_blocks ← collect_blocks v.disk inode
  v1 ← if inode.inode_blocks 12 == 0 then ok v else free_block (inode.inode_blocks 12) v
  v2 ← release_blocks (if inode.inode_blocks 12 == 0 then 12 else 140) 0 all_blocks v1
  v3 ← bitmap_sync of_inodes inode_no (mark of_inodes inode_no false v2)
  disk ← inode_delete v.part inode_no (λ q. 0) v3.disk
  ok (inode_close opened.0 opened.1, record v3 { disk = disk })
