-- ===== src/Blocks/Inodes.antt =====
-- `inode_release`: all that an inode has is given back.
use os_elephant.Base.{
  ℕ, ◌+◌, ◌*◌, ◌/◌, ◌%◌, ◌^◌, ◌<◌, ◌≤◌, ◌≡◌, refl, sym, ap, ◌∙◌, subst, true, false, not, ◌&&◌,
  ◌||◌, ◌==◌, if◌then◌else◌, ok, arith,
}
use os_elephant.Bitmap
use os_elephant.Bitmap.{Bitmap, scan_bit}
use os_elephant.Bitmap.Bits.{IsValid, scan_bit-set}
use os_elephant.Ide.{Disk, max_lba}
use os_elephant.Ide.Transfer.{Answers, written, ide_write-written}
use os_elephant.Fs.{Inode, Partition}
use os_elephant.Inode.{OpenInodes, inode_open, inode_close}
use os_elephant.Inode.Table.{HasTable, inode_delete-Slot}
use os_elephant.Blocks.{Volume, of_inodes, mark, bitmap_sync, inode_release}
use os_elephant.Blocks.Bits.{IsVolume, blocks, used}
use os_elephant.Blocks.Release.{
  IsBlock, listed, block_of, collect_blocks-block_of, release_one, Released-then,
  release_blocks-Released,
}

-- The areas of the disk in their order: block bitmap, inode bitmap of one sector, inode table.
pub record InOrder (part : Partition) : Type 0 where
  pub first :
      part.sbk.block_bitmap_lba + part.block_bitmap.bytes_len / 512 < part.sbk.inode_bitmap_lba
  pub second : part.sbk.inode_bitmap_lba < part.sbk.inode_table_lba
  pub table : HasTable part
  pub valid : IsValid part.inode_bitmap

-- A write behind the block bitmap keeps the volume consistent.
pub IsVolume-behind :
    (v : Volume) (d : Disk)
    → IsVolume v
    → Answers d
    → ((l o : ℕ)
        → l ≤ v.part.sbk.block_bitmap_lba + v.part.block_bitmap.bytes_len / 512
        → d.sectors l o ≡ v.disk.sectors l o)
    → IsVolume (record v { disk = d })
IsVolume-behind v d vol ready same = record {
  answers = ready;
  valid = vol.valid;
  within = vol.within;
  small = vol.small;
  on_disk = λ i lt.
      same (v.part.sbk.block_bitmap_lba + i / 512) (i % 512) (omega arith) ∙ vol.on_disk i lt;
}

-- The bit of an inode is cleared, in memory and on the disk.
abbrev cleared : ℕ → Volume → Volume
cleared id v = record (mark of_inodes id false v) {
  disk =
      written (λ q. (Bitmap.set v.part.inode_bitmap id false).bits (id / 4096 * 512 + q))
        (v.part.sbk.inode_bitmap_lba + id / 4096) 1 v.disk;
}

bitmap_sync-cleared :
    (v : Volume) (id : ℕ)
    → IsVolume v
    → id < 4096
    → v.part.sbk.block_bitmap_lba + v.part.block_bitmap.bytes_len / 512
      < v.part.sbk.inode_bitmap_lba
    → v.part.sbk.inode_bitmap_lba ≤ max_lba
    → (bitmap_sync of_inodes id (mark of_inodes id false v) ≡ ok (cleared id v))
      × IsVolume (cleared id v)
unfolding bitmap_sync
bitmap_sync-cleared v id vol lt behind within =
    let lba : (v.part.sbk.inode_bitmap_lba + id / 4096) % 2 ^ 32
        ≡ v.part.sbk.inode_bitmap_lba + id / 4096 =
      omega arith in
    let buf : ℕ → ℕ = λ q. (Bitmap.set v.part.inode_bitmap id false).bits (id / 4096 * 512 + q) in
    (
      rw
          (
            lba,
            ide_write-written v.disk (v.part.sbk.inode_bitmap_lba + id / 4096) 1 buf vol.answers
                (omega arith) (omega arith),
          )
          refl,
      record {
        answers = vol.answers;
        valid = vol.valid;
        within = vol.within;
        small = vol.small;
        on_disk = λ i h. ground (arith, vol.on_disk i h);
      },
    )

-- What `inode_release` leaves.
pub record Gone (v : Volume) (inode : Inode) (id : ℕ) (after : Volume) : Type 0 where
  pub volume : IsVolume after
  pub blocks_free :
      (k : ℕ)
      → used after k ≡ (
          used v k
          && not (
              inode.inode_blocks 12 == v.part.sbk.data_start_lba + k
              || listed v.part.sbk.data_start_lba
                  (block_of v.disk inode)
                  (if inode.inode_blocks 12 == 0 then 12 else 140)
                  0
                  k))
  pub inode_free :
      (k : ℕ)
      → scan_bit after.part.inode_bitmap k
        ≡ (if k == id then false else scan_bit v.part.inode_bitmap k)

-- On a consistent volume whose block bitmap, inode bitmap and inode table lie in that order,
-- `inode_release` of an inode that `inode_open` opens, with the number asked for and with blocks
-- that are 0 or in the data area behind its first block, returns: the blocks of the inode and its
-- table are then free and all others as before, its number is free and all others as before, and
-- the block bitmap on the disk is the one in memory.
pub inode_release-Gone :
    (v : Volume) (s opened : OpenInodes) (id new p : ℕ)
    → IsVolume v
    → InOrder v.part
    → 0 < v.part.sbk.data_start_lba
    → id < 4096
    → inode_open v.part id new (λ q. 0) v.disk s ≡ ok (p, opened)
    → (opened.inodes p).inode_id ≡ id
    → (opened.inodes p).inode_blocks 12 ≤ max_lba
    → IsBlock v.part.sbk.data_start_lba (blocks v) ((opened.inodes p).inode_blocks 12)
    → ((i : ℕ) → IsBlock v.part.sbk.data_start_lba (blocks v) (block_of v.disk (opened.inodes p) i))
    → (after : Volume) × (inode_release id new s v ≡ ok (inode_close p opened, after))
      × Gone v (opened.inodes p) id after
unfolding inode_release
inode_release-Gone v s opened id new p vol order pos lt run number within table each =
    let inode = opened.inodes p in
    let start = v.part.sbk.data_start_lba in
    let left = if inode.inode_blocks 12 == 0 then 12 else 140 in
    let gathers = collect_blocks-block_of v.disk inode vol.answers within in
    let all_blocks = block_of v.disk inode in
    let (v1, run1, r1) =
      release_one start (blocks v) pos v (inode.inode_blocks 12) refl refl vol table in
    let (v2, run2, r2) =
      release_blocks-Released start (blocks v) pos left 0 all_blocks v1
        (ap (λ b. b.data_start_lba) r1.same_sbk) r1.same_size r1.volume each in
    let r =
      Released-then start (blocks v) pos (λ k. inode.inode_blocks 12 == start + k)
        (listed start all_blocks left 0) r1 r2 in
    let bits_at : v2.part.sbk.block_bitmap_lba ≡ v.part.sbk.block_bitmap_lba =
      ap (λ b. b.block_bitmap_lba) r.same_sbk in
    let inodes_at : v2.part.sbk.inode_bitmap_lba ≡ v.part.sbk.inode_bitmap_lba =
      ap (λ b. b.inode_bitmap_lba) r.same_sbk in
    let (run3, vol3) =
      bitmap_sync-cleared v2 id r.volume lt (omega (arith, r.same_size, order.first))
        (omega (arith, order.second, order.table.within)) in
    let (d, run4, slot) =
      inode_delete-Slot v.part id (λ q. 0) (cleared id v2).disk order.table vol3.answers lt in
    let self : (inode.inode_id == id) ≡ true = ground (arith, number) in
    (
      record (cleared id v2) { disk = d },
      rw (run, self, gathers, run1, run2, run3, run4) refl,
      record {
        volume =
            IsVolume-behind (cleared id v2) d vol3 slot.answers
              (λ l o le. slot.before l o (omega (arith, r.same_size, order.first, order.second)));
        blocks_free = r.bits;
        inode_free = λ k.
            subst
              (λ b.
                scan_bit (Bitmap.set b id false) k
                ≡ (if k == id then false else scan_bit v.part.inode_bitmap k))
              (sym r.same_inodes) (scan_bit-set id k false order.valid);
      },
    )
