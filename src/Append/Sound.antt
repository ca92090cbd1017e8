-- ===== src/Append/Sound.antt =====
-- Blocks are taken from a volume that has some, and their bits written to the disk.
use os_elephant.Base.{
  ℕ, ◌+◌, ◌*◌, ◌/◌, ◌%◌, ◌^◌, ◌<◌, ◌≤◌, ◌≡◌, refl, true, false, some, ◌==◌, if◌then◌else◌, ok,
  arith,
}
use os_elephant.Bitmap.{set}
use os_elephant.Bitmap.Bits.{IsValid, scan_bit-set, set-IsValid}
use os_elephant.Bitmap.Free.{HasFree, set-HasFree}
use os_elephant.Bitmap.Edge.{scan_one}
use os_elephant.Ide.{Disk, max_lba}
use os_elephant.Ide.Transfer.{Answers, written, ide_write-written}
use os_elephant.Blocks.{
  Volume, of_blocks, mark, block_allocated, block_bitmap_alloc, bitmap_sync, block_bitmap_idx,
}
use os_elephant.Blocks.Bits.{blocks, used}

-- The drive answers, the bitmap is valid and lies before the blocks, which have addresses that the
-- driver serves. Of the bitmap on the disk nothing is said.
pub record IsSound (v : Volume) : Type 0 where
  pub answers : Answers v.disk
  pub valid : IsValid v.part.block_bitmap
  pub apart :
      v.part.sbk.block_bitmap_lba + v.part.block_bitmap.bytes_len / 512 < v.part.sbk.data_start_lba
  pub inside : v.part.sbk.data_start_lba + blocks v ≤ max_lba + 1

-- `n` blocks that are free.
abbrev pub Free : Volume → ℕ → Type 0
Free v n = HasFree v.part.block_bitmap n

mark-IsSound : (v : Volume) (block : ℕ) → IsSound v → IsSound (mark of_blocks block true v)
unfolding set
mark-IsSound v block s = record {
  answers = s.answers;
  valid = unfold set in set-IsValid block true s.valid;
  apart = s.apart;
  inside = s.inside;
}

pub alloc-ok :
    (v : Volume) (n : ℕ)
    → IsSound v
    → Free v (n + 1)
    → (block : ℕ) × (block_bitmap_alloc v
        ≡ ok (some (v.part.sbk.data_start_lba + block), mark of_blocks block true v))
      × (block < blocks v)
      × (used v block ≡ false)
      × IsSound (mark of_blocks block true v)
      × Free (mark of_blocks block true v) n
      × ((k : ℕ) → used (mark of_blocks block true v) k ≡ (if k == block then true else used v k))
unfolding block_bitmap_alloc block_allocated
alloc-ok v n s f =
    let (block, found, below, off, on) =
      scan_one s.valid (f.at 0) (f.below 0 (omega arith)) (f.free 0 (omega arith)) in
    let at : (v.part.sbk.data_start_lba + block) % 2 ^ 32 ≡ v.part.sbk.data_start_lba + block =
      omega (arith, s.inside) in
    (
      block,
      rw (found, at) refl,
      below,
      off,
      mark-IsSound v block s,
      set-HasFree v.part.block_bitmap block n s.valid f,
      λ k. scan_bit-set block k true s.valid,
    )

-- The bit of a block goes to the disk, and no block's bytes change.
pub sync-ok :
    (v : Volume) (block : ℕ)
    → IsSound v
    → block < blocks v
    → (d : Disk) × (bitmap_sync of_blocks (block_bitmap_idx v (v.part.sbk.data_start_lba + block)) v
        ≡ ok (record v { disk = d }))
      × Answers d
      × ((l o : ℕ) → v.part.sbk.data_start_lba ≤ l → d.sectors l o ≡ v.disk.sectors l o)
unfolding bitmap_sync
sync-ok v block s lt =
    let index : block_bitmap_idx v (v.part.sbk.data_start_lba + block) ≡ block =
      omega (arith, s.inside) in
    let lba : (v.part.sbk.block_bitmap_lba + block / 4096) % 2 ^ 32
        ≡ v.part.sbk.block_bitmap_lba + block / 4096 =
      omega (arith, s.apart, s.inside) in
    let bits : ℕ → ℕ = λ q. v.part.block_bitmap.bits (block / 4096 * 512 + q) in
    (
      written bits (v.part.sbk.block_bitmap_lba + block / 4096) 1 v.disk,
      rw
          (
            index,
            lba,
            ide_write-written v.disk (v.part.sbk.block_bitmap_lba + block / 4096) 1 bits s.answers
                (omega arith) (omega (arith, s.apart, s.inside)),
          )
          refl,
      s.answers,
      λ l o le. ground (arith, s.apart),
    )
