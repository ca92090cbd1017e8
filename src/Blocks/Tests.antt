-- ===== src/Blocks/Tests.antt =====
-- The blocks of the sample partition.
use os_elephant.Base.{
  ℕ, ◌+◌, ◌<◌, ◌≡◌, refl, true, false, if◌then◌else◌, [], ◌∷◌, ok, some, arith, ltb, update,
}
use os_elephant.Bitmap.{scan_bit}
use os_elephant.Fs.{Inode}
use os_elephant.Fs.Samples.{part, part_disk, inode_of, first_used}
use os_elephant.Inode.{OpenInodes, find_open, open_from, inode_open, inode_close}
use os_elephant.Blocks.{Volume, new_block, free_block, inode_release}
use os_elephant.Blocks.Bits.{IsVolume, used}
use os_elephant.Blocks.Release.{free_block-new_block}
use os_elephant.Blocks.Inodes.{InOrder, Gone, inode_release-Gone}

abbrev volume : Volume
volume = record { part = part; disk = part_disk }

first_used-small : (i : ℕ) → first_used i < 256
first_used-small i = ground arith

volume-IsVolume : IsVolume volume
volume-IsVolume = record {
  answers = λ lba. refl;
  valid = record { bytes = first_used-small; small = omega arith };
  within = omega arith;
  small = omega arith;
  on_disk = λ i lt. ground arith;
}

volume-used : (used volume 0 ≡ true) × (used volume 1 ≡ false)
unfolding scan_bit
volume-used = (refl, refl)

free_block-new_block_example :
    (block_lba : ℕ) × (between after : Volume) × (new_block volume ≡ ok (some block_lba, between))
    × (free_block block_lba between ≡ ok after)
    × IsVolume between
    × IsVolume after
    × ((k : ℕ) → used after k ≡ used volume k)
free_block-new_block_example =
    free_block-new_block volume 1 volume-IsVolume volume-used.0 (omega arith) volume-used.1

part-InOrder : InOrder part
part-InOrder = record {
  first = omega arith;
  second = omega arith;
  table = record { within = omega arith; inside = omega arith; small = omega arith };
  valid = record { bytes = first_used-small; small = omega arith };
}

-- Inode 13 is open at 5000, with blocks 0 to 2 at 901, 902 and 903.
abbrev small_inode : Inode
small_inode = record (inode_of 13) { inode_blocks = λ i. if ltb i 3 then i + 901 else 0 }

abbrev one_open : OpenInodes
one_open = record { inodes = λ p. small_inode; open_inodes = 5000 ∷ [] }

abbrev opened_again : OpenInodes
opened_again = record {
  inodes = update one_open.inodes 5000 (record small_inode { inode_open_count = 3 });
  open_inodes = 5000 ∷ [];
}

opens_again : inode_open part 13 6000 (λ q. 0) part_disk one_open ≡ ok (5000, opened_again)
unfolding inode_open find_open open_from
opens_again = refl

inode_release-Gone_example :
    (after : Volume) × (inode_release 13 6000 one_open volume
      ≡ ok (inode_close 5000 opened_again, after))
    × Gone volume (record small_inode { inode_open_count = 3 }) 13 after
inode_release-Gone_example =
    inode_release-Gone volume one_open opened_again 13 6000 5000 volume-IsVolume part-InOrder
      (omega arith) (omega arith) opens_again refl (omega arith) (λ ne. absurd (ne refl))
      (λ i ne. ground arith)
