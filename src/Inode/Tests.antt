-- ===== src/Inode/Tests.antt =====
-- The inode table of a sample partition, and two open inodes.
use os_elephant.Base.{
  ℕ, ◌+◌, ◌*◌, ◌^◌, ◌<◌, ◌≡◌, refl, false, not, ◌&&◌, ◌==◌, if◌then◌else◌, [], ◌∷◌, has, ok, arith,
}
use os_elephant.Ide.{Disk, Buffer}
use os_elephant.Ide.Transfer.{loaded, ide_read-loaded}
use os_elephant.Fs.{Inode, inode_bytes, inode_at, word_at}
use os_elephant.Inode.{
  pure_inode, inode_locate, inode_sync, inode_load, OpenInodes, inode_open, inode_close,
}
use os_elephant.Fs.Samples.{numbered, empty_disk, part, inode_of}
use os_elephant.Inode.Table.{
  HasTable, Same, Fits, table_byte, inode_load-inode_sync, inode_sync-misplaced,
}
use os_elephant.Inode.Cache.{IsCache, Opened, inode_open-Opened, inode_close-IsCache}

abbrev blank : Buffer
blank q = 0

part-HasTable : HasTable part
part-HasTable = record { within = omega arith; inside = omega arith; small = omega arith }

inode_of-Fits : (id : ℕ) → id < 2 ^ 32 → Fits (inode_of id)
inode_of-Fits id lt = record {
  inode_id = lt;
  inode_size = omega arith;
  inode_blocks = λ i small. omega arith;
}

inode_load-inode_sync_example :
    (after : Disk) × (read : Inode) × (inode_sync part (inode_of 13) blank numbered ≡ ok after)
    × (inode_load part 13 blank after ≡ ok read)
    × Same read (pure_inode (inode_of 13))
inode_load-inode_sync_example =
    inode_load-inode_sync part (inode_of 13) blank blank numbered part-HasTable (λ lba. refl)
      (inode_of-Fits 13 (omega arith)) (omega arith)

inode_sync-misplaced_example :
    (after : Disk) × (inode_sync part (inode_of 300) blank numbered ≡ ok after)
    × ((i : ℕ)
        → i < 76
        → table_byte part after (300 * 76 + i) ≡ table_byte part numbered (300 * 76 + i))
    × ((i : ℕ)
        → i < 76
        → table_byte part after (44 * 76 + i) ≡ inode_bytes (pure_inode (inode_of 300)) i)
inode_sync-misplaced_example =
    inode_sync-misplaced part (inode_of 300) blank numbered part-HasTable (λ lba. refl)
      (omega arith) (omega arith)

-- Inode 13 is open at 5000, inode 14 at 6000.
abbrev two_open : OpenInodes
two_open = record {
  inodes = λ p. if p == 5000 then inode_of 13 else inode_of 14;
  open_inodes = 5000 ∷ 6000 ∷ [];
}

two_open-IsCache : IsCache two_open
two_open-IsCache = record {
  distinct = (refl, (refl, tt));
  one = λ p q hp hq same. ground arith;
  used = λ p h. ground arith;
}

zero_load : inode_load part 0 blank empty_disk ≡ ok (inode_at (loaded empty_disk 100 1 blank) 0)
unfolding inode_load inode_locate
zero_load =
    rw (ide_read-loaded empty_disk 100 1 blank (λ lba. refl) (omega arith) (omega arith)) refl

zero_id : (inode_at (loaded empty_disk 100 1 blank) 0).inode_id ≡ 0
unfolding inode_at word_at
zero_id = refl

inode_open-Opened_example :
    (p : ℕ) × (after : OpenInodes) × (inode_open part 0 7000 blank empty_disk two_open
      ≡ ok (p, after))
    × Opened two_open 0 7000 p after
inode_open-Opened_example =
    inode_open-Opened part 0 7000 blank empty_disk two_open
      (inode_at (loaded empty_disk 100 1 blank) 0) two_open-IsCache (λ p h. ground arith) refl
      zero_load zero_id

inode_close-IsCache_example :
    IsCache (inode_close 6000 two_open)
    × ((q : ℕ)
        → has q (inode_close 6000 two_open).open_inodes
          ≡ (has q two_open.open_inodes && not ((q == 6000) && false)))
inode_close-IsCache_example = inode_close-IsCache two_open 6000 two_open-IsCache refl
