-- ===== src/Append/Tests.antt =====
-- The empty file gets 600 bytes.
use os_elephant.Base.{ℕ, ◌-◌, ◌<◌, ◌≡◌, refl, true, ltb, if◌then◌else◌, ok, panic, some, arith}
use os_elephant.Fs.{Inode}
use os_elephant.Fs.Samples.{part, part_disk, inode_of}
use os_elephant.FileTable.{File}
use os_elephant.Files.Read.{content}
use os_elephant.Blocks.{Volume}
use os_elephant.Append.{file_write}
use os_elephant.Append.Held.{Taken}
use os_elephant.Append.Grow.{Growable}
use os_elephant.Append.Fill.{LiesInSector}
use os_elephant.Inode.Table.{HasTable}
use os_elephant.Append.Whole.{
  file_write-content, file_write-Growable, file_write-others, file_write-panic,
}
use os_elephant.Append.Samples.{
  volume, empty_file, letters, volume-first, volume-Free, empty_file-Growable, part-HasTable,
}

abbrev open_file : File
open_file = record { fd_pos = 0; fd_flag = 2; fd_inode = 5000 }

file_write-content_example :
    (inode' : Inode) × (after : Volume) × (file_write true open_file empty_file volume letters 600
      ≡ ok (some 600, record open_file { fd_pos = 599 }, inode', after))
    × (inode'.inode_size ≡ 600)
    × ((j : ℕ)
        → j < 600
        → content after.disk inode' j
          ≡ (if ltb j 0 then content part_disk empty_file j else letters (j - 0)))
file_write-content_example =
    file_write-content open_file empty_file volume letters 600 empty_file-Growable part-HasTable
      (omega arith) (omega arith) (omega arith) volume-Free

file_write-Growable_example :
    (file' : File) × (inode' : Inode) × (after : Volume) × (file_write true open_file empty_file
        volume letters 600
      ≡ ok (some 600, file', inode', after))
    × Growable after inode'
    × HasTable after.part
    × (after.part.sbk ≡ part.sbk)
    × LiesInSector inode'.inode_id
file_write-Growable_example =
    file_write-Growable open_file empty_file volume letters 600 empty_file-Growable part-HasTable
      (omega arith) (omega arith) (omega arith) volume-Free

root-Taken : Taken volume volume 800
root-Taken = (omega arith, omega arith, volume-first)

file_write-others_example :
    (file' : File) × (inode' : Inode) × (after : Volume) × (file_write true open_file empty_file
        volume letters 600
      ≡ ok (some 600, file', inode', after))
    × ((o : ℕ) → o < 512 → after.disk.sectors 800 o ≡ part_disk.sectors 800 o)
file_write-others_example =
    file_write-others open_file empty_file volume letters 600 800 empty_file-Growable part-HasTable
      (omega arith) (omega arith) (omega arith) volume-Free root-Taken
      (λ i lt. absurd (omega arith)) (λ e. absurd (omega arith))

file_write-panic_example :
    file_write true open_file (record (inode_of 13) { inode_size = 71000 }) volume letters 680
    ≡ panic
file_write-panic_example =
    file_write-panic open_file (record (inode_of 13) { inode_size = 71000 }) volume letters 680
      (λ e. absurd (omega arith)) refl
