-- ===== src/Sys/Tests.antt =====
-- A process with a file of 700 bytes at descriptor 0, and one that opens inode 0.
use os_elephant.Base.{
  ℕ, ◌+◌, ◌-◌, ◌^◌, ◌≡◌, refl, true, ◌==◌, ltb, if◌then◌else◌, [], ◌∷◌, ok, some, arith,
}
use os_elephant.Ide.{Buffer}
use os_elephant.Ide.Transfer.{loaded, ide_read-loaded}
use os_elephant.Fs.{Inode, inode_at, word_at}
use os_elephant.Fs.Samples.{part, numbered, empty_disk, inode_of}
use os_elephant.Thread.Samples.{sample}
use os_elephant.Inode.{inode_locate, inode_load}
use os_elephant.Inode.Cache.{IsCache}
use os_elephant.FileTable.{
  File, free_slot, get_free_slot_in_global_filetable, as_global, fd_local2global,
}
use os_elephant.Files.Read.{content}
use os_elephant.Sys.{Sys, sys_lseek, sys_read, file_open, sys_close}
use os_elephant.Sys.Seek.{moved, sys_lseek-bounds, sys_read-sys_lseek}
use os_elephant.Append.Samples.{volume, empty_file}
use os_elephant.Sys.Open.{Back, sys_close-file_open}

abbrev two_blocks : Inode
two_blocks = record (inode_of 13) { inode_blocks = λ i. if ltb i 2 then i + 900 else 0 }

abbrev file_0 : ℕ → File
file_0 g = record { fd_pos = 0; fd_flag = 0; fd_inode = if g == 0 then 5000 else 0 }

abbrev reading : Sys
reading = record {
  kernel = sample;
  file_table = file_0;
  inodes = record { inodes = λ p. two_blocks; open_inodes = 5000 ∷ [] };
  volume = record { part = part; disk = numbered };
}

descriptor_0 : fd_local2global 0 sample ≡ ok 0
unfolding fd_local2global as_global
descriptor_0 = refl

sys_lseek-bounds_example : sys_lseek 0 (2 ^ 32 - 100) 3 reading ≡ ok (some 600, moved 0 600 reading)
sys_lseek-bounds_example =
    sys_lseek-bounds reading 0 0 (2 ^ 32 - 100) 3 (omega arith) descriptor_0 (omega arith)
      (omega arith) (omega arith) (omega arith) (omega arith)

sys_read-sys_lseek_example :
    (between after : Sys) × (read : Buffer) × (sys_lseek 0 600 1 reading ≡ ok (some 600, between))
    × (sys_read true 0 (λ q. 7) 300 between ≡ ok (some 100, after, read))
    × ((after.file_table 0).fd_pos ≡ 700)
    × ((q : ℕ) → read q ≡ (if ltb q 100 then content numbered two_blocks (600 + q) else 7))
sys_read-sys_lseek_example =
    sys_read-sys_lseek reading 0 0 600 300 (λ q. 7) (omega arith) descriptor_0
      (record {
        answers = λ lba. refl;
        blocks = λ i lt. ground arith;
        within = omega arith;
        table = λ big. absurd (omega arith);
      })
      (omega arith) (omega arith) (omega arith)

-- The process has an empty file open for reading and writing.
abbrev writing : Sys
writing = record {
  kernel = sample;
  file_table = λ g. record { fd_pos = 0; fd_flag = 2; fd_inode = if g == 0 then 5000 else 0 };
  inodes = record { inodes = λ p. empty_file; open_inodes = 5000 ∷ [] };
  volume = volume;
}

-- No file is open, and no inode.
abbrev idle : Sys
idle = record {
  kernel = sample;
  file_table = λ g. record { fd_pos = 0; fd_flag = 0; fd_inode = 0 };
  inodes = record { inodes = λ p. two_blocks; open_inodes = [] };
  volume = record { part = part; disk = empty_disk };
}

idle-IsCache : IsCache idle.inodes
idle-IsCache = record {
  distinct = tt;
  one = λ p q hp hq same. ground arith;
  used = λ p h. ground arith;
}

slot_3 : get_free_slot_in_global_filetable idle.file_table ≡ some 3
unfolding get_free_slot_in_global_filetable free_slot
slot_3 = refl

zero_load :
    inode_load part 0 (λ q. 0) empty_disk ≡ ok (inode_at (loaded empty_disk 100 1 (λ q. 0)) 0)
unfolding inode_load inode_locate
zero_load =
    rw (ide_read-loaded empty_disk 100 1 (λ q. 0) (λ lba. refl) (omega arith) (omega arith)) refl

zero_id : (inode_at (loaded empty_disk 100 1 (λ q. 0)) 0).inode_id ≡ 0
unfolding inode_at word_at
zero_id = refl

sys_close-file_open_example :
    (fd : ℕ) × (between after : Sys) × (file_open 0 0 7000 idle ≡ ok (some fd, between))
    × (sys_close fd between ≡ ok (some 0, after))
    × Back idle after
sys_close-file_open_example =
    sys_close-file_open idle 0 0 7000 3 6 (inode_at (loaded empty_disk 100 1 (λ q. 0)) 0) refl refl
      slot_3 (omega arith) (omega arith) refl idle-IsCache (λ p h. ground arith) refl refl
      (omega arith) zero_load zero_id
