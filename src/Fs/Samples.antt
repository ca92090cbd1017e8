-- ===== src/Fs/Samples.antt =====
-- A partition of 20000 sectors and drives for tests.
use os_elephant.Base.{ℕ, ◌+◌, ◌%◌, true, ◌==◌, if◌then◌else◌}
use os_elephant.Ide.{Disk}
use os_elephant.Fs.{Partition, Inode}

abbrev pub numbered : Disk
numbered = record { sectors = λ l o. (l + o) % 256; answers = λ lba. true }

abbrev pub empty_disk : Disk
empty_disk = record { sectors = λ l o. 0; answers = λ lba. true }

-- Block 0 and inode 0 are in use.
abbrev pub first_used : ℕ → ℕ
first_used i = if i == 0 then 1 else 0

-- The block bitmap at sectors 52 to 56, the inode bitmap at 60, the inode table from 100 on, blocks
-- from 800 on.
abbrev pub part : Partition
part = record {
  start_lba = 50;
  sector_count = 20000;
  sbk = record {
    block_bitmap_lba = 52;
    inode_bitmap_lba = 60;
    inode_table_lba = 100;
    data_start_lba = 800;
    root_inode_id = 0;
    directory_entry_size = 24;
  };
  block_bitmap = record { bytes_len = 2048; bits = first_used };
  inode_bitmap = record { bytes_len = 512; bits = first_used };
}

-- A drive that holds the block bitmap.
abbrev pub part_disk : Disk
part_disk = record { sectors = λ l o. if l == 52 then first_used o else 0; answers = λ lba. true }

abbrev pub inode_of : ℕ → Inode
inode_of id = record {
  inode_id = id;
  inode_size = 700;
  inode_open_count = 2;
  write_deny = true;
  inode_blocks = λ i. i + 900;
  tag_prev = 3;
  tag_next = 4;
}
