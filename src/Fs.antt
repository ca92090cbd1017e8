-- ===== src/Fs.antt =====
-- fs/inode.h, fs/super_block.h, fs/dir.h and device/ide.h: the structures of the file system, and
-- how the machine lays them out in bytes (little-endian words of four bytes; `bool` is `int`).
pub mod Bytes
pub mod Samples
use os_elephant.Base.{
  ℕ, ◌+◌, ◌-◌, ◌*◌, ◌/◌, ◌%◌, ◌^◌, Bool, true, false, not, ◌&&◌, ◌==◌, leb, ltb, if◌then◌else◌,
  Outcome, ok, ◌>>=◌, ◌>>◌,
}
use os_elephant.Bitmap.{Bitmap}
use os_elephant.Ide.{Disk, Buffer, ide_read, ide_write}

-- The fields of `struct super_block` that the code modelled here reads.
pub record SuperBlock : Type 0 where
  pub block_bitmap_lba : ℕ
  pub inode_bitmap_lba : ℕ
  pub inode_table_lba : ℕ
  pub data_start_lba : ℕ
  pub root_inode_id : ℕ
  pub directory_entry_size : ℕ

pub record Partition : Type 0 where
  pub start_lba : ℕ
  pub sector_count : ℕ
  pub sbk : SuperBlock
  pub block_bitmap : Bitmap
  pub inode_bitmap : Bitmap

-- `inode_blocks` counts at 0 to 12.
pub record Inode : Type 0 where
  pub inode_id : ℕ
  pub inode_size : ℕ
  pub inode_open_count : ℕ
  pub write_deny : Bool
  pub inode_blocks : ℕ → ℕ
  pub tag_prev : ℕ
  pub tag_next : ℕ

abbrev pub inode_size_of : ℕ
inode_size_of = 76

abbrev pub word : Bool → ℕ
word true = 1
word false = 0

-- The words of an inode, in their order.
abbrev pub inode_word : Inode → ℕ → ℕ
inode_word inode i =
    if i == 0
    then inode.inode_id
    else if i == 1
    then inode.inode_size
    else if i == 2
    then inode.inode_open_count
    else if i == 3
    then word inode.write_deny
    else if ltb i 17
    then inode.inode_blocks (i - 4)
    else if i == 17
    then inode.tag_prev
    else inode.tag_next

-- The byte at an offset into words, and the word at an offset into bytes.
unfoldable pub byte_of : (ℕ → ℕ) → ℕ → ℕ
byte_of words i = words (i / 4) / 256 ^ (i % 4) % 256

unfoldable pub word_at : Buffer → ℕ → ℕ
word_at buf at = buf at + buf (at + 1) * 256 + buf (at + 2) * 256 ^ 2 + buf (at + 3) * 256 ^ 3

unfoldable pub inode_bytes : Inode → ℕ → ℕ
inode_bytes inode = byte_of (inode_word inode)

unfoldable pub inode_at : Buffer → ℕ → Inode
inode_at buf at = record {
  inode_id = word_at buf at;
  inode_size = word_at buf (at + 4);
  inode_open_count = word_at buf (at + 8);
  write_deny = not (word_at buf (at + 12) == 0);
  inode_blocks = λ i. word_at buf (at + 16 + 4 * i);
  tag_prev = word_at buf (at + 68);
  tag_next = word_at buf (at + 72);
}

-- `memcpy(buf + at, src, size)`, and `memset` where the source is 0.
abbrev pub put_bytes : Buffer → (at size : ℕ) → (ℕ → ℕ) → Buffer
put_bytes buf at size src q = if leb at q && ltb q (at + size) then src (q - at) else buf q

-- Sectors read, changed in part, and written back.
pub patch : Disk → (lba n : ℕ) → Buffer → (at size : ℕ) → (ℕ → ℕ) → Outcome Disk
patch d lba n io_buf at size src = do
  buf ← ide_read d lba io_buf n
  ide_write d lba (put_bytes buf at size src) n
