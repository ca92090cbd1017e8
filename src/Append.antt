-- ===== src/Append.antt =====
-- fs/c14c_file.c: `file_write`, which adds bytes at the end of a file: the blocks that it needs, then
-- the bytes sector by sector, then the inode. An early return with -1 keeps what was done so far.
-- `granted` says whether `sys_malloc` grants the two buffers, which come cleared.
pub mod Sound
pub mod Held
pub mod Extend
pub mod Grown
pub mod Table
pub mod Add
pub mod Grow
pub mod Write
pub mod Fill
pub mod Final
pub mod Whole
pub mod Samples
mod Tests
use os_elephant.Base.{
  ℕ, zero, suc, ◌+◌, ◌-◌, ◌*◌, ◌/◌, ◌%◌, ◌^◌, Bool, true, false, not, ◌&&◌, Option, none, some,
  ◌==◌, leb, ltb, if◌then◌else◌, update, Outcome, ok, fault, unfinished, ◌>>=◌, ◌>>◌, assert,
}
use os_elephant.Ide.{Disk, Buffer, ide_read, ide_write}
use os_elephant.Fs.{Partition, Inode, byte_of, word_at, put_bytes}
use os_elephant.Inode.{u32, inode_locate, inode_sync}
use os_elephant.FileTable.{File}
use os_elephant.Blocks.{Volume, of_blocks, bitmap_sync, block_bitmap_idx, block_bitmap_alloc}
use os_elephant.Files.{chunk_size}

-- What the first half of the call works on: the inode, the volume and the addresses collected.
pub record Growing : Type 0 where
  pub inode : Inode
  pub volume : Volume
  pub all_blocks : ℕ → ℕ

abbrev pub set_block : ℕ → ℕ → Inode → Inode
set_block i lba inode = record inode { inode_blocks = update inode.inode_blocks i lba }

-- The bit of an allocated block is written to the disk.
pub sync_block : ℕ → Growing → Outcome (Bool × Growing)
sync_block block_lba g = do
  after ← bitmap_sync of_blocks (block_bitmap_idx g.volume block_lba) g.volume
  ok (true, record g { volume = after })

-- The first block of an empty file, by the answer of the allocation.
pub put_first_block : Growing → Option ℕ × Volume → Outcome (Bool × Growing)
put_first_block g (none, v) = ok (false, record g { volume = v })
put_first_block g (some block_lba, v) =
    assert (not (block_bitmap_idx v block_lba == 0))
    >> sync_block block_lba (record g { inode = set_block 0 block_lba g.inode; volume = v })

pub first_block : Growing → Outcome (Bool × Growing)
first_block g =
    if g.inode.inode_blocks 0 == 0
    then block_bitmap_alloc g.volume >>= put_first_block g
    else ok (true, g)

-- A new block at an index: a direct one goes to the inode as well, where none may be yet.
pub put_block : (block_idx : ℕ) → Growing → Option ℕ × Volume → Outcome (Bool × Growing)
put_block block_idx g (none, v) = ok (false, record g { volume = v })
put_block block_idx g (some block_lba, v) =
    let all_blocks = update g.all_blocks block_idx block_lba in
    if ltb block_idx 12
    then assert (g.inode.inode_blocks block_idx == 0)
      >> sync_block block_lba (record {
        inode = set_block block_idx block_lba g.inode;
        volume = v;
        all_blocks = all_blocks;
      })
    else sync_block block_lba (record g { volume = v; all_blocks = all_blocks })

abbrev pub and_then :
    Bool × Growing → (Growing → Outcome (Bool × Growing)) → Outcome (Bool × Growing)
and_then (true, g) next = next g
and_then (false, g) next = ok (false, g)

-- The three loops over the blocks to add, which differ in the indices alone.
pub extend : (left block_idx : ℕ) → Growing → Outcome (Bool × Growing)
extend zero block_idx g = ok (true, g)
extend (suc left) block_idx g = block_bitmap_alloc g.volume >>= put_block block_idx g >>= λ done.
    and_then done (extend left (block_idx + 1))

-- The table is read to index 12 on, and written from there.
pub read_table : Growing → Outcome (Bool × Growing)
read_table g = do
  assert (not (g.inode.inode_blocks 12 == 0))
  table ← ide_read g.volume.disk (g.inode.inode_blocks 12) (λ q. 0) 1
  ok (
    true,
    record g {
      all_blocks = λ i. if ltb i 12 then g.all_blocks i else word_at table (4 * (i - 12));
    },
  )

pub write_table : Growing → Outcome (Bool × Growing)
write_table g = do
  disk ← ide_write g.volume.disk (g.inode.inode_blocks 12) (byte_of (λ i. g.all_blocks (12 + i))) 1
  ok (true, record g { volume = record (g.volume) { disk = disk } })

-- The block for the table itself; its bit is not written to the disk here.
pub new_table : Growing → Option ℕ × Volume → Outcome (Bool × Growing)
new_table g (none, v) = ok (false, record g { volume = v })
new_table g (some block_lba, v) =
    assert (g.inode.inode_blocks 12 == 0)
    >> ok (true, record g { inode = set_block 12 block_lba g.inode; volume = v })

-- The address of the last block in use.
abbrev pub keep_last : ℕ → Growing → Growing
keep_last used g = record g {
  all_blocks = update g.all_blocks (used - 1) (g.inode.inode_blocks (used - 1));
}

-- No block to add; then the three situations of the code.
pub same_blocks : (used : ℕ) → Growing → Outcome (Bool × Growing)
same_blocks used g = if leb used 12 then ok (true, keep_last used g) else read_table g

pub direct_blocks : (used will : ℕ) → Growing → Outcome (Bool × Growing)
direct_blocks used will g =
    assert (not (g.inode.inode_blocks (used - 1) == 0))
    >> extend (will - used) used (keep_last used g)

pub first_indirect : (used will : ℕ) → Growing → Outcome (Bool × Growing)
first_indirect used will g =
    block_bitmap_alloc g.volume >>= new_table (keep_last used g) >>= λ done.
    and_then done (extend (will - used) used) >>= λ all. and_then all write_table

pub more_indirect : (used will : ℕ) → Growing → Outcome (Bool × Growing)
more_indirect used will g = read_table g >>= λ done.
    and_then done (extend (will - used) used) >>= λ all. and_then all write_table

pub add_blocks : (used will : ℕ) → Growing → Outcome (Bool × Growing)
add_blocks used will g =
    if will == used
    then same_blocks used g
    else if leb will 12
    then direct_blocks used will g
    else if leb used 12
    then first_indirect used will g
    else more_indirect used will g

-- The loop over the sectors, for a file of `size` bytes; it gives the size, the place, the disk and
-- what the buffer holds.
pub write_sectors :
    ℕ
    → (first : Bool) → (all_blocks : ℕ → ℕ) → Buffer
    → (count bytes_written size_left size fd_pos : ℕ) → Buffer
    → Disk
    → Outcome (ℕ × ℕ × Disk × Buffer)
write_sectors zero first all_blocks src count bytes_written size_left size fd_pos io_buf d =
    unfinished
write_sectors (suc fuel) first all_blocks src count bytes_written size_left size fd_pos io_buf d =
    let sec_off_bytes = size % 512 in
    let sec_lba = all_blocks (size / 512) in
    let n = chunk_size size_left (512 - sec_off_bytes) in
    let rest = (if first then ide_read d sec_lba (λ q. 0) 1 else ok (λ q. 0)) >>= λ old.
    (let next = put_bytes old sec_off_bytes n (λ k. src (bytes_written + k)) in
      ide_write d sec_lba next 1 >>= λ after.
      write_sectors fuel false all_blocks src count (bytes_written + n) (size_left - n)
        (u32 (size + n)) (u32 (fd_pos + n)) next after) in
    if ltb bytes_written count then rest else ok (size, fd_pos, d, io_buf)

-- `inode_sync` with the buffer of this call, which is a block of 512 bytes on the heap: for an inode
-- that lies in two sectors it accesses 1024 bytes there, which is out of bounds.
pub sync_inode : Partition → Inode → Buffer → Disk → Outcome Disk
sync_inode part inode io_buf d = do
  inode_pos ← inode_locate part (inode.inode_id % 256)
  after ← inode_sync part inode io_buf d
  if inode_pos.two_sector then fault else ok after

-- The bytes and the inode, when the blocks are there. One round for each byte is fuel enough.
pub write_bytes :
    File → Buffer → (count : ℕ) → Bool × Growing → Outcome (Option ℕ × File × Inode × Volume)
write_bytes file buf count (false, g) = ok (none, file, g.inode, g.volume)
write_bytes file buf count (true, g) = do
  let size = g.inode.inode_size
  done ←
      write_sectors (suc count) true g.all_blocks buf count 0 count size (u32 (size + 2 ^ 32 - 1))
        (λ q. 0) g.volume.disk
  let inode = record (g.inode) { inode_size = done.0 }
  disk ← sync_inode g.volume.part inode done.3 done.2
  ok (some count, record file { fd_pos = done.1 }, inode, record (g.volume) { disk = disk })

-- The counts of blocks before and after, and the blocks between.
pub grow_to : (count : ℕ) → Growing → Outcome (Bool × Growing)
grow_to count g = do
  let used = g.inode.inode_size / 512 + 1
  let will = u32 (g.inode.inode_size + count) / 512 + 1
  assert (leb will 140)
  add_blocks used will g

unfoldable pub file_write :
    (granted : Bool)
    → File
    → Inode
    → Volume
    → Buffer
    → (count : ℕ) → Outcome (Option ℕ × File × Inode × Volume)
file_write granted file inode v buf count =
    if ltb (512 * 140) (u32 (inode.inode_size + count))
    then ok (none, file, inode, v)
    else if granted
    then (first_block (record { inode = inode; volume = v; all_blocks = λ i. 0 })
        >>= (λ done. and_then done (grow_to count))
        >>= write_bytes file buf count)
    else ok (none, file, inode, v)
