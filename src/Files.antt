-- ===== src/Files.antt =====
-- fs/c14c_file.c: `file_read`. A request for memory is granted or not, as `granted` says, and what
-- `sys_malloc` gives is cleared. What the call answers is -1 (`none`) or a number of bytes.
pub mod Read
pub mod Whole
mod Tests
use os_elephant.Base.{
  ℕ, zero, suc, ◌+◌, ◌-◌, ◌*◌, ◌/◌, ◌%◌, ◌^◌, Bool, true, false, not, ◌&&◌, Option, none, some,
  ◌==◌, leb, ltb, if◌then◌else◌, Outcome, ok, unfinished, ◌>>=◌, ◌>>◌, assert,
}
use os_elephant.Ide.{Disk, Buffer, ide_read}
use os_elephant.Fs.{Inode, word_at, put_bytes}
use os_elephant.Inode.{u32}
use os_elephant.FileTable.{File}

-- The addresses `lo` to `hi` of an inode.
abbrev pub direct : Inode → (lo hi : ℕ) → ℕ → ℕ
direct inode lo hi i = if leb lo i && leb i hi then inode.inode_blocks i else 0

-- The addresses of the inode's table from index 12 on.
pub with_table : Disk → Inode → (ℕ → ℕ) → Outcome (ℕ → ℕ)
with_table d inode all_blocks = do
  table ← ide_read d (inode.inode_blocks 12) (λ q. 0) 1
  ok (λ i. if ltb i 12 then all_blocks i else word_at table (4 * (i - 12)))

-- The addresses that a read from block `start` to block `end` collects.
pub read_blocks : Disk → Inode → (start end : ℕ) → Outcome (ℕ → ℕ)
read_blocks d inode start end =
    if start == end
    then (if ltb end 12 then ok (direct inode end end) else with_table d inode (λ i. 0))
    else if ltb end 12
    then ok (direct inode start end)
    else if ltb start 12 && leb 12 end
    then assert (not (inode.inode_blocks 12 == 0)) >> with_table d inode (direct inode start 11)
    else assert (not (inode.inode_blocks 12 == 0)) >> with_table d inode (λ i. 0)

abbrev pub chunk_size : (size_left sec_left_bytes : ℕ) → ℕ
chunk_size size_left sec_left_bytes =
    if ltb size_left sec_left_bytes then size_left else sec_left_bytes

-- The loop over the sectors; it gives `fd_pos` and the buffer.
pub read_sectors :
    ℕ → Disk → (ℕ → ℕ) → (size bytes_read size_left fd_pos : ℕ) → Buffer → Outcome (ℕ × Buffer)
read_sectors zero d all_blocks size bytes_read size_left fd_pos buf = unfinished
read_sectors (suc fuel) d all_blocks size bytes_read size_left fd_pos buf =
    let sec_off_bytes = fd_pos % 512 in
    let n = chunk_size size_left (512 - sec_off_bytes) in
    let rest = ide_read d (all_blocks (fd_pos / 512)) (λ q. 0) 1 >>= λ io_buf.
    read_sectors fuel d all_blocks size (bytes_read + n) (size_left - n) (u32 (fd_pos + n))
      (put_bytes buf bytes_read n (λ k. io_buf (sec_off_bytes + k))) in
    if ltb bytes_read size then rest else ok (fd_pos, buf)

-- From the size to read on. One round for each byte is fuel enough.
pub read_size : Bool → Disk → File → Inode → Buffer → ℕ → Outcome (Option ℕ × File × Buffer)
read_size false d file inode buf size = ok (none, file, buf)
read_size true d file inode buf size = do
  let start = file.fd_pos / 512
  let end = u32 (file.fd_pos + size) / 512
  assert (ltb start 139 && ltb end 139)
  all_blocks ← read_blocks d inode start end
  done ← read_sectors (suc size) d all_blocks size 0 size file.fd_pos buf
  ok (some size, record file { fd_pos = done.0 }, done.1)

-- `inode` is what `fd_inode` points to.
unfoldable pub file_read :
    Bool → Disk → File → Inode → Buffer → ℕ → Outcome (Option ℕ × File × Buffer)
file_read granted d file inode buf count =
    let size = u32 (inode.inode_size + 2 ^ 32 - file.fd_pos) in
    if ltb inode.inode_size (u32 (file.fd_pos + count))
    then (if size == 0 then ok (none, file, buf) else read_size granted d file inode buf size)
    else read_size granted d file inode buf count
