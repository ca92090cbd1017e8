-- ===== src/Files/Whole.antt =====
-- What one call of `file_read` gives.
use os_elephant.Base.{
  ℕ, suc, ◌+◌, ◌-◌, ◌*◌, ◌/◌, ◌%◌, ◌^◌, ◌<◌, ◌≤◌, ◌≡◌, refl, ◌∙◌, Bool, true, false, ◌&&◌, none,
  some, ◌==◌, ltb, if◌then◌else◌, ok, panic, arith, Bool-cases, inl, inr,
}
use os_elephant.Ide.{Disk, Buffer}
use os_elephant.Fs.{Inode}
use os_elephant.FileTable.{File}
use os_elephant.Files.{read_blocks, read_sectors, read_size, file_read}
use os_elephant.Files.Read.{content, IsFile, HasRead, read_blocks-Collected, read_sectors-HasRead}

-- How many bytes there are to read.
abbrev pub readable : File → Inode → ℕ → ℕ
readable file inode count =
    if ltb inode.inode_size (file.fd_pos + count) then inode.inode_size - file.fd_pos else count

-- How many bytes a read goes for, once the size of the file has been looked at.
file_read-read_size :
    (granted : Bool) (d : Disk) (file : File) (inode : Inode) (buf : Buffer) (count : ℕ)
    → file.fd_pos + count < 2 ^ 32
    → inode.inode_size < 2 ^ 32
    → file.fd_pos < inode.inode_size
    → file_read granted d file inode buf count
      ≡ read_size granted d file inode buf (readable file inode count)
unfolding file_read
file_read-read_size granted d file inode buf count small size_small lt =
    let sum : (file.fd_pos + count) % 2 ^ 32 ≡ file.fd_pos + count = omega arith in
    let left : (inode.inode_size + 2 ^ 32 - file.fd_pos) % 2 ^ 32 ≡ inode.inode_size - file.fd_pos =
      omega arith in
    let more : (inode.inode_size - file.fd_pos == 0) ≡ false = ground arith in
    elim (Bool-cases (ltb inode.inode_size (file.fd_pos + count))) [
      | inl past ↦ rw (sum, left, past, more) refl
      | inr inside ↦ rw (sum, inside) refl
    ]

read_size-run :
    (d : Disk) (file : File) (inode : Inode) (buf after : Buffer) (size : ℕ) (all_blocks : ℕ → ℕ)
    → file.fd_pos + size < 139 * 512
    → read_blocks d inode (file.fd_pos / 512) ((file.fd_pos + size) / 512) ≡ ok all_blocks
    → read_sectors (suc size) d all_blocks size 0 size file.fd_pos buf
      ≡ ok (file.fd_pos + size, after)
    → read_size true d file inode buf size
      ≡ ok (some size, record file { fd_pos = file.fd_pos + size }, after)
unfolding read_size
read_size-run d file inode buf after size all_blocks top gathers run =
    let sum : (file.fd_pos + size) % 2 ^ 32 ≡ file.fd_pos + size = omega arith in
    let start_ok : ltb (file.fd_pos / 512) 139 ≡ true = ground arith in
    let end_ok : ltb ((file.fd_pos + size) / 512) 139 ≡ true = ground arith in
    rw (sum, start_ok, end_ok, gathers, run) refl

read_size-content :
    (d : Disk) (file : File) (inode : Inode) (buf : Buffer) (size : ℕ)
    → IsFile d inode
    → inode.inode_size < 139 * 512
    → file.fd_pos + size ≤ inode.inode_size
    → (after : Buffer) × (read_size true d file inode buf size
        ≡ ok (some size, record file { fd_pos = file.fd_pos + size }, after))
      × HasRead d inode buf file.fd_pos size after
read_size-content d file inode buf size is limit top =
    let (all_blocks, gathers, got) =
      read_blocks-Collected d inode (file.fd_pos / 512) ((file.fd_pos + size) / 512) is
        (omega arith) (λ reaches. is.table (omega arith)) in
    let (after, run, all) =
      read_sectors-HasRead d inode all_blocks buf file.fd_pos size (suc size) 0 buf is got
        (omega arith) (omega arith) (omega arith) (omega arith) (λ q. ground arith) in
    let none_done : file.fd_pos + 0 ≡ file.fd_pos = omega arith in
    let all_left : size - 0 ≡ size = omega arith in
    let exact = rw (none_done, all_left) at run in
    (after, read_size-run d file inode buf after size all_blocks (omega arith) gathers exact, all)

-- `file_read` with memory granted, on a drive that answers and a file of fewer than 71168 bytes
-- whose blocks lie within what the driver reads and that has a table if it reaches block 12, from
-- a place before its end and with a place plus count below 2 ^ 32: it returns the smaller of count
-- and the bytes that are left, the buffer starts with that many bytes of the file from the place
-- on and is else as before, and the place moves on by that number.
pub file_read-content :
    (d : Disk) (file : File) (inode : Inode) (buf : Buffer) (count : ℕ)
    → IsFile d inode
    → file.fd_pos + count < 2 ^ 32
    → inode.inode_size < 139 * 512
    → file.fd_pos < inode.inode_size
    → (after : Buffer) × (file_read true d file inode buf count
        ≡ ok (
          some (readable file inode count),
          record file { fd_pos = file.fd_pos + readable file inode count },
          after,
        ))
      × ((q : ℕ)
          → after q ≡ (
              if ltb q (readable file inode count)
              then content d inode (file.fd_pos + q)
              else buf q))
file_read-content d file inode buf count is small limit lt =
    let (after, run, all) =
      read_size-content d file inode buf (readable file inode count) is limit (ground arith) in
    (after, file_read-read_size true d file inode buf count small (omega arith) lt ∙ run, all)

pub file_read-end :
    (granted : Bool) (d : Disk) (file : File) (inode : Inode) (buf : Buffer) (count : ℕ)
    → 0 < count
    → file.fd_pos ≡ inode.inode_size
    → inode.inode_size + count < 2 ^ 32
    → file_read granted d file inode buf count ≡ ok (none, file, buf)
unfolding file_read
file_read-end granted d file inode buf count pos at small =
    let past : ltb inode.inode_size ((file.fd_pos + count) % 2 ^ 32) ≡ true = ground arith in
    let nothing : ((inode.inode_size + 2 ^ 32 - file.fd_pos) % 2 ^ 32 == 0) ≡ true = ground arith in
    rw (past, nothing) refl

-- `file_read` with memory granted stops at an assertion wherever the end of what is read, that is
-- of the file or of what is asked for, is byte 71168 or beyond, from a place before the end of the
-- file and with a place plus count and a size below 2 ^ 32.
pub file_read-panic :
    (d : Disk) (file : File) (inode : Inode) (buf : Buffer) (count : ℕ)
    → file.fd_pos + count < 2 ^ 32
    → inode.inode_size < 2 ^ 32
    → file.fd_pos < inode.inode_size
    → 139 * 512 ≤ file.fd_pos + readable file inode count
    → file_read true d file inode buf count ≡ panic
unfolding read_size
file_read-panic d file inode buf count small size_small lt far =
    let size = readable file inode count in
    let top : file.fd_pos + size ≤ inode.inode_size = ground arith in
    let refused : (ltb (file.fd_pos / 512) 139 && ltb ((file.fd_pos + size) % 2 ^ 32 / 512) 139)
        ≡ false =
      ground (arith, far, top) in
    file_read-read_size true d file inode buf count small size_small lt ∙ rw refused refl
