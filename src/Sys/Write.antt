-- ===== src/Sys/Write.antt =====
-- `sys_write`, and what `sys_lseek` and `sys_read` find after it.
use os_elephant.Base.{ℕ, Bool, not, ◌||◌, ◌==◌, bit_and, update}
use os_elephant.Fs.{Inode}
use os_elephant.Blocks.{Volume}
use os_elephant.FileTable.{File}
use os_elephant.Sys.{Sys}

-- A file that is open for writing.
abbrev pub is_writable : File → Bool
is_writable file = not (bit_and file.fd_flag 1 == 0) || not (bit_and file.fd_flag 2 == 0)

-- The system after a write through index `g`.
abbrev pub wrote : ℕ → File → Inode → Volume → Sys → Sys
wrote g file inode v s = record s {
  file_table = update s.file_table g file;
  inodes = record (s.inodes) { inodes = update s.inodes.inodes (s.file_table g).fd_inode inode };
  volume = v;
}
