-- ===== src/Sys.antt =====
-- fs/c14c_file.c (`file_open`, `file_close`) and fs/c14a_fs.c (`sys_close`, `sys_read`, `sys_write`, `sys_lseek`):
-- the descriptors of the current process, the table of open files, the open inodes and the disk
-- together. A signed integer is its 32 bits; an answer of -1 is `none`. Interrupts are off between
-- the test and the setting of `write_deny`, so the two are one step here.
pub mod Seek
pub mod Open
pub mod Write
mod Tests
use os_elephant.Base.{
  ℕ, ◌+◌, ◌-◌, ◌*◌, ◌/◌, ◌%◌, ◌^◌, Bool, true, false, not, ◌&&◌, ◌||◌, Option, none, some, ◌==◌,
  leb, ltb, if◌then◌else◌, bit_and, update, set, Outcome, ok, fault, ◌>>=◌, ◌>>◌, assert,
}
use os_elephant.Ide.{Buffer}
use os_elephant.Fs.{Inode}
use os_elephant.Thread
use os_elephant.Thread.{Kernel, set_task}
use os_elephant.Inode.{u32, OpenInodes, inode_open, inode_close}
use os_elephant.Blocks.{Volume}
use os_elephant.FileTable.{File, get_free_slot_in_global_filetable, pcb_fd_install, fd_local2global}
use os_elephant.Files.{file_read}
use os_elephant.Append.{file_write}

pub record Sys : Type 0 where
  pub kernel : Kernel
  pub file_table : ℕ → File
  pub inodes : OpenInodes
  pub volume : Volume

abbrev pub negative : ℕ → Bool
negative n = leb (2 ^ 31) n

-- `a > b` of signed integers.
abbrev pub signed_gt : ℕ → ℕ → Bool
signed_gt a b = ltb (u32 (b + 2 ^ 31)) (u32 (a + 2 ^ 31))

abbrev pub set_write_deny : Bool → ℕ → OpenInodes → OpenInodes
set_write_deny deny p s = record s {
  inodes = update s.inodes p (record (s.inodes p) { write_deny = deny });
}

-- The last step of `file_open`.
pub installed_file : (fd_index : ℕ) → Sys → Outcome (Option ℕ × Sys)
installed_file fd_index s = do
  done ← pcb_fd_install fd_index s.kernel
  ok (done.0, record s { kernel = done.1 })

-- From the free slot on; `new` is the address of an inode that is not open yet.
pub open_at : (inode_id flag new : ℕ) → Sys → Option ℕ → Outcome (Option ℕ × Sys)
open_at inode_id flag new s none = ok (none, s)
open_at inode_id flag new s (some fd_index) = do
  opened ← inode_open s.volume.part inode_id new (λ q. 0) s.volume.disk s.inodes
  let file : File = record { fd_pos = 0; fd_flag = flag; fd_inode = opened.0 }
  let next = record s { file_table = update s.file_table fd_index file; inodes = opened.1 }
  if not (bit_and flag 1 == 0) || not (bit_and flag 2 == 0)
      then (if (opened.1.inodes opened.0).write_deny
          then ok (none, next)
          else installed_file fd_index
              (record next { inodes = set_write_deny true opened.0 opened.1 }))
      else installed_file fd_index next

unfoldable pub file_open : (inode_id flag new : ℕ) → Sys → Outcome (Option ℕ × Sys)
file_open inode_id flag new s =
    open_at inode_id flag new s (get_free_slot_in_global_filetable s.file_table)

-- A slot that is free has the inode NULL, which is written through.
unfoldable pub file_close : (fd_index : ℕ) → Sys → Outcome (Option ℕ × Sys)
file_close fd_index s =
    let file = s.file_table fd_index in
    if file.fd_inode == 0
    then fault
    else ok (
      some 0,
      record s {
        file_table = update s.file_table fd_index (record file { fd_inode = 0 });
        inodes = inode_close file.fd_inode (set_write_deny false file.fd_inode s.inodes);
      },
    )

-- The descriptor is free again.
abbrev pub clear_fd : ℕ → Kernel → Kernel
clear_fd fd k =
    set_task k.current
      (record (k.tasks k.current) { fd_table = set (k.tasks k.current).fd_table fd none }) k

-- A descriptor that is not negative.
abbrev pub close_fd : ℕ → Sys → Outcome (Option ℕ × Sys)
close_fd fd s = do
  _fd ← fd_local2global fd s.kernel
  closed ← file_close _fd s
  ok (closed.0, record (closed.1) { kernel = clear_fd fd closed.1.kernel })

unfoldable pub sys_close : ℕ → Sys → Outcome (Option ℕ × Sys)
sys_close fd s = if not (negative fd) && ltb 2 fd then close_fd fd s else ok (none, s)

abbrev pub read_fd :
    Bool → (fd : ℕ) → Buffer → (count : ℕ) → Sys → Outcome (Option ℕ × Sys × Buffer)
read_fd granted fd buf count s = do
  _fd ← fd_local2global fd s.kernel
  let file = s.file_table _fd
  done ← file_read granted s.volume.disk file (s.inodes.inodes file.fd_inode) buf count
  ok (done.0, record s { file_table = update s.file_table _fd done.1 }, done.2)

-- `buf` is not NULL.
unfoldable pub sys_read :
    Bool → (fd : ℕ) → Buffer → (count : ℕ) → Sys → Outcome (Option ℕ × Sys × Buffer)
sys_read granted fd buf count s =
    if negative fd then ok (none, s, buf) else read_fd granted fd buf count s

-- What goes to the screen, by way of a cleared array of 1024 bytes.
abbrev pub print_bytes : Buffer → (count : ℕ) → Sys → Outcome (Option ℕ × Sys × Option Buffer)
print_bytes buf count s =
    if leb count 1024
    then ok (some count, s, some (λ k. if ltb k count then buf k else 0))
    else fault

abbrev pub write_fd :
    Bool → (fd : ℕ) → Buffer → (count : ℕ) → Sys → Outcome (Option ℕ × Sys × Option Buffer)
write_fd granted fd buf count s = do
  _fd ← fd_local2global fd s.kernel
  let file = s.file_table _fd
  let inode = file.fd_inode
  if not (bit_and file.fd_flag 1 == 0) || not (bit_and file.fd_flag 2 == 0)
      then (do
        done ← file_write granted file (s.inodes.inodes inode) s.volume buf count
        ok (
          done.0,
          record s {
            file_table = update s.file_table _fd done.1;
            inodes = record (s.inodes) { inodes = update s.inodes.inodes inode done.2 };
            volume = done.3;
          },
          none,
        ))
      else ok (none, s, none)

-- Beside the answer, what is printed: descriptor 1 is the screen.
unfoldable pub sys_write :
    Bool → (fd : ℕ) → Buffer → (count : ℕ) → Sys → Outcome (Option ℕ × Sys × Option Buffer)
sys_write granted fd buf count s =
    if negative fd
    then ok (none, s, none)
    else if fd == 1
    then print_bytes buf count s
    else write_fd granted fd buf count s

-- `SEEK_SET` is 1, `SEEK_CUR` 2 and `SEEK_END` 3.
abbrev pub new_pos : (whence offset fd_pos file_size : ℕ) → ℕ
new_pos whence offset fd_pos file_size =
    if whence == 1
    then offset
    else if whence == 2
    then u32 (fd_pos + offset)
    else u32 (file_size + offset)

abbrev pub seek_fd : (fd offset whence : ℕ) → Sys → Outcome (Option ℕ × Sys)
seek_fd fd offset whence s = do
  assert (ltb 0 whence && ltb whence 4)
  _fd ← fd_local2global fd s.kernel
  let file = s.file_table _fd
  let file_size = (s.inodes.inodes file.fd_inode).inode_size
  let pos = new_pos whence offset file.fd_pos file_size
  if negative pos || signed_gt pos (u32 (file_size + 2 ^ 32 - 1))
      then ok (none, s)
      else ok (
        some pos,
        record s { file_table = update s.file_table _fd (record file { fd_pos = pos }) },
      )

unfoldable pub sys_lseek : (fd offset whence : ℕ) → Sys → Outcome (Option ℕ × Sys)
sys_lseek fd offset whence s = if negative fd then ok (none, s) else seek_fd fd offset whence s
