-- ===== src/FileTable.antt =====
-- fs/c14c_file.c and fs/c14a_fs.c: the system's table of open files, and the descriptors of a
-- process, which are indices into it. A slot of the file table is free where `fd_inode` is NULL
-- (0); a descriptor of -1 is `none`.
pub mod Slots
pub mod Descriptors
use os_elephant.Base.{
  ℕ, zero, suc, ◌+◌, Option, none, some, List, ◌==◌, ltb, if◌then◌else◌, get_elem?, set, Outcome,
  ok, panic, fault,
}
use os_elephant.Thread
use os_elephant.Thread.{Kernel, set_task}

pub record File : Type 0 where
  pub fd_pos : ℕ
  pub fd_flag : ℕ
  pub fd_inode : ℕ

-- The loop of `get_free_slot_in_global_filetable`, for the slots that are left.
unfoldable pub free_slot : (left fd_index : ℕ) → (ℕ → File) → Option ℕ
free_slot zero fd_index file_table = none
free_slot (suc left) fd_index file_table =
    let rest = free_slot left (fd_index + 1) file_table in
    if (file_table fd_index).fd_inode == 0 then some fd_index else rest

-- MAX_FILE_OPEN is 32; the first three slots are the standard streams.
unfoldable pub get_free_slot_in_global_filetable : (ℕ → File) → Option ℕ
get_free_slot_in_global_filetable file_table = free_slot 29 3 file_table

-- The loop of `pcb_fd_install`: what stands at the index is looked at first.
pub install :
    (left local_fd_index global_fd_index : ℕ) → List (Option ℕ) → Option (ℕ × List (Option ℕ))
install zero local global fds = none
install (suc left) local global fds =
    let rest = install left (local + 1) global fds in
    elim (get_elem? fds local) [
      | some none ↦ some (local, set fds local (some global))
      | some (some g) ↦ rest
      | none ↦ rest
    ]

pub installed : Option (ℕ × List (Option ℕ)) → Thread.Cmd (Option ℕ)
installed none k = ok (none, k)
installed (some (local, fds)) k =
    ok (some local, set_task k.current (record (k.tasks k.current) { fd_table = fds }) k)

-- MAX_FILES_OPEN_PER_PROC is 8.
unfoldable pub pcb_fd_install : ℕ → Thread.Cmd (Option ℕ)
pcb_fd_install global_fd_index k =
    installed (install 5 3 global_fd_index (k.tasks k.current).fd_table) k

-- `fd_table[local_fd]` past the array is a fault.
unfoldable pub as_global : Option (Option ℕ) → Outcome ℕ
as_global none = fault
as_global (some none) = panic
as_global (some (some global_fd)) = if ltb global_fd 32 then ok global_fd else panic

unfoldable pub fd_local2global : ℕ → Kernel → Outcome ℕ
fd_local2global local_fd k = as_global (get_elem? (k.tasks k.current).fd_table local_fd)
