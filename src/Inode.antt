-- ===== src/Inode.antt =====
-- fs/c14c_inode.c: inodes on the disk, and those that are open. `sys_malloc` and `sys_free` are in
-- kernel/c12f_memory.c; here the address of a new inode is an argument, what the buffers hold
-- before a read is one too, and the free of a buffer does nothing.
pub mod Table
pub mod Cache
mod Tests
use os_elephant.Base.{
  ℕ, ◌+◌, ◌-◌, ◌*◌, ◌/◌, ◌%◌, ◌^◌, Bool, true, false, not, Option, none, some, List, [], ◌∷◌, ◌==◌,
  leb, ltb, if◌then◌else◌, update, Outcome, ok, ◌>>=◌, ◌>>◌, assert,
}
use os_elephant.Ide.{Disk, Buffer, ide_read}
use os_elephant.Fs.{SuperBlock, Partition, Inode, inode_size_of, inode_bytes, inode_at, patch}

abbrev pub u32 : ℕ → ℕ
u32 n = n % 2 ^ 32

pub record InodePosition : Type 0 where
  pub two_sector : Bool
  pub sector_lba : ℕ
  pub offset_size : ℕ

unfoldable pub inode_locate : Partition → ℕ → Outcome InodePosition
inode_locate part inode_id = do
  assert (ltb inode_id 4096)
  let offset_size = u32 (inode_id * inode_size_of)
  let offset_sector = offset_size / 512
  let offset_size_in_sector = offset_size % 512
  let left_in_sector = 512 - offset_size_in_sector
  ok (record {
    two_sector = if ltb left_in_sector inode_size_of then true else false;
    sector_lba = u32 (part.sbk.inode_table_lba + offset_sector);
    offset_size = offset_size_in_sector;
  })

abbrev pub sectors_of : InodePosition → ℕ
sectors_of pos = if pos.two_sector then 2 else 1

-- The copy of an inode that goes to the disk.
abbrev pub pure_inode : Inode → Inode
pure_inode inode = record inode {
  inode_open_count = 0;
  write_deny = false;
  tag_prev = 0;
  tag_next = 0;
}

-- `unsigned char inode_id` keeps the low eight bits of the number.
unfoldable pub inode_sync : Partition → Inode → Buffer → Disk → Outcome Disk
inode_sync part inode io_buf d = do
  let inode_id = inode.inode_id % 256
  inode_pos ← inode_locate part inode_id
  assert (leb inode_pos.sector_lba (u32 (part.start_lba + part.sector_count)))
  patch d inode_pos.sector_lba (sectors_of inode_pos) io_buf inode_pos.offset_size inode_size_of
      (inode_bytes (pure_inode inode))

-- The inode that `inode_open` reads from the disk.
unfoldable pub inode_load : Partition → ℕ → Buffer → Disk → Outcome Inode
inode_load part inode_id junk d = do
  inode_pos ← inode_locate part inode_id
  inode_buf ← ide_read d inode_pos.sector_lba junk (sectors_of inode_pos)
  ok (inode_at inode_buf inode_pos.offset_size)

-- The inodes in memory by their addresses, and the list of the open ones.
pub record OpenInodes : Type 0 where
  pub inodes : ℕ → Inode
  pub open_inodes : List ℕ

-- The loop of `inode_open` over the list.
unfoldable pub find_open : (ℕ → Inode) → List ℕ → ℕ → Option ℕ
find_open inodes [] inode_id = none
find_open inodes (elem ∷ rest) inode_id =
    let later = find_open inodes rest inode_id in
    if (inodes elem).inode_id == inode_id then some elem else later

-- By what the loop found.
unfoldable pub open_from :
    Partition
    → (inode_id new : ℕ) → Buffer
    → Disk
    → OpenInodes
    → Option ℕ
    → Outcome (ℕ × OpenInodes)
open_from part inode_id new junk d s (some found) =
    let inode = s.inodes found in
    ok (
      found,
      record s {
        inodes =
            update s.inodes found
              (record inode { inode_open_count = u32 (inode.inode_open_count + 1) });
      },
    )
open_from part inode_id new junk d s none = do
  inode ← inode_load part inode_id junk d
  ok (
    new,
    record {
      inodes = update s.inodes new (record inode { inode_open_count = 1 });
      open_inodes = new ∷ s.open_inodes;
    },
  )

-- `new` is the address that `sys_malloc` returns.
unfoldable pub inode_open :
    Partition → (inode_id new : ℕ) → Buffer → Disk → OpenInodes → Outcome (ℕ × OpenInodes)
inode_open part inode_id new junk d s =
    open_from part inode_id new junk d s (find_open s.inodes s.open_inodes inode_id)

-- `list_remove` of an element of the list (LinkedList.Deque).
pub unlinked : ℕ → List ℕ → List ℕ
unlinked inode [] = []
unlinked inode (elem ∷ rest) =
    let later = unlinked inode rest in if elem == inode then rest else elem ∷ later

unfoldable pub inode_close : ℕ → OpenInodes → OpenInodes
inode_close inode s =
    let count = u32 ((s.inodes inode).inode_open_count + 2 ^ 32 - 1) in
    let inodes = update s.inodes inode (record (s.inodes inode) { inode_open_count = count }) in
    if count == 0
    then record { inodes = inodes; open_inodes = unlinked inode s.open_inodes }
    else record s { inodes = inodes }

-- The words of the list node are not set.
unfoldable pub inode_init : ℕ → Inode → Inode
inode_init inode_id new_inode = record new_inode {
  inode_id = inode_id;
  inode_size = 0;
  inode_open_count = 0;
  write_deny = false;
  inode_blocks =
      λ sector_index. if ltb sector_index 13 then 0 else new_inode.inode_blocks sector_index;
}

unfoldable pub inode_delete : Partition → ℕ → Buffer → Disk → Outcome Disk
inode_delete part inode_no io_buf d = do
  assert (ltb inode_no 4096)
  inode_pos ← inode_locate part inode_no
  assert (leb inode_pos.sector_lba (u32 (part.start_lba + part.sector_count)))
  patch d inode_pos.sector_lba (sectors_of inode_pos) io_buf inode_pos.offset_size inode_size_of
      (λ i. 0)
