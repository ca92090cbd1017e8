-- ===== src/Dir/Listing/Entries.antt =====
-- The entries of a directory as a list, and `dir_read` as a look into it.
use os_elephant.Base.{
  ℕ, zero, suc, ◌+◌, ◌*◌, Option, none, List, [], ◌++◌, ◌==◌, ltb, if◌then◌else◌, get_elem?,
}
use os_elephant.Ide.{Disk, Buffer}
use os_elephant.Ide.Transfer.{loaded}
use os_elephant.Fs.{Inode}
use os_elephant.Blocks.Release.{block_of}
use os_elephant.Dir.{clear}
use os_elephant.Dir.Listing.Sectors.{live_in, in_sector}

-- The entries of a directory in their order, each with its sector.
pub entries_in : (left block_idx : ℕ) → Disk → (ℕ → ℕ) → List (Buffer × ℕ)
entries_in zero block_idx d all_blocks = []
entries_in (suc left) block_idx d all_blocks =
    let rest = entries_in left (block_idx + 1) d all_blocks in
    let buf = loaded d (all_blocks block_idx) 1 clear in
    if all_blocks block_idx == 0 then rest else in_sector buf (live_in 21 0 buf) ++ rest

-- The entries of a directory.
abbrev pub entries : Disk → Inode → List (Buffer × ℕ)
entries d dir_inode =
    entries_in (if dir_inode.inode_blocks 12 == 0 then 12 else 140) 0 d (block_of d dir_inode)

-- What `dir_read` gives at the place of entry `k`.
abbrev pub entry_at : Disk → Inode → ℕ → Option (Buffer × ℕ)
entry_at d dir_inode k =
    if ltb (k * 24) dir_inode.inode_size then get_elem? (entries d dir_inode) k else none
