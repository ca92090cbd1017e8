-- ===== src/Dir.antt =====
-- fs/c14c_dir.c: directories. A directory is its inode, which an operation that changes it gives
-- back, and the place `dir_pos` of the next entry to read. An entry is 24 bytes: a name of 16, the
-- number of an inode and a file type. A name is the list of its bytes, none of them 0.
-- `granted` says whether `sys_malloc` grants a request that the code tests; memory comes cleared.
pub mod Search
pub mod Grow
pub mod Found
pub mod Entry
pub mod Listing
mod Tests
use os_elephant.Base.{
  ℕ, zero, suc, ◌+◌, ◌-◌, ◌*◌, ◌/◌, ◌%◌, ◌^◌, Bool, true, false, not, ◌&&◌, Option, none, some,
  List, [], ◌∷◌, ◌==◌, leb, ltb, if◌then◌else◌, update, Outcome, ok, unfinished, ◌>>=◌, ◌>>◌,
  assert,
}
use os_elephant.Ide.{Disk, Buffer, ide_read, ide_write}
use os_elephant.Fs.{SuperBlock, Partition, Inode, byte_of, word_at, put_bytes}
use os_elephant.Inode.{u32, inode_sync}
use os_elephant.Blocks.{
  Volume, of_blocks, mark, bitmap_sync, block_bitmap_idx, new_block, collect_blocks,
}

abbrev pub clear : Buffer
clear q = 0

-- The fields of the entry at an offset.
abbrev pub entry_inode_id : Buffer → ℕ → ℕ
entry_inode_id buf at = word_at buf (at + 16)

abbrev pub entry_file_type : Buffer → ℕ → ℕ
entry_file_type buf at = word_at buf (at + 20)

-- `!strcmp(buf + at, name)`
pub has_name : List ℕ → Buffer → ℕ → Bool
has_name [] buf at = buf at == 0
has_name (c ∷ name) buf at = (buf at == c) && has_name name buf (at + 1)

-- The entries of a sector, for those that are left: where the name stands.
pub find_entry : (left dir_entry_index : ℕ) → List ℕ → Buffer → Option ℕ
find_entry zero dir_entry_index name buf = none
find_entry (suc left) dir_entry_index name buf =
    let rest = find_entry left (dir_entry_index + 1) name buf in
    if has_name name buf (dir_entry_index * 24) then some (dir_entry_index * 24) else rest

-- Where an entry was found, it is copied to `dir_e`.
abbrev pub copied : (dir_entry_size : ℕ) → Buffer → Buffer → Option ℕ → Option Buffer
copied dir_entry_size buf dir_e none = none
copied dir_entry_size buf dir_e (some at) =
    some (put_bytes dir_e 0 dir_entry_size (λ i. buf (at + i)))

abbrev pub or_else : Option Buffer → Outcome (Option Buffer) → Outcome (Option Buffer)
or_else (some entry) rest = ok (some entry)
or_else none rest = rest

pub search_blocks :
    (left block_index dir_entry_size : ℕ)
    → Disk
    → (ℕ → ℕ)
    → List ℕ
    → Buffer
    → Outcome (Option Buffer)
search_blocks zero block_index dir_entry_size d all_blocks name dir_e = ok none
search_blocks (suc left) block_index dir_entry_size d all_blocks name dir_e =
    let rest = search_blocks left (block_index + 1) dir_entry_size d all_blocks name dir_e in
    if all_blocks block_index == 0
    then rest
    else ide_read d (all_blocks block_index) clear 1 >>= λ buf.
        or_else (copied dir_entry_size buf dir_e (find_entry (512 / dir_entry_size) 0 name buf))
          rest

-- `none` is false; else `dir_e` with the entry in it.
unfoldable pub search_dir_entry : Bool → Volume → Inode → List ℕ → Buffer → Outcome (Option Buffer)
search_dir_entry false v pdir name dir_e = ok none
search_dir_entry true v pdir name dir_e = do
  all_blocks ← collect_blocks v.disk pdir
  search_blocks 140 0 v.part.sbk.directory_entry_size v.disk all_blocks name dir_e

abbrev pub length : List ℕ → ℕ
length [] = 0
length (c ∷ name) = suc (length name)

abbrev pub name_byte : List ℕ → ℕ → ℕ
name_byte [] i = 0
name_byte (c ∷ name) zero = c
name_byte (c ∷ name) (suc i) = name_byte name i

abbrev pub word_byte : ℕ → ℕ → ℕ
word_byte n = byte_of (λ i. n)

-- `memcpy` of the name without its end, then the two fields, into the entry `p_de`. The type is an
-- `unsigned char`, so that only its low eight bits come in.
unfoldable pub create_dir_entry : List ℕ → (inode_no file_type : ℕ) → Buffer → Outcome Buffer
create_dir_entry filename inode_no file_type p_de = do
  assert (leb (length filename) 16)
  let named = put_bytes p_de 0 (length filename) (name_byte filename)
  ok (put_bytes (put_bytes named 16 4 (word_byte inode_no)) 20 4 (word_byte (file_type % 256)))

-- The entry goes to the start of a cleared sector, and the directory grows by it.
pub put_first : (block_lba : ℕ) → Buffer → Inode → Volume → Outcome (Bool × Inode × Volume)
put_first block_lba p_de dir_inode v = do
  let dir_entry_size = v.part.sbk.directory_entry_size
  disk ← ide_write v.disk block_lba (put_bytes clear 0 dir_entry_size p_de) 1
  ok (
    true,
    record dir_inode { inode_size = u32 (dir_inode.inode_size + dir_entry_size) },
    record v { disk = disk },
  )

-- The indirect addresses are written to their table.
pub write_table : (ℕ → ℕ) → Inode → Volume → Outcome Volume
write_table all_blocks dir_inode v = do
  disk ← ide_write v.disk (dir_inode.inode_blocks 12) (byte_of (λ i. all_blocks (12 + i))) 1
  ok (record v { disk = disk })

-- The second block, for entries, where the first has become the table; without one the first is
-- given back in memory.
pub second_block : (ℕ → ℕ) → Buffer → Inode → Option ℕ × Volume → Outcome (Bool × Inode × Volume)
second_block all_blocks p_de dir_inode (none, v) = ok (
  false,
  record dir_inode { inode_blocks = update dir_inode.inode_blocks 12 0 },
  mark of_blocks (block_bitmap_idx v (dir_inode.inode_blocks 12)) false v,
)
second_block all_blocks p_de dir_inode (some block_lba, v) = do
  after ← write_table (update all_blocks 12 block_lba) dir_inode v
  put_first block_lba p_de dir_inode after

-- What `sync_dir_entry` does at an address that is 0, when a block was asked for.
pub grow :
    (block_idx : ℕ) → (ℕ → ℕ) → Buffer → Inode → Option ℕ × Volume → Outcome (Bool × Inode × Volume)
grow block_idx all_blocks p_de dir_inode (none, v) = ok (false, dir_inode, v)
grow block_idx all_blocks p_de dir_inode (some block_lba, v) =
    let placed = record dir_inode {
      inode_blocks = update dir_inode.inode_blocks block_idx block_lba;
    } in
    if ltb block_idx 12
    then put_first block_lba p_de placed v
    else if block_idx == 12
    then new_block v >>= second_block all_blocks p_de placed
    else write_table (update all_blocks block_idx block_lba) dir_inode v
      >>= put_first block_lba p_de dir_inode

-- The first entry of a sector that is not in use.
pub free_entry : (left dir_entry_idx : ℕ) → Buffer → Option ℕ
free_entry zero dir_entry_idx buf = none
free_entry (suc left) dir_entry_idx buf =
    let rest = free_entry left (dir_entry_idx + 1) buf in
    if entry_file_type buf (dir_entry_idx * 24) == 0 then some (dir_entry_idx * 24) else rest

-- The sector with the entry put in is written back.
pub put_entry :
    (block_lba : ℕ) → Buffer → Buffer → Inode → Volume → (at : ℕ) → Outcome (Bool × Inode × Volume)
put_entry block_lba io_buf p_de dir_inode v at = do
  let dir_entry_size = v.part.sbk.directory_entry_size
  disk ← ide_write v.disk block_lba (put_bytes io_buf at dir_entry_size p_de) 1
  ok (
    true,
    record dir_inode { inode_size = u32 (dir_inode.inode_size + dir_entry_size) },
    record v { disk = disk },
  )

abbrev pub entry_or : {A : Type 0} → Option ℕ → (ℕ → Outcome A) → Outcome A → Outcome A
entry_or (some at) found rest = found at
entry_or none found rest = rest

pub sync_blocks :
    (left block_idx : ℕ) → (ℕ → ℕ) → Buffer → Inode → Volume → Outcome (Bool × Inode × Volume)
sync_blocks zero block_idx all_blocks p_de dir_inode v = ok (false, dir_inode, v)
sync_blocks (suc left) block_idx all_blocks p_de dir_inode v =
    let rest = sync_blocks left (block_idx + 1) all_blocks p_de dir_inode v in
    if all_blocks block_idx == 0
    then new_block v >>= grow block_idx all_blocks p_de dir_inode
    else ide_read v.disk (all_blocks block_idx) clear 1 >>= λ io_buf.
        entry_or (free_entry (512 / v.part.sbk.directory_entry_size) 0 io_buf)
          (put_entry (all_blocks block_idx) io_buf p_de dir_inode v) rest

-- Only the direct addresses are collected.
unfoldable pub sync_dir_entry : Buffer → Inode → Volume → Outcome (Bool × Inode × Volume)
sync_dir_entry p_de dir_inode v = do
  assert (dir_inode.inode_size % v.part.sbk.directory_entry_size == 0)
  sync_blocks 140 0 (λ i. if ltb i 12 then dir_inode.inode_blocks i else 0) p_de dir_inode v

unfoldable pub dir_is_empty : Volume → Inode → Bool
dir_is_empty v dir = dir.inode_size == u32 (v.part.sbk.directory_entry_size * 2)
