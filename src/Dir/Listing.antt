-- ===== src/Dir/Listing.antt =====
-- fs/c14c_dir.c: `dir_read`, which gives the entries of a directory one by one.
pub mod Sectors
pub mod Entries
use native.Mathlib.Decide.{ℕ_discrete, dec_lt}
use os_elephant.Base.{
  ℕ, zero, suc, ◌+◌, ◌-◌, ◌*◌, ◌/◌, ◌%◌, ◌^◌, ◌<◌, ◌≤◌, ◌≡◌, refl, sym, ap, ◌∙◌, subst, Bool, true,
  false, not, ◌&&◌, Option, none, some, List, [], ◌∷◌, ◌++◌, ◌==◌, leb, ltb, if◌then◌else◌, Outcome,
  ok, ◌>>=◌, ◌>>◌, assert, arith, Bool-cases, inl, inr, get_elem?, get_or, length, is_some,
}
use os_elephant.Ide.{Disk, Buffer, max_lba, ide_read}
use os_elephant.Ide.Transfer.{Answers, loaded, ide_read-loaded}
use os_elephant.Fs.{SuperBlock, Partition, Inode}
use os_elephant.Inode.{u32}
use os_elephant.Blocks.{Volume, collect_blocks}
use os_elephant.Blocks.Release.{block_of, collect_blocks-block_of}
use os_elephant.Dir.{clear, entry_file_type}

-- How the walk over the entries of a sector ends: at the entry that is next, or with a place.
pub data Walk : Type 0 where
  at_entry : ℕ → Walk
  walked : ℕ → Walk

abbrev pub is_live : Buffer → ℕ → Bool
is_live buf dir_entry_idx = not (entry_file_type buf (dir_entry_idx * 24) == 0)

pub walk_entries :
    (left dir_entry_idx cur_dir_entry_pos dir_pos dir_entry_size : ℕ) → Buffer → Outcome Walk
walk_entries zero dir_entry_idx cur_dir_entry_pos dir_pos dir_entry_size buf =
    ok (walked cur_dir_entry_pos)
walk_entries (suc left) dir_entry_idx cur_dir_entry_pos dir_pos dir_entry_size buf =
    let next =
      if is_live buf dir_entry_idx
      then u32 (cur_dir_entry_pos + dir_entry_size)
      else cur_dir_entry_pos in
    let rest = walk_entries left (dir_entry_idx + 1) next dir_pos dir_entry_size buf in
    if is_live buf dir_entry_idx && not (ltb cur_dir_entry_pos dir_pos)
    then assert (cur_dir_entry_pos == dir_pos) >> ok (at_entry (dir_entry_idx * 24))
    else rest

abbrev pub on_walk :
    Buffer → (ℕ → Outcome (Option (Buffer × ℕ))) → Walk → Outcome (Option (Buffer × ℕ))
on_walk buf rest (at_entry at) = ok (some (buf, at))
on_walk buf rest (walked cur_dir_entry_pos) = rest cur_dir_entry_pos

pub walk_blocks :
    (left block_idx cur_dir_entry_pos dir_pos inode_size dir_entry_size : ℕ)
    → Disk
    → (ℕ → ℕ)
    → Outcome (Option (Buffer × ℕ))
walk_blocks zero block_idx cur_dir_entry_pos dir_pos inode_size dir_entry_size d all_blocks =
    ok none
walk_blocks (suc left) block_idx cur_dir_entry_pos dir_pos inode_size dir_entry_size d all_blocks =
    let rest = λ (cur : ℕ).
      walk_blocks left (block_idx + 1) cur dir_pos inode_size dir_entry_size d all_blocks in
    if leb inode_size dir_pos
    then ok none
    else if all_blocks block_idx == 0
    then rest cur_dir_entry_pos
    else ide_read d (all_blocks block_idx) clear 1 >>= λ dir_e.
        (walk_entries (512 / dir_entry_size) 0 cur_dir_entry_pos dir_pos dir_entry_size dir_e
          >>= on_walk dir_e rest)

-- Where the place stands after the call.
abbrev pub moved_on : ℕ → ℕ → Option (Buffer × ℕ) → ℕ
moved_on dir_pos dir_entry_size none = dir_pos
moved_on dir_pos dir_entry_size (some entry) = u32 (dir_pos + dir_entry_size)

-- The buffer with the entry's place in it, or NULL; and the place of the next.
unfoldable pub dir_read : Volume → Inode → (dir_pos : ℕ) → Outcome (Option (Buffer × ℕ) × ℕ)
dir_read v dir_inode dir_pos = do
  all_blocks ← collect_blocks v.disk dir_inode
  let block_cnt = if dir_inode.inode_blocks 12 == 0 then 12 else 140
  let dir_entry_size = v.part.sbk.directory_entry_size
  found ← walk_blocks block_cnt 0 0 dir_pos dir_inode.inode_size dir_entry_size v.disk all_blocks
  ok (found, moved_on dir_pos dir_entry_size found)
