-- ===== src/Dir/Tests.antt =====
-- The sample partition's root directory, without entries, and the name `a`.
use os_elephant.Base.{
  ℕ, ◌*◌, ◌≡◌, ◌≢◌, refl, true, false, ◌==◌, if◌then◌else◌, [], ◌∷◌, ok, some, arith,
}
use os_elephant.Ide.{Buffer}
use os_elephant.Fs.{Inode}
use os_elephant.Fs.Samples.{part, part_disk, inode_of}
use os_elephant.Blocks.{Volume}
use os_elephant.Bitmap.{scan_bit}
use os_elephant.Blocks.Bits.{IsVolume, used}
use os_elephant.Dir.{
  clear, search_dir_entry, has_name, create_dir_entry, sync_dir_entry, entry_inode_id,
  entry_file_type,
}
use os_elephant.Dir.Found.{IsNew}
use os_elephant.Dir.Grow.{IsDir}
use os_elephant.Dir.Entry.{search_dir_entry-create_dir_entry}
use os_elephant.Ide.{Disk}
use os_elephant.Base.{◌&&◌, ◌||◌}
use os_elephant.Dir.Search.{sector}

abbrev volume : Volume
volume = record { part = part; disk = part_disk }

abbrev root : Inode
root = record (inode_of 0) { inode_size = 48; inode_blocks = λ i. if i == 0 then 800 else 0 }

volume-IsVolume : IsVolume volume
volume-IsVolume = record {
  answers = λ lba. refl;
  valid = record { bytes = λ i. ground arith; small = omega arith };
  within = omega arith;
  small = omega arith;
  on_disk = λ i lt. ground arith;
}

root-IsDir : IsDir volume root
root-IsDir = record {
  volume = volume-IsVolume;
  entry_size = refl;
  whole = refl;
  apart = omega arith;
  inside = omega arith;
  direct = λ b low filled. ground (arith, filled);
  no_table = refl;
}

block_1-free : used volume 1 ≡ false
unfolding scan_bit
block_1-free = refl

no_name : (lba at : ℕ) → lba ≢ 52 → has_name (97 ∷ []) (sector part_disk lba) at ≡ false
unfolding has_name
no_name lba at other = ground (arith, other)

root-IsNew : IsNew volume root (97 ∷ [])
root-IsNew b i low filled lt = no_name (root.inode_blocks b) (i * 24) (ground (arith, filled))

search_dir_entry-create_dir_entry_example :
    (p_de : Buffer) × (after : Inode) × (w : Volume) × (e : Buffer) × (create_dir_entry
        (97 ∷ [])
        5
        1
        clear
      ≡ ok p_de)
    × (sync_dir_entry p_de root volume ≡ ok (true, after, w))
    × (search_dir_entry true w after (97 ∷ []) clear ≡ ok (some e))
    × (has_name (97 ∷ []) e 0 ≡ true)
    × (entry_inode_id e 0 ≡ 5)
    × (entry_file_type e 0 ≡ 1)
search_dir_entry-create_dir_entry_example =
    search_dir_entry-create_dir_entry volume root clear 97 [] 5 1 1 1 root-IsDir (omega arith)
      (omega arith) refl (omega arith) block_1-free (omega arith) (omega arith) root-IsNew
      (omega arith)

-- The first two entries of the directory's block are in use.
abbrev two_entries : Disk
two_entries = record {
  sectors = λ l o. if (l == 800) && ((o == 20) || (o == 44)) then 1 else 0;
  answers = λ lba. true;
}

abbrev listed : Volume
listed = record { part = part; disk = two_entries }
