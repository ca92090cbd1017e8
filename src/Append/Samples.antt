-- ===== src/Append/Samples.antt =====
-- The sample partition, which has free blocks, and an empty file on it.
use os_elephant.Base.{ℕ, zero, suc, ◌+◌, ◌%◌, ◌<◌, ◌≡◌, refl, true, false, arith}
use os_elephant.Bitmap.{scan_bit}
use os_elephant.Ide.{Buffer}
use os_elephant.Fs.{Inode}
use os_elephant.Fs.Samples.{part, part_disk, inode_of}
use os_elephant.Inode.Table.{HasTable}
use os_elephant.Blocks.{Volume}
use os_elephant.Blocks.Bits.{used}
use os_elephant.Append.Sound.{IsSound, Free}
use os_elephant.Append.Grow.{Growable}

abbrev pub volume : Volume
volume = record { part = part; disk = part_disk }

abbrev pub empty_file : Inode
empty_file = record (inode_of 5) { inode_size = 0; inode_blocks = λ i. 0 }

abbrev pub letters : Buffer
letters k = k % 26 + 97

volume-IsSound : IsSound volume
volume-IsSound = record {
  answers = λ lba. refl;
  valid = record { bytes = λ i. ground arith; small = omega arith };
  apart = omega arith;
  inside = omega arith;
}

pub volume-first : used volume 0 ≡ true
unfolding scan_bit
volume-first = refl

free_after : (k : ℕ) → k < 3 → used volume (8 + k) ≡ false
unfolding scan_bit
free_after zero lt = refl
free_after (suc zero) lt = refl
free_after (suc (suc zero)) lt = refl
free_after (suc (suc (suc k))) lt = absurd (omega arith)

pub volume-Free : Free volume 3
volume-Free = record {
  at = λ k. 8 + k;
  below = λ k lt. omega arith;
  free = free_after;
  apart = λ j k lj lk e. omega arith;
}

pub empty_file-Growable : Growable volume empty_file
empty_file-Growable = record {
  sound = volume-IsSound;
  root = omega arith;
  first = volume-first;
  start = omega arith;
  few = omega arith;
  fresh = λ e. refl;
  taken = λ i lt. absurd (omega arith);
  apart = λ i j lt below. absurd (omega arith);
  empty = λ i low le. refl;
  no_table = λ low. refl;
  has_table = λ far. absurd (omega arith);
  table = λ filled. absurd (filled refl);
  table_apart = λ filled. absurd (filled refl);
}

pub part-HasTable : HasTable part
part-HasTable = record { within = omega arith; inside = omega arith; small = omega arith }
