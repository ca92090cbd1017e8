-- ===== src/Append/Held.antt =====
-- The blocks of a file while it grows: each has an address of its own, whose bit is set.
use os_elephant.Base.{
  ℕ, ◌+◌, ◌-◌, ◌/◌, ◌<◌, ◌≤◌, ◌≡◌, ◌≢◌, refl, ap, ◌∙◌, subst, true, false, some, ◌==◌,
  if◌then◌else◌, ok, ◌>>=◌, arith,
}
use os_elephant.Ide.{Disk}
use os_elephant.Fs.{Inode}
use os_elephant.Blocks.{Volume, of_blocks, mark, block_bitmap_alloc, bitmap_sync, block_bitmap_idx}
use os_elephant.Blocks.Bits.{blocks, used}
use os_elephant.Append.{Growing, sync_block}
use os_elephant.Append.Sound.{IsSound, Free, alloc-ok, sync-ok}

-- An address of a block of `v0` whose bit is set in `v`.
abbrev pub Taken : Volume → Volume → ℕ → Type 0
Taken v0 v lba =
    (v0.part.sbk.data_start_lba ≤ lba)
    × (lba < v0.part.sbk.data_start_lba + blocks v0)
    × (used v (lba - v0.part.sbk.data_start_lba) ≡ true)

-- What stays of the volume: its layout and the bytes of its blocks.
pub record SameBlocks (v0 v : Volume) : Type 0 where
  pub sound : IsSound v
  pub sbk : v.part.sbk ≡ v0.part.sbk
  pub size : blocks v ≡ blocks v0
  pub start_lba : v.part.start_lba ≡ v0.part.start_lba
  pub sector_count : v.part.sector_count ≡ v0.part.sector_count
  pub bytes : (l o : ℕ) → v0.part.sbk.data_start_lba ≤ l → v.disk.sectors l o ≡ v0.disk.sectors l o

-- The blocks that a file has: one more than its size fills, but none before the first write.
abbrev pub used_blocks : Inode → ℕ
used_blocks inode = if inode.inode_blocks 0 == 0 then 0 else inode.inode_size / 512 + 1

-- `m` blocks at the addresses `addr`, those from `lo` on collected, and the table if there is one.
pub record Holds (v0 : Volume) (inode0 : Inode) (lo m : ℕ) (addr : ℕ → ℕ) (g : Growing)
    : Type 0 where
  pub same : SameBlocks v0 g.volume
  pub taken : (i : ℕ) → i < m → Taken v0 g.volume (addr i)
  pub apart : (i j : ℕ) → i < j → j < m → addr i ≢ addr j
  pub collected : (i : ℕ) → lo ≤ i → i < m → g.all_blocks i ≡ addr i
  pub direct : (i : ℕ) → i < 12 → i < m → g.inode.inode_blocks i ≡ addr i
  pub empty : (i : ℕ) → i < 12 → m ≤ i → g.inode.inode_blocks i ≡ 0
  pub table : g.inode.inode_blocks 12 ≢ 0 → Taken v0 g.volume (g.inode.inode_blocks 12)
  pub table_apart : g.inode.inode_blocks 12 ≢ 0 → (i : ℕ) → i < m → addr i ≢ g.inode.inode_blocks 12
  pub others : (x : ℕ) → Taken v0 v0 x → Taken v0 g.volume x
  pub own : (x i : ℕ) → Taken v0 v0 x → i < m → addr i ≡ x → i < used_blocks inode0
  pub own_table : (x : ℕ) → Taken v0 v0 x → g.inode.inode_blocks 12 ≡ x → inode0.inode_blocks 12 ≡ x
  pub size : g.inode.inode_size ≡ inode0.inode_size
  pub id : g.inode.inode_id ≡ inode0.inode_id

-- The layout in `v0` of what is found in `v`.
pub data_start :
    {v0 v : Volume} → SameBlocks v0 v → v.part.sbk.data_start_lba ≡ v0.part.sbk.data_start_lba
data_start s = ap (λ b. b.data_start_lba) s.sbk

-- A block that is allocated and whose bit is written.
pub record New (v0 v : Volume) (n lba : ℕ) (after : Volume) : Type 0 where
  pub same : SameBlocks v0 after
  pub taken : Taken v0 after lba
  pub was_free : (x : ℕ) → Taken v0 v x → x ≢ lba
  pub still : (x : ℕ) → Taken v0 v x → Taken v0 after x
  pub free : Free after n

mark-SameBlocks :
    (v0 v : Volume) (block : ℕ)
    → SameBlocks v0 v
    → IsSound (mark of_blocks block true v)
    → SameBlocks v0 (mark of_blocks block true v)
mark-SameBlocks v0 v block s sound = record {
  sound = sound;
  sbk = s.sbk;
  size = unfold os_elephant.Bitmap.set in s.size;
  start_lba = s.start_lba;
  sector_count = s.sector_count;
  bytes = s.bytes;
}

pub alloc-New :
    (v0 v : Volume) (n : ℕ)
    → SameBlocks v0 v
    → Free v (n + 1)
    → (block : ℕ) × (block_bitmap_alloc v
        ≡ ok (some (v0.part.sbk.data_start_lba + block), mark of_blocks block true v))
      × (block < blocks v)
      × (used v block ≡ false)
      × New v0 v n (v0.part.sbk.data_start_lba + block) (mark of_blocks block true v)
alloc-New v0 v n s f =
    let (block, run, below, off, sound, free, bits) = alloc-ok v n s.sound f in
    let start = data_start s in
    let self : (block == block) ≡ true = ground arith in
    let index : v0.part.sbk.data_start_lba + block - v0.part.sbk.data_start_lba ≡ block =
      omega arith in
    (
      block,
      subst (λ x. block_bitmap_alloc v ≡ ok (some (x + block), mark of_blocks block true v)) start
          run,
      below,
      off,
      record {
        same = mark-SameBlocks v0 v block s sound;
        taken = (omega arith, omega (arith, s.size), rw index (bits block ∙ rw self refl));
        was_free = λ x t e. ground (
          arith,
          t.2,
          off,
          ap (λ y. used v (y - v0.part.sbk.data_start_lba)) e,
          ap (used v) index,
        );
        still = λ x t. (t.0, t.1, ground (arith, bits (x - v0.part.sbk.data_start_lba), t.2));
        free = free;
      },
    )

-- The bit of a block goes to the disk.
pub sync-New :
    (v0 v : Volume) (n block : ℕ) (g : Growing)
    → New v0 v n (v0.part.sbk.data_start_lba + block) g.volume
    → block < blocks v0
    → (d : Disk) × (sync_block (v0.part.sbk.data_start_lba + block) g
        ≡ ok (true, record g { volume = record (g.volume) { disk = d } }))
      × New v0 v n (v0.part.sbk.data_start_lba + block) (record (g.volume) { disk = d })
unfolding sync_block
sync-New v0 v n block g new lt =
    let s = new.same in
    let start = data_start s in
    let (d, run, answers, bytes) = sync-ok g.volume block s.sound (omega (arith, s.size)) in
    let at =
      subst
        (λ x.
          bitmap_sync of_blocks (block_bitmap_idx g.volume (x + block)) g.volume
          ≡ ok (record (g.volume) { disk = d }))
        start run in
    (
      d,
      ap (λ x. x >>= λ after. ok (true, record g { volume = after })) at,
      record {
        same = record {
          sound = record {
            answers = answers;
            valid = s.sound.valid;
            apart = s.sound.apart;
            inside = s.sound.inside;
          };
          sbk = s.sbk;
          size = s.size;
          start_lba = s.start_lba;
          sector_count = s.sector_count;
          bytes = λ l o le. bytes l o (omega arith) ∙ s.bytes l o le;
        };
        taken = new.taken;
        was_free = new.was_free;
        still = new.still;
        free = record {
          at = new.free.at;
          below = new.free.below;
          free = new.free.free;
          apart = new.free.apart;
        };
      },
    )
