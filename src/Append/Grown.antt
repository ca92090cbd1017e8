-- ===== src/Append/Grown.antt =====
-- The blocks of a file when `add_blocks` is done: the inode and the table give their addresses.
use os_elephant.Base.{
  ℕ, ◌+◌, ◌-◌, ◌*◌, ◌/◌, ◌%◌, ◌^◌, ◌<◌, ◌≤◌, ◌≡◌, ◌≢◌, refl, ap, ◌∙◌, true, false, ◌&&◌, ◌==◌, leb,
  ltb, ok, arith,
}
use native.Mathlib.Decide.{dec_lt}
use os_elephant.Ide.{Disk, max_lba}
use os_elephant.Ide.Transfer.{loaded, written, ide_write-written}
use os_elephant.Fs.{Inode, word_at, byte_of}
use os_elephant.Fs.Bytes.{word_at-byte_of}
use os_elephant.Blocks.{Volume}
use os_elephant.Blocks.Bits.{blocks}
use os_elephant.Blocks.Release.{block_of}
use os_elephant.Append.{Growing, write_table}
use os_elephant.Append.Sound.{IsSound}
use os_elephant.Append.Held.{Taken, SameBlocks, Holds, used_blocks, data_start}

-- An address of a block of `v`, which the driver serves.
abbrev pub InData : Volume → ℕ → Type 0
InData v lba = (v.part.sbk.data_start_lba ≤ lba) × (lba ≤ max_lba)

-- The table of the file, where it is, gives the addresses from block 12 on.
abbrev pub Words : Growing → (m : ℕ) → (ℕ → ℕ) → Type 0
Words g m addr =
    (i : ℕ)
    → 12 ≤ i
    → i < m
    → word_at (loaded g.volume.disk (g.inode.inode_blocks 12) 1 (λ q. 0)) (4 * (i - 12)) ≡ addr i

-- `m` blocks at the addresses `addr`; of the disk's blocks the table alone may have changed.
pub record Grown (v0 : Volume) (inode0 : Inode) (lo m : ℕ) (addr : ℕ → ℕ) (g : Growing)
    : Type 0 where
  pub sound : IsSound g.volume
  pub blocks_of : blocks g.volume ≡ blocks v0
  pub sbk : g.volume.part.sbk ≡ v0.part.sbk
  pub start_lba : g.volume.part.start_lba ≡ v0.part.start_lba
  pub sector_count : g.volume.part.sector_count ≡ v0.part.sector_count
  pub bytes :
      (l o : ℕ)
      → v0.part.sbk.data_start_lba ≤ l
      → l ≢ g.inode.inode_blocks 12
      → g.volume.disk.sectors l o ≡ v0.disk.sectors l o
  pub taken : (i : ℕ) → i < m → Taken v0 g.volume (addr i)
  pub apart : (i j : ℕ) → i < j → j < m → addr i ≢ addr j
  pub collected : (i : ℕ) → lo ≤ i → i < m → g.all_blocks i ≡ addr i
  pub reads : (i : ℕ) → i < m → block_of g.volume.disk g.inode i ≡ addr i
  pub empty : (i : ℕ) → i < 12 → m ≤ i → g.inode.inode_blocks i ≡ 0
  pub has_table : 12 < m → g.inode.inode_blocks 12 ≢ 0
  pub kept_table : m ≤ 12 → g.inode.inode_blocks 12 ≡ inode0.inode_blocks 12
  pub table : g.inode.inode_blocks 12 ≢ 0 → Taken v0 g.volume (g.inode.inode_blocks 12)
  pub table_apart : g.inode.inode_blocks 12 ≢ 0 → (i : ℕ) → i < m → addr i ≢ g.inode.inode_blocks 12
  pub others : (x : ℕ) → Taken v0 v0 x → Taken v0 g.volume x
  pub own : (x i : ℕ) → Taken v0 v0 x → i < m → addr i ≡ x → i < used_blocks inode0
  pub own_table : (x : ℕ) → Taken v0 v0 x → g.inode.inode_blocks 12 ≡ x → inode0.inode_blocks 12 ≡ x
  pub size : g.inode.inode_size ≡ inode0.inode_size
  pub id : g.inode.inode_id ≡ inode0.inode_id

pub Taken-InData : {v0 v : Volume} (lba : ℕ) → SameBlocks v0 v → Taken v0 v lba → InData v0 lba
Taken-InData lba s t =
    let start = data_start s in (t.0, omega (arith, t.1, s.sound.inside, s.size, start))

-- The same, for a file that has its blocks.
pub Grown-InData :
    {v0 : Volume} {inode0 : Inode} {lo m : ℕ} {addr : ℕ → ℕ} {g : Growing} (lba : ℕ)
    → Grown v0 inode0 lo m addr g
    → Taken v0 g.volume lba
    → InData v0 lba
Grown-InData {v0 = v0} {g = g} lba grown t =
    let start : g.volume.part.sbk.data_start_lba ≡ v0.part.sbk.data_start_lba =
      ap (λ b. b.data_start_lba) grown.sbk in
    (t.0, omega (arith, t.1, grown.sound.inside, grown.blocks_of, start))

-- A word of a sector that is written is read back.
written-word :
    (d : Disk) (lba : ℕ) (words : ℕ → ℕ) (i : ℕ)
    → i < 128
    → words i < 2 ^ 32
    → word_at (loaded (written (byte_of words) lba 1 d) lba 1 (λ q. 0)) (4 * i) ≡ words i
written-word d lba words i lt small =
    word_at-byte_of (loaded (written (byte_of words) lba 1 d) lba 1 (λ q. 0)) (4 * i) words i
      (λ k four.
        let below : ltb (4 * i + k) 512 ≡ true = ground arith in
        let no_sector : (4 * i + k) / 512 ≡ 0 = omega arith in
        let offset : (4 * i + k) % 512 ≡ 4 * i + k = omega arith in
        let here : (leb lba (lba + 0) && ltb (lba + 0) (lba + 1)) ≡ true = ground arith in
        let start : (lba + 0 - lba) * 512 + (4 * i + k) ≡ 4 * i + k = omega arith in
        rw (below, no_sector, offset, here, start, below) refl)
      small

module _ (v0 : Volume) (inode0 : Inode) where
  pub Holds-Grown :
      (lo m : ℕ) (addr : ℕ → ℕ) (g : Growing)
      → Holds v0 inode0 lo m addr g
      → (12 < m → g.inode.inode_blocks 12 ≢ 0)
      → (m ≤ 12 → g.inode.inode_blocks 12 ≡ inode0.inode_blocks 12)
      → Words g m addr
      → Grown v0 inode0 lo m addr g
  Holds-Grown lo m addr g h there kept words = record {
    sound = h.same.sound;
    blocks_of = h.same.size;
    sbk = h.same.sbk;
    start_lba = h.same.start_lba;
    sector_count = h.same.sector_count;
    bytes = λ l o le other. h.same.bytes l o le;
    taken = h.taken;
    apart = h.apart;
    collected = h.collected;
    reads = λ i lt. elim (dec_lt i 12) [
      | yes low ↦ ground (arith, h.direct i low lt)
      | no high ↦ ground (arith, words i (omega arith) lt, there (omega arith))
    ];
    empty = h.empty;
    has_table = there;
    kept_table = kept;
    table = h.table;
    table_apart = h.table_apart;
    others = h.others;
    own = h.own;
    own_table = h.own_table;
    size = h.size;
    id = h.id;
  }

  -- The table is written, and gives the addresses.
  pub write_table-Grown :
      (lo m : ℕ) (addr : ℕ → ℕ) (g : Growing)
      → Holds v0 inode0 lo m addr g
      → lo ≤ 12
      → m ≤ 140
      → 12 < m
      → g.inode.inode_blocks 12 ≢ 0
      → (after : Growing) × (write_table g ≡ ok (true, after)) × Grown v0 inode0 lo m addr after
  unfolding write_table
  write_table-Grown lo m addr g h low fits far filled =
      let lba = g.inode.inode_blocks 12 in
      let at = Taken-InData lba h.same (h.table filled) in
      let words : ℕ → ℕ = λ i. g.all_blocks (12 + i) in
      let d = written (byte_of words) lba 1 g.volume.disk in
      let after : Growing = record g { volume = record (g.volume) { disk = d } } in
      let word : Words after m addr = λ i le lt.
        let index : 12 + (i - 12) ≡ i = omega arith in
        let all : words (i - 12) ≡ addr i =
          ap g.all_blocks index ∙ h.collected i (omega arith) lt in
        let inside = Taken-InData (addr i) h.same (h.taken i lt) in
        written-word g.volume.disk lba words (i - 12) (omega arith) (omega (arith, inside.1, all))
        ∙ all in
      (
        after,
        rw
            (ide_write-written g.volume.disk lba 1 (byte_of words) h.same.sound.answers
              (omega arith) (omega (arith, at.1)))
            refl,
        record {
          sound = record {
            answers = h.same.sound.answers;
            valid = h.same.sound.valid;
            apart = h.same.sound.apart;
            inside = h.same.sound.inside;
          };
          blocks_of = h.same.size;
          sbk = h.same.sbk;
          start_lba = h.same.start_lba;
          sector_count = h.same.sector_count;
          bytes = λ l o le other. ground (arith, h.same.bytes l o le);
          taken = h.taken;
          apart = h.apart;
          collected = h.collected;
          reads = λ i lt. elim (dec_lt i 12) [
            | yes near ↦ ground (arith, h.direct i near lt)
            | no high ↦
                let later : ltb i 12 ≡ false = ground arith in
                let there : (lba == 0) ≡ false = ground arith in
                rw (later, there) (word i (omega arith) lt)
          ];
          empty = h.empty;
          has_table = λ e. filled;
          kept_table = λ few. absurd (omega arith);
          table = h.table;
          table_apart = h.table_apart;
          others = h.others;
          own = h.own;
          own_table = h.own_table;
          size = h.size;
          id = h.id;
        },
      )
