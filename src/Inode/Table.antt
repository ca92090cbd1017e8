-- ===== src/Inode/Table.antt =====
-- The inode table on the disk: what `inode_sync` and `inode_delete` change in it, and what
-- `inode_open` reads.
use native.Mathlib.Decide.{dec_le}
use os_elephant.Base.{
  ℕ, ◌+◌, ◌-◌, ◌*◌, ◌/◌, ◌%◌, ◌^◌, ◌<◌, ◌≤◌, ◌≡◌, refl, ap, ◌∙◌, Bool, true, false, ◌&&◌, leb, ltb,
  if◌then◌else◌, ok, arith, lt→ltb,
}
use os_elephant.Ide.{Disk, Buffer, max_lba}
use os_elephant.Ide.Transfer.{Answers, loaded, ide_read-loaded}
use os_elephant.Fs.{Partition, Inode, inode_word, word_at, inode_bytes, inode_at, patch}
use os_elephant.Fs.Bytes.{word_at-byte_of, patched, patch-patched}
use os_elephant.Inode.{
  InodePosition, inode_locate, sectors_of, pure_inode, inode_sync, inode_load, inode_delete,
}

-- Where inode `id` lies.
abbrev pub position : Partition → ℕ → InodePosition
position part id = record {
  two_sector = if ltb (512 - id * 76 % 512) 76 then true else false;
  sector_lba = part.sbk.inode_table_lba + id * 76 / 512;
  offset_size = id * 76 % 512;
}

-- The table's 608 sectors lie in the partition and within what the driver reads.
pub record HasTable (part : Partition) : Type 0 where
  pub within : part.sbk.inode_table_lba + 608 ≤ max_lba
  pub inside : part.sbk.inode_table_lba + 608 ≤ part.start_lba + part.sector_count
  pub small : part.start_lba + part.sector_count < 2 ^ 32

pub inode_locate-position :
    (part : Partition) (id : ℕ)
    → HasTable part
    → id < 4096
    → inode_locate part id ≡ ok (position part id)
unfolding inode_locate
inode_locate-position part id has lt =
    let served : ltb id 4096 ≡ true = lt→ltb id 4096 lt in
    let offset : id * 76 % 2 ^ 32 ≡ id * 76 = omega arith in
    let lba : (part.sbk.inode_table_lba + id * 76 / 512) % 2 ^ 32
        ≡ part.sbk.inode_table_lba + id * 76 / 512 =
      omega (arith, has.within) in
    rw (served, offset, lba) refl

-- A byte of the table, counted from its start.
abbrev pub table_byte : Partition → Disk → ℕ → ℕ
table_byte part d o = d.sectors (part.sbk.inode_table_lba + o / 512) (o % 512)

-- The bytes of inode `id`.
abbrev pub is_byte_of : ℕ → ℕ → Bool
is_byte_of id o = leb (id * 76) o && ltb o (id * 76 + 76)

sectors_of-position :
    (part : Partition) (id : ℕ)
    → (0 < sectors_of (position part id))
      × (sectors_of (position part id) ≤ 2)
      × (id * 76 % 512 + 76 ≤ sectors_of (position part id) * 512)
sectors_of-position part id = ground arith

-- A disk in which the bytes of inode `id` are those of `src`, and all else as before: the rest of the table, and what
-- lies before it.
pub record Slot (part : Partition) (d after : Disk) (id : ℕ) (src : ℕ → ℕ) : Type 0 where
  pub answers : Answers after
  pub table :
      (o : ℕ)
      → table_byte part after o
        ≡ (if is_byte_of id o then src (o - id * 76) else table_byte part d o)
  pub before : (l o : ℕ) → l < part.sbk.inode_table_lba → after.sectors l o ≡ d.sectors l o

slot_byte :
    (T id n o : ℕ) (d : Disk) (src : ℕ → ℕ)
    → id * 76 % 512 + 76 ≤ n * 512
    → patched d (T + id * 76 / 512) n (id * 76 % 512) 76 src (T + o / 512) (o % 512)
      ≡ (if is_byte_of id o then src (o - id * 76) else d.sectors (T + o / 512) (o % 512))
slot_byte T id n o d src room = elim (dec_le (id * 76 / 512) (o / 512)) [
  | yes later ↦
      let at : (T + o / 512 - (T + id * 76 / 512)) * 512 + o % 512 ≡ o - id * 76 / 512 * 512 =
        omega arith in
      let off : o - id * 76 / 512 * 512 - id * 76 % 512 ≡ o - id * 76 = omega arith in
      rw (at, off) (ground arith)
  | no before ↦ ground arith
]

patch-Slot :
    (part : Partition) (d : Disk) (buf : Buffer) (id : ℕ) (src : ℕ → ℕ)
    → HasTable part
    → Answers d
    → id < 4096
    → (after : Disk) × (patch d
          (position part id).sector_lba
          (sectors_of (position part id))
          buf
          (id * 76 % 512)
          76
          src
        ≡ ok after)
      × Slot part d after id src
patch-Slot part d buf id src has ready lt =
    let lba = (position part id).sector_lba in
    let n = sectors_of (position part id) in
    let (pos, two, room) = sectors_of-position part id in
    let (after, run, still, bytes) =
      patch-patched d lba n buf (id * 76 % 512) 76 src ready pos (omega (arith, has.within)) in
    (
      after,
      run,
      record {
        answers = still;
        table = λ o.
            bytes (part.sbk.inode_table_lba + o / 512) (o % 512)
            ∙ slot_byte part.sbk.inode_table_lba id n o d src room;
        before = λ l o below. bytes l o ∙ ground arith;
      },
    )

-- On a partition with an inode table and a drive that answers, `inode_sync` returns; it writes the
-- inode, without what counts in memory only, over the bytes of the inode whose number is its own
-- modulo 256, and changes nothing else in the table or before it.
pub inode_sync-Slot :
    (part : Partition) (inode : Inode) (io_buf : Buffer) (d : Disk)
    → HasTable part
    → Answers d
    → (after : Disk) × (inode_sync part inode io_buf d ≡ ok after)
      × Slot part d after (inode.inode_id % 256) (inode_bytes (pure_inode inode))
unfolding inode_sync
inode_sync-Slot part inode io_buf d has ready =
    let id = inode.inode_id % 256 in
    let (after, run, slot) =
      patch-Slot part d io_buf id (inode_bytes (pure_inode inode)) has ready (omega arith) in
    let inside : leb (position part id).sector_lba ((part.start_lba + part.sector_count) % 2 ^ 32)
        ≡ true =
      ground (arith, has.inside, has.small) in
    (after, rw (inode_locate-position part id has (omega arith), inside) run, slot)

-- `inode_delete` sets the bytes of the inode to 0 and changes nothing else in the table or before it.
pub inode_delete-Slot :
    (part : Partition) (id : ℕ) (io_buf : Buffer) (d : Disk)
    → HasTable part
    → Answers d
    → id < 4096
    → (after : Disk) × (inode_delete part id io_buf d ≡ ok after) × Slot part d after id (λ i. 0)
unfolding inode_delete
inode_delete-Slot part id io_buf d has ready lt =
    let (after, run, slot) = patch-Slot part d io_buf id (λ i. 0) has ready lt in
    let served : ltb id 4096 ≡ true = lt→ltb id 4096 lt in
    let inside : leb (position part id).sector_lba ((part.start_lba + part.sector_count) % 2 ^ 32)
        ≡ true =
      ground (arith, has.inside, has.small) in
    (after, rw (served, inode_locate-position part id has lt, inside) run, slot)

-- Two inodes that agree in what the disk keeps.
pub record Same (a b : Inode) : Type 0 where
  pub inode_id : a.inode_id ≡ b.inode_id
  pub inode_size : a.inode_size ≡ b.inode_size
  pub write_deny : a.write_deny ≡ b.write_deny
  pub inode_blocks : (i : ℕ) → i < 13 → a.inode_blocks i ≡ b.inode_blocks i

-- The fields of an inode fit their words.
pub record Fits (inode : Inode) : Type 0 where
  pub inode_id : inode.inode_id < 2 ^ 32
  pub inode_size : inode.inode_size < 2 ^ 32
  pub inode_blocks : (i : ℕ) → i < 13 → inode.inode_blocks i < 2 ^ 32

block_word : (inode : Inode) (i : ℕ) → i < 13 → inode_word inode (4 + i) ≡ inode.inode_blocks i
block_word inode i lt =
    let index : 4 + i - 4 ≡ i = omega arith in ground (arith, ap inode.inode_blocks index)

-- An inode is read from a buffer that holds its bytes.
pub inode_at-Same :
    (buf : Buffer) (at : ℕ) (inode : Inode)
    → Fits inode
    → ((k : ℕ) → k < 76 → buf (at + k) ≡ inode_bytes (pure_inode inode) k)
    → Same (inode_at buf at) (pure_inode inode)
unfolding inode_at inode_bytes
inode_at-Same buf at inode fits bytes =
    let words = inode_word (pure_inode inode) in
    let field : (i : ℕ) → i < 19 → words i < 2 ^ 32 → word_at buf (at + 4 * i) ≡ words i =
      λ i lt small.
        word_at-byte_of buf (at + 4 * i) words i
          (λ k four. ap buf (omega arith) ∙ bytes (4 * i + k) (omega arith)) small in
    record {
      inode_id = ap (word_at buf) (omega arith) ∙ field 0 (omega arith) fits.inode_id;
      inode_size = field 1 (omega arith) fits.inode_size;
      write_deny =
          let clear : word_at buf (at + 12) ≡ 0 = field 3 (omega arith) (omega arith) in
          rw clear refl;
      inode_blocks = λ i lt.
          let block : words (4 + i) ≡ inode.inode_blocks i = block_word (pure_inode inode) i lt in
          ap (word_at buf) (omega arith)
          ∙ field (4 + i) (omega arith) (rw block (fits.inode_blocks i lt))
          ∙ block;
    }

-- The inode that is read where the table holds the bytes of `inode`.
inode_load-Same :
    (part : Partition) (id : ℕ) (junk : Buffer) (d : Disk) (inode : Inode)
    → HasTable part
    → Answers d
    → id < 4096
    → Fits inode
    → ((i : ℕ) → i < 76 → table_byte part d (id * 76 + i) ≡ inode_bytes (pure_inode inode) i)
    → (read : Inode) × (inode_load part id junk d ≡ ok read) × Same read (pure_inode inode)
unfolding inode_load inode_at
inode_load-Same part id junk d inode has ready lt fits bytes =
    let (pos, two, room) = sectors_of-position part id in
    let n = sectors_of (position part id) in
    let lba = (position part id).sector_lba in
    let buf = loaded d lba n junk in
    let at : (k : ℕ) → k < 76 → buf (id * 76 % 512 + k) ≡ inode_bytes (pure_inode inode) k = λ k lk.
      let within : ltb (id * 76 % 512 + k) (n * 512) ≡ true = ground (arith, room) in
      let sector : lba + (id * 76 % 512 + k) / 512
          ≡ part.sbk.inode_table_lba + (id * 76 + k) / 512 =
        omega arith in
      let offset : (id * 76 % 512 + k) % 512 ≡ (id * 76 + k) % 512 = omega arith in
      rw (within, sector, offset) (bytes k lk) in
    (
      inode_at buf (id * 76 % 512),
      rw
          (
            inode_locate-position part id has lt,
            ide_read-loaded d lba n junk ready pos (omega (arith, has.within)),
          )
          refl,
      inode_at-Same buf (id * 76 % 512) inode fits at,
    )

-- An inode whose number is below 256 and whose fields fit their words, written by `inode_sync` on
-- a partition with an inode table and a drive that answers, is read back by `inode_open` as it
-- was, save for what counts in memory only.
pub inode_load-inode_sync :
    (part : Partition) (inode : Inode) (io_buf junk : Buffer) (d : Disk)
    → HasTable part
    → Answers d
    → Fits inode
    → inode.inode_id < 256
    → (after : Disk) × (read : Inode) × (inode_sync part inode io_buf d ≡ ok after)
      × (inode_load part inode.inode_id junk after ≡ ok read)
      × Same read (pure_inode inode)
inode_load-inode_sync part inode io_buf junk d has ready fits lt =
    let (after, run, slot) = inode_sync-Slot part inode io_buf d has ready in
    let id : inode.inode_id % 256 ≡ inode.inode_id = omega arith in
    let bytes : (i : ℕ)
        → i < 76
        → table_byte part after (inode.inode_id * 76 + i) ≡ inode_bytes (pure_inode inode) i =
      λ i small.
        let offset : inode.inode_id * 76 + i - inode.inode_id * 76 ≡ i = omega arith in
        let mine : is_byte_of inode.inode_id (inode.inode_id * 76 + i) ≡ true = ground arith in
        slot.table (inode.inode_id * 76 + i) ∙ rw (id, mine, offset) refl in
    let (read, loads, same) =
      inode_load-Same part inode.inode_id junk after inode has slot.answers (omega arith) fits
        bytes in
    (after, read, run, loads, same)

-- The number of an inode is cut to eight bits on the way to the disk: on a partition with an inode
-- table and a drive that answers, with an inode whose number is from 256 to 4095, `inode_sync`
-- leaves every byte of that inode on the disk as it was, and writes it over the inode of another
-- number.
pub inode_sync-misplaced :
    (part : Partition) (inode : Inode) (io_buf : Buffer) (d : Disk)
    → HasTable part
    → Answers d
    → 256 ≤ inode.inode_id
    → inode.inode_id < 4096
    → (after : Disk) × (inode_sync part inode io_buf d ≡ ok after)
      × ((i : ℕ)
          → i < 76
          → table_byte part after (inode.inode_id * 76 + i)
            ≡ table_byte part d (inode.inode_id * 76 + i))
      × ((i : ℕ)
          → i < 76
          → table_byte part after (inode.inode_id % 256 * 76 + i)
            ≡ inode_bytes (pure_inode inode) i)
inode_sync-misplaced part inode io_buf d has ready lo hi =
    let (after, run, slot) = inode_sync-Slot part inode io_buf d has ready in
    (
      after,
      run,
      λ i lt.
          let other : is_byte_of (inode.inode_id % 256) (inode.inode_id * 76 + i) ≡ false =
            ground arith in
          slot.table (inode.inode_id * 76 + i) ∙ rw other refl,
      λ i lt.
          let slot_start = inode.inode_id % 256 * 76 in
          let offset : slot_start + i - slot_start ≡ i = omega arith in
          let mine : is_byte_of (inode.inode_id % 256) (slot_start + i) ≡ true = ground arith in
          slot.table (slot_start + i) ∙ rw (mine, offset) refl,
    )
