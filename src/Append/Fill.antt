-- ===== src/Append/Fill.antt =====
-- The second half of `file_write`, for a file that has its blocks: the bytes and the inode.
use os_elephant.Base.{
  ℕ, suc, ◌+◌, ◌-◌, ◌*◌, ◌/◌, ◌%◌, ◌^◌, ◌<◌, ◌≤◌, ◌≡◌, ◌≢◌, refl, sym, ap, ◌∙◌, subst, true, false,
  some, ltb, if◌then◌else◌, ok, arith,
}
use os_elephant.Ide.{Disk}
use os_elephant.Ide.Transfer.{Answers}
use os_elephant.Fs.{Partition, Inode}
use os_elephant.Blocks.{Volume}
use os_elephant.Append.{Growing}
use os_elephant.Append.Grown.{Grown, Grown-InData}
use os_elephant.Ide.{Buffer}
use os_elephant.FileTable.{File}
use os_elephant.Inode.{inode_sync, pure_inode}
use os_elephant.Fs.{inode_bytes}
use os_elephant.Inode.Table.{
  HasTable, Slot, inode_locate-position, inode_sync-Slot, table_byte, is_byte_of,
}
use os_elephant.Append.{write_sectors, sync_inode, write_bytes}
use os_elephant.Append.Grow.{blocks_for}
use os_elephant.Append.Write.{byte_in, write_sectors-HasWritten}

-- Writing an inode changes no sector behind the inode table.
pub Slot-behind :
    (part : Partition) (d after : Disk) (id l o : ℕ) (src : ℕ → ℕ)
    → id < 4096
    → Slot part d after id src
    → part.sbk.inode_table_lba + 608 ≤ l
    → o < 512
    → after.sectors l o ≡ d.sectors l o
Slot-behind part d after id l o src lt slot far low =
    let at = (l - part.sbk.inode_table_lba) * 512 + o in
    let sector : part.sbk.inode_table_lba + at / 512 ≡ l = omega arith in
    let offset : at % 512 ≡ o = omega arith in
    let behind : is_byte_of id at ≡ false = ground arith in
    let there : table_byte part after at ≡ table_byte part d at = slot.table at ∙ rw behind refl in
    sym (ap (λ x. after.sectors x (at % 512)) sector ∙ ap (after.sectors l) offset)
    ∙ there
    ∙ ap (λ x. d.sectors x (at % 512)) sector
    ∙ ap (d.sectors l) offset

-- An inode of this number lies in one sector of the inode table.
abbrev pub LiesInSector : ℕ → Type 0
LiesInSector id = id % 256 * 76 % 512 + 76 ≤ 512

-- Such an inode is written within the buffer.
sync_inode-run :
    (part : Partition) (inode : Inode) (io_buf : Buffer) (d after : Disk)
    → HasTable part
    → LiesInSector inode.inode_id
    → inode_sync part inode io_buf d ≡ ok after
    → sync_inode part inode io_buf d ≡ ok after
unfolding sync_inode
sync_inode-run part inode io_buf d after has lies run =
    let inside : ltb (512 - inode.inode_id % 256 * 76 % 512) 76 ≡ false = ground (arith, lies) in
    rw (inode_locate-position part (inode.inode_id % 256) has (omega arith), run, inside) refl

-- The call, from the runs of its loop and of `sync_inode`.
pub write_bytes-run :
    (file : File) (buf : Buffer) (count size : ℕ) (g : Growing) (mid after : Disk) (last : Buffer)
    → g.inode.inode_size ≡ size
    → write_sectors
        (suc count)
        true
        g.all_blocks
        buf
        count
        0
        (count - 0)
        (size + 0)
        ((size + 0 + 2 ^ 32 - 1) % 2 ^ 32)
        (λ q. 0)
        g.volume.disk
      ≡ ok (size + count, (size + count + 2 ^ 32 - 1) % 2 ^ 32, mid, last)
    → sync_inode g.volume.part (record (g.inode) { inode_size = size + count }) last mid ≡ ok after
    → write_bytes file buf count (true, g)
      ≡ ok (
        some count,
        record file { fd_pos = (size + count + 2 ^ 32 - 1) % 2 ^ 32 },
        record (g.inode) { inode_size = size + count },
        record (g.volume) { disk = after },
      )
unfolding write_bytes
write_bytes-run file buf count size g mid after last e run sync =
    let left : count - 0 ≡ count = omega arith in
    let none_yet : size + 0 ≡ size = omega arith in
    let exact = rw (left, none_yet) at run in rw (e, exact, sync) refl

-- A disk after the bytes and the inode of a grown file are written.
pub record Filled (v0 : Volume) (addr : ℕ → ℕ) (m size count : ℕ) (buf : Buffer) (g : Growing)
    (d : Disk) : Type 0 where
  pub answers : Answers d
  pub bytes :
      (j : ℕ)
      → j < size + count
      → byte_in addr d j ≡ (if ltb j size then byte_in addr g.volume.disk j else buf (j - size))
  pub others :
      (l o : ℕ)
      → o < 512
      → v0.part.sbk.data_start_lba ≤ l
      → ((i : ℕ) → i < m → l ≢ addr i)
      → d.sectors l o ≡ g.volume.disk.sectors l o

pub write_bytes-Filled :
    (v0 : Volume) (inode0 : Inode) (file : File) (buf : Buffer) (count : ℕ) (addr : ℕ → ℕ)
    (g : Growing)
    → Grown v0 inode0 (inode0.inode_size / 512) (blocks_for (inode0.inode_size + count)) addr g
    → HasTable v0.part
    → v0.part.sbk.inode_table_lba + 608 ≤ v0.part.sbk.data_start_lba
    → inode0.inode_size + count < 512 * 140
    → LiesInSector inode0.inode_id
    → (d : Disk) × (write_bytes file buf count (true, g)
        ≡ ok (
          some count,
          record file { fd_pos = (inode0.inode_size + count + 2 ^ 32 - 1) % 2 ^ 32 },
          record (g.inode) { inode_size = inode0.inode_size + count },
          record (g.volume) { disk = d },
        ))
      × Filled v0 addr (blocks_for (inode0.inode_size + count)) inode0.inode_size count buf g d
write_bytes-Filled v0 inode0 file buf count addr g grown has below small lies =
    let size = inode0.inode_size in
    let m = blocks_for (size + count) in
    let (mid, last, writes, w) =
      write_sectors-HasWritten addr m size count buf g.volume.disk g.all_blocks grown.apart
        (λ i lt. let in_data = Grown-InData (addr i) grown (grown.taken i lt) in in_data.1)
        grown.collected (omega arith) (omega arith) (suc count) 0 true (λ q. 0) g.volume.disk
        (omega arith) (omega arith) (λ e. absurd (ground arith))
        (record {
          answers = grown.sound.answers;
          bytes = λ j lt. ground arith;
          others = λ l o other. refl;
        }) in
    let table : g.volume.part.sbk.inode_table_lba ≡ v0.part.sbk.inode_table_lba =
      ap (λ b. b.inode_table_lba) grown.sbk in
    let has_table : HasTable g.volume.part = record {
      within = omega (arith, has.within);
      inside = omega (arith, has.inside, grown.start_lba, grown.sector_count);
      small = omega (arith, has.small, grown.start_lba, grown.sector_count);
    } in
    let (d, syncs, slot) =
      inode_sync-Slot g.volume.part (record (g.inode) { inode_size = size + count }) last mid
        has_table w.answers in
    let fits =
      sync_inode-run g.volume.part (record (g.inode) { inode_size = size + count }) last mid d
        has_table (subst LiesInSector (sym grown.id) lies) syncs in
    let behind : (l o : ℕ)
        → o < 512
        → v0.part.sbk.data_start_lba ≤ l
        → d.sectors l o ≡ mid.sectors l o =
      λ l o low far.
        Slot-behind g.volume.part mid d (g.inode.inode_id % 256) l o
          (inode_bytes (pure_inode (record (g.inode) { inode_size = size + count }))) (omega arith)
          slot (omega arith) low in
    (
      d,
      write_bytes-run file buf count size g mid d last grown.size writes fits,
      record {
        answers = slot.answers;
        bytes = λ j lt.
            behind (addr (j / 512)) (j % 512) (omega arith) (grown.taken (j / 512) (omega arith)).0
            ∙ w.bytes j lt;
        others = λ l o low far other. behind l o low far ∙ w.others l o other;
      },
    )
