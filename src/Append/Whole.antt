-- ===== src/Append/Whole.antt =====
-- What one call of `file_write` does to the file, to the other files and to the free blocks.
use os_elephant.Base.{
  ℕ, ◌+◌, ◌-◌, ◌*◌, ◌/◌, ◌%◌, ◌^◌, ◌<◌, ◌≤◌, ◌≡◌, ◌≢◌, refl, sym, ap, subst, true, false, Option,
  some, ◌==◌, ltb, if◌then◌else◌, Outcome, ok, ◌>>=◌, arith,
}
use native.Mathlib.Decide.{ℕ_discrete}
use os_elephant.Fs.{Inode}
use os_elephant.Blocks.{Volume}
use os_elephant.Blocks.Release.{block_of}
use os_elephant.Append.{Growing, and_then, first_block}
use os_elephant.Append.Sound.{Free}
use os_elephant.Append.Held.{Taken, used_blocks}
use os_elephant.Ide.{Buffer}
use os_elephant.FileTable.{File}
use os_elephant.Inode.Table.{HasTable}
use os_elephant.Files.Read.{content}
use os_elephant.Append.{write_bytes, grow_to, file_write}
use os_elephant.Append.Grow.{Growable, start_of, blocks_for, grow-Grown}
use os_elephant.Append.Fill.{LiesInSector, write_bytes-Filled}
use os_elephant.Base.{panic}
use os_elephant.Files.Read.{IsFile}
use os_elephant.Append.Final.{
  Wrote, final_inode, final_volume, content-Filled, others-Filled, final-Growable,
}

file_write-run :
    (file : File) (inode : Inode) (v : Volume) (buf : Buffer) (count : ℕ) (g : Growing)
    (result : Outcome (Option ℕ × File × Inode × Volume))
    → inode.inode_size + count < 512 * 140
    → (first_block (start_of v inode) >>= λ done. and_then done (grow_to count)) ≡ ok (true, g)
    → write_bytes file buf count (true, g) ≡ result
    → file_write true file inode v buf count ≡ result
unfolding file_write
file_write-run file inode v buf count g result small grows writes =
    let sum : (inode.inode_size + count) % 2 ^ 32 ≡ inode.inode_size + count = omega arith in
    let fits : ltb (512 * 140) (inode.inode_size + count) ≡ false = ground arith in
    rw (sum, fits, grows) writes

pub file_write-Wrote :
    (file : File) (inode : Inode) (v : Volume) (buf : Buffer) (count : ℕ)
    → Growable v inode
    → HasTable v.part
    → v.part.sbk.inode_table_lba + 608 ≤ v.part.sbk.data_start_lba
    → inode.inode_size + count < 512 * 140
    → LiesInSector inode.inode_id
    → Free v (blocks_for (inode.inode_size + count) - blocks_for inode.inode_size + 2)
    → (inode' : Inode) × (after : Volume) × (file_write true file inode v buf count
        ≡ ok (
          some count,
          record file { fd_pos = (inode.inode_size + count + 2 ^ 32 - 1) % 2 ^ 32 },
          inode',
          after,
        ))
      × Wrote v inode buf count inode' after
file_write-Wrote file inode v buf count f has below small lies free =
    let m = blocks_for (inode.inode_size + count) in
    let lo = inode.inode_size / 512 in
    let (addr, g, grows, grown, old) = grow-Grown v inode count f small free in
    let (d, writes, filled) =
      write_bytes-Filled v inode file buf count addr g grown has below small lies in
    (
      final_inode v inode buf count lo addr g d,
      final_volume v inode buf count lo addr g d,
      file_write-run file inode v buf count g
          (ok (
            some count,
            record file { fd_pos = (inode.inode_size + count + 2 ^ 32 - 1) % 2 ^ 32 },
            record (g.inode) { inode_size = inode.inode_size + count },
            record (g.volume) { disk = d },
          ))
          small grows writes,
      record {
        size = refl;
        bytes = content-Filled v inode buf count lo addr g d m f grown filled refl old;
        others = λ l o. others-Filled v inode buf count lo addr g d m l o grown filled old;
        growable = final-Growable v inode buf count lo addr g d m f grown filled refl (omega arith);
        id = grown.id;
        sbk = grown.sbk;
        has = λ table. record {
          within = omega (arith, table.within, ap (λ b. b.inode_table_lba) grown.sbk);
          inside = omega (
            arith,
            table.inside,
            ap (λ b. b.inode_table_lba) grown.sbk,
            grown.start_lba,
            grown.sector_count,
          );
          small = omega (arith, table.small, grown.start_lba, grown.sector_count);
        };
      },
    )

-- `file_write` with memory granted, on a drive that answers and a volume whose block bitmap and
-- inode table lie before its blocks and whose block 0 is in use, for a file whose inode lies in
-- one sector of the inode table and whose blocks and table are in use and all different, with a
-- size that stays below 71680 and two more free blocks than the sectors that the file grows by: it
-- returns the count, the size grows by the count, and the file has its old bytes and behind them
-- those of the buffer.
pub file_write-content :
    (file : File) (inode : Inode) (v : Volume) (buf : Buffer) (count : ℕ)
    → Growable v inode
    → HasTable v.part
    → v.part.sbk.inode_table_lba + 608 ≤ v.part.sbk.data_start_lba
    → inode.inode_size + count < 512 * 140
    → LiesInSector inode.inode_id
    → Free v (blocks_for (inode.inode_size + count) - blocks_for inode.inode_size + 2)
    → (inode' : Inode) × (after : Volume) × (file_write true file inode v buf count
        ≡ ok (
          some count,
          record file { fd_pos = (inode.inode_size + count + 2 ^ 32 - 1) % 2 ^ 32 },
          inode',
          after,
        ))
      × (inode'.inode_size ≡ inode.inode_size + count)
      × ((j : ℕ)
          → j < inode.inode_size + count
          → content after.disk inode' j ≡ (
              if ltb j inode.inode_size
              then content v.disk inode j
              else buf (j - inode.inode_size)))
file_write-content file inode v buf count f has below small lies free =
    let (inode', after, run, wrote) =
      file_write-Wrote file inode v buf count f has below small lies free in
    (inode', after, run, wrote.size, wrote.bytes)

-- `file_write` with memory granted, on a drive that answers and a volume whose block bitmap and
-- inode table lie before its blocks and whose block 0 is in use, for a file whose inode lies in
-- one sector of the inode table and whose blocks and table are in use and all different, with a
-- size that stays below 71680 and two more free blocks than the sectors that the file grows by,
-- leaves a file and a volume of which the same holds: the blocks and the table are in use and all
-- different, the drive answers, the partition is laid out as before, and the inode lies in one
-- sector, so that the file can be written to again as long as blocks are free.
pub file_write-Growable :
    (file : File) (inode : Inode) (v : Volume) (buf : Buffer) (count : ℕ)
    → Growable v inode
    → HasTable v.part
    → v.part.sbk.inode_table_lba + 608 ≤ v.part.sbk.data_start_lba
    → inode.inode_size + count < 512 * 140
    → LiesInSector inode.inode_id
    → Free v (blocks_for (inode.inode_size + count) - blocks_for inode.inode_size + 2)
    → (file' : File) × (inode' : Inode) × (after : Volume) × (file_write true file inode v buf count
        ≡ ok (some count, file', inode', after))
      × Growable after inode'
      × HasTable after.part
      × (after.part.sbk ≡ v.part.sbk)
      × LiesInSector inode'.inode_id
file_write-Growable file inode v buf count f has below small lies free =
    let (inode', after, run, wrote) =
      file_write-Wrote file inode v buf count f has below small lies free in
    (
      record file { fd_pos = (inode.inode_size + count + 2 ^ 32 - 1) % 2 ^ 32 },
      inode',
      after,
      run,
      wrote.growable,
      wrote.has has,
      wrote.sbk,
      subst LiesInSector (sym wrote.id) lies,
    )

-- `file_write` with memory granted, on a drive that answers and a volume whose block bitmap and
-- inode table lie before its blocks and whose block 0 is in use, for a file whose inode lies in
-- one sector of the inode table and whose blocks and table are in use and all different, with a
-- size that stays below 71680 and two more free blocks than the sectors that the file grows by,
-- keeps the bytes of every block of the volume that is in use and is neither a block of this file
-- nor its table.
pub file_write-others :
    (file : File) (inode : Inode) (v : Volume) (buf : Buffer) (count l : ℕ)
    → Growable v inode
    → HasTable v.part
    → v.part.sbk.inode_table_lba + 608 ≤ v.part.sbk.data_start_lba
    → inode.inode_size + count < 512 * 140
    → LiesInSector inode.inode_id
    → Free v (blocks_for (inode.inode_size + count) - blocks_for inode.inode_size + 2)
    → Taken v v l
    → ((i : ℕ) → i < used_blocks inode → l ≢ block_of v.disk inode i)
    → l ≢ inode.inode_blocks 12
    → (file' : File) × (inode' : Inode) × (after : Volume) × (file_write true file inode v buf count
        ≡ ok (some count, file', inode', after))
      × ((o : ℕ) → o < 512 → after.disk.sectors l o ≡ v.disk.sectors l o)
file_write-others file inode v buf count l f has below small lies free taken other no_table =
    let (inode', after, run, wrote) =
      file_write-Wrote file inode v buf count f has below small lies free in
    (
      record file { fd_pos = (inode.inode_size + count + 2 ^ 32 - 1) % 2 ^ 32 },
      inode',
      after,
      run,
      λ o low. wrote.others l o low taken other no_table,
    )

pub Growable-IsFile : (v : Volume) (inode : Inode) → Growable v inode → IsFile v.disk inode
Growable-IsFile v inode f = record {
  answers = f.sound.answers;
  blocks = λ i lt.
      let there : i < used_blocks inode = ground (arith, f.fresh) in
      let (lo, hi, bit) = f.taken i there in omega (arith, hi, f.sound.inside);
  within = elim (ℕ_discrete (inode.inode_blocks 12) 0) [
    | yes clear ↦ omega arith
    | no filled ↦ let (lo, hi, bit) = f.table filled in omega (arith, hi, f.sound.inside)
  ];
  table = λ big. let filled = f.has_table (ground (arith, f.fresh)) in ground (arith, filled);
}

-- `file_write` with memory granted, for a file that has its first block, of which the size and the
-- count make exactly 71680, the size that the call means to allow: it stops at the assertion that
-- the file has at most 140 blocks.
pub file_write-panic :
    (file : File) (inode : Inode) (v : Volume) (buf : Buffer) (count : ℕ)
    → inode.inode_blocks 0 ≢ 0
    → inode.inode_size + count ≡ 512 * 140
    → file_write true file inode v buf count ≡ panic
unfolding file_write first_block grow_to
file_write-panic file inode v buf count there full =
    let filled : (inode.inode_blocks 0 == 0) ≡ false = ground (arith, there) in
    let sum : (inode.inode_size + count) % 2 ^ 32 ≡ 512 * 140 = omega arith in
    rw (sum, filled, sum) refl
