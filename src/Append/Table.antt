-- ===== src/Append/Table.antt =====
-- The address of the last block in use, and the table: read, new, or written after the blocks are added.
use os_elephant.Base.{
  ℕ, ◌+◌, ◌-◌, ◌*◌, ◌<◌, ◌≤◌, ◌≡◌, ◌≢◌, refl, sym, ap, ◌∙◌, subst, true, false, ◌==◌, ltb,
  if◌then◌else◌, ok, ◌>>=◌, arith,
}
use os_elephant.Ide.Transfer.{loaded, ide_read-loaded}
use os_elephant.Fs.{Inode, word_at}
use os_elephant.Blocks.{Volume, of_blocks, mark, block_bitmap_alloc}
use os_elephant.Append.{
  Growing, set_block, and_then, extend, read_table, write_table, new_table, keep_last,
}
use os_elephant.Append.Sound.{Free}
use os_elephant.Append.Held.{Holds, alloc-New}
use os_elephant.Append.Extend.{extend-Holds}
use os_elephant.Append.Grown.{Words, Grown, Taken-InData, write_table-Grown}

module _ (v0 : Volume) (inode0 : Inode) where
  pub keep_last-Holds :
      (m : ℕ) (addr : ℕ → ℕ) (g : Growing)
      → 0 < m
      → m ≤ 12
      → Holds v0 inode0 140 m addr g
      → Holds v0 inode0 (m - 1) m addr (keep_last m g)
  keep_last-Holds m addr g pos low h = record {
    same = h.same;
    taken = h.taken;
    apart = h.apart;
    collected = λ i le lt.
        let last : i ≡ m - 1 = omega arith in
        let self : (i == m - 1) ≡ true = ground arith in
        rw self (ap g.inode.inode_blocks (sym last) ∙ h.direct i (omega arith) lt);
    direct = h.direct;
    empty = h.empty;
    table = h.table;
    table_apart = h.table_apart;
    others = h.others;
    own = h.own;
    own_table = h.own_table;
    size = h.size;
    id = h.id;
  }

  pub read_table-Holds :
      (m : ℕ) (addr : ℕ → ℕ) (g : Growing)
      → Holds v0 inode0 140 m addr g
      → g.inode.inode_blocks 12 ≢ 0
      → Words g m addr
      → (after : Growing) × (read_table g ≡ ok (true, after))
        × Holds v0 inode0 12 m addr after
        × (after.inode.inode_blocks 12 ≢ 0)
        × Words after m addr
        × (after.volume ≡ g.volume)
  unfolding read_table
  read_table-Holds m addr g h filled words =
      let lba = g.inode.inode_blocks 12 in
      let at = Taken-InData lba h.same (h.table filled) in
      let there : (lba == 0) ≡ false = ground arith in
      (
        record g {
          all_blocks = λ i.
              if ltb i 12
              then g.all_blocks i
              else word_at (loaded g.volume.disk lba 1 (λ q. 0)) (4 * (i - 12));
        },
        rw
            (
              there,
              ide_read-loaded g.volume.disk lba 1 (λ q. 0) h.same.sound.answers (omega arith)
                  (omega (arith, at.1)),
            )
            refl,
        record {
          same = h.same;
          taken = h.taken;
          apart = h.apart;
          collected =
              λ i le lt. let far : ltb i 12 ≡ false = ground arith in rw far (words i le lt);
          direct = h.direct;
          empty = h.empty;
          table = h.table;
          table_apart = h.table_apart;
          others = h.others;
          own = h.own;
          own_table = h.own_table;
          size = h.size;
          id = h.id;
        },
        filled,
        words,
        refl,
      )

  pub new_table-Holds :
      (lo m n : ℕ) (addr : ℕ → ℕ) (g : Growing)
      → Holds v0 inode0 lo m addr g
      → 0 < v0.part.sbk.data_start_lba
      → g.inode.inode_blocks 12 ≡ 0
      → Free g.volume (n + 1)
      → (after : Growing) × ((block_bitmap_alloc g.volume >>= new_table g) ≡ ok (true, after))
        × Holds v0 inode0 lo m addr after
        × Free after.volume n
        × (after.inode.inode_blocks 12 ≢ 0)
  unfolding new_table
  new_table-Holds lo m n addr g h pos clear free =
      let (block, run, below, off, new) = alloc-New v0 g.volume n h.same free in
      let lba = v0.part.sbk.data_start_lba + block in
      let none_yet : (g.inode.inode_blocks 12 == 0) ≡ true = ground (arith, clear) in
      (
        record g { inode = set_block 12 lba g.inode; volume = mark of_blocks block true g.volume },
        rw (run, none_yet) refl,
        record {
          same = new.same;
          taken = λ i lt. new.still (addr i) (h.taken i lt);
          apart = h.apart;
          collected = h.collected;
          direct = λ i low lt. ground (arith, h.direct i low lt);
          empty = λ i low le. ground (arith, h.empty i low le);
          table = λ filled. new.taken;
          table_apart = λ filled i lt. new.was_free (addr i) (h.taken i lt);
          others = λ x t. new.still x (h.others x t);
          own = h.own;
          own_table = λ x t e. absurd (new.was_free x (h.others x t) (sym e));
          size = h.size;
          id = h.id;
        },
        new.free,
        omega arith,
      )

  -- More blocks and then the table.
  pub extend-Grown :
      (lo m will n : ℕ) (addr : ℕ → ℕ) (g : Growing)
      → Holds v0 inode0 lo m addr g
      → lo ≤ 12
      → m ≤ will
      → will ≤ 140
      → 12 < will
      → g.inode.inode_blocks 12 ≢ 0
      → Free g.volume (will - m + n)
      → (new : ℕ → ℕ) × (after : Growing) × ((extend (will - m) m g >>= λ all.
            and_then all write_table)
          ≡ ok (true, after))
        × Grown v0 inode0 lo will new after
        × ((i : ℕ) → i < m → new i ≡ addr i)
  extend-Grown lo m will n addr g h low le top far filled free =
      let (new, mid, run, holds, old, table) =
        extend-Holds v0 inode0 lo (will - m) m n addr g h free in
      let count : m + (will - m) ≡ will = omega arith in
      let exact = subst (λ k. Holds v0 inode0 lo k new mid) count holds in
      let (after, writes, grown) =
        write_table-Grown v0 inode0 lo will new mid exact low top far
          (λ e. filled (sym table ∙ e)) in
      (new, after, rw run writes, grown, old)
