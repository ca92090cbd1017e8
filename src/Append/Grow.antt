-- ===== src/Append/Grow.antt =====
-- The first half of `file_write`: the first block of an empty file, then the blocks that `grow_to` adds.
use os_elephant.Base.{
  ℕ, ◌+◌, ◌-◌, ◌*◌, ◌/◌, ◌%◌, ◌^◌, ◌<◌, ◌≤◌, ◌≡◌, ◌≢◌, refl, sym, ◌∙◌, subst, true, false, ◌==◌,
  leb, ltb, update, ok, ◌>>=◌, arith, Bool-cases, inl, inr,
}
use os_elephant.Fs.{Inode}
use os_elephant.Blocks.{Volume, of_blocks, mark, block_bitmap_idx}
use os_elephant.Blocks.Bits.{blocks, used}
use os_elephant.Blocks.Release.{block_of}
use os_elephant.Append.{
  Growing, set_block, and_then, add_blocks, grow_to, first_block, put_first_block,
}
use os_elephant.Bitmap.Free.{HasFree-less}
use os_elephant.Append.Sound.{IsSound, Free}
use os_elephant.Append.Held.{Taken, Holds, used_blocks, alloc-New, sync-New}
use os_elephant.Append.Extend.{grow-Holds}
use os_elephant.Append.Grown.{Words, Grown}
use os_elephant.Append.Add.{add_blocks-Added}

-- A file whose blocks and table, which are there as its size says, are blocks of the volume, each of
-- its own; block 0 of the volume is in use.
pub record Growable (v : Volume) (inode : Inode) : Type 0 where
  pub sound : IsSound v
  pub root : 0 < blocks v
  pub first : used v 0 ≡ true
  pub start : 0 < v.part.sbk.data_start_lba
  pub few : used_blocks inode ≤ 140
  pub fresh : inode.inode_blocks 0 ≡ 0 → inode.inode_size ≡ 0
  pub taken : (i : ℕ) → i < used_blocks inode → Taken v v (block_of v.disk inode i)
  pub apart :
      (i j : ℕ) → i < j → j < used_blocks inode → block_of v.disk inode i ≢ block_of v.disk inode j
  pub empty : (i : ℕ) → i < 12 → used_blocks inode ≤ i → inode.inode_blocks i ≡ 0
  pub no_table : used_blocks inode ≤ 12 → inode.inode_blocks 12 ≡ 0
  pub has_table : 12 < used_blocks inode → inode.inode_blocks 12 ≢ 0
  pub table : inode.inode_blocks 12 ≢ 0 → Taken v v (inode.inode_blocks 12)
  pub table_apart :
      inode.inode_blocks 12 ≢ 0
      → (i : ℕ) → i < used_blocks inode
      → block_of v.disk inode i ≢ inode.inode_blocks 12

abbrev pub start_of : Volume → Inode → Growing
start_of v inode = record { inode = inode; volume = v; all_blocks = λ i. 0 }

start-Holds :
    (v : Volume) (inode : Inode)
    → Growable v inode
    → Holds v inode 140 (used_blocks inode) (block_of v.disk inode) (start_of v inode)
start-Holds v inode f = record {
  same = record {
    sound = f.sound;
    sbk = refl;
    size = refl;
    start_lba = refl;
    sector_count = refl;
    bytes = λ l o le. refl;
  };
  taken = f.taken;
  apart = f.apart;
  collected = λ i far lt. absurd (omega (arith, f.few));
  direct = λ i low lt. ground arith;
  empty = f.empty;
  table = f.table;
  table_apart = f.table_apart;
  others = λ x t. t;
  own = λ x i t lt e. lt;
  own_table = λ x t e. e;
  size = refl;
  id = refl;
}

start-Words :
    (v : Volume) (inode : Inode)
    → Growable v inode
    → Words (start_of v inode) (used_blocks inode) (block_of v.disk inode)
start-Words v inode f i far lt =
    let there = f.has_table (omega arith) in
    let filled : (inode.inode_blocks 12 == 0) ≡ false = ground (arith, there) in
    let high : ltb i 12 ≡ false = ground arith in rw (filled, high) refl

-- What is known once the file has a first block.
pub record Started (v : Volume) (inode : Inode) (n : ℕ) (addr : ℕ → ℕ) (g : Growing) : Type 0 where
  pub holds : Holds v inode 140 (inode.inode_size / 512 + 1) addr g
  pub words : Words g (inode.inode_size / 512 + 1) addr
  pub table : g.inode.inode_blocks 12 ≡ inode.inode_blocks 12
  pub free : Free g.volume n
  pub old : (i : ℕ) → i < used_blocks inode → addr i ≡ block_of v.disk inode i

first_block-Started :
    (v : Volume) (inode : Inode) (n : ℕ)
    → Growable v inode
    → Free v (n + 1)
    → (addr : ℕ → ℕ) × (after : Growing) × (first_block (start_of v inode) ≡ ok (true, after))
      × Started v inode n addr after
unfolding first_block put_first_block
first_block-Started v inode n f free =
    let h = start-Holds v inode f in
    elim (Bool-cases (inode.inode_blocks 0 == 0)) [
      | inl clear ↦
          let none_yet : used_blocks inode ≡ 0 = rw clear refl in
          let no_bytes : inode.inode_size ≡ 0 = f.fresh (ground arith) in
          let one : inode.inode_size / 512 + 1 ≡ 1 = omega arith in
          let (block, run, below, off, new) = alloc-New v v n h.same free in
          let marked = mark of_blocks block true v in
          let lba = v.part.sbk.data_start_lba + block in
          let there : block ≢ 0 = ground (arith, f.first) in
          let index : block_bitmap_idx marked lba ≡ block = omega (arith, f.sound.inside) in
          let valid : (block_bitmap_idx marked lba == 0) ≡ false = ground arith in
          let mid : Growing = record {
            inode = set_block 0 lba inode;
            volume = marked;
            all_blocks = λ i. 0;
          } in
          let (d, syncs, synced) = sync-New v v n block mid new below in
          let after : Growing = record mid { volume = record marked { disk = d } } in
          let empty =
            subst (λ m. Holds v inode 140 m (block_of v.disk inode) (start_of v inode)) none_yet
              h in
          let grown =
            grow-Holds v inode 140 0 n lba (block_of v.disk inode) (start_of v inode) after empty
              synced (λ i far. ground arith) (λ i lt. ground arith) refl refl in
          (
            update (block_of v.disk inode) 0 lba,
            after,
            rw (clear, run, valid) syncs,
            record {
              holds =
                  subst (λ m. Holds v inode 140 m (update (block_of v.disk inode) 0 lba) after)
                    (sym one) grown;
              words = λ i far lt. absurd (omega arith);
              table = ground arith;
              free = synced.free;
              old = λ i lt. absurd (omega arith);
            },
          )
      | inr there ↦
          let size : used_blocks inode ≡ inode.inode_size / 512 + 1 = rw there refl in
          (
            block_of v.disk inode,
            start_of v inode,
            rw there refl,
            record {
              holds =
                  subst (λ m. Holds v inode 140 m (block_of v.disk inode) (start_of v inode)) size
                    h;
              words =
                  subst (λ m. Words (start_of v inode) m (block_of v.disk inode)) size
                    (start-Words v inode f);
              table = refl;
              free = HasFree-less v.part.block_bitmap n free;
              old = λ i lt. refl;
            },
          )
    ]

-- The blocks of a file that is to have `size` bytes.
abbrev pub blocks_for : ℕ → ℕ
blocks_for size = size / 512 + 1

grow_to-add_blocks :
    (g : Growing) (size count : ℕ)
    → g.inode.inode_size ≡ size
    → size + count < 512 * 140
    → grow_to count g ≡ add_blocks (blocks_for size) (blocks_for (size + count)) g
unfolding grow_to
grow_to-add_blocks g size count e small =
    let sum : (size + count) % 2 ^ 32 ≡ size + count = omega arith in
    let fits : leb (blocks_for (size + count)) 140 ≡ true = ground arith in rw (e, sum, fits) refl

-- A file gets the blocks for `count` more bytes, where enough blocks are free.
pub grow-Grown :
    (v : Volume) (inode : Inode) (count : ℕ)
    → Growable v inode
    → inode.inode_size + count < 512 * 140
    → Free v (blocks_for (inode.inode_size + count) - blocks_for inode.inode_size + 2)
    → (new : ℕ → ℕ) × (after : Growing) × ((first_block (start_of v inode) >>= λ done.
          and_then done (grow_to count))
        ≡ ok (true, after))
      × Grown v inode (inode.inode_size / 512) (blocks_for (inode.inode_size + count)) new after
      × ((i : ℕ) → i < used_blocks inode → new i ≡ block_of v.disk inode i)
grow-Grown v inode count f small free =
    let m = blocks_for inode.inode_size in
    let will = blocks_for (inode.inode_size + count) in
    let (addr, mid, starts, s) =
      first_block-Started v inode (will - m + 1) f (subst (λ n. Free v n) (omega arith) free) in
    let (new, after, adds, grown, old) =
      add_blocks-Added v inode m will addr mid s.holds (omega arith) f.start s.words s.table
        (omega arith) (omega arith) (λ low. s.table ∙ f.no_table (ground arith))
        (λ far clear. f.has_table (ground (arith, f.fresh)) (sym s.table ∙ clear)) s.free in
    let last : m - 1 ≡ inode.inode_size / 512 = omega arith in
    (
      new,
      after,
      rw starts (grow_to-add_blocks mid inode.inode_size count s.holds.size small ∙ adds),
      subst (λ lo. Grown v inode lo will new after) last grown,
      λ i lt. old i (ground arith) ∙ s.old i lt,
    )
