-- ===== src/Append/Extend.antt =====
-- `put_block` and `extend`: each new block is one of its own, and its address is kept.
use os_elephant.Base.{
  ℕ, zero, suc, ◌+◌, ◌<◌, ◌≤◌, ◌≡◌, ◌≢◌, refl, sym, ◌∙◌, subst, true, false, ◌&&◌, ◌==◌, ltb,
  if◌then◌else◌, update, ok, ◌>>=◌, arith,
}
use native.Mathlib.Decide.{ℕ_discrete, dec_lt}
use os_elephant.Fs.{Inode}
use os_elephant.Blocks.{Volume, of_blocks, mark, block_bitmap_alloc}
use os_elephant.Blocks.Bits.{blocks}
use os_elephant.Append.{Growing, set_block, put_block, extend}
use os_elephant.Append.Sound.{Free}
use os_elephant.Append.Held.{Taken, Holds, New, alloc-New, sync-New}

pub grow-Holds :
    (v0 : Volume) (inode0 : Inode) (lo m n lba : ℕ) (addr : ℕ → ℕ) (g after : Growing)
    → Holds v0 inode0 lo m addr g
    → New v0 g.volume n lba after.volume
    → ((i : ℕ) → lo ≤ i → after.all_blocks i ≡ update g.all_blocks m lba i)
    → ((i : ℕ)
        → i < 13
        → after.inode.inode_blocks i
          ≡ (if ltb m 12 && (i == m) then lba else g.inode.inode_blocks i))
    → after.inode.inode_size ≡ g.inode.inode_size
    → after.inode.inode_id ≡ g.inode.inode_id
    → Holds v0 inode0 lo (m + 1) (update addr m lba) after
grow-Holds v0 inode0 lo m n lba addr g after h new all blocks size id =
    let table : after.inode.inode_blocks 12 ≡ g.inode.inode_blocks 12 =
      blocks 12 (omega arith) ∙ ground arith in
    record {
      same = new.same;
      taken = λ i lt. elim (ℕ_discrete i m) [
        | yes e ↦ let at : (i == m) ≡ true = ground arith in rw at new.taken
        | no ne ↦
            let at : (i == m) ≡ false = ground arith in
            rw at (new.still (addr i) (h.taken i (omega arith)))
      ];
      apart = λ i j lt below.
          let first : (i == m) ≡ false = ground arith in
          rw first (elim (ℕ_discrete j m) [
            | yes e ↦
                let at : (j == m) ≡ true = ground arith in
                rw at (new.was_free (addr i) (h.taken i (omega arith)))
            | no ne ↦
                let at : (j == m) ≡ false = ground arith in rw at (h.apart i j lt (omega arith))
          ]);
      collected = λ i le lt. all i le ∙ ground (arith, h.collected i le);
      direct = λ i low lt. blocks i (omega arith) ∙ ground (arith, h.direct i low);
      empty = λ i low le. blocks i (omega arith) ∙ ground (arith, h.empty i low);
      table = λ filled.
          subst (λ t. Taken v0 after.volume t) (sym table)
            (new.still (g.inode.inode_blocks 12) (h.table (λ e. filled (table ∙ e))));
      table_apart = λ filled i lt e.
          let there : g.inode.inode_blocks 12 ≢ 0 = λ clear. filled (table ∙ clear) in
          let same : update addr m lba i ≡ g.inode.inode_blocks 12 = e ∙ table in
          elim (ℕ_discrete i m) [
            | yes e ↦
                new.was_free (g.inode.inode_blocks 12) (h.table there) (sym same ∙ ground arith)
            | no ne ↦ h.table_apart there i (omega arith) (ground arith)
          ];
      others = λ x t. new.still x (h.others x t);
      own = λ x i t lt e. elim (ℕ_discrete i m) [
        | yes at ↦
            let mine : update addr m lba i ≡ lba = ground arith in
            absurd (new.was_free x (h.others x t) (sym e ∙ mine))
        | no ne ↦
            let old : update addr m lba i ≡ addr i = ground arith in
            h.own x i t (omega arith) (sym old ∙ e)
      ];
      own_table = λ x t e. h.own_table x t (sym table ∙ e);
      size = size ∙ h.size;
      id = id ∙ h.id;
    }

put_block-Holds :
    (v0 : Volume) (inode0 : Inode) (lo m n : ℕ) (addr : ℕ → ℕ) (g : Growing)
    → Holds v0 inode0 lo m addr g
    → Free g.volume (n + 1)
    → (lba : ℕ) × (after : Growing) × ((block_bitmap_alloc g.volume >>= put_block m g)
        ≡ ok (true, after))
      × Holds v0 inode0 lo (m + 1) (update addr m lba) after
      × Free after.volume n
      × (after.inode.inode_blocks 12 ≡ g.inode.inode_blocks 12)
unfolding put_block
put_block-Holds v0 inode0 lo m n addr g h free =
    let (block, run, below, off, new) = alloc-New v0 g.volume n h.same free in
    let v = mark of_blocks block true g.volume in
    let lba = v0.part.sbk.data_start_lba + block in
    let small : block < blocks v0 = omega (arith, h.same.size) in
    let all_blocks = update g.all_blocks m lba in
    elim (dec_lt m 12) [
      | yes direct ↦
          let low : ltb m 12 ≡ true = ground arith in
          let clear : (g.inode.inode_blocks m == 0) ≡ true =
            ground (arith, h.empty m direct (omega arith)) in
          let mid : Growing = record {
            inode = set_block m lba g.inode;
            volume = v;
            all_blocks = all_blocks;
          } in
          let (d, syncs, synced) = sync-New v0 g.volume n block mid new small in
          let after : Growing = record mid { volume = record v { disk = d } } in
          (
            lba,
            after,
            rw (run, low, clear) syncs,
            grow-Holds v0 inode0 lo m n lba addr g after h synced (λ i le. refl)
                (λ i lt. rw low refl) refl refl,
            synced.free,
            ground arith,
          )
      | no far ↦
          let high : ltb m 12 ≡ false = ground arith in
          let mid : Growing = record { inode = g.inode; volume = v; all_blocks = all_blocks } in
          let (d, syncs, synced) = sync-New v0 g.volume n block mid new small in
          let after : Growing = record mid { volume = record v { disk = d } } in
          (
            lba,
            after,
            rw (run, high) syncs,
            grow-Holds v0 inode0 lo m n lba addr g after h synced (λ i le. refl)
                (λ i lt. rw high refl) refl refl,
            synced.free,
            refl,
          )
    ]

-- The loop over the blocks to add: the old addresses stay, and each new one is of its own.
pub extend-Holds :
    (v0 : Volume) (inode0 : Inode) (lo left m n : ℕ) (addr : ℕ → ℕ) (g : Growing)
    → Holds v0 inode0 lo m addr g
    → Free g.volume (left + n)
    → (new : ℕ → ℕ) × (after : Growing) × (extend left m g ≡ ok (true, after))
      × Holds v0 inode0 lo (m + left) new after
      × ((i : ℕ) → i < m → new i ≡ addr i)
      × (after.inode.inode_blocks 12 ≡ g.inode.inode_blocks 12)
unfolding extend
extend-Holds v0 inode0 lo zero m n addr g h free =
    let same : m + 0 ≡ m = omega arith in
    (addr, g, refl, subst (λ k. Holds v0 inode0 lo k addr g) (sym same) h, λ i lt. refl, refl)
extend-Holds v0 inode0 lo (suc left) m n addr g h free =
    let (lba, mid, run, holds, freed, table) =
      put_block-Holds v0 inode0 lo m (left + n) addr g h
        (subst (λ k. Free g.volume k) (omega arith) free) in
    let (new, after, runs, grown, old, still) =
      extend-Holds v0 inode0 lo left (m + 1) n (update addr m lba) mid holds freed in
    let count : m + 1 + left ≡ m + suc left = omega arith in
    (
      new,
      after,
      rw run runs,
      subst (λ k. Holds v0 inode0 lo k new after) count grown,
      λ i lt. old i (omega arith) ∙ ground arith,
      still ∙ table,
    )
