-- ===== src/Append/Add.antt =====
-- `add_blocks`: whatever the numbers of blocks before and after, the file has its blocks.
use os_elephant.Base.{
  ℕ, ◌+◌, ◌-◌, ◌<◌, ◌≤◌, ◌≡◌, ◌≢◌, refl, sym, ◌∙◌, subst, Bool, true, false, ◌==◌, leb, Outcome, ok,
  arith,
}
use native.Mathlib.Decide.{ℕ_discrete, dec_le}
use os_elephant.Fs.{Inode}
use os_elephant.Blocks.{Volume}
use os_elephant.Append.{
  Growing, keep_last, same_blocks, direct_blocks, first_indirect, more_indirect, add_blocks,
}
use os_elephant.Append.Sound.{Free}
use os_elephant.Append.Held.{Holds}
use os_elephant.Append.Extend.{extend-Holds}
use os_elephant.Append.Grown.{Words, Grown, Holds-Grown}
use os_elephant.Append.Table.{keep_last-Holds, read_table-Holds, new_table-Holds, extend-Grown}

module _ (v0 : Volume) (inode0 : Inode) where
  fewer-Grown :
      (lo lo' m : ℕ) (addr : ℕ → ℕ) (g : Growing)
      → lo ≤ lo'
      → Grown v0 inode0 lo m addr g
      → Grown v0 inode0 lo' m addr g
  fewer-Grown lo lo' m addr g le h = record {
    sound = h.sound;
    blocks_of = h.blocks_of;
    sbk = h.sbk;
    start_lba = h.start_lba;
    sector_count = h.sector_count;
    bytes = h.bytes;
    taken = h.taken;
    apart = h.apart;
    collected = λ i far lt. h.collected i (omega arith) lt;
    reads = h.reads;
    empty = h.empty;
    has_table = h.has_table;
    kept_table = h.kept_table;
    table = h.table;
    table_apart = h.table_apart;
    others = h.others;
    own = h.own;
    own_table = h.own_table;
    size = h.size;
    id = h.id;
  }

  -- What the four cases have in common: the addresses of the blocks before stay.
  abbrev Added : (m will : ℕ) (addr : ℕ → ℕ) → Outcome (Bool × Growing) → Type 0
  Added m will addr result =
      (new : ℕ → ℕ) × (after : Growing) × (result ≡ ok (true, after))
      × Grown v0 inode0 (m - 1) will new after
      × ((i : ℕ) → i < m → new i ≡ addr i)

  module _ (m will : ℕ) (addr : ℕ → ℕ) (g : Growing) (h : Holds v0 inode0 140 m addr g)
      (pos : 0 < m) (start : 0 < v0.part.sbk.data_start_lba) (words : Words g m addr)
      (kept : g.inode.inode_blocks 12 ≡ inode0.inode_blocks 12) where
    same_blocks-Added : (12 < m → g.inode.inode_blocks 12 ≢ 0) → Added m m addr (same_blocks m g)
    unfolding same_blocks
    same_blocks-Added there = elim (dec_le m 12) [
      | yes le ↦
          let low : leb m 12 ≡ true = ground arith in
          (
            addr,
            keep_last m g,
            rw low refl,
            Holds-Grown v0 inode0 (m - 1) m addr (keep_last m g)
                (keep_last-Holds v0 inode0 m addr g pos le h) there (λ few. kept) words,
            λ i lt. refl,
          )
      | no far ↦
          let high : leb m 12 ≡ false = ground arith in
          let (after, run, holds, still, all, volume) =
            read_table-Holds v0 inode0 m addr g h (there (omega arith)) words in
          (
            addr,
            after,
            rw high run,
            fewer-Grown 12 (m - 1) m addr after (omega arith) (
                Holds-Grown v0 inode0 12 m addr after holds (λ lt. still)
                  (λ few. absurd (omega arith)) all),
            λ i lt. refl,
          )
    ]

    direct_blocks-Added :
        m ≤ will
        → will ≤ 12
        → Free g.volume (will - m + 1)
        → Added m will addr (direct_blocks m will g)
    unfolding direct_blocks
    direct_blocks-Added le low free =
        let last = h.taken (m - 1) (omega arith) in
        let there : (g.inode.inode_blocks (m - 1) == 0) ≡ false =
          ground (arith, h.direct (m - 1) (omega arith) (omega arith), last.0) in
        let (new, after, run, holds, old, table) =
          extend-Holds v0 inode0 (m - 1) (will - m) m 1 addr (keep_last m g)
            (keep_last-Holds v0 inode0 m addr g pos (omega arith) h) free in
        let count : m + (will - m) ≡ will = omega arith in
        (
          new,
          after,
          rw there run,
          Holds-Grown v0 inode0 (m - 1) will new after
              (subst (λ k. Holds v0 inode0 (m - 1) k new after) count holds)
              (λ far. absurd (omega arith)) (λ few. table ∙ kept)
              (λ i far lt. absurd (omega arith)),
          old,
        )

    first_indirect-Added :
        m ≤ 12
        → 12 < will
        → will ≤ 140
        → g.inode.inode_blocks 12 ≡ 0
        → Free g.volume (will - m + 1)
        → Added m will addr (first_indirect m will g)
    unfolding first_indirect
    first_indirect-Added le far top clear free =
        let (mid, alloc, holds, rest, filled) =
          new_table-Holds v0 inode0 (m - 1) m (will - m) addr (keep_last m g)
            (keep_last-Holds v0 inode0 m addr g pos le h) start clear free in
        let exact : Free mid.volume (will - m + 0) =
          subst (λ k. Free mid.volume k) (omega arith) rest in
        let (new, after, run, grown, old) =
          extend-Grown v0 inode0 (m - 1) m will 0 addr mid holds (omega arith) (omega arith) top far
            filled exact in
        (new, after, rw alloc run, grown, old)

    more_indirect-Added :
        12 < m
        → m ≤ will
        → will ≤ 140
        → g.inode.inode_blocks 12 ≢ 0
        → Free g.volume (will - m + 1)
        → Added m will addr (more_indirect m will g)
    unfolding more_indirect
    more_indirect-Added far le top filled free =
        let (mid, read, holds, still, all, volume) =
          read_table-Holds v0 inode0 m addr g h filled words in
        let (new, after, run, grown, old) =
          extend-Grown v0 inode0 12 m will 1 addr mid holds (omega arith) le top (omega arith) still
            (subst (λ v. Free v (will - m + 1)) (sym volume) free) in
        (new, after, rw read run, fewer-Grown 12 (m - 1) will new after (omega arith) grown, old)

    -- `add_blocks` gives a file its blocks, where enough of them are free.
    pub add_blocks-Added :
        m ≤ will
        → will ≤ 140
        → (m ≤ 12 → g.inode.inode_blocks 12 ≡ 0)
        → (12 < m → g.inode.inode_blocks 12 ≢ 0)
        → Free g.volume (will - m + 1)
        → Added m will addr (add_blocks m will g)
    unfolding add_blocks
    add_blocks-Added le top clear there free = elim (ℕ_discrete will m) [
      | yes e ↦
          let same : (will == m) ≡ true = ground arith in
          rw same (subst (λ k. Added m k addr (same_blocks m g)) (sym e) (same_blocks-Added there))
      | no ne ↦
          let more : (will == m) ≡ false = ground arith in
          elim (dec_le will 12) [
            | yes low ↦
                let direct : leb will 12 ≡ true = ground arith in
                rw (more, direct) (direct_blocks-Added le low free)
            | no high ↦
                let beyond : leb will 12 ≡ false = ground arith in
                elim (dec_le m 12) [
                  | yes near ↦
                      let first : leb m 12 ≡ true = ground arith in
                      rw (more, beyond, first)
                        (first_indirect-Added near (omega arith) top (clear near) free)
                  | no far ↦
                      let later : leb m 12 ≡ false = ground arith in
                      rw (more, beyond, later)
                        (more_indirect-Added (omega arith) le top (there (omega arith)) free)
                ]
          ]
    ]
