-- ===== src/Append/Final.antt =====
-- What a write leaves: the bytes of the file and of the other blocks in use, and a file that can be
-- written to again.
use os_elephant.Base.{
  ℕ, ◌+◌, ◌-◌, ◌/◌, ◌%◌, ◌<◌, ◌≤◌, ◌≡◌, ◌≢◌, sym, ap, ◌∙◌, subst, true, false, ◌==◌, ltb,
  if◌then◌else◌, arith, fun_ext,
}
use native.Mathlib.Decide.{dec_lt}
use os_elephant.Ide.{Disk}
use os_elephant.Ide.Transfer.{loaded}
use os_elephant.Fs.{Inode}
use os_elephant.Blocks.{Volume}
use os_elephant.Blocks.Bits.{used}
use os_elephant.Blocks.Release.{block_of}
use os_elephant.Append.{Growing}
use os_elephant.Append.Held.{Taken, used_blocks}
use os_elephant.Inode.Table.{HasTable}
use os_elephant.Append.Grown.{Grown}
use os_elephant.Ide.{Buffer}
use os_elephant.Files.Read.{content}
use os_elephant.Append.Grow.{Growable, blocks_for}
use os_elephant.Append.Fill.{Filled}

loaded-same :
    (a b : Disk) (lba : ℕ)
    → ((o : ℕ) → o < 512 → a.sectors lba o ≡ b.sectors lba o)
    → loaded a lba 1 (λ q. 0) ≡ loaded b lba 1 (λ q. 0)
loaded-same a b lba same = fun_ext λ q. elim (dec_lt q 512) [
  | yes low ↦
      let below : ltb q 512 ≡ true = ground arith in
      let sector : lba + q / 512 ≡ lba = omega arith in
      rw (below, sector) (same (q % 512) (omega arith))
  | no high ↦ ground arith
]

-- The volume and the inode after a write.
pub record Wrote (v : Volume) (inode : Inode) (buf : Buffer) (count : ℕ) (inode' : Inode)
    (after : Volume) : Type 0 where
  pub size : inode'.inode_size ≡ inode.inode_size + count
  pub bytes :
      (j : ℕ)
      → j < inode.inode_size + count
      → content after.disk inode' j
        ≡ (if ltb j inode.inode_size then content v.disk inode j else buf (j - inode.inode_size))
  pub others :
      (l o : ℕ)
      → o < 512
      → Taken v v l
      → ((i : ℕ) → i < used_blocks inode → l ≢ block_of v.disk inode i)
      → l ≢ inode.inode_blocks 12
      → after.disk.sectors l o ≡ v.disk.sectors l o
  pub growable : Growable after inode'
  pub id : inode'.inode_id ≡ inode.inode_id
  pub sbk : after.part.sbk ≡ v.part.sbk
  pub has : HasTable v.part → HasTable after.part

module _ (v0 : Volume) (inode0 : Inode) (buf : Buffer) (count lo : ℕ) (addr : ℕ → ℕ) (g : Growing)
    (d : Disk) where
  abbrev total : ℕ
  total = inode0.inode_size + count

  abbrev pub final_inode : Inode
  final_inode = record (g.inode) { inode_size = total }

  abbrev pub final_volume : Volume
  final_volume = record (g.volume) { disk = d }

  table-apart :
      (m i : ℕ)
      → Grown v0 inode0 lo m addr g
      → 0 < v0.part.sbk.data_start_lba
      → i < m
      → addr i ≢ g.inode.inode_blocks 12
  table-apart m i grown start lt e =
      let above = grown.taken i lt in
      grown.table_apart (λ clear. absurd (omega (arith, above.0, e))) i lt e

  block_of-Filled :
      (m i : ℕ)
      → Grown v0 inode0 lo m addr g
      → Filled v0 addr m inode0.inode_size count buf g d
      → i < m
      → block_of d final_inode i ≡ addr i
  block_of-Filled m i grown filled lt = elim (dec_lt i 12) [
    | yes low ↦
        let direct : ltb i 12 ≡ true = ground arith in rw direct (rw direct at (grown.reads i lt))
    | no high ↦
        let far : ltb i 12 ≡ false = ground arith in
        let t = g.inode.inode_blocks 12 in
        let there = grown.has_table (omega arith) in
        let filled_in : (t == 0) ≡ false = ground (arith, there) in
        let same = loaded-same d g.volume.disk t (λ o small.
          filled.others t o small (grown.table there).0
            (λ k lk e. grown.table_apart there k lk (sym e))) in
        rw (far, filled_in, same) (rw (far, filled_in) at (grown.reads i lt))
  ]

  -- The file's bytes are the old ones, and then those of the buffer.
  pub content-Filled :
      (m : ℕ)
      → Growable v0 inode0
      → Grown v0 inode0 lo m addr g
      → Filled v0 addr m inode0.inode_size count buf g d
      → m ≡ blocks_for total
      → ((i : ℕ) → i < used_blocks inode0 → addr i ≡ block_of v0.disk inode0 i)
      → (j : ℕ) → j < total
      → content d final_inode j ≡ (
          if ltb j inode0.inode_size then content v0.disk inode0 j else buf (j - inode0.inode_size))
  content-Filled m f grown filled e old j lt =
      let i = j / 512 in
      let below : i < m = omega arith in
      ap (λ x. d.sectors x (j % 512)) (block_of-Filled m i grown filled below)
      ∙ filled.bytes j lt
      ∙ elim (dec_lt j inode0.inode_size) [
        | yes before ↦
            let mine : ltb j inode0.inode_size ≡ true = ground arith in
            rw mine (
              grown.bytes (addr i) (j % 512) (grown.taken i below).0
                (table-apart m i grown f.start below)
              ∙ ap (λ x. v0.disk.sectors x (j % 512)) (old i (ground (arith, f.fresh))))
        | no behind ↦ ground arith
      ]

  -- A block in use that is not one of the file's keeps its bytes.
  pub others-Filled :
      (m l o : ℕ)
      → Grown v0 inode0 lo m addr g
      → Filled v0 addr m inode0.inode_size count buf g d
      → ((i : ℕ) → i < used_blocks inode0 → addr i ≡ block_of v0.disk inode0 i)
      → o < 512
      → Taken v0 v0 l
      → ((i : ℕ) → i < used_blocks inode0 → l ≢ block_of v0.disk inode0 i)
      → l ≢ inode0.inode_blocks 12
      → d.sectors l o ≡ v0.disk.sectors l o
  others-Filled m l o grown filled old low taken other no_table =
      filled.others l o low taken.0
        (λ i lt e. let mine = grown.own l i taken lt (sym e) in other i mine (e ∙ old i mine))
      ∙ grown.bytes l o taken.0 (λ e. no_table (sym (grown.own_table l taken (sym e))))

  pub final-Growable :
      (m : ℕ)
      → Growable v0 inode0
      → Grown v0 inode0 lo m addr g
      → Filled v0 addr m inode0.inode_size count buf g d
      → m ≡ blocks_for total
      → m ≤ 140
      → Growable final_volume final_inode
  final-Growable m f grown filled e few =
      let start : g.volume.part.sbk.data_start_lba ≡ v0.part.sbk.data_start_lba =
        ap (λ b. b.data_start_lba) grown.sbk in
      let first = grown.taken 0 (omega arith) in
      let direct : g.inode.inode_blocks 0 ≡ addr 0 = grown.reads 0 (omega arith) in
      let there : (g.inode.inode_blocks 0 == 0) ≡ false = ground (arith, first.0, f.start) in
      let count_of : used_blocks final_inode ≡ m = ground (arith, there) in
      let retake : (lba : ℕ) → Taken v0 g.volume lba → Taken final_volume final_volume lba =
        λ lba t. (
          omega (arith, t.0, start),
          omega (arith, t.1, start, grown.blocks_of),
          ap (λ x. used g.volume (lba - x)) start ∙ t.2,
        ) in
      let lba0 = v0.part.sbk.data_start_lba in
      let none_before : lba0 - lba0 ≡ 0 = omega arith in
      let root =
        grown.others lba0
          (omega arith, omega (arith, f.root), ap (used v0) none_before ∙ f.first) in
      let at : (i : ℕ) → i < used_blocks final_inode → block_of d final_inode i ≡ addr i =
        λ i lt. block_of-Filled m i grown filled (omega arith) in
      record {
        sound = record {
          answers = filled.answers;
          valid = grown.sound.valid;
          apart = grown.sound.apart;
          inside = grown.sound.inside;
        };
        root = omega (arith, f.root, grown.blocks_of);
        first = sym (ap (used g.volume) none_before) ∙ root.2;
        start = omega (arith, f.start);
        few = omega arith;
        fresh = λ clear. absurd (ground arith);
        taken = λ i lt.
            subst (λ x. Taken final_volume final_volume x) (sym (at i lt))
              (retake (addr i) (grown.taken i (omega arith)));
        apart = λ i j lt below e.
            grown.apart i j lt (omega arith) (sym (at i (omega arith)) ∙ e ∙ at j below);
        empty = λ i low le. grown.empty i low (omega arith);
        no_table = λ low.
            grown.kept_table (omega arith)
            ∙ f.no_table (let near : m ≤ 12 = omega (arith, count_of) in ground (arith, near, e));
        has_table = λ far. grown.has_table (omega arith);
        table = λ filled_in. retake (g.inode.inode_blocks 12) (grown.table filled_in);
        table_apart = λ filled_in i lt same.
            grown.table_apart filled_in i (omega arith) (sym (at i lt) ∙ same);
      }
