-- ===== src/Files/Read.antt =====
-- `file_read` reads the bytes of the file.
use native.Mathlib.Decide.{dec_lt}
use os_elephant.Base.{
  ℕ, zero, suc, ◌+◌, ◌-◌, ◌*◌, ◌/◌, ◌%◌, ◌^◌, ◌<◌, ◌≤◌, ◌≡◌, inl, inr, refl, ap, true, false, ◌&&◌,
  ◌==◌, leb, ltb, if◌then◌else◌, ok, arith, Bool-cases,
}
use os_elephant.Ide.{Disk, Buffer, max_lba}
use os_elephant.Ide.Transfer.{Answers, loaded, ide_read-loaded}
use os_elephant.Fs.{Inode, word_at, put_bytes}
use os_elephant.Blocks.Release.{block_of}
use os_elephant.Files.{direct, with_table, read_blocks, chunk_size, read_sectors}

-- A byte of the file.
abbrev pub content : Disk → Inode → ℕ → ℕ
content d inode i = d.sectors (block_of d inode (i / 512)) (i % 512)

-- The drive answers, the file's blocks lie within what the driver reads, and a file that reaches
-- block 12 has a table.
pub record IsFile (d : Disk) (inode : Inode) : Type 0 where
  pub answers : Answers d
  pub blocks : (i : ℕ) → i * 512 < inode.inode_size → block_of d inode i ≤ max_lba
  pub within : inode.inode_blocks 12 ≤ max_lba
  pub table : 12 * 512 ≤ inode.inode_size → (inode.inode_blocks 12 == 0) ≡ false

-- The addresses of the blocks `start` to `end` are those of the inode.
abbrev pub Collected : Disk → Inode → (start end : ℕ) → (ℕ → ℕ) → Type 0
Collected d inode start end all_blocks =
    (i : ℕ) → start ≤ i → i ≤ end → all_blocks i ≡ block_of d inode i

with_table-Collected :
    (d : Disk) (inode : Inode) (start end : ℕ) (before : ℕ → ℕ)
    → IsFile d inode
    → (inode.inode_blocks 12 == 0) ≡ false
    → ((i : ℕ) → start ≤ i → i < 12 → before i ≡ inode.inode_blocks i)
    → (all_blocks : ℕ → ℕ) × (with_table d inode before ≡ ok all_blocks)
      × Collected d inode start end all_blocks
unfolding with_table
with_table-Collected d inode start end before file filled same = (
  (λ i.
      if ltb i 12
      then before i
      else word_at (loaded d (inode.inode_blocks 12) 1 (λ q. 0)) (4 * (i - 12))),
  rw
      (ide_read-loaded d (inode.inode_blocks 12) 1 (λ q. 0) file.answers (omega arith)
        (omega (arith, file.within)))
      refl,
  λ i lo hi. ground (arith, same i lo, filled),
)

pub read_blocks-Collected :
    (d : Disk) (inode : Inode) (start end : ℕ)
    → IsFile d inode
    → start ≤ end
    → (12 ≤ end → (inode.inode_blocks 12 == 0) ≡ false)
    → (all_blocks : ℕ → ℕ) × (read_blocks d inode start end ≡ ok all_blocks)
      × Collected d inode start end all_blocks
unfolding read_blocks
read_blocks-Collected d inode start end file le table = elim (Bool-cases (start == end)) [
  | inl same ↦ elim (dec_lt end 12) [
    | yes low ↦
        let below : ltb end 12 ≡ true = ground arith in
        (direct inode end end, rw (same, below) refl, λ i lo hi. ground arith)
    | no high ↦
        let above : ltb end 12 ≡ false = ground arith in
        let (all_blocks, run, at) =
          with_table-Collected d inode start end (λ i. 0) file (table (omega arith))
            (λ i lo hi. absurd (ground arith)) in
        (all_blocks, rw (same, above) run, at)
  ]
  | inr more ↦ elim (dec_lt end 12) [
    | yes low ↦
        let below : ltb end 12 ≡ true = ground arith in
        (direct inode start end, rw (more, below) refl, λ i lo hi. ground arith)
    | no high ↦
        let above : ltb end 12 ≡ false = ground arith in
        let filled = table (omega arith) in
        let over : leb 12 end ≡ true = ground arith in
        elim (Bool-cases (ltb start 12)) [
          | inl both ↦
              let (all_blocks, run, at) =
                with_table-Collected d inode start end (direct inode start 11) file filled
                  (λ i lo hi. ground arith) in
              (all_blocks, rw (more, above, both, over, filled) run, at)
          | inr later ↦
              let (all_blocks, run, at) =
                with_table-Collected d inode start end (λ i. 0) file filled
                  (λ i lo hi. absurd (ground arith)) in
              (all_blocks, rw (more, above, later, filled) run, at)
        ]
  ]
]

-- What the buffer holds when `done` bytes from byte `first` of the file on are read into it.
abbrev pub HasRead : Disk → Inode → (base : Buffer) → (first done : ℕ) → Buffer → Type 0
HasRead d inode base first done buf =
    (q : ℕ) → buf q ≡ (if ltb q done then content d inode (first + q) else base q)

module _ (d : Disk) (inode : Inode) (all_blocks : ℕ → ℕ) (base : Buffer) (first size : ℕ) where
  HasRead-chunk :
      (done n : ℕ) (buf : Buffer)
      → n ≤ 512 - (first + done) % 512
      → all_blocks ((first + done) / 512) ≡ block_of d inode ((first + done) / 512)
      → HasRead d inode base first done buf
      → HasRead d inode base first (done + n) (
          put_bytes buf done n (λ k.
            loaded d (all_blocks ((first + done) / 512)) 1 (λ q. 0) ((first + done) % 512 + k)))
  HasRead-chunk done n buf fits at has q = elim (Bool-cases (leb done q && ltb q (done + n))) [
    | inl inside ↦
        let le : done ≤ q = ground arith in
        let lt : q < done + n = ground arith in
        let sector : (first + done) / 512 ≡ (first + q) / 512 = omega arith in
        let offset : (first + done) % 512 + (q - done) ≡ (first + q) % 512 = omega arith in
        let low : ltb ((first + q) % 512) 512 ≡ true = ground arith in
        let no_sector : (first + q) % 512 / 512 ≡ 0 = omega arith in
        let same_offset : (first + q) % 512 % 512 ≡ (first + q) % 512 = omega arith in
        let before : ltb q (done + n) ≡ true = ground arith in
        rw (inside, at, offset, sector, low, no_sector, same_offset, before)
          (ap (λ l. d.sectors l ((first + q) % 512)) (omega arith))
    | inr outside ↦ rw outside (ground (arith, has q))
  ]

  pub read_sectors-HasRead :
      (fuel done : ℕ) (buf : Buffer)
      → IsFile d inode
      → Collected d inode (first / 512) ((first + size) / 512) all_blocks
      → first + size < 2 ^ 32
      → first + size ≤ inode.inode_size
      → done ≤ size
      → size < done + fuel
      → HasRead d inode base first done buf
      → (after : Buffer) × (read_sectors fuel d all_blocks size done
            (size - done)
            (first + done)
            buf
          ≡ ok (first + size, after))
        × HasRead d inode base first size after
  unfolding read_sectors
  read_sectors-HasRead zero done buf file got small top le enough has = absurd (omega arith)
  read_sectors-HasRead (suc fuel) done buf file got small top le enough has =
      elim (Bool-cases (ltb done size)) [
        | inl more ↦
            let n = chunk_size (size - done) (512 - (first + done) % 512) in
            let lt : done < size = ground arith in
            let fits : (0 < n) × (n ≤ size - done) × (n ≤ 512 - (first + done) % 512) =
              ground arith in
            let at : all_blocks ((first + done) / 512) ≡ block_of d inode ((first + done) / 512) =
              got ((first + done) / 512) (omega arith) (omega arith) in
            let within : all_blocks ((first + done) / 512) ≤ max_lba =
              rw at (file.blocks ((first + done) / 512) (omega arith)) in
            let next : Buffer = put_bytes buf done n (λ k.
              loaded d (all_blocks ((first + done) / 512)) 1 (λ q. 0) ((first + done) % 512 + k)) in
            let (after, run, all) =
              read_sectors-HasRead fuel (done + n) next file got small top (omega (arith, fits.1))
                (omega (arith, fits.0)) (HasRead-chunk done n buf fits.2 at has) in
            let pos : (first + done + n) % 2 ^ 32 ≡ first + (done + n) = omega (arith, fits.1) in
            let left : size - done - n ≡ size - (done + n) = omega arith in
            (
              after,
              rw
                  (
                    more,
                    ide_read-loaded d (all_blocks ((first + done) / 512)) 1 (λ q. 0) file.answers
                        (omega arith) (omega arith),
                    pos,
                    left,
                  )
                  run,
              all,
            )
        | inr over ↦
            let same : done ≡ size = ground arith in (buf, rw (over, same) refl, rw (← same) has)
      ]
