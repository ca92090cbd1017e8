-- ===== src/Sys/Seek.antt =====
-- `sys_lseek`, and `sys_read` after it.
use os_elephant.Base.{
  ℕ, zero, suc, ◌+◌, ◌-◌, ◌*◌, ◌%◌, ◌^◌, ◌<◌, ◌≡◌, inl, inr, refl, sym, ◌∙◌, subst, true, false,
  not, ◌&&◌, ◌||◌, Option, none, some, ◌==◌, leb, ltb, if◌then◌else◌, update, ok, arith, Bool-cases,
}
use native.Mathlib.Decide.{dec_lt}
use os_elephant.Ide.{Buffer}
use os_elephant.Fs.{Inode}
use os_elephant.FileTable.{File, fd_local2global}
use os_elephant.Files.{file_read}
use os_elephant.Files.Read.{IsFile, content}
use os_elephant.Files.Whole.{readable, file_read-content}
use os_elephant.Sys.{Sys, negative, signed_gt, sys_lseek, sys_read}

-- The open file at an index of the table, and its inode.
abbrev pub inode_at_index : Sys → ℕ → Inode
inode_at_index s g = s.inodes.inodes (s.file_table g).fd_inode

-- Where an offset counts from: the start of the file for 1, the place in it for 2, its end for 3.
abbrev pub origin : Sys → (g whence : ℕ) → ℕ
origin s g (suc zero) = 0
origin s g (suc (suc zero)) = (s.file_table g).fd_pos
origin s g whence = (inode_at_index s g).inode_size

-- The place that an offset of 32 bits in two's complement leads to from `base`, if that lies in a
-- file of `size` bytes.
abbrev pub place : (base offset size : ℕ) → Option ℕ
place base offset size =
    if ltb offset (2 ^ 31)
    then (if ltb (base + offset) size then some (base + offset) else none)
    else if leb (2 ^ 32 - offset) base && ltb (base - (2 ^ 32 - offset)) size
    then some (base - (2 ^ 32 - offset))
    else none

-- The system with the place of one file set.
abbrev pub moved : ℕ → ℕ → Sys → Sys
moved g pos s = record s {
  file_table = update s.file_table g (record (s.file_table g) { fd_pos = pos });
}

-- The answer of `sys_lseek` when the place is known, or there is none.
abbrev pub answer : (g : ℕ) → Sys → Option ℕ → Option ℕ × Sys
answer g s none = (none, s)
answer g s (some pos) = (some pos, moved g pos s)

-- The test of `sys_lseek`, on the numbers that the bits stand for.
in_file :
    (pos file_size : ℕ)
    → pos < 2 ^ 32
    → file_size < 2 ^ 31
    → (negative pos || signed_gt pos ((file_size + 2 ^ 32 - 1) % 2 ^ 32)) ≡ not (ltb pos file_size)
in_file pos file_size lt small = ground arith

-- The sum modulo 2 ^ 32 is the place, if it is in the file, and else there is none.
place-sum :
    (base offset size pos : ℕ)
    → base < 2 ^ 31
    → offset < 2 ^ 32
    → size < 2 ^ 31
    → pos ≡ (base + offset) % 2 ^ 32
    → place base offset size ≡ (if ltb pos size then some pos else none)
place-sum base offset size pos low small size_small e = elim (dec_lt offset (2 ^ 31)) [
  | yes forward ↦
      let sum : base + offset ≡ pos = omega arith in
      let test : ltb offset (2 ^ 31) ≡ true = ground arith in rw (test, sum) refl
  | no back ↦
      let test : ltb offset (2 ^ 31) ≡ false = ground arith in
      elim (dec_lt base (2 ^ 32 - offset)) [
        | yes before ↦
            let out : leb (2 ^ 32 - offset) base ≡ false = ground arith in
            let far : ltb pos size ≡ false = ground arith in rw (test, out, far) refl
        | no after ↦
            let inside : leb (2 ^ 32 - offset) base ≡ true = ground arith in
            let difference : base - (2 ^ 32 - offset) ≡ pos = omega arith in
            rw (test, inside, difference) refl
      ]
]

-- What the call does once the descriptor is known, from the sum that it computes.
seek-answer :
    (base offset size pos g : ℕ) (s : Sys)
    → base < 2 ^ 31
    → offset < 2 ^ 32
    → size < 2 ^ 31
    → pos ≡ (base + offset) % 2 ^ 32
    → (if negative pos || signed_gt pos ((size + 2 ^ 32 - 1) % 2 ^ 32)
        then ok (none, s)
        else ok (some pos, moved g pos s))
      ≡ ok (answer g s (place base offset size))
seek-answer base offset size pos g s low small size_small e =
    let test = in_file pos size (omega arith) size_small in
    let there = place-sum base offset size pos low small size_small e in
    elim (Bool-cases (ltb pos size)) [
      | inl inside ↦ rw (test, there, inside) refl
      | inr outside ↦ rw (test, there, outside) refl
    ]

-- `sys_lseek` for a descriptor of an open file below 2 ^ 31 bytes, with one of the three whences,
-- an offset of 32 bits, which is negative from 2 ^ 31 on, and a place below 2 ^ 31 to count from:
-- the place that the offset leads to from the start, the place in the file or its end, as the
-- whence is 1, 2 or 3, becomes the place in the file and is returned if it is at or behind the
-- start and below the size; otherwise the call returns -1 and changes nothing.
pub sys_lseek-bounds :
    (s : Sys) (fd g offset whence : ℕ)
    → fd < 2 ^ 31
    → fd_local2global fd s.kernel ≡ ok g
    → 0 < whence
    → whence < 4
    → offset < 2 ^ 32
    → origin s g whence < 2 ^ 31
    → (inode_at_index s g).inode_size < 2 ^ 31
    → sys_lseek fd offset whence s
      ≡ ok (answer g s (place (origin s g whence) offset (inode_at_index s g).inode_size))
unfolding sys_lseek
sys_lseek-bounds s fd g offset zero lt leads low high small from size_small = absurd (omega arith)
sys_lseek-bounds s fd g offset (suc zero) lt leads low high small from size_small =
    let positive : negative fd ≡ false = ground arith in
    rw (positive, leads)
      (seek-answer 0 offset (inode_at_index s g).inode_size offset g s from small size_small
        (omega arith))
sys_lseek-bounds s fd g offset (suc (suc zero)) lt leads low high small from size_small =
    let positive : negative fd ≡ false = ground arith in
    rw (positive, leads)
      (seek-answer (s.file_table g).fd_pos offset (inode_at_index s g).inode_size
        (((s.file_table g).fd_pos + offset) % 2 ^ 32) g s from small size_small refl)
sys_lseek-bounds s fd g offset (suc (suc (suc zero))) lt leads low high small from size_small =
    let positive : negative fd ≡ false = ground arith in
    rw (positive, leads)
      (seek-answer (inode_at_index s g).inode_size offset (inode_at_index s g).inode_size
        (((inode_at_index s g).inode_size + offset) % 2 ^ 32) g s from small size_small refl)
sys_lseek-bounds s fd g offset (suc (suc (suc (suc n)))) lt leads low high small from size_small =
    absurd (omega arith)

-- What `sys_read` does with the file that a descriptor leads to.
sys_read-file_read :
    (s : Sys) (fd g count : ℕ) (buf read : Buffer) (file next : File) (inode : Inode) (o : Option ℕ)
    → fd < 2 ^ 31
    → fd_local2global fd s.kernel ≡ ok g
    → s.file_table g ≡ file
    → s.inodes.inodes file.fd_inode ≡ inode
    → file_read true s.volume.disk file inode buf count ≡ ok (o, next, read)
    → sys_read true fd buf count s
      ≡ ok (o, record s { file_table = update s.file_table g next }, read)
unfolding sys_read
sys_read-file_read s fd g count buf read file next inode o lt leads at points run =
    let positive : negative fd ≡ false = ground arith in
    let exact =
      subst
        (λ f.
          file_read true s.volume.disk f (s.inodes.inodes f.fd_inode) buf count
          ≡ ok (o, next, read))
        (sym at)
        (subst (λ n. file_read true s.volume.disk file n buf count ≡ ok (o, next, read))
          (sym points) run) in
    rw (positive, leads, exact) refl

-- The open file with its place set.
abbrev pub file_at : Sys → (g pos : ℕ) → File
file_at s g pos = record (s.file_table g) { fd_pos = pos }

-- For a descriptor of an open file, on a drive that answers, of fewer than 71168 bytes, whose
-- blocks lie within what the driver reads and that has a table if it reaches block 12: `sys_lseek`
-- from the start to a place in the file, with the place plus count below 2 ^ 32, returns the
-- place; `sys_read`, with memory granted, then reads the bytes of the file from there on, as many
-- as count says or as are left, and leaves the place behind them.
pub sys_read-sys_lseek :
    (s : Sys) (fd g pos count : ℕ) (buf : Buffer)
    → fd < 2 ^ 31
    → fd_local2global fd s.kernel ≡ ok g
    → IsFile s.volume.disk (inode_at_index s g)
    → (inode_at_index s g).inode_size < 139 * 512
    → pos < (inode_at_index s g).inode_size
    → pos + count < 2 ^ 32
    → (between after : Sys) × (read : Buffer) × (sys_lseek fd pos 1 s ≡ ok (some pos, between))
      × (sys_read true fd buf count between
          ≡ ok (some (readable (file_at s g pos) (inode_at_index s g) count), after, read))
      × ((after.file_table g).fd_pos ≡ pos + readable (file_at s g pos) (inode_at_index s g) count)
      × ((q : ℕ)
          → read q ≡ (
              if ltb q (readable (file_at s g pos) (inode_at_index s g) count)
              then content s.volume.disk (inode_at_index s g) (pos + q)
              else buf q))
sys_read-sys_lseek s fd g pos count buf lt leads is limit inside small =
    let self : (g == g) ≡ true = ground arith in
    let here : ltb pos (inode_at_index s g).inode_size ≡ true = ground arith in
    let reached =
      place-sum 0 pos (inode_at_index s g).inode_size pos (omega arith) (omega arith) (omega arith)
        (omega arith) in
    let seeks =
      sys_lseek-bounds s fd g pos 1 lt leads (omega arith) (omega arith) (omega arith) (omega arith)
        (omega arith) in
    let (read, run, bytes) =
      file_read-content s.volume.disk (file_at s g pos) (inode_at_index s g) buf count is small
        limit inside in
    let at : (moved g pos s).file_table g ≡ file_at s g pos = rw self refl in
    let next : File = record (s.file_table g) {
      fd_pos = pos + readable (file_at s g pos) (inode_at_index s g) count;
    } in
    (
      moved g pos s,
      record (moved g pos s) { file_table = update (moved g pos s).file_table g next },
      read,
      seeks ∙ rw (reached, here) refl,
      sys_read-file_read (moved g pos s) fd g count buf read (file_at s g pos) next
          (inode_at_index s g) (some (readable (file_at s g pos) (inode_at_index s g) count)) lt
          leads at refl run,
      rw self refl,
      bytes,
    )
