-- ===== src/Ide/Transfer.antt =====
-- A transfer of any number of sectors is that of each sector.
use native.Mathlib.Decide.{dec_le}
use os_elephant.Base.{
  ltb→lt, subst, ℕ, zero, suc, ◌+◌, ◌-◌, ◌*◌, ◌/◌, ◌%◌, ◌<◌, ◌≤◌, ◌≡◌, refl, ap, ◌∙◌, fun_ext, true,
  ◌&&◌, leb, ltb, if◌then◌else◌, ok, arith, Bool-cases, inl, inr,
}
use os_elephant.Ide.{
  Disk, Buffer, max_lba, size_in_byte, commanded, read_from_sector, write2sector, secs_op,
  read_loop, write_loop, ide_read, ide_write,
}

-- The buffer with `n` sectors from `lba` on at its start, and the disk with them.
abbrev pub loaded : Disk → (lba n : ℕ) → Buffer → Buffer
loaded d lba n buf q = if ltb q (n * 512) then d.sectors (lba + q / 512) (q % 512) else buf q

abbrev pub stored : Buffer → (lba n : ℕ) → Disk → ℕ → ℕ → ℕ
stored buf lba n d l o =
    if leb lba l && ltb l (lba + n) && ltb o 512 then buf ((l - lba) * 512 + o) else d.sectors l o

-- The drive answers every command.
abbrev pub Answers : Disk → Type 0
Answers d = (lba : ℕ) → d.answers lba ≡ true

-- One command transfers the number of sectors that is meant, though its count has 8 bits.
commanded-secs_op :
    (n : ℕ) → 0 < n → n ≤ 256 → (commanded (n % 256) ≡ n) × (size_in_byte (n % 256) ≡ n * 512)
unfolding commanded size_in_byte
commanded-secs_op n pos le = ground arith

-- The number of sectors of the next command.
chunk :
    (done sec_cnt : ℕ)
    → done < sec_cnt
    → (0 < secs_op done sec_cnt)
      × (secs_op done sec_cnt ≤ 256)
      × (done + secs_op done sec_cnt ≤ sec_cnt)
chunk done sec_cnt lt = ground arith

module _ (d : Disk) (lba sec_cnt : ℕ) (base : Buffer) where
  -- What the buffer holds when `done` sectors are in it.
  abbrev Done : ℕ → Buffer → Type 0
  Done done buf = (q : ℕ) → buf q ≡ loaded d lba done base q

  read_from_sector-Done :
      (done n : ℕ) (buf : Buffer)
      → 0 < n
      → n ≤ 256
      → Done done buf
      → Done (done + n) (read_from_sector d (lba + done) (done * 512) (n % 256) buf)
  unfolding read_from_sector
  read_from_sector-Done done n buf pos le h q =
      let (count, size) = commanded-secs_op n pos le in
      elim (dec_le (done * 512) q) [
        | yes later ↦
            let lba_at : lba + done + (q - done * 512) / 512 ≡ lba + q / 512 = omega arith in
            let offset_at : (q - done * 512) % 512 ≡ q % 512 = omega arith in
            rw (count, size, lba_at, offset_at) (ground (arith, h q))
        | no before ↦ rw (count, size) (ground (arith, h q))
      ]

  read_loop-Done :
      (fuel done : ℕ) (buf : Buffer)
      → Answers d
      → lba + sec_cnt ≤ max_lba + 1
      → done ≤ sec_cnt
      → sec_cnt < done + fuel
      → Done done buf
      → (after : Buffer) × (read_loop fuel d lba done sec_cnt buf ≡ ok after) × Done sec_cnt after
  unfolding read_loop
  read_loop-Done zero done buf ready fits le enough h = absurd (omega arith)
  read_loop-Done (suc fuel) done buf ready fits le enough h = elim (Bool-cases (ltb done sec_cnt)) [
    | inl more ↦
        let n = secs_op done sec_cnt in
        let (pos, top, sum) = chunk done sec_cnt (ltb→lt done sec_cnt more) in
        let next = read_from_sector d (lba + done) (done * 512) (n % 256) buf in
        let (after, run, all) =
          read_loop-Done fuel (done + n) next ready fits sum (omega arith)
            (read_from_sector-Done done n buf pos top h) in
        let in_range : leb (lba + done) max_lba ≡ true = ground arith in
        (after, rw (more, in_range, ready (lba + done)) run, all)
    | inr over ↦ let same : done ≡ sec_cnt = ground arith in (buf, rw over refl, rw (← same) h)
  ]

-- `ide_read` of sectors that the driver's limit allows, at least one, from a drive that answers,
-- ends: it returns the buffer with the bytes of those sectors at its start and its other bytes as
-- they were, whatever number of commands of at most 256 sectors that takes.
pub ide_read-loaded :
    (d : Disk) (lba sec_cnt : ℕ) (buf : Buffer)
    → Answers d
    → 0 < sec_cnt
    → lba + sec_cnt ≤ max_lba + 1
    → ide_read d lba buf sec_cnt ≡ ok (loaded d lba sec_cnt buf)
unfolding ide_read
ide_read-loaded d lba sec_cnt buf ready pos fits =
    let (after, run, all) =
      read_loop-Done d lba sec_cnt buf (suc sec_cnt) 0 buf ready fits (omega arith) (omega arith)
        (λ q. ground arith) in
    let in_range : leb lba max_lba ≡ true = ground arith in
    let some_sector : ltb 0 sec_cnt ≡ true = ground arith in
    rw (in_range, some_sector) (run ∙ ap ok (fun_ext all))

-- The disk with the first `n` sectors of the buffer written from `lba` on.
abbrev pub written : Buffer → (lba n : ℕ) → Disk → Disk
written buf lba n d = record d { sectors = stored buf lba n d }

module _ (d : Disk) (lba sec_cnt : ℕ) (buf : Buffer) where
  write2sector-written :
      (done n l o : ℕ)
      → 0 < n
      → n ≤ 256
      → (write2sector (written buf lba done d) (lba + done) (done * 512) (n % 256) buf).sectors l o
        ≡ stored buf lba (done + n) d l o
  unfolding write2sector
  write2sector-written done n l o pos le =
      let (count, size) = commanded-secs_op n pos le in
      elim (dec_le (lba + done) l) [
        | yes later ↦
            let at : done * 512 + (l - (lba + done)) * 512 + o ≡ (l - lba) * 512 + o =
              omega arith in
            rw (count, size, at) (ground arith)
        | no before ↦ rw (count, size) (ground arith)
      ]

  next_written :
      (done n : ℕ)
      → 0 < n
      → n ≤ 256
      → write2sector (written buf lba done d) (lba + done) (done * 512) (n % 256) buf
        ≡ written buf lba (done + n) d
  unfolding write2sector
  next_written done n pos le =
      ap (λ s. record d { sectors = s })
        (fun_ext λ l. fun_ext λ o. write2sector-written done n l o pos le)

  write_loop-written :
      (fuel done : ℕ)
      → Answers d
      → lba + sec_cnt ≤ max_lba + 1
      → done ≤ sec_cnt
      → sec_cnt < done + fuel
      → write_loop fuel buf lba done sec_cnt (written buf lba done d)
        ≡ ok (written buf lba sec_cnt d)
  unfolding write_loop
  write_loop-written zero done ready fits le enough = absurd (omega arith)
  write_loop-written (suc fuel) done ready fits le enough = elim (Bool-cases (ltb done sec_cnt)) [
    | inl more ↦
        let n = secs_op done sec_cnt in
        let (pos, top, sum) = chunk done sec_cnt (ltb→lt done sec_cnt more) in
        let in_range : leb (lba + done) max_lba ≡ true = ground arith in
        rw (more, in_range, ready (lba + done), next_written done n pos top)
          (write_loop-written fuel (done + n) ready fits sum (omega arith))
    | inr over ↦ let same : done ≡ sec_cnt = ground arith in rw (over, same) refl
  ]

-- `ide_write` of sectors that the driver's limit allows, at least one, to a drive that answers,
-- returns, and the drive then holds the buffer's bytes in those sectors and has no other byte changed.
pub ide_write-written :
    (d : Disk) (lba sec_cnt : ℕ) (buf : Buffer)
    → Answers d
    → 0 < sec_cnt
    → lba + sec_cnt ≤ max_lba + 1
    → ide_write d lba buf sec_cnt ≡ ok (written buf lba sec_cnt d)
unfolding ide_write
ide_write-written d lba sec_cnt buf ready pos fits =
    let start : written buf lba 0 d ≡ d =
      ap (λ s. record d { sectors = s }) (fun_ext λ l. fun_ext λ o. ground arith) in
    let in_range : leb lba max_lba ≡ true = ground arith in
    let some_sector : ltb 0 sec_cnt ≡ true = ground arith in
    rw (in_range, some_sector)
      (subst (λ e. write_loop (suc sec_cnt) buf lba 0 sec_cnt e ≡ ok (written buf lba sec_cnt d))
        start
        (write_loop-written d lba sec_cnt buf (suc sec_cnt) 0 ready fits (omega arith)
          (omega arith)))

-- What `ide_write` has written to sectors that the driver's limit allows, at least one, of a drive
-- that answers, `ide_read` of those sectors puts at the start of any buffer.
pub ide_read-ide_write :
    (d : Disk) (lba sec_cnt : ℕ) (buf base : Buffer)
    → Answers d
    → 0 < sec_cnt
    → lba + sec_cnt ≤ max_lba + 1
    → (after : Disk) × (ide_write d lba buf sec_cnt ≡ ok after)
      × (ide_read after lba base sec_cnt
          ≡ ok (λ q. if ltb q (sec_cnt * 512) then buf q else base q))
ide_read-ide_write d lba sec_cnt buf base ready pos fits = (
  written buf lba sec_cnt d,
  ide_write-written d lba sec_cnt buf ready pos fits,
  ide_read-loaded (written buf lba sec_cnt d) lba sec_cnt base ready pos fits
      ∙ ap ok (
          fun_ext λ q.
            let at : (lba + q / 512 - lba) * 512 + q % 512 ≡ q = omega arith in
            rw at (ground arith)),
)
