-- ===== src/Append/Write.antt =====
-- The loop over the sectors of `file_write`: the bytes go behind those that are there.
use os_elephant.Base.{
  ℕ, zero, suc, ◌+◌, ◌-◌, ◌*◌, ◌/◌, ◌%◌, ◌^◌, ◌<◌, ◌≤◌, ◌≡◌, ◌≢◌, ◌⊎◌, refl, sym, ap, ◌∙◌, subst,
  Bool, true, false, ◌&&◌, leb, ltb, if◌then◌else◌, Outcome, ok, arith, Bool-cases, inl, inr,
}
use native.Mathlib.Decide.{ℕ_discrete, dec_lt}
use os_elephant.Ide.{Disk, max_lba, ide_read, ide_write}
use os_elephant.Ide.Transfer.{Answers, loaded, written, ide_read-loaded, ide_write-written}
use os_elephant.Fs.{put_bytes}
use os_elephant.Ide.{Buffer}
use os_elephant.Files.{chunk_size}
use os_elephant.Append.{write_sectors}

-- Byte `j` of the blocks at the addresses `addr`.
abbrev pub byte_in : (ℕ → ℕ) → Disk → ℕ → ℕ
byte_in addr d j = d.sectors (addr (j / 512)) (j % 512)

module _ (addr : ℕ → ℕ) (m size count : ℕ) (src : Buffer) (d0 : Disk) where
  -- `done` bytes are there, and nothing else has changed.
  pub record HasWritten (done : ℕ) (d : Disk) : Type 0 where
    pub answers : Answers d
    pub bytes :
        (j : ℕ)
        → j < size + done
        → byte_in addr d j ≡ (if ltb j size then byte_in addr d0 j else src (j - size))
    pub others : (l o : ℕ) → ((i : ℕ) → i < m → l ≢ addr i) → d.sectors l o ≡ d0.sectors l o

  next_byte :
      (l s off n done o : ℕ) (d : Disk) (old : Buffer)
      → o < 512
      → off + n ≤ 512
      → (o < off → old o ≡ d.sectors l o)
      → l ≡ s
      → o < off + n
      → (written (put_bytes old off n (λ k. src (done + k))) s 1 d).sectors l o
        ≡ (if ltb o off then d.sectors l o else src (done + (o - off)))
  next_byte l s off n done o d old lt fits same at inside =
      let start : (l - s) * 512 + o ≡ o = omega arith in
      let here : (leb s l && ltb l (s + 1) && ltb o 512) ≡ true = ground arith in
      rw (here, start) (ground (arith, same))

  elsewhere :
      (l s o : ℕ) (d : Disk) (buf : Buffer)
      → l ≢ s
      → (written buf s 1 d).sectors l o ≡ d.sectors l o
  elsewhere l s o d buf ne = ground arith

  -- One sector more.
  HasWritten-chunk :
      (done n : ℕ) (d : Disk) (old : Buffer)
      → ((i j : ℕ) → i < j → j < m → addr i ≢ addr j)
      → size + done + n ≤ m * 512
      → 0 < n
      → n ≤ 512 - (size + done) % 512
      → ((o : ℕ) → o < (size + done) % 512 → old o ≡ d.sectors (addr ((size + done) / 512)) o)
      → HasWritten done d
      → HasWritten (done + n) (
          written
            (put_bytes old ((size + done) % 512) n (λ k. src (done + k)))
            (addr ((size + done) / 512))
            1
            d)
  HasWritten-chunk done n d old apart room pos fits same h = record {
    answers = h.answers;
    bytes = λ j lt. elim (ℕ_discrete (j / 512) ((size + done) / 512)) [
      | yes e ↦
          next_byte (addr (j / 512)) (addr ((size + done) / 512)) ((size + done) % 512) n done
            (j % 512) d old (omega arith) (omega arith)
            (λ low. same (j % 512) low ∙ ap (λ i. d.sectors (addr i) (j % 512)) (sym e)) (ap addr e)
            (omega arith)
          ∙ elim (dec_lt j (size + done)) [
            | yes before ↦
                let low : ltb (j % 512) ((size + done) % 512) ≡ true = ground arith in
                rw low (h.bytes j before)
            | no behind ↦
                let high : ltb (j % 512) ((size + done) % 512) ≡ false = ground arith in
                let new : ltb j size ≡ false = ground arith in
                let at : done + (j % 512 - (size + done) % 512) ≡ j - size = omega arith in
                rw (high, new, at) refl
          ]
      | no ne ↦
          elsewhere (addr (j / 512)) (addr ((size + done) / 512)) (j % 512) d
            (put_bytes old ((size + done) % 512) n (λ k. src (done + k)))
            (apart (j / 512) ((size + done) / 512) (omega arith) (omega arith))
          ∙ h.bytes j (omega arith)
    ];
    others = λ l o other.
        let differs = other ((size + done) / 512) (omega arith) in
        elsewhere l (addr ((size + done) / 512)) o d
          (put_bytes old ((size + done) % 512) n (λ k. src (done + k))) differs
        ∙ h.others l o other;
  }

  -- What the buffer holds before the bytes of the next sector come.
  abbrev old_bytes : Bool → ℕ → Disk → Buffer
  old_bytes first lba d = if first then loaded d lba 1 (λ q. 0) else (λ q. 0)

  old_bytes-run :
      (first : Bool) (lba : ℕ) (d : Disk)
      → Answers d
      → lba ≤ max_lba
      → (if first then ide_read d lba (λ q. 0) 1 else ok (λ q. 0)) ≡ ok (old_bytes first lba d)
  old_bytes-run true lba d ready within =
      ide_read-loaded d lba 1 (λ q. 0) ready (omega arith) (omega arith)
  old_bytes-run false lba d ready within = refl

  old_bytes-same :
      (first : Bool) (lba off o : ℕ) (d : Disk)
      → (first ≡ false → off ≡ 0)
      → off ≤ 512
      → o < off
      → old_bytes first lba d o ≡ d.sectors lba o
  old_bytes-same true lba off o d aligned le lt =
      let sector : lba + o / 512 ≡ lba = omega arith in
      let offset : o % 512 ≡ o = omega arith in
      let low : ltb o 512 ≡ true = ground arith in rw (low, sector, offset) refl
  old_bytes-same false lba off o d aligned le lt = absurd (omega (arith, aligned refl))

  -- Where the place stands when `done` bytes are written.
  abbrev pub place : ℕ → ℕ
  place done = (size + done + 2 ^ 32 - 1) % 2 ^ 32

  write_sectors-step :
      (fuel done n : ℕ) (first : Bool) (all_blocks : ℕ → ℕ) (buf old : Buffer) (d after : Disk)
      (result : Outcome (ℕ × ℕ × Disk × Buffer))
      → chunk_size (count - done) (512 - (size + done) % 512) ≡ n
      → ltb done count ≡ true
      → (if first then ide_read d (all_blocks ((size + done) / 512)) (λ q. 0) 1 else ok (λ q. 0))
        ≡ ok old
      → ide_write d
          (all_blocks ((size + done) / 512))
          (put_bytes old ((size + done) % 512) n (λ k. src (done + k)))
          1
        ≡ ok after
      → (size + done + n) % 2 ^ 32 ≡ size + (done + n)
      → count - done - n ≡ count - (done + n)
      → (place done + n) % 2 ^ 32 ≡ place (done + n)
      → write_sectors fuel false all_blocks src count
          (done + n)
          (count - (done + n))
          (size + (done + n))
          (place (done + n))
          (put_bytes old ((size + done) % 512) n (λ k. src (done + k)))
          after
        ≡ result
      → write_sectors
          (suc fuel)
          first
          all_blocks
          src
          count
          done
          (count - done)
          (size + done)
          (place done)
          buf
          d
        ≡ result
  unfolding write_sectors
  write_sectors-step fuel done n first all_blocks buf old d after result chunk more reads writes
        behind left moved run =
      rw (more, reads, chunk, writes, behind, left, moved) run

  module _ (all_blocks : ℕ → ℕ) (apart : (i j : ℕ) → i < j → j < m → addr i ≢ addr j)
      (within : (i : ℕ) → i < m → addr i ≤ max_lba)
      (collected : (i : ℕ) → size / 512 ≤ i → i < m → all_blocks i ≡ addr i)
      (room : size + count < m * 512) (small : m ≤ 140) where
    pub write_sectors-HasWritten :
        (fuel done : ℕ) (first : Bool) (buf : Buffer) (d : Disk)
        → done ≤ count
        → count < done + fuel
        → (first ≡ false → done < count → (size + done) % 512 ≡ 0)
        → HasWritten done d
        → (after : Disk) × (last : Buffer) × (write_sectors fuel first all_blocks src count done
              (count - done)
              (size + done)
              (place done)
              buf
              d
            ≡ ok (size + count, place count, after, last))
          × HasWritten count after
    unfolding write_sectors
    write_sectors-HasWritten zero done first buf d le enough aligned h = absurd (omega arith)
    write_sectors-HasWritten (suc fuel) done first buf d le enough aligned h =
        elim (Bool-cases (ltb done count)) [
          | inl more ↦
              let lt : done < count = ground arith in
              let off = (size + done) % 512 in
              let n = chunk_size (count - done) (512 - off) in
              let fits : (0 < n)
                  × (n ≤ count - done)
                  × (n ≤ 512 - off)
                  × ((n ≡ count - done) ⊎ (n ≡ 512 - off)) =
                ground arith in
              let at : all_blocks ((size + done) / 512) ≡ addr ((size + done) / 512) =
                collected ((size + done) / 512) (omega arith) (omega arith) in
              let inside : all_blocks ((size + done) / 512) ≤ max_lba =
                rw at (within ((size + done) / 512) (omega arith)) in
              let old = old_bytes first (all_blocks ((size + done) / 512)) d in
              let next : Buffer = put_bytes old off n (λ k. src (done + k)) in
              let after_one : Disk = written next (all_blocks ((size + done) / 512)) 1 d in
              let has : HasWritten (done + n) after_one =
                subst (λ x. HasWritten (done + n) (written next x 1 d)) (sym at)
                  (HasWritten-chunk done n d old apart (omega (arith, fits.1)) fits.0 fits.2
                    (λ o low.
                      old_bytes-same first (all_blocks ((size + done) / 512)) off o d
                        (λ e. aligned e lt) (omega arith) low
                      ∙ ap (λ x. d.sectors x o) at)
                    h) in
              let behind : (size + done + n) % 2 ^ 32 ≡ size + (done + n) = omega (arith, fits.1) in
              let left : count - done - n ≡ count - (done + n) = omega arith in
              let moved : (place done + n) % 2 ^ 32 ≡ place (done + n) = omega (arith, fits.1) in
              let (after, last, run, all) =
                write_sectors-HasWritten fuel (done + n) false next after_one
                  (omega (arith, fits.1)) (omega (arith, fits.0))
                  (λ e more. elim fits.3 [
                    | inl all ↦ absurd (omega (arith, fits.1))
                    | inr full ↦ omega arith
                  ])
                  has in
              (
                after,
                last,
                write_sectors-step fuel done n first all_blocks buf old d after_one
                    (ok (size + count, place count, after, last)) refl more
                    (old_bytes-run first (all_blocks ((size + done) / 512)) d h.answers inside)
                    (ide_write-written d (all_blocks ((size + done) / 512)) 1 next h.answers
                      (omega arith) (omega arith))
                    behind left moved run,
                all,
              )
          | inr over ↦
              let same : done ≡ count = ground arith in
              (d, buf, rw (over, same) refl, subst (λ k. HasWritten k d) same h)
        ]
