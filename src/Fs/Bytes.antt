-- ===== src/Fs/Bytes.antt =====
-- Words in bytes and back, and the bytes of the disk after a part of some sectors is changed.
use os_elephant.Base.{
  ℕ, ◌+◌, ◌-◌, ◌*◌, ◌/◌, ◌%◌, ◌^◌, ◌<◌, ◌≤◌, ◌≡◌, refl, ap, ◌∙◌, ◌&&◌, leb, ltb, if◌then◌else◌, ok,
  arith,
}
use native.Mathlib.Decide.{dec_le, dec_lt}
use os_elephant.Ide.{Disk, Buffer, max_lba}
use os_elephant.Ide.Transfer.{loaded, written, Answers, ide_read-loaded, ide_write-written}
use os_elephant.Fs.{byte_of, word_at, put_bytes, patch}

-- A word of 32 bits, laid out in bytes, is read back.
pub word_at-byte_of :
    (buf : Buffer) (at : ℕ) (words : ℕ → ℕ) (i : ℕ)
    → ((k : ℕ) → k < 4 → buf (at + k) ≡ byte_of words (4 * i + k))
    → words i < 2 ^ 32
    → word_at buf at ≡ words i
unfolding word_at byte_of
word_at-byte_of buf at words i same small =
    let d0 : (4 * i + 0) / 4 ≡ i = omega arith in
    let d1 : (4 * i + 1) / 4 ≡ i = omega arith in
    let d2 : (4 * i + 2) / 4 ≡ i = omega arith in
    let d3 : (4 * i + 3) / 4 ≡ i = omega arith in
    let m0 : (4 * i + 0) % 4 ≡ 0 = omega arith in
    let m1 : (4 * i + 1) % 4 ≡ 1 = omega arith in
    let m2 : (4 * i + 2) % 4 ≡ 2 = omega arith in
    let m3 : (4 * i + 3) % 4 ≡ 3 = omega arith in
    let b0 : buf at ≡ words i % 256 =
      ap buf (omega arith) ∙ same 0 (omega arith) ∙ rw (d0, m0) (omega arith) in
    let b1 : buf (at + 1) ≡ words i / 256 % 256 = same 1 (omega arith) ∙ rw (d1, m1) refl in
    let b2 : buf (at + 2) ≡ words i / 256 ^ 2 % 256 = same 2 (omega arith) ∙ rw (d2, m2) refl in
    let b3 : buf (at + 3) ≡ words i / 256 ^ 3 % 256 = same 3 (omega arith) ∙ rw (d3, m3) refl in
    omega (arith, b0, b1, b2, b3)

-- A byte of the disk after the patch.
abbrev pub patched : Disk → (lba n at size : ℕ) → (ℕ → ℕ) → ℕ → ℕ → ℕ
patched d lba n at size src l o =
    if leb lba l
      && ltb l (lba + n)
      && ltb o 512
      && leb at ((l - lba) * 512 + o)
      && ltb ((l - lba) * 512 + o) (at + size)
    then src ((l - lba) * 512 + o - at)
    else d.sectors l o

pub patch-patched :
    (d : Disk) (lba n : ℕ) (buf : Buffer) (at size : ℕ) (src : ℕ → ℕ)
    → Answers d
    → 0 < n
    → lba + n ≤ max_lba + 1
    → (after : Disk) × (patch d lba n buf at size src ≡ ok after)
      × Answers after
      × ((l o : ℕ) → after.sectors l o ≡ patched d lba n at size src l o)
unfolding patch
patch-patched d lba n buf at size src ready pos fits =
    let next = put_bytes (loaded d lba n buf) at size src in
    (
      written next lba n d,
      rw (ide_read-loaded d lba n buf ready pos fits)
          (ide_write-written d lba n next ready pos fits),
      ready,
      λ l o. elim (dec_le lba l) [
        | yes above ↦ elim (dec_lt o 512) [
          | yes inside ↦
              let at_l : lba + ((l - lba) * 512 + o) / 512 ≡ l = omega arith in
              let at_o : ((l - lba) * 512 + o) % 512 ≡ o = omega arith in
              rw (at_l, at_o) (ground arith)
          | no outside ↦ ground arith
        ]
        | no below ↦ ground arith
      ],
    )
