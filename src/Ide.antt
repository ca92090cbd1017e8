-- ===== src/Ide.antt =====
-- device/c13a_ide.c: `ide_read` and `ide_write`, down to the single commands for at most 256 sectors.
-- The drive is what its sectors hold and whether it answers a command in time (`busy_wait`); the
-- channel's lock and semaphore are those of Sync. A buffer is a function from offsets to bytes. The
-- check of each command's sector against `max_lba` keeps every sum far below 2 ^ 32: none wraps.
pub mod Transfer
mod Tests
use os_elephant.Base.{
  ℕ, zero, suc, ◌+◌, ◌-◌, ◌*◌, ◌/◌, ◌%◌, Bool, ◌&&◌, leb, ltb, ◌==◌, if◌then◌else◌, Outcome, ok,
  unfinished, ◌>>=◌, ◌>>◌, assert,
}

-- `sectors lba offset` is a byte of the drive. `answers lba` says whether the drive is ready after
-- a command that starts at the sector; if it is not, the driver panics.
pub record Disk : Type 0 where
  pub sectors : ℕ → ℕ → ℕ
  pub answers : ℕ → Bool

abbrev pub Buffer : Type 0
Buffer = ℕ → ℕ

abbrev pub max_lba : ℕ
max_lba = 80 * 1024 * 1024 / 512 - 1

-- The size that `read_from_sector` and `write2sector` compute from their 8-bit count.
pub size_in_byte : ℕ → ℕ
size_in_byte sec_cnt = if sec_cnt == 0 then 256 * 512 else sec_cnt * 512

-- How many sectors the drive transfers for a count of 8 bits.
pub commanded : ℕ → ℕ
commanded sec_cnt = if sec_cnt == 0 then 256 else sec_cnt

-- `select_sector` and the command, then the data to the buffer from offset `at` on. Words that the
-- driver asks for and the drive does not have keep what the buffer held.
pub read_from_sector : Disk → (lba at sec_cnt : ℕ) → Buffer → Buffer
read_from_sector d lba at sec_cnt buf q =
    if leb at q && ltb q (at + size_in_byte sec_cnt) && ltb q (at + commanded sec_cnt * 512)
    then d.sectors (lba + (q - at) / 512) ((q - at) % 512)
    else buf q

pub write2sector : Disk → (lba at sec_cnt : ℕ) → Buffer → Disk
write2sector d lba at sec_cnt buf = record d {
  sectors = λ l o.
      if leb lba l
        && ltb l (lba + commanded sec_cnt)
        && ltb o 512
        && ltb ((l - lba) * 512 + o) (size_in_byte sec_cnt)
      then buf (at + (l - lba) * 512 + o)
      else d.sectors l o;
}

abbrev pub secs_op : ℕ → ℕ → ℕ
secs_op secs_done sec_cnt = if leb (secs_done + 256) sec_cnt then 256 else sec_cnt - secs_done

pub read_loop : ℕ → Disk → (lba secs_done sec_cnt : ℕ) → Buffer → Outcome Buffer
read_loop zero d lba secs_done sec_cnt buf = unfinished
read_loop (suc fuel) d lba secs_done sec_cnt buf =
    let n = secs_op secs_done sec_cnt in
    let rest =
      read_loop fuel d lba (secs_done + n) sec_cnt
        (read_from_sector d (lba + secs_done) (secs_done * 512) (n % 256) buf) in
    if ltb secs_done sec_cnt
    then assert (leb (lba + secs_done) max_lba) >> assert (d.answers (lba + secs_done)) >> rest
    else ok buf

pub write_loop : ℕ → Buffer → (lba secs_done sec_cnt : ℕ) → Disk → Outcome Disk
write_loop zero buf lba secs_done sec_cnt d = unfinished
write_loop (suc fuel) buf lba secs_done sec_cnt d =
    let n = secs_op secs_done sec_cnt in
    let rest =
      write_loop fuel buf lba (secs_done + n) sec_cnt
        (write2sector d (lba + secs_done) (secs_done * 512) (n % 256) buf) in
    if ltb secs_done sec_cnt
    then assert (leb (lba + secs_done) max_lba) >> assert (d.answers (lba + secs_done)) >> rest
    else ok d

-- One round more than there are sectors is fuel enough.
unfoldable pub ide_read : Disk → (lba : ℕ) → Buffer → (sec_cnt : ℕ) → Outcome Buffer
ide_read d lba buf sec_cnt = do
  assert (leb lba max_lba)
  assert (ltb 0 sec_cnt)
  read_loop (suc sec_cnt) d lba 0 sec_cnt buf

unfoldable pub ide_write : Disk → (lba : ℕ) → Buffer → (sec_cnt : ℕ) → Outcome Disk
ide_write d lba buf sec_cnt = do
  assert (leb lba max_lba)
  assert (ltb 0 sec_cnt)
  write_loop (suc sec_cnt) buf lba 0 sec_cnt d
