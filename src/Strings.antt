-- ===== src/Strings.antt =====
-- lib/string.c: blocks of memory and C strings, in a memory of bytes by address; 0 is NULL. The
-- loops that look for the end of a string run on fuel; Strings.Reads and Strings.Writes show that
-- more fuel than the string has characters is enough.
pub mod Reads
pub mod Writes
use os_elephant.Base.{
  ℕ, zero, suc, ◌+◌, ◌-◌, ◌%◌, ◌^◌, Bool, true, false, not, ◌&&◌, ◌||◌, ◌==◌, ltb, if◌then◌else◌,
  update, Outcome, ok, panic, fault, unfinished, ◌>>=◌, ◌>>◌, assert,
}

abbrev pub Memory : Type 0
Memory = ℕ → ℕ

-- `>` on `char`, which is signed here, of two bytes.
abbrev pub signed_gt : ℕ → ℕ → Bool
signed_gt a b = ltb ((b + 128) % 256) ((a + 128) % 256)

pub fill : ℕ → ℕ → ℕ → Memory → Memory
fill dst value zero m = m
fill dst value (suc size) m = fill (dst + 1) value size (update m dst value)

unfoldable pub memset : ℕ → ℕ → ℕ → Memory → Outcome Memory
memset dst_ value size m = assert (not (dst_ == 0)) >> ok (fill dst_ (value % 256) size m)

pub copy : ℕ → ℕ → ℕ → Memory → Memory
copy dst src zero m = m
copy dst src (suc size) m = copy (dst + 1) (src + 1) size (update m dst (m src))

unfoldable pub memcpy : ℕ → ℕ → ℕ → Memory → Outcome Memory
memcpy dst_ src_ size m = assert (not (dst_ == 0) && not (src_ == 0)) >> ok (copy dst_ src_ size m)

-- The results of a comparison: 0, 1 and -1.
pub data Sign : Type 0 where
  same more less : Sign

pub compare_bytes : ℕ → ℕ → ℕ → Memory → Sign
compare_bytes a b zero m = same
compare_bytes a b (suc size) m =
    let rest = compare_bytes (a + 1) (b + 1) size m in
    if not (m a == m b) then (if signed_gt (m a) (m b) then more else less) else rest

unfoldable pub memcmp : ℕ → ℕ → ℕ → Memory → Outcome Sign
memcmp a_ b_ size m = assert (not (a_ == 0) || not (b_ == 0)) >> ok (compare_bytes a_ b_ size m)

-- `while((*dst_++ = *src++))`: where `dst_` ends up, and the memory.
pub copy_string : ℕ → ℕ → ℕ → Memory → Outcome (ℕ × Memory)
copy_string zero dst src m = unfinished
copy_string (suc fuel) dst src m =
    let next = update m dst (m src) in
    let rest = copy_string fuel (dst + 1) (src + 1) next in
    if m src == 0 then ok (dst + 1, next) else rest

unfoldable pub strcpy : ℕ → ℕ → ℕ → Memory → Outcome (ℕ × Memory)
strcpy fuel dst_ src m = assert (not (dst_ == 0) || not (src == 0)) >> copy_string fuel dst_ src m

-- `while(*p++)`: where `p` ends up.
pub skip_string : ℕ → ℕ → Memory → Outcome ℕ
skip_string zero p m = unfinished
skip_string (suc fuel) p m =
    let rest = skip_string fuel (p + 1) m in if m p == 0 then ok (p + 1) else rest

unfoldable pub strlen : ℕ → ℕ → Memory → Outcome ℕ
strlen fuel str m = do assert (not (str == 0)); p ← skip_string fuel str m; ok (p - str - 1)

-- The loop of `strcmp`: the two pointers where it ends.
pub skip_equal : ℕ → ℕ → ℕ → Memory → Outcome (ℕ × ℕ)
skip_equal zero a b m = unfinished
skip_equal (suc fuel) a b m =
    let rest = skip_equal fuel (a + 1) (b + 1) m in
    if not (m a == 0) && (m a == m b) then rest else ok (a, b)

abbrev pub differ : ℕ × ℕ → Memory → ℕ
differ (a, b) m = if signed_gt (m a) (m b) then 1 else if signed_gt (m b) (m a) then 1 else 0

unfoldable pub strcmp : ℕ → ℕ → ℕ → Memory → Outcome ℕ
strcmp fuel a b m = do
  assert (not (a == 0) && not (b == 0))
  ends ← skip_equal fuel a b m
  ok (differ ends m)

-- `*str == ch`, with a signed left side and an unsigned right side.
abbrev pub matches : ℕ → ℕ → Bool
matches byte ch = ltb byte 128 && (byte == ch)

pub find_char : ℕ → ℕ → ℕ → Memory → Outcome ℕ
find_char zero ch str m = unfinished
find_char (suc fuel) ch str m =
    let rest = find_char fuel ch (str + 1) m in
    if not (m str == 0) then (if matches (m str) ch then ok str else rest) else ok 0

unfoldable pub strchr : ℕ → ℕ → ℕ → Memory → Outcome ℕ
strchr fuel str ch m = assert (not (str == 0)) >> find_char fuel ch str m

pub find_last : ℕ → ℕ → ℕ → ℕ → Memory → Outcome ℕ
find_last zero ch str last_char m = unfinished
find_last (suc fuel) ch str last_char m =
    let rest = find_last fuel ch (str + 1) (if matches (m str) ch then str else last_char) m in
    if not (m str == 0) then rest else ok last_char

unfoldable pub strrchr : ℕ → ℕ → ℕ → Memory → Outcome ℕ
strrchr fuel str ch m = assert (not (str == 0)) >> find_last fuel ch str 0 m

unfoldable pub strcat : ℕ → ℕ → ℕ → Memory → Outcome (ℕ × Memory)
strcat fuel dst_ src_ m = do
  assert (not (dst_ == 0) && not (src_ == 0))
  str ← skip_string fuel dst_ m
  (end, next) ← copy_string fuel (str - 1) src_ m
  ok (dst_, next)

pub count_char : ℕ → ℕ → ℕ → ℕ → Memory → Outcome ℕ
count_char zero ch p ch_cnt m = unfinished
count_char (suc fuel) ch p ch_cnt m =
    let rest =
      count_char fuel ch (p + 1) (if matches (m p) ch then (ch_cnt + 1) % 2 ^ 32 else ch_cnt) m in
    if not (m p == 0) then rest else ok ch_cnt

unfoldable pub strchrs : ℕ → ℕ → ℕ → Memory → Outcome ℕ
strchrs fuel str ch m = assert (not (str == 0)) >> count_char fuel ch str 0 m
