-- ===== src/Bitmap/Runs.antt =====
-- The loop of `bitmap_scan` that looks for a run of free bits: it finds the first one.
use os_elephant.Base.{
  ℕ, zero, suc, ◌+◌, ◌-◌, ◌^◌, ◌≤◌, ◌<◌, ◌≡◌, ◌≢◌, true, false, Option, none, some, arith, inl, inr,
  Bool-cases,
}
use native.Mathlib.Decide.{dec_le, dec_lt, ℕ_discrete}
use os_elephant.Bitmap.{Bitmap, u32, scan_bit, find_run}

-- `count` free bits from `start` on.
abbrev pub Run : Bitmap → (start count : ℕ) → Type 0
Run b start count = (k : ℕ) → start ≤ k → k < start + count → scan_bit b k ≡ false

-- What a search for the first run below `limit` has to answer: `none` if there is no run.
abbrev pub FirstRun : Bitmap → (count limit : ℕ) → Option ℕ → Type 0
FirstRun b count limit none = (s : ℕ) → s + count ≤ limit → ¬ Run b s count
FirstRun b count limit (some r) =
    (r + count ≤ limit) × Run b r count × ((s : ℕ) → s < r → ¬ Run b s count)

module _ (b : Bitmap) (count : ℕ) where
  -- What the loop of `find_run` knows: the free bits just below `next`, and the used one below them.
  pub record Seen (next counting : ℕ) : Type 0 where
    pub fits : counting ≤ next
    pub short : counting < count
    pub run : (k : ℕ) → next ≤ k + counting → k < next → scan_bit b k ≡ false
    pub edge : (k : ℕ) → suc k + counting ≡ next → scan_bit b k ≡ true
    pub missed : (s : ℕ) → s + count ≤ next → ¬ Run b s count

  Seen-used : {n c : ℕ} → 0 < count → Seen n c → scan_bit b n ≡ true → Seen (n + 1) 0
  Seen-used {n} {c} pos seen used = record {
    fits = omega arith;
    short = pos;
    run = λ k p q. absurd (omega arith);
    edge = λ k e. let same : k ≡ n = omega arith in rw same used;
    missed = λ s p free. elim (dec_le (s + count) n) [
      | yes q ↦ seen.missed s q free
      | no q ↦ ground (arith, free n (omega arith) (omega arith))
    ];
  }

  -- Before the run just seen no run ends, nor does one that starts before it.
  earlier : {n c : ℕ} → Seen n c → (s : ℕ) → s + c < n → s + count ≤ n + 1 → ¬ Run b s count
  earlier {n} {c} seen s before p free = elim (dec_le (s + count) n) [
    | yes q ↦ seen.missed s q free
    | no q ↦
        let at : suc (n - c - 1) + c ≡ n = omega arith in
        ground (
          arith,
          seen.edge (n - c - 1) at,
          free (n - c - 1) (omega arith) (omega (arith, seen.short)),
        )
  ]

  Seen-free : {n c : ℕ} → Seen n c → scan_bit b n ≡ false → c + 1 < count → Seen (n + 1) (c + 1)
  Seen-free {n} {c} seen free more = record {
    fits = omega (arith, seen.fits);
    short = more;
    run = λ k p q. elim (dec_lt k n) [
      | yes h ↦ seen.run k (omega arith) h
      | no h ↦ let same : k ≡ n = omega arith in rw same free
    ];
    edge = λ k e. seen.edge k (omega arith);
    missed = λ s p. earlier seen s (omega arith) p;
  }

  FirstRun-here :
      {n c limit : ℕ}
      → Seen n c
      → scan_bit b n ≡ false
      → c + 1 ≡ count
      → n < limit
      → FirstRun b count limit (some (n + 1 - count))
  FirstRun-here {n} {c} seen free e below = (
    omega (arith, seen.fits),
    λ k p q. elim (dec_lt k n) [
      | yes h ↦ seen.run k (omega (arith, seen.fits)) h
      | no h ↦ let same : k ≡ n = omega (arith, seen.fits) in rw same free
    ],
    λ s p. earlier seen s (omega (arith, seen.fits)) (omega (arith, seen.fits)),
  )

  find_run-used :
      (rounds n c : ℕ)
      → 0 < count
      → scan_bit b n ≡ true
      → n + 1 < 2 ^ 32
      → find_run (suc rounds) b count n c ≡ find_run rounds b count (n + 1) 0
  unfolding find_run
  find_run-used rounds n c pos used small =
      let next : u32 (n + 1) ≡ n + 1 = omega arith in ground arith

  find_run-free :
      (rounds n c : ℕ)
      → scan_bit b n ≡ false
      → n + 1 < 2 ^ 32
      → c ≤ n
      → c + 1 ≢ count
      → find_run (suc rounds) b count n c ≡ find_run rounds b count (n + 1) (c + 1)
  unfolding find_run
  find_run-free rounds n c free small fits more =
      let next : u32 (n + 1) ≡ n + 1 = omega arith in
      let counted : u32 (c + 1) ≡ c + 1 = omega arith in ground arith

  find_run-hit :
      (rounds n c : ℕ)
      → scan_bit b n ≡ false
      → n + 1 < 2 ^ 32
      → c ≤ n
      → c + 1 ≡ count
      → find_run (suc rounds) b count n c ≡ some (n + 1 - count)
  unfolding find_run
  find_run-hit rounds n c free small fits hit =
      let counted : u32 (c + 1) ≡ c + 1 = omega arith in
      let start : u32 (n + 2 ^ 32 - count + 1) ≡ n + 1 - count = omega arith in ground arith

  pub find_run-FirstRun :
      (rounds next counting limit : ℕ)
      → Seen next counting
      → 0 < count
      → next + rounds ≡ limit
      → limit ≤ 2 ^ 31
      → FirstRun b count limit (find_run rounds b count next counting)
  find_run-FirstRun zero n c limit seen pos e small =
      unfold find_run in λ s p. seen.missed s (omega arith)
  find_run-FirstRun (suc rounds) n c limit seen pos e small = elim (Bool-cases (scan_bit b n)) [
    | inl used ↦
        rw (find_run-used rounds n c pos used (omega arith)) (
          find_run-FirstRun rounds (n + 1) 0 limit (Seen-used pos seen used) pos (omega arith)
            small)
    | inr free ↦ elim (ℕ_discrete (c + 1) count) [
      | yes hit ↦
          rw (find_run-hit rounds n c free (omega arith) seen.fits hit)
            (FirstRun-here seen free hit (omega arith))
      | no more ↦ rw (find_run-free rounds n c free (omega arith) seen.fits more) (
          find_run-FirstRun rounds (n + 1) (c + 1) limit
            (Seen-free seen free (omega (arith, seen.short))) pos (omega arith) small)
    ]
  ]
