-- ===== src/Stdio/Tests.antt =====
-- `itoa` of the largest `unsigned int`.
use os_elephant.Base.{ℕ, ◌≡◌, true, List, [], ◌∷◌, ok, arith}
use os_elephant.Stdio.{itoa}
use os_elephant.Stdio.Digits.{number, itoa-number}

itoa-number_example :
    (ds : List ℕ) × (itoa 33 0xffffffff 16 (120 ∷ []) ≡ ok (120 ∷ ds))
    × (number true 0 ds ≡ 0xffffffff)
itoa-number_example = itoa-number 32 true 0xffffffff (120 ∷ []) (omega arith)
