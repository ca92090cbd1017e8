-- ===== src/Paths/Tests.antt =====
-- The path `/a//b/`, parsed into an array that holds something before.
use os_elephant.Base.{ℕ, ◌≡◌, inl, [], ◌∷◌, List, ok, arith}
use os_elephant.Paths.{path_depth_count}
use os_elephant.Paths.Depth.{IsPath, path_depth_count-names}

abbrev a_b : List ℕ
a_b = 47 ∷ 97 ∷ 47 ∷ 47 ∷ 98 ∷ 47 ∷ []

a_b-IsPath : IsPath 0 a_b
a_b-IsPath = (
  omega arith,
  omega arith,
  (
    omega arith,
    omega arith,
    (
      omega arith,
      omega arith,
      (
        omega arith,
        omega arith,
        (omega arith, omega arith, (omega arith, omega arith, omega arith)),
      ),
    ),
  ),
)

path_depth_count-names_example : path_depth_count a_b (λ q. 7) ≡ ok 2
path_depth_count-names_example =
    path_depth_count-names a_b (λ q. 7) a_b-IsPath (omega arith) (inl (omega arith))
