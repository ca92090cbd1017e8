-- ===== src/Paths.antt =====
-- fs/c14a_fs.c: `path_parse` and `path_depth_count`. A path is the list of its characters, none of
-- them 0; 47 is the slash. A pointer into it is what is left of the path from there on, NULL is
-- `none`. More characters than the array for a name holds are a fault.
pub mod Depth
mod Tests
use os_elephant.Base.{
  ℕ, zero, suc, ◌+◌, ◌^◌, ◌%◌, Bool, true, false, Option, none, some, List, [], ◌∷◌, ◌==◌, leb, ltb,
  if◌then◌else◌, Outcome, ok, fault, unfinished, ◌>>=◌,
}
use os_elephant.Ide.{Buffer}
use os_elephant.Fs.{put_bytes}
use os_elephant.Inode.{u32}
use os_elephant.Dir.{length, name_byte}

-- `while(*(++pathname) == '/')`, from behind the first slash on.
pub skip_slashes : List ℕ → List ℕ
skip_slashes [] = []
skip_slashes (c ∷ path) = let rest = skip_slashes path in if c == 47 then rest else c ∷ path

-- The characters up to a slash or the end, and what is left there.
pub first_name : List ℕ → List ℕ × List ℕ
first_name [] = ([], [])
first_name (c ∷ path) =
    let rest = first_name path in if c == 47 then ([], c ∷ path) else (c ∷ rest.0, rest.1)

abbrev pub or_null : List ℕ → Option (List ℕ)
or_null [] = none
or_null (c ∷ path) = some (c ∷ path)

abbrev pub start_of_name : List ℕ → List ℕ
start_of_name [] = []
start_of_name (c ∷ path) = if c == 47 then skip_slashes path else c ∷ path

-- The characters go to `name_store`, without an end.
unfoldable pub path_parse : List ℕ → Buffer → Outcome (Option (List ℕ) × Buffer)
path_parse pathname name_store =
    let parsed = first_name (start_of_name pathname) in
    if leb (length parsed.0) 16
    then ok (or_null parsed.1, put_bytes name_store 0 (length parsed.0) (name_byte parsed.0))
    else fault

abbrev pub parse_rest : Option (List ℕ) → Buffer → Outcome (Option (List ℕ) × Buffer)
parse_rest none name = ok (none, name)
parse_rest (some p) name = path_parse p name

pub count_names : ℕ → (depth : ℕ) → Option (List ℕ) × Buffer → Outcome ℕ
count_names zero depth s = unfinished
count_names (suc fuel) depth s =
    let rest =
      parse_rest s.0 (put_bytes s.1 0 16 (λ i. 0)) >>= count_names fuel (u32 (depth + 1)) in
    if s.1 0 == 0 then ok depth else rest

-- `name` is what the array holds before; one round for each character, and one more, is fuel enough.
unfoldable pub path_depth_count : List ℕ → Buffer → Outcome ℕ
path_depth_count pathname name = path_parse pathname name >>= count_names (suc (length pathname)) 0
