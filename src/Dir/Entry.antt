-- ===== src/Dir/Entry.antt =====
-- A directory entry from its making to its being found.
use os_elephant.Base.{
  ℕ, suc, ◌+◌, ◌%◌, ◌^◌, ◌<◌, ◌≤◌, ◌≡◌, ◌≢◌, refl, ap, ◌∙◌, true, false, some, List, [], ◌∷◌, ◌==◌,
  leb, ok, arith,
}
use native.Mathlib.Decide.{dec_lt}
use os_elephant.Ide.{Buffer}
use os_elephant.Fs.{Inode, word_at, put_bytes}
use os_elephant.Fs.Bytes.{word_at-byte_of}
use os_elephant.Blocks.{Volume}
use os_elephant.Blocks.Bits.{blocks, used}
use os_elephant.Dir.{
  clear, has_name, length, name_byte, word_byte, entry_inode_id, entry_file_type, create_dir_entry,
  search_dir_entry, sync_dir_entry,
}
use os_elephant.Dir.Found.{IsNew, has_name-same, search_dir_entry-sync_dir_entry}
use os_elephant.Dir.Grow.{IsDir}

has_name-name_byte :
    (name : List ℕ) (buf : Buffer) (at : ℕ)
    → ((k : ℕ) → k ≤ length name → buf (at + k) ≡ name_byte name k)
    → has_name name buf at ≡ true
unfolding has_name
has_name-name_byte [] buf at same =
    let zero_end : buf at ≡ 0 = ap buf (omega arith) ∙ same 0 (omega arith) in rw zero_end refl
has_name-name_byte (c ∷ name) buf at same =
    let first : buf at ≡ c = ap buf (omega arith) ∙ same 0 (omega arith) in
    let rest =
      has_name-name_byte name buf (at + 1)
        (λ k le. ap buf (omega arith) ∙ same (suc k) (omega arith)) in
    let self : (c == c) ≡ true = ground arith in rw (first, self, rest) refl

name_byte-end : (name : List ℕ) → name_byte name (length name) ≡ 0
name_byte-end [] = refl
name_byte-end (c ∷ name) = name_byte-end name

-- The entry that `create_dir_entry` makes in cleared memory.
abbrev entry_of : List ℕ → (inode_no file_type : ℕ) → Buffer
entry_of name inode_no file_type =
    put_bytes
      (put_bytes (put_bytes clear 0 (length name) (name_byte name)) 16 4 (word_byte inode_no)) 20 4
      (word_byte (file_type % 256))

entry_of-name :
    (name : List ℕ) (inode_no file_type k : ℕ)
    → length name < 16
    → k ≤ length name
    → entry_of name inode_no file_type (0 + k) ≡ name_byte name k
entry_of-name name inode_no file_type k short le = elim (dec_lt k (length name)) [
  | yes inside ↦ ground arith
  | no last ↦
      let same : k ≡ length name = omega arith in
      let nothing : name_byte name k ≡ 0 = rw same (name_byte-end name) in ground (arith, nothing)
]

entry_of-word :
    (words : Buffer) (at n : ℕ)
    → ((k : ℕ) → k < 4 → words (at + k) ≡ word_byte n k)
    → n < 2 ^ 32
    → word_at words at ≡ n
entry_of-word words at n same small =
    word_at-byte_of words at (λ i. n) 0 (λ k lt. same k lt ∙ ap (word_byte n) (omega arith)) small

-- What an entry made for a name, an inode and a type holds.
pub create_dir_entry-lem :
    (name : List ℕ) (inode_no file_type : ℕ)
    → length name < 16
    → inode_no < 2 ^ 32
    → (p_de : Buffer) × (create_dir_entry name inode_no file_type clear ≡ ok p_de)
      × (has_name name p_de 0 ≡ true)
      × (entry_inode_id p_de 0 ≡ inode_no)
      × (entry_file_type p_de 0 ≡ file_type % 256)
unfolding create_dir_entry
create_dir_entry-lem name inode_no file_type short small =
    let allowed : leb (length name) 16 ≡ true = ground arith in
    (
      entry_of name inode_no file_type,
      rw allowed refl,
      has_name-name_byte name (entry_of name inode_no file_type) 0
          (λ k le. entry_of-name name inode_no file_type k short le),
      entry_of-word (entry_of name inode_no file_type) 16 inode_no (λ k lt. ground arith) small,
      entry_of-word (entry_of name inode_no file_type) 20 (file_type % 256) (λ k lt. ground arith)
          (omega arith),
    )

word_at-same :
    (x y : Buffer) (at : ℕ) → ((k : ℕ) → k < at + 4 → x k ≡ y k) → word_at x at ≡ word_at y at
unfolding word_at
word_at-same x y at same =
    rw
      (
        same at (omega arith),
        same (at + 1) (omega arith),
        same (at + 2) (omega arith),
        same (at + 3) (omega arith),
      )
      refl

-- In a directory without an indirect table, of whole entries of 24 bytes, on a consistent volume
-- with a free block and blocks that lie behind its bitmap, with a direct block that is not
-- allocated and with no entry of a name of 1 to 15 characters: `create_dir_entry` of the name with
-- the number of an inode, of 32 bits, and a type returns; `sync_dir_entry` of that entry is true;
-- and `search_dir_entry` then finds an entry with the name, that number and the type modulo 256.
pub search_dir_entry-create_dir_entry :
    (v : Volume) (dir : Inode) (dir_e : Buffer) (c : ℕ) (name : List ℕ)
    (inode_no file_type z free : ℕ)
    → IsDir v dir
    → 0 < v.part.sbk.data_start_lba
    → z < 12
    → dir.inode_blocks z ≡ 0
    → free < blocks v
    → used v free ≡ false
    → c ≢ 0
    → length (c ∷ name) < 16
    → IsNew v dir (c ∷ name)
    → inode_no < 2 ^ 32
    → (p_de : Buffer) × (after : Inode) × (w : Volume) × (e : Buffer) × (create_dir_entry
          (c ∷ name)
          inode_no
          file_type
          clear
        ≡ ok p_de)
      × (sync_dir_entry p_de dir v ≡ ok (true, after, w))
      × (search_dir_entry true w after (c ∷ name) dir_e ≡ ok (some e))
      × (has_name (c ∷ name) e 0 ≡ true)
      × (entry_inode_id e 0 ≡ inode_no)
      × (entry_file_type e 0 ≡ file_type % 256)
search_dir_entry-create_dir_entry v dir dir_e c name inode_no file_type z free is pos low empty
      below off char short new small =
    let (p_de, made, named, id, kind) =
      create_dir_entry-lem (c ∷ name) inode_no file_type short small in
    let (after, w, e, put, found, bytes) =
      search_dir_entry-sync_dir_entry v dir p_de dir_e c name z free is pos low empty below off char
        (omega arith) new named in
    (
      p_de,
      after,
      w,
      e,
      made,
      put,
      found,
      has_name-same (c ∷ name) e p_de 0 0 (λ k le. bytes (0 + k) (omega arith)) ∙ named,
      word_at-same e p_de 16 (λ k lt. bytes k (omega arith)) ∙ id,
      word_at-same e p_de 20 (λ k lt. bytes k (omega arith)) ∙ kind,
    )
