-- ===== src/Files/Tests.antt =====
-- A file of 700 bytes in blocks 900 and 901, and one of 71600 bytes.
use os_elephant.Base.{ℕ, ◌+◌, ◌≡◌, refl, true, ltb, if◌then◌else◌, ok, panic, none, some, arith}
use os_elephant.Ide.{Buffer}
use os_elephant.Fs.{Inode}
use os_elephant.Fs.Samples.{numbered, inode_of}
use os_elephant.FileTable.{File}
use os_elephant.Files.{file_read}
use os_elephant.Files.Read.{content, IsFile}
use os_elephant.Files.Whole.{file_read-content, file_read-end, file_read-panic}

abbrev two_blocks : Inode
two_blocks = record (inode_of 13) { inode_blocks = λ i. if ltb i 2 then i + 900 else 0 }

abbrev file_at : ℕ → File
file_at pos = record { fd_pos = pos; fd_flag = 0; fd_inode = 5000 }

two_blocks-IsFile : IsFile numbered two_blocks
two_blocks-IsFile = record {
  answers = λ lba. refl;
  blocks = λ i lt. ground arith;
  within = omega arith;
  table = λ big. absurd (omega arith);
}

file_read-content_example :
    (after : Buffer) × (file_read true numbered (file_at 500) two_blocks (λ q. 7) 300
      ≡ ok (some 200, file_at 700, after))
    × ((q : ℕ) → after q ≡ (if ltb q 200 then content numbered two_blocks (500 + q) else 7))
file_read-content_example =
    file_read-content numbered (file_at 500) two_blocks (λ q. 7) 300 two_blocks-IsFile (omega arith)
      (omega arith) (omega arith)

file_read-end_example :
    file_read true numbered (file_at 700) two_blocks (λ q. 7) 300 ≡ ok (none, file_at 700, λ q. 7)
file_read-end_example =
    file_read-end true numbered (file_at 700) two_blocks (λ q. 7) 300 (omega arith) refl
      (omega arith)

file_read-panic_example :
    file_read true numbered (file_at 71000) (record two_blocks { inode_size = 71600 }) (λ q. 7) 400
    ≡ panic
file_read-panic_example =
    file_read-panic numbered (file_at 71000) (record two_blocks { inode_size = 71600 }) (λ q. 7) 400
      (omega arith) (omega arith) (omega arith) (omega arith)
