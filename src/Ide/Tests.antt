-- ===== src/Ide/Tests.antt =====
-- A drive whose bytes say where they stand.
use os_elephant.Base.{◌+◌, ◌*◌, ◌/◌, ◌%◌, ◌≡◌, refl, true, ltb, if◌then◌else◌, ok, arith}
use os_elephant.Ide.{Disk, Buffer, ide_read}
use os_elephant.Ide.Transfer.{ide_read-loaded}

abbrev numbered : Disk
numbered = record { sectors = λ l o. (l + o) % 256; answers = λ lba. true }

abbrev blank : Buffer
blank q = 0

ide_read-loaded_example :
    ide_read numbered 7 blank 300
    ≡ ok (λ q. if ltb q (300 * 512) then (7 + q / 512 + q % 512) % 256 else 0)
ide_read-loaded_example =
    ide_read-loaded numbered 7 300 blank (λ lba. refl) (omega arith) (omega arith)
