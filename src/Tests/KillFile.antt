-- ===== src/Tests/KillFile.antt =====
-- A file destroyed.
use yatb.KillFile.Erased.{byte_of, fill_lem, shredded, kill_file_lem}
use yatb.KillFile.{Shell, fill_loop, byte_at, raised, fill, bytes, kill_file, overwrite, unlink}
use yatb.Platform.{Disk, filesize, writefile}
use yatb.Prelude.{
  map, ◌%◌, true, false, ◌&&◌, none, some, length, if◌then◌else◌, ◌≡◌, ◌≢◌, refl, arith,
}
use yatb.Text.{codes, same, at}

abbrev shell : Shell
shell = record { run = λ command disk. disk; removable = λ name. false }

abbrev disk : Disk
disk = record { file = λ name. some (codes "secret"); writable = λ name. true }

kill_file_run : (kill_file shell disk (codes "f")).0.file (codes "f") ≢ some (codes "secret")
unfolding kill_file overwrite unlink filesize writefile fill fill_loop byte_at raised same
kill_file_run e = ground arith

fill_lem_example :
    (fill_loop (bytes 1 2 3) 0 5 ≡ map some (fill (bytes 1 2 3) 5))
    × (length (fill (bytes 1 2 3) 5) ≡ 5)
    × (at (fill (bytes 1 2 3) 5) 4 ≡ some (byte_of (bytes 1 2 3) (4 % 3)))
fill_lem_example = fill_lem (bytes 1 2 3) 5 4 (omega arith)

kill_file_lem_example :
    ((kill_file shell disk (codes "f")).1
      ≡ ((shredded shell disk (codes "f")).writable (codes "f") && shell.removable (codes "f")))
    × ((kill_file shell disk (codes "f")).0.file (codes "f") ≡ (
        if shell.removable (codes "f")
        then none
        else some (
            if (shredded shell disk (codes "f")).writable (codes "f")
            then fill (bytes 0xDB 0x6D 0xB6) (length (codes "secret"))
            else codes "secret")))
kill_file_lem_example = kill_file_lem shell disk (codes "f") (codes "secret") refl
