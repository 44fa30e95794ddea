-- ===== src/KillFile.antt =====
-- src/tls.cc: `kill_file`, which overwrites a file 27 times and removes it.
pub mod Erased
pub mod Gone
use yatb.Platform.{Disk, filesize, writefile}
use yatb.Prelude.{
  ℕ, zero, suc, ◌+◌, ◌==◌, Bool, true, false, not, ◌&&◌, List, [], ◌∷◌, ◌++◌, Option, none, some,
  if◌then◌else◌,
}
use yatb.Text.{Bytes, codes, same}

-- What the operating system does: a command given to `system`, and which names `unlink` can remove.
pub record Shell : Type 0 where
  pub run : Bytes → Disk → Disk
  pub removable : Bytes → Bool

-- The three bytes of `pattern`.
pub record Pattern : Type 0 where
  pub byte_0 : ℕ
  pub byte_1 : ℕ
  pub byte_2 : ℕ

-- `pattern[counter]`; a read outside of the three bytes is none.
unfoldable pub byte_at : Pattern → ℕ → Option ℕ
byte_at p zero = some p.byte_0
byte_at p (suc zero) = some p.byte_1
byte_at p (suc (suc zero)) = some p.byte_2
byte_at p (suc (suc (suc n))) = none

-- `counter++; if(counter == 3) counter = 0;`.
unfoldable pub raised : ℕ → ℕ
raised counter = if counter + 1 == 3 then 0 else counter + 1

-- The loop over `out`, for the rest of the buffer: what `out` holds from `i` on. A byte of it is none where
-- the read of the pattern is.
unfoldable pub fill_loop : Pattern → ℕ → ℕ → List (Option ℕ)
unfolding byte_at raised
fill_loop p counter zero = []
fill_loop p counter (suc left) = byte_at p counter ∷ fill_loop p (raised counter) left

-- The bytes of `out`, with 0 for what was read outside.
abbrev pub defined_bytes : List (Option ℕ) → Bytes
defined_bytes [] = []
defined_bytes (none ∷ bs) = 0 ∷ defined_bytes bs
defined_bytes (some b ∷ bs) = b ∷ defined_bytes bs

unfoldable pub fill : Pattern → ℕ → Bytes
unfolding fill_loop
fill p size = defined_bytes (fill_loop p 0 size)

abbrev pub all_bytes : ℕ → Pattern
all_bytes b = record { byte_0 = b; byte_1 = b; byte_2 = b }

abbrev pub bytes : ℕ → ℕ → ℕ → Pattern
bytes a b c = record { byte_0 = a; byte_1 = b; byte_2 = c }

-- The patterns 1 and 2.
abbrev pub first_patterns : List Pattern
first_patterns = all_bytes 0x55 ∷ all_bytes 0xAA ∷ []

-- The patterns 3 to 5, which are those of 21 to 23 too.
abbrev pub turning_patterns : List Pattern
turning_patterns = bytes 0x92 0x49 0x24 ∷ bytes 0x49 0x24 0x92 ∷ bytes 0x24 0x92 0x49 ∷ []

-- From pattern 6 to the second one that is called 12.
abbrev pub low_patterns : List Pattern
low_patterns =
    all_bytes 0x00
    ∷ all_bytes 0x11
    ∷ all_bytes 0x22
    ∷ all_bytes 0x33
    ∷ all_bytes 0x44
    ∷ all_bytes 0x55
    ∷ all_bytes 0x66
    ∷ all_bytes 0x77
    ∷ []

-- The patterns 13 to 20.
abbrev pub high_patterns : List Pattern
high_patterns =
    all_bytes 0x88
    ∷ all_bytes 0x99
    ∷ all_bytes 0xAA
    ∷ all_bytes 0xBB
    ∷ all_bytes 0xCC
    ∷ all_bytes 0xDD
    ∷ all_bytes 0xEE
    ∷ all_bytes 0xFF
    ∷ []

-- The patterns 24 to 26.
abbrev pub last_patterns : List Pattern
last_patterns = bytes 0x6D 0xB6 0xDB ∷ bytes 0xB6 0xDB 0x6D ∷ bytes 0xDB 0x6D 0xB6 ∷ []

abbrev pub patterns : List Pattern
patterns =
    first_patterns
    ++ (turning_patterns
        ++ (low_patterns ++ (high_patterns ++ (turning_patterns ++ last_patterns))))

module _ (shell : Shell) where
  -- `unlink`: the disk, and is its result 0?
  unfoldable pub unlink : Disk → Bytes → Disk × Bool
  unlink disk filename = elim (disk.file filename) [
    | none ↦ (disk, false)
    | some text ↦
        if shell.removable filename
        then (
          record disk { file = λ name. if same filename name then none else disk.file name },
          true,
        )
        else (disk, false)
  ]

  -- The rest of the passes, or the end at one that could not be written.
  abbrev pub pass_done : Bool → Disk × Bool → Disk → Disk × Bool
  pass_done true rest disk = rest
  pass_done false rest disk = (disk, false)

  -- The passes: at one that cannot be written the file is removed at once, and the result is 0. The last
  -- `unlink` decides on the result.
  unfoldable pub overwrite : ℕ → List Pattern → Disk → Bytes → Disk × Bool
  unfolding fill unlink writefile
  overwrite size [] disk filename = unlink disk filename
  overwrite size (p ∷ ps) disk filename =
      let (disk', written) = writefile disk filename (fill p size) in
      pass_done written (overwrite size ps disk' filename) (unlink disk' filename).0

  unfoldable pub kill_file : Disk → Bytes → Disk × Bool
  unfolding overwrite filesize
  kill_file disk filename =
      let disk1 = shell.run (codes "shred -n 25 -f -z " ++ filename) disk in
      elim (filesize disk1 filename) [
        | none ↦ (disk1, false)
        | some size ↦ overwrite size patterns disk1 filename
      ]
