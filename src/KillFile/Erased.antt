-- ===== src/KillFile/Erased.antt =====
-- What `kill_file` leaves of a file.
use yatb.KillFile.{
  Shell, Pattern, byte_at, raised, fill_loop, defined_bytes, fill, all_bytes, bytes, patterns,
  unlink, overwrite, kill_file,
}
use yatb.Platform.{Disk, filesize, writefile}
use yatb.Prelude.{
  ℕ, zero, suc, ◌+◌, ◌%◌, ◌<◌, map, Bool, true, false, ◌&&◌, List, [], ◌∷◌, ◌++◌, none, some,
  length, drop, ◌==◌, if◌then◌else◌, ◌≡◌, refl, ap, ◌∙◌, arith, inl, inr, Bool-cases,
}
use yatb.Text.{Bytes, codes, same_refl, at}

-- The `i`th byte of a pattern that is repeated.
abbrev pub byte_of : Pattern → ℕ → ℕ
byte_of p i = if i == 0 then p.byte_0 else if i == 1 then p.byte_1 else p.byte_2

-- A counter below 3 reads the pattern and stays below 3.
byte_at_lem : (p : Pattern) (c : ℕ) → c < 3 → byte_at p c ≡ some (byte_of p c)
unfolding byte_at
byte_at_lem p zero h = refl
byte_at_lem p (suc zero) h = refl
byte_at_lem p (suc (suc zero)) h = refl
byte_at_lem p (suc (suc (suc n))) h = absurd (omega (arith, h))

raised_lem : (i : ℕ) → raised (i % 3) ≡ (suc i % 3)
unfolding raised
raised_lem i = ground arith

-- The buffer from `i` on, in the texts of the pattern's bytes.
repeated : Pattern → ℕ → ℕ → List ℕ
repeated p i zero = []
repeated p i (suc left) = byte_of p (i % 3) ∷ repeated p (suc i) left

fill_loop_lem : (p : Pattern) (i left : ℕ) → fill_loop p (i % 3) left ≡ map some (repeated p i left)
unfolding fill_loop repeated
fill_loop_lem p i zero = refl
fill_loop_lem p i (suc left) =
    rw (byte_at_lem p (i % 3) (omega arith), raised_lem i)
      (ap (λ t. some (byte_of p (i % 3)) ∷ t) (fill_loop_lem p (suc i) left))

defined_bytes-map : (s : Bytes) → defined_bytes (map some s) ≡ s
defined_bytes-map [] = refl
defined_bytes-map (b ∷ s) = ap (λ t. b ∷ t) (defined_bytes-map s)

repeated-length : (p : Pattern) (i left : ℕ) → length (repeated p i left) ≡ left
unfolding repeated
repeated-length p i zero = refl
repeated-length p i (suc left) = ap suc (repeated-length p (suc i) left)

at-repeated :
    (p : Pattern) (i left j : ℕ)
    → j < left
    → at (repeated p i left) j ≡ some (byte_of p ((i + j) % 3))
unfolding repeated at
at-repeated p i zero j h = absurd (omega (arith, h))
at-repeated p i (suc left) zero h = let e : i + zero ≡ i = omega arith in rw e refl
at-repeated p i (suc left) (suc j) h =
    let e : suc i + j ≡ i + suc j = omega arith in
    at-repeated p (suc i) left j (omega (arith, h)) ∙ ap (λ n. some (byte_of p (n % 3))) e

-- The loop reads the pattern only within its three bytes and fills the buffer exactly: it leaves `size`
-- defined bytes, of which the `i`th is `pattern[i % 3]`.
pub fill_lem :
    (p : Pattern) (size i : ℕ)
    → i < size
    → (fill_loop p 0 size ≡ map some (fill p size))
      × (length (fill p size) ≡ size)
      × (at (fill p size) i ≡ some (byte_of p (i % 3)))
fill_lem p size i h =
    let l = fill_loop_lem p 0 size in
    let e : fill p size ≡ repeated p 0 size =
      unfold fill in ap defined_bytes l ∙ defined_bytes-map (repeated p 0 size) in
    let z : 0 + i ≡ i = omega arith in
    rw e
      (l, repeated-length p 0 size, at-repeated p 0 size i h ∙ ap (λ n. some (byte_of p (n % 3))) z)

module _ (shell : Shell) where
  -- `unlink` of a file that is there.
  unlink_lem :
      (disk : Disk) (filename text : Bytes)
      → disk.file filename ≡ some text
      → ((unlink shell disk filename).1 ≡ shell.removable filename)
        × ((unlink shell disk filename).0.file filename
            ≡ (if shell.removable filename then none else some text))
  unfolding unlink
  unlink_lem disk filename text e = elim (Bool-cases (shell.removable filename)) [
    | inl r ↦ rw (e, r, unlink) (refl, rw (same_refl filename) refl)
    | inr r ↦ rw (e, r, unlink) (refl, e)
  ]

  -- A pass over a file that can be written.
  writefile_lem :
      (disk : Disk) (filename text : Bytes)
      → disk.writable filename ≡ true
      → ((writefile disk filename text).1 ≡ true)
        × (((writefile disk filename text).0.file filename ≡ some text)
            × ((writefile disk filename text).0.writable filename ≡ true))
  unfolding writefile
  writefile_lem disk filename text w = rw (w, writefile) (refl, (rw (same_refl filename) refl, w))

  -- The text that the passes leave.
  abbrev last_text : ℕ → List Pattern → Bytes → Bytes
  last_text size [] text = text
  last_text size (p ∷ ps) text = last_text size ps (fill p size)

  overwrite_lem :
      (size : ℕ) (ps : List Pattern) (disk : Disk) (filename text : Bytes)
      → disk.file filename ≡ some text
      → disk.writable filename ≡ true
      → ((overwrite shell size ps disk filename).1 ≡ shell.removable filename)
        × ((overwrite shell size ps disk filename).0.file filename
            ≡ (if shell.removable filename then none else some (last_text size ps text)))
  unfolding overwrite
  overwrite_lem size [] disk filename text e w = unlink_lem disk filename text e
  overwrite_lem size (p ∷ ps) disk filename text e w =
      let l = writefile_lem disk filename (fill p size) w in
      rw l.0 (overwrite_lem size ps _ filename (fill p size) l.1.0 l.1.1)

  -- The disk behind the command `shred`, which the passes start from.
  abbrev pub shredded : Disk → Bytes → Disk
  shredded disk filename = shell.run (codes "shred -n 25 -f -z " ++ filename) disk

  writefile_refused :
      (disk : Disk) (filename text : Bytes)
      → disk.writable filename ≡ false
      → writefile disk filename text ≡ (disk, false)
  unfolding writefile
  writefile_refused disk filename text w = rw (w, writefile) refl

  -- A pass over a file that cannot be written ends them.
  overwrite_refused :
      (size : ℕ) (p : Pattern) (ps : List Pattern) (disk : Disk) (filename text : Bytes)
      → disk.file filename ≡ some text
      → disk.writable filename ≡ false
      → ((overwrite shell size (p ∷ ps) disk filename).1 ≡ false)
        × ((overwrite shell size (p ∷ ps) disk filename).0.file filename
            ≡ (if shell.removable filename then none else some text))
  unfolding overwrite
  overwrite_refused size p ps disk filename text e w =
      rw (writefile_refused disk filename (fill p size) w)
        (refl, (unlink_lem disk filename text e).1)

  kill_file-cases :
      (disk : Disk) (filename text : Bytes) (b : Bool)
      → (shredded disk filename).file filename ≡ some text
      → (shredded disk filename).writable filename ≡ b
      → ((kill_file shell disk filename).1 ≡ (b && shell.removable filename))
        × ((kill_file shell disk filename).0.file filename ≡ (
            if shell.removable filename
            then none
            else some (if b then fill (bytes 0xDB 0x6D 0xB6) (length text) else text)))
  unfolding kill_file filesize
  kill_file-cases disk filename text true e w =
      rw (e, kill_file)
        (overwrite_lem (length text) patterns (shredded disk filename) filename text e w)
  kill_file-cases disk filename text false e w =
      rw (e, kill_file)
        (overwrite_refused (length text) (all_bytes 0x55) (drop 1 patterns) (shredded disk filename)
          filename text e w)

  -- `kill_file` of a file that is there behind its command: where the file can be written it is removed, with
  -- result 1, or, if it cannot be removed, it holds nothing but the last of the patterns in its old length,
  -- with result 0; where it cannot be written the result is 0, and the file is removed if it can be.
  pub kill_file_lem :
      (disk : Disk) (filename text : Bytes)
      → (shredded disk filename).file filename ≡ some text
      → ((kill_file shell disk filename).1
          ≡ ((shredded disk filename).writable filename && shell.removable filename))
        × ((kill_file shell disk filename).0.file filename ≡ (
            if shell.removable filename
            then none
            else some (
                if (shredded disk filename).writable filename
                then fill (bytes 0xDB 0x6D 0xB6) (length text)
                else text)))
  kill_file_lem disk filename text e = kill_file-cases disk filename text _ e refl
