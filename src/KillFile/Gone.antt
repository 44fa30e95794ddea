-- ===== src/KillFile/Gone.antt =====
-- Which files are there behind `kill_file`.
use yatb.KillFile.Erased.{shredded, kill_file_lem}
use yatb.KillFile.{Shell, Pattern, fill, patterns, unlink, overwrite, kill_file}
use yatb.Platform.{Disk, filesize, writefile}
use yatb.Prelude.{
  ℕ, true, false, List, [], ◌∷◌, none, some, if◌then◌else◌, length, ◌≡◌, refl, ap, sym, ◌∙◌, inl,
  inr, Bool-cases, Option-cases,
}
use yatb.Text.{Bytes, same, same_comm, same_sound}

-- No command makes a file: `shred` only overwrites one.
abbrev pub MakesNone : Shell → Type 0
MakesNone shell =
    (command name : Bytes) (disk : Disk)
    → disk.file name ≡ none
    → (shell.run command disk).file name ≡ none

module _ (shell : Shell) where
  -- A file that can be removed is gone, whether or not it was there and could be written.
  pub kill_file_removed :
      (disk : Disk) (filename : Bytes)
      → shell.removable filename ≡ true
      → (kill_file shell disk filename).0.file filename ≡ none
  unfolding kill_file filesize
  kill_file_removed disk filename r =
      elim (Option-cases ((shredded shell disk filename).file filename)) [
        | inl e ↦ rw (e, kill_file) e
        | inr (text, e) ↦
            (kill_file_lem shell disk filename text e).1
            ∙ ap
                (λ b.
                  if b
                  then none
                  else some (
                      if (shredded shell disk filename).writable filename
                      then fill (record { byte_0 = 0xDB; byte_1 = 0x6D; byte_2 = 0xB6 })
                          (length text)
                      else text))
                r
      ]

  unlink_other :
      (disk : Disk) (filename name : Bytes)
      → same filename name ≡ false
      → (unlink shell disk filename).0.file name ≡ disk.file name
  unfolding unlink
  unlink_other disk filename name s = elim (Option-cases (disk.file filename)) [
    | inl e ↦ rw (e, unlink) refl
    | inr (text, e) ↦ elim (Bool-cases (shell.removable filename)) [
      | inl r ↦ rw (e, r, unlink) (rw s refl)
      | inr r ↦ rw (e, r, unlink) refl
    ]
  ]

  writefile_other :
      (disk : Disk) (filename name text : Bytes)
      → same filename name ≡ false
      → (writefile disk filename text).0.file name ≡ disk.file name
  unfolding writefile
  writefile_other disk filename name text s = elim (Bool-cases (disk.writable filename)) [
    | inl w ↦ rw (w, writefile) (rw (same_comm name filename ∙ s) refl)
    | inr w ↦ rw (w, writefile) refl
  ]

  overwrite_other :
      (size : ℕ) (ps : List Pattern) (disk : Disk) (filename name : Bytes)
      → same filename name ≡ false
      → (overwrite shell size ps disk filename).0.file name ≡ disk.file name
  unfolding overwrite
  overwrite_other size [] disk filename name s = unlink_other disk filename name s
  overwrite_other size (p ∷ ps) disk filename name s =
      let w = writefile disk filename (fill p size) in
      let kept = writefile_other disk filename name (fill p size) s in
      elim (Bool-cases w.1) [
        | inl e ↦ rw e (overwrite_other size ps w.0 filename name s ∙ kept)
        | inr e ↦ rw e (unlink_other w.0 filename name s ∙ kept)
      ]

  missing_other :
      (disk : Disk) (filename name text : Bytes)
      → disk.file name ≡ none
      → disk.file filename ≡ some text
      → same filename name ≡ false
  missing_other disk filename name text g f = elim (Bool-cases (same filename name)) [
    | inr s ↦ s
    | inl s ↦
        absurd (some_not_none text (sym f ∙ ap (λ n. disk.file n) (same_sound filename name s) ∙ g))
  ]
    where
      some_not_none : (t : Bytes) → some t ≡ none → ⊥
      some_not_none t e = cc

  -- A file that is gone does not come back.
  pub kill_file_other :
      (disk : Disk) (filename name : Bytes)
      → MakesNone shell
      → disk.file name ≡ none
      → (kill_file shell disk filename).0.file name ≡ none
  unfolding kill_file filesize
  kill_file_other disk filename name makes g =
      let gone : (shredded shell disk filename).file name ≡ none = makes _ name disk g in
      elim (Option-cases ((shredded shell disk filename).file filename)) [
        | inl e ↦ rw (e, kill_file) gone
        | inr (text, e) ↦
            rw (e, kill_file)
              (overwrite_other (length text) patterns (shredded shell disk filename) filename name
                  (missing_other (shredded shell disk filename) filename name text gone e)
                ∙ gone)
      ]
