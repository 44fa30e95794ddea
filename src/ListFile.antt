-- ===== src/ListFile.antt =====
-- What `WriteList` and `ReadList` of src/whitelist.cc and src/fpwhitelist.cc have in common: the
-- text of a list stored in a file, in the clear or enciphered, and read back line by line.
pub mod RoundTrip
use yatb.Platform.{Crypto, Disk, encrypt, decrypt, filesize, readfile, writefile, zeros}
use yatb.Prelude.{
  ℕ, zero, suc, ◌+◌, Bool, true, false, not, ◌&&◌, List, [], ◌∷◌, ◌++◌, Option, none, some, length,
  take, ◌==◌, if◌then◌else◌,
}
use yatb.Text.{Bytes, at, c_str, is_empty}

-- `WriteList` behind its first loop: `daten` goes to the file, enciphered if there is a key. What
-- `encrypt` returns is not looked at.
unfoldable pub store : Crypto → Disk → Bytes → Bytes → Bytes → Disk × Bool
unfolding encrypt writefile
store crypto disk filename key daten =
    let bufferout = if is_empty key then daten else (encrypt crypto key daten).1 in
    writefile disk filename bufferout

module _ {S : Type 0} (insert : S → Bytes → S) where
  -- The loop of `ReadList` over `s` bytes from the `i`th: a line is inserted at its line feed, and
  -- carriage returns are dropped. `none` is a read behind the text.
  unfoldable pub line_loop : Bytes → ℕ → ℕ → Bytes → S → Option S
  unfolding at
  line_loop daten zero i tmp st = some st
  line_loop daten (suc s) i tmp st = elim (at daten i) [
    | none ↦ none
    | some c ↦
        let tmp' = if not (c == b'\r') && not (c == b'\n') then tmp ++ c ∷ [] else tmp in
        line_loop daten s (i + 1) (if c == b'\n' then [] else tmp')
          (if c == b'\n' then insert st tmp' else st)
  ]

  -- `ReadList`: what `decrypt` returns is not looked at.
  unfoldable pub load : Crypto → Disk → Bool → Bytes → Bytes → S → Option (Bool × S)
  unfolding line_loop c_str filesize readfile decrypt
  load crypto disk crypted filename key st = elim (filesize disk filename) [
    | none ↦ some (false, st)
    | some s ↦
        let bufferin = readfile disk filename in
        let bufferout = (decrypt crypto key (take s bufferin)).1 in
        let daten = if crypted then c_str (bufferout ++ 0 ∷ []) else c_str bufferin in
        elim (line_loop daten s 0 [] st) [ none ↦ none | some st' ↦ some (true, st') ]
  ]
