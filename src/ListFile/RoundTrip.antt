-- ===== src/ListFile/RoundTrip.antt =====
-- What is stored is read back: every line is inserted once, in order.
use mathlib.Core.List.{foldl}
use yatb.Platform.{Crypto, IsCipher, Disk, encrypt}
use yatb.Prelude.{
  ℕ, ◌+◌, true, false, not, ◌&&◌, List, [], ◌∷◌, ◌++◌, some, length, ◌==◌, if◌then◌else◌, ◌≡◌, ◌≢◌,
  refl, sym, arith, ◌∙◌, ap, ap₂, append_assoc, append-nil, All, All-append, take_prefix,
  length-append,
}
use yatb.Text.{Bytes, at, c_str, is_empty, Lacks, same_refl}
use yatb.ListFile.{store, line_loop, load}

-- The text of some lines.
unfoldable pub lines_text : List Bytes → Bytes
lines_text [] = []
lines_text (l ∷ ls) = l ++ b'\r' ∷ b'\n' ∷ lines_text ls

-- A line can be read back if it holds no line end and no NUL.
abbrev pub IsLine : Bytes → Type 0
IsLine l = Lacks b'\r' l × Lacks b'\n' l × Lacks 0 l

at_middle : (s t : Bytes) (c : ℕ) → at (s ++ c ∷ t) (length s) ≡ some c
unfolding at
at_middle [] t c = refl
at_middle (d ∷ s) t c = at_middle s t c

-- A NUL-free text with a terminator behind it.
c_str_terminated : (s : Bytes) → Lacks 0 s → c_str (s ++ 0 ∷ []) ≡ s
unfolding c_str
c_str_terminated [] h = refl
c_str_terminated (c ∷ s) h = ground (arith, c_str_terminated s h.1)

module _ {S : Type 0} (insert : S → Bytes → S) where
  -- The loop over the unread rest of a text that is long enough.
  scan : Bytes → Bytes → S → S
  scan [] tmp st = st
  scan (c ∷ s) tmp st =
      scan s
        (if c == b'\n'
          then []
          else if not (c == b'\r') && not (c == b'\n')
          then tmp ++ c ∷ []
          else tmp)
        (if c == b'\n'
          then insert st (if not (c == b'\r') && not (c == b'\n') then tmp ++ c ∷ [] else tmp)
          else st)

  shift :
      (done s tmp : Bytes) (c : ℕ) (st : S)
      → line_loop insert (done ++ c ∷ s) (length s) (length done + 1) tmp st
        ≡ line_loop insert ((done ++ c ∷ []) ++ s) (length s) (length (done ++ c ∷ [])) tmp st
  shift done s tmp c st =
      let e : length done + 1 ≡ length (done ++ c ∷ []) =
        omega (arith, length-append done (c ∷ [])) in
      ap₂ (λ t i. line_loop insert t (length s) i tmp st) (sym (append_assoc done (c ∷ []) s)) e

  line_loop-scan :
      (done s tmp : Bytes) (st : S)
      → line_loop insert (done ++ s) (length s) (length done) tmp st ≡ some (scan s tmp st)
  unfolding line_loop scan
  line_loop-scan done [] tmp st = refl
  line_loop-scan done (c ∷ s) tmp st =
      rw (at_middle done s c, line_loop)
        (shift done s _ c _ ∙ line_loop-scan (done ++ c ∷ []) s _ _)

  scan_line :
      (l rest tmp : Bytes) (st : S)
      → Lacks b'\r' l
      → Lacks b'\n' l
      → scan (l ++ b'\r' ∷ b'\n' ∷ rest) tmp st ≡ scan rest [] (insert st (tmp ++ l))
  unfolding scan
  scan_line [] rest tmp st h k = rw append-nil
  scan_line (c ∷ l) rest tmp st h k =
      ground
        (arith, scan_line l rest (tmp ++ c ∷ []) st h.1 k.1, append_assoc tmp (c ∷ []) l, h.0, k.0)

  scan-lines_text :
      (ls : List Bytes) (st : S) → All IsLine ls → scan (lines_text ls) [] st ≡ foldl insert st ls
  unfolding lines_text
  scan-lines_text [] st h = unfold scan in refl
  scan-lines_text (l ∷ ls) st h =
      scan_line l (lines_text ls) [] st h.0.0 h.0.1 ∙ scan-lines_text ls (insert st l) h.1

  load_plain :
      (crypto : Crypto) (disk : Disk) (name key text : Bytes) (st : S)
      → disk.file name ≡ some text
      → Lacks 0 text
      → load insert crypto disk false name key st ≡ some (true, scan text [] st)
  unfolding load
  load_plain crypto disk name key text st h k =
      ground (arith, h, c_str_terminated text k, line_loop-scan [] text [] st)

  load_crypted :
      (crypto : Crypto) (disk : Disk) (name key text secret : Bytes) (st : S)
      → disk.file name ≡ some secret
      → crypto.bf_decrypt key secret ≡ some text
      → length secret ≡ length text
      → Lacks 0 text
      → load insert crypto disk true name key st ≡ some (true, scan text [] st)
  unfolding load
  load_crypted crypto disk name key text secret st h d n k = ground (
    arith,
    h,
    d,
    n,
    take_prefix secret (0 ∷ []),
    c_str_terminated text k,
    line_loop-scan [] text [] st,
  )

lines_text-Lacks : (ls : List Bytes) → All IsLine ls → Lacks 0 (lines_text ls)
unfolding lines_text
lines_text-Lacks [] h = tt
lines_text-Lacks (l ∷ ls) h =
    All-append (λ c. c ≢ 0) l _ h.0.2 ((omega arith), ((omega arith), lines_text-Lacks ls h.1))

stored :
    (crypto : Crypto) (disk : Disk) (name key text secret : Bytes)
    → disk.writable name ≡ true
    → (if is_empty key then text else (encrypt crypto key text).1) ≡ secret
    → (store crypto disk name key text).0.file name ≡ some secret
unfolding store
stored crypto disk name key text secret w e = ground (arith, same_refl name)

-- The file that `store` writes can be loaded: every line of the text is inserted once, in the order
-- of the text. The name can be written to, the lines hold neither line ends nor NULs, the same key
-- is used, and the file is read as enciphered exactly if the key is not empty.
pub load-store :
    {S : Type 0} (insert : S → Bytes → S) (crypto : Crypto) (disk : Disk) (name key : Bytes)
    (ls : List Bytes) (st : S)
    → IsCipher crypto
    → disk.writable name ≡ true
    → All IsLine ls
    → load insert crypto
        (store crypto disk name key (lines_text ls)).0
        (not (is_empty key))
        name
        key
        st
      ≡ some (true, foldl insert st ls)
unfolding store
load-store insert crypto disk name [] ls st c w h =
    load_plain insert crypto (store crypto disk name [] (lines_text ls)).0 name [] (lines_text ls)
      st (stored crypto disk name [] (lines_text ls) (lines_text ls) w refl) (lines_text-Lacks ls h)
    ∙ ap (λ t. some (true, t)) (scan-lines_text insert ls st h)
load-store insert crypto disk name (k ∷ key) ls st c w h =
    let text = lines_text ls in
    let secret = c.cipher (k ∷ key) text in
    let made : (encrypt crypto (k ∷ key) text).1 ≡ secret =
      rw (c.encrypts (k ∷ key) text, encrypt) refl in
    load_crypted insert crypto (store crypto disk name (k ∷ key) text).0 name (k ∷ key) text secret
      st (stored crypto disk name (k ∷ key) text secret w made) (c.decrypts (k ∷ key) text)
      (c.as_long (k ∷ key) text) (lines_text-Lacks ls h)
    ∙ ap (λ t. some (true, t)) (scan-lines_text insert ls st h)
