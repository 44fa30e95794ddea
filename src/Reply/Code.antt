-- ===== src/Reply/Code.antt =====
-- The code of a reply.
use yatb.Prelude.{
  ℕ, suc, ◌+◌, ◌-◌, ◌*◌, ◌≤◌, true, false, [], ◌∷◌, ◌++◌, none, some, length, take, ◌==◌,
  if◌then◌else◌, ℤ, pos, ◌≡◌, refl, sym, arith, ◌∙◌, ap, ap₂, take_all, take_prefix, length-append,
  append_assoc, Option-cases, inl, inr,
}
use yatb.Text.{Bytes, codes, at, rfind, last_of, last_of-append, last_of-none, Lacks}
use yatb.Text.Number.{atoi}
use yatb.Reply.{is_numeric, code_at, before, last_line, ftp_code, is_endline}

-- `IsEndline` says whether `FtpCode` finds a code, and is defined where that is.
pub is_endline-ftp_code :
    (tmp : Bytes) (res : ℤ)
    → is_endline tmp ≡ (elim (ftp_code tmp res) [ none ↦ none | some (found, res') ↦ some found ])
unfolding is_endline ftp_code
is_endline-ftp_code tmp res = elim (Option-cases (last_line tmp)) [
  | inl e ↦ ground (arith, e)
  | inr (start, e) ↦ elim (Option-cases (code_at tmp start)) [
    | inl f ↦ ground (arith, e, f)
    | inr (none, f) ↦ ground (arith, e, f)
    | inr (some t, f) ↦ ground (arith, e, f)
  ]
]

rfind_whole :
    (s t : Bytes)
    → Lacks b'\r' t
    → rfind (s ++ b'\r' ∷ t) b'\r' (length (s ++ b'\r' ∷ t)) ≡ some (length s)
unfolding rfind
rfind_whole s t h =
    ap (λ u. last_of u b'\r')
      (take_all (suc (length (s ++ b'\r' ∷ t))) (s ++ b'\r' ∷ t) (omega arith))
    ∙ last_of-append b'\r' s t h

rfind-before :
    (x : ℕ) (s t : Bytes)
    → rfind ((x ∷ s) ++ t) b'\r' (before ((x ∷ s) ++ t) (length (x ∷ s))) ≡ last_of (x ∷ s) b'\r'
unfolding rfind before
rfind-before x s t =
    let e : before ((x ∷ s) ++ t) (length (x ∷ s)) ≡ length s = ground arith in
    ap (λ p. last_of (take (suc p) ((x ∷ s) ++ t)) b'\r') e
    ∙ ap (λ u. last_of (x ∷ u) b'\r') (take_prefix s t)

-- The end of a line, behind a text.
abbrev pub crlf : Bytes
crlf = codes "\r\n"

last_line_lem :
    (x : ℕ) (u : Bytes)
    → last_line ((x ∷ u) ++ crlf)
      ≡ (elim (last_of (x ∷ u) b'\r') [ none ↦ some 0 | some pos2 ↦ some (pos2 + 2) ])
unfolding last_line
last_line_lem x u =
    rw (rfind_whole (x ∷ u) (b'\n' ∷ []) (omega arith), last_line) (rw (rfind-before x u crlf) refl)

-- One line, and a line behind others.
last_line_single : (x : ℕ) (t : Bytes) → Lacks b'\r' (x ∷ t) → last_line ((x ∷ t) ++ crlf) ≡ some 0
last_line_single x t h = rw (last_line_lem x t) (rw (last_of-none b'\r' (x ∷ t) h) refl)

last_line_multi :
    (s t : Bytes) → Lacks b'\r' t → last_line ((s ++ (crlf ++ t)) ++ crlf) ≡ some (length s + 2)
last_line_multi [] t h =
    last_line_lem b'\r' (b'\n' ∷ t)
    ∙ rw (last_of-append b'\r' [] (b'\n' ∷ t) ((omega arith), h)) refl
last_line_multi (x ∷ s) t h =
    last_line_lem x (s ++ (crlf ++ t))
    ∙ rw (last_of-append b'\r' (x ∷ s) (b'\n' ∷ t) ((omega arith), h)) refl

at-append : (s t : Bytes) (i : ℕ) → at (s ++ t) (length s + i) ≡ at t i
unfolding at
at-append [] t i = let e : 0 + i ≡ i = omega arith in rw e
at-append (x ∷ s) t i =
    let e : suc (length s) + i ≡ suc (length s + i) = omega arith in rw e (at-append s t i)

code_at-append : (s t : Bytes) → code_at (s ++ t) (length s) ≡ code_at t 0
unfolding code_at
code_at-append s t =
    ground (arith, at-append s t 0, at-append s t 1, at-append s t 2, at-append s t 3)

is_numeric_digit : (c : ℕ) → (b'0' ≤ c) × (c ≤ b'9') → is_numeric c ≡ true
unfolding is_numeric
is_numeric_digit c h = ground arith

code_at_digits :
    (a b c d : ℕ) (t : Bytes)
    → (b'0' ≤ a) × (a ≤ b'9')
    → (b'0' ≤ b) × (b ≤ b'9')
    → (b'0' ≤ c) × (c ≤ b'9')
    → code_at (a ∷ b ∷ c ∷ d ∷ t) 0 ≡ some (if d == b'-' then none else some (a ∷ b ∷ c ∷ []))
unfolding code_at at
code_at_digits a b c d t ha hb hc =
    ground (arith, is_numeric_digit a ha, is_numeric_digit b hb, is_numeric_digit c hc)

atoi_digits :
    (a b c : ℕ)
    → (b'0' ≤ a) × (a ≤ b'9')
    → (b'0' ≤ b) × (b ≤ b'9')
    → (b'0' ≤ c) × (c ≤ b'9')
    → atoi (a ∷ b ∷ c ∷ []) ≡ pos ((a - b'0') * 100 + (b - b'0') * 10 + (c - b'0'))
unfolding atoi
atoi_digits a b c ha hb hc = ground arith

-- Only the last line of a reply counts: with any text and line end before it the result is that of
-- the line alone.
pub ftp_code_last :
    (s t : Bytes) (x : ℕ) (res : ℤ)
    → Lacks b'\r' (x ∷ t)
    → ftp_code ((s ++ (crlf ++ x ∷ t)) ++ crlf) res ≡ ftp_code ((x ∷ t) ++ crlf) res
unfolding ftp_code
ftp_code_last s t x res h =
    let regroup : (s ++ (crlf ++ x ∷ t)) ++ crlf ≡ (s ++ crlf) ++ ((x ∷ t) ++ crlf) =
      simp append_assoc in
    let start : length s + 2 ≡ length (s ++ crlf) = omega (arith, length-append s crlf) in
    let same_code : code_at ((s ++ (crlf ++ x ∷ t)) ++ crlf) (length s + 2)
        ≡ code_at ((x ∷ t) ++ crlf) 0 =
      ap₂ code_at regroup start ∙ code_at-append (s ++ crlf) ((x ∷ t) ++ crlf) in
    rw (last_line_multi s (x ∷ t) h, ftp_code)
      (rw (last_line_single x t h, ftp_code) (rw same_code refl))

-- A reply of one line that begins with three digits, and has no carriage return but that of its
-- end: with anything but a dash behind the digits their number is its code; with a dash more lines
-- follow, and there is no code yet.
pub ftp_code_digits :
    (a b c d : ℕ) (t : Bytes) (res : ℤ)
    → (b'0' ≤ a) × (a ≤ b'9')
    → (b'0' ≤ b) × (b ≤ b'9')
    → (b'0' ≤ c) × (c ≤ b'9')
    → Lacks b'\r' (d ∷ t)
    → ftp_code ((a ∷ b ∷ c ∷ d ∷ t) ++ crlf) res
      ≡ some (
          if d == b'-'
          then (false, res)
          else (true, pos ((a - b'0') * 100 + (b - b'0') * 10 + (c - b'0'))))
unfolding ftp_code
ftp_code_digits a b c d t res ha hb hc h =
    let line = last_line_single a (b ∷ c ∷ d ∷ t) (omega arith, (omega arith, (omega arith, h))) in
    rw (line, ftp_code)
      (rw (code_at_digits a b c d (t ++ crlf) ha hb hc, ftp_code)
        (ground (arith, atoi_digits a b c ha hb hc)))

-- Behind a blank last line both functions read one byte past the terminator of the text.
pub ftp_code_blank :
    (s : Bytes) (res : ℤ)
    → (ftp_code (s ++ (crlf ++ crlf)) res ≡ none) × (is_endline (s ++ (crlf ++ crlf)) ≡ none)
ftp_code_blank s res = (undefined_code, rw (is_endline-ftp_code _ res, undefined_code) refl)
  where
    start : length s + 2 ≡ length (s ++ crlf)
    start = omega (arith, length-append s crlf)

    regroup : s ++ (crlf ++ crlf) ≡ (s ++ crlf) ++ crlf
    regroup = sym (append_assoc s crlf crlf)

    behind : code_at (s ++ (crlf ++ crlf)) (length s + 2) ≡ none
    behind = ap₂ code_at regroup start ∙ code_at-append (s ++ crlf) crlf ∙ unfold code_at at in refl

    undefined_code : ftp_code (s ++ (crlf ++ crlf)) res ≡ none
    undefined_code =
        let line : last_line (s ++ (crlf ++ crlf)) ≡ some (length s + 2) =
          ap last_line regroup ∙ last_line_multi s [] tt in
        unfold ftp_code in (rw (line, ftp_code) (rw (behind, ftp_code) refl))
