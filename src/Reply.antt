-- ===== src/Reply.antt =====
-- src/tools.cc: `IsNumeric`, `FtpCode`, `IsEndline` and `GetLine`, which read the replies of an FTP
-- server. `none` is a read of the text behind its terminator.
pub mod Code
pub mod Lines
use mathlib.Core.Option
use yatb.Prelude.{
  ℕ, zero, suc, ◌+◌, ◌-◌, Bool, true, false, not, ◌||◌, List, [], ◌∷◌, ◌++◌, Option, none, some,
  length, ◌==◌, if◌then◌else◌, ℤ,
}
use yatb.Text.{Bytes, at, rfind}
use yatb.Text.Number.{atoi}

unfoldable pub is_numeric : ℕ → Bool
is_numeric s =
    s == b'1'
    || (s == b'2'
        || (s == b'3'
            || (s == b'4'
                || (s == b'5'
                    || (s == b'6' || (s == b'7' || (s == b'8' || (s == b'9' || s == b'0'))))))))

-- `tmp[i+3] != '-' && IsNumeric(tmp[i+2]) && IsNumeric(tmp[i+1]) && IsNumeric(tmp[i])`, read from
-- the left: the three digits, if the test holds.
unfoldable pub code_at : Bytes → ℕ → Option (Option Bytes)
code_at tmp i = elim (at tmp (i + 3)) [
  | none ↦ none
  | some d ↦ if d == b'-' then some none else elim (at tmp (i + 2)) [
    | none ↦ none
    | some c ↦ if not (is_numeric c) then some none else elim (at tmp (i + 1)) [
      | none ↦ none
      | some b ↦ if not (is_numeric b) then some none else elim (at tmp i) [
        | none ↦ none
        | some a ↦ some (if not (is_numeric a) then none else some (a ∷ b ∷ c ∷ []))
      ]
    ]
  ]
]

-- The second `rfind` begins at `pos1 - 1`, which at 0 wraps round to the end of the text.
unfoldable pub before : Bytes → ℕ → ℕ
before tmp pos1 = if pos1 == 0 then length tmp else pos1 - 1

-- Where the last line of a reply begins, as both functions find it; `none` if there is no line end.
unfoldable pub last_line : Bytes → Option ℕ
last_line tmp = elim (rfind tmp b'\r' (length tmp)) [
  | none ↦ none
  | some pos1 ↦ elim (rfind tmp b'\r' (before tmp pos1)) [
    | none ↦ some 0
    | some pos2 ↦ some (pos2 + 2)
  ]
]

-- `FtpCode`: the result, with what becomes of `res`.
unfoldable pub ftp_code : Bytes → ℤ → Option (Bool × ℤ)
ftp_code tmp res = elim (last_line tmp) [
  | none ↦ some (false, res)
  | some start ↦ elim (code_at tmp start) [
    | none ↦ none
    | some none ↦ some (false, res)
    | some (some t) ↦ some (true, atoi t)
  ]
]

unfoldable pub is_endline : Bytes → Option Bool
is_endline tmp = elim (last_line tmp) [
  | none ↦ some false
  | some start ↦ elim (code_at tmp start) [
    | none ↦ none
    | some none ↦ some false
    | some (some t) ↦ some true
  ]
]

-- What one call of `control_read` gives `GetLine`: a failure, or a result other than 0 with the text.
pub data Reading : Type 0 where
  failed : Reading
  got : Bytes → Reading

-- How `GetLine` ends: undefined behaviour, a read error, still waiting for the server when its
-- replies so far are used up, or the reply with the readings that are left.
pub data Outcome : Type 0 where
  undefined : Outcome
  read_error : Outcome
  waiting : Bytes → Outcome
  reply : Bytes → List Reading → Outcome

-- The loop of `GetLine`, over what the calls of `control_read` give.
unfoldable pub line_loop : Bytes → List Reading → Outcome
line_loop rep [] = elim (is_endline rep) [
  | none ↦ undefined
  | some true ↦ reply rep []
  | some false ↦ waiting rep
]
line_loop rep (failed ∷ rs) = elim (is_endline rep) [
  | none ↦ undefined
  | some true ↦ reply rep (failed ∷ rs)
  | some false ↦ read_error
]
line_loop rep (got tmp ∷ rs) = elim (is_endline rep) [
  | none ↦ undefined
  | some true ↦ reply rep (got tmp ∷ rs)
  | some false ↦ line_loop (rep ++ tmp) rs
]

unfoldable pub get_line : List Reading → Outcome
unfolding line_loop
get_line readings = line_loop [] readings
