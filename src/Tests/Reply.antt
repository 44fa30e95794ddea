-- ===== src/Tests/Reply.antt =====
-- The replies of a server, read by `FtpCode`, `IsEndline` and `GetLine`.
use yatb.Prelude.{
  true, false, List, [], ◌∷◌, ◌++◌, some, none, ◌≡◌, refl, arith, if◌then◌else◌, map, pos, ◌==◌,
  ◌-◌, ◌+◌, ◌*◌,
}
use yatb.Reply.{last_line, before, code_at, is_numeric, ftp_code, is_endline, get_line, reply, got}
use yatb.Reply.Code.{crlf, ftp_code_digits, is_endline-ftp_code}
use yatb.Reply.Lines.{concat, get_line_sound, CompletesAtLast, get_line_complete}
use yatb.Text.{Bytes, codes, at, rfind}

-- A reply in two pieces, and the beginning of the next one.
abbrev pieces : List Bytes
pieces = codes "230-welcome\r\n2" ∷ codes "30 done\r\n" ∷ []

ftp_code_digits_example :
    ftp_code (codes "227 Entering" ++ crlf) (pos 7)
    ≡ some (
        if b' ' == b'-'
        then (false, pos 7)
        else (true, pos ((b'2' - b'0') * 100 + (b'2' - b'0') * 10 + (b'7' - b'0'))))
ftp_code_digits_example =
    ftp_code_digits b'2' b'2' b'7' b' ' (codes "Entering") (pos 7) (omega arith) (omega arith)
      (omega arith) (omega arith)

is_endline-ftp_code_example :
    is_endline (codes "230-hello\r\n") ≡ (elim (ftp_code (codes "230-hello\r\n") (pos 7)) [
      | none ↦ none
      | some (found, res') ↦ some found
    ])
is_endline-ftp_code_example = is_endline-ftp_code (codes "230-hello\r\n") (pos 7)

pieces_complete : CompletesAtLast [] pieces
unfolding is_endline at rfind last_line before code_at is_numeric
pieces_complete = (refl, (refl, refl))

get_line_complete_example :
    get_line (map got pieces ++ got (codes "200 next\r\n") ∷ [])
    ≡ reply (concat pieces) (got (codes "200 next\r\n") ∷ [])
get_line_complete_example =
    get_line_complete pieces (got (codes "200 next\r\n") ∷ []) pieces_complete

get_line_sound_example :
    (used : List Bytes) × (map got pieces ++ got (codes "200 next\r\n") ∷ []
      ≡ map got used ++ got (codes "200 next\r\n") ∷ [])
    × (concat pieces ≡ concat used)
    × (is_endline (concat pieces) ≡ some true)
get_line_sound_example =
    get_line_sound (map got pieces ++ got (codes "200 next\r\n") ∷ [])
      (got (codes "200 next\r\n") ∷ []) (concat pieces)
      (get_line_complete pieces (got (codes "200 next\r\n") ∷ []) pieces_complete)
