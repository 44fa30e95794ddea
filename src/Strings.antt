-- ===== src/Strings.antt =====
-- src/tools.cc: `ltrim`, `rtrim`, `trim`, `crcut`, `upper` and `correctReply`.
pub mod Trim
pub mod Lines
pub mod Upper
use mathlib.Core.List.{map}
use mathlib.Core.Option
use yatb.Prelude.{
  ℕ, zero, suc, ◌+◌, ◌-◌, Bool, true, false, not, ◌||◌, List, [], ◌∷◌, ◌++◌, Option, none, some,
  length, take, drop, ◌==◌, if◌then◌else◌,
}
use yatb.Text.{Bytes, codes, at, toupper, is_empty}

-- Is the byte one of `whitespace`?
unfoldable pub one_of : Bytes → ℕ → Bool
one_of [] c = false
one_of (w ∷ ws) c = c == w || one_of ws c

-- `str.find_first_not_of(whitespace)`.
unfoldable pub find_first_not_of : Bytes → Bytes → Option ℕ
unfolding one_of
find_first_not_of [] ws = none
find_first_not_of (c ∷ s) ws =
    if one_of ws c then Option.map suc (find_first_not_of s ws) else some 0

-- `str.find_last_not_of(whitespace)`.
unfoldable pub find_last_not_of : Bytes → Bytes → Option ℕ
unfolding one_of
find_last_not_of [] ws = none
find_last_not_of (c ∷ s) ws = elim (find_last_not_of s ws) [
  | some i ↦ some (suc i)
  | none ↦ if one_of ws c then none else some 0
]

unfoldable pub ltrim : Bytes → Bytes → Bytes
unfolding find_first_not_of
ltrim str whitespace = elim (find_first_not_of str whitespace) [
  | none ↦ []
  | some idx ↦ drop idx str
]

unfoldable pub rtrim : Bytes → Bytes → Bytes
unfolding find_last_not_of
rtrim str whitespace = elim (find_last_not_of str whitespace) [
  | none ↦ str
  | some idx ↦ take (idx + 1) str
]

unfoldable pub trim : Bytes → Bytes → Bytes
unfolding ltrim rtrim
trim str whitespace = rtrim (ltrim str whitespace) whitespace

-- `tmp[tmp.length()-1]`, which has no defined value for the empty text.
unfoldable pub last : Bytes → Option ℕ
unfolding at
last s = if is_empty s then none else at s (length s - 1)

-- One of the two tests of `crcut`: drops the last byte if it is `c`.
unfoldable pub cut_last : ℕ → Bytes → Option Bytes
unfolding last
cut_last c s = elim (last s) [
  | none ↦ none
  | some d ↦ some (if d == c then take (length s - 1) s else s)
]

-- `crcut`; `none` is a read in front of the text.
unfoldable pub crcut : Bytes → Option Bytes
unfolding cut_last
crcut s = elim (cut_last b'\n' s) [ none ↦ none | some tmp ↦ cut_last b'\r' tmp ]

-- `upper`; the length 0 stands for the whole text.
unfoldable pub upper : Bytes → ℕ → Bytes
unfolding toupper
upper str len = take (if len == 0 then length str else len) (map toupper str)

-- The loop of `correctReply`; the first argument is `in[i-1]`, `none` at the first byte.
correct_loop : Option ℕ → Bytes → Bytes → Bytes
correct_loop prev [] tmp = tmp
correct_loop prev (c ∷ s) tmp = correct_loop (some c) s (
    if not (c == b'\n') then tmp ++ c ∷ [] else elim prev [
      | some p ↦ if not (p == b'\r') then (tmp ++ b'\r' ∷ []) ++ c ∷ [] else tmp ++ c ∷ []
      | none ↦ (tmp ++ b'\r' ∷ []) ++ c ∷ []
    ])

unfoldable pub correct_reply : Bytes → Bytes
unfolding correct_loop
correct_reply s = correct_loop none s []
