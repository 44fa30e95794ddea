-- ===== src/StringList.antt =====
-- src/stringlist.cc: `CStringlist`, the comma-separated lists of names and addresses (admins,
-- entry bouncers, users excluded from TLS, FXP sources and targets).
pub mod Members
pub mod RoundTrip
pub mod AbstractSet
use yatb.Prelude.{ℕ, Bool, true, false, List, [], ◌∷◌, ◌++◌, suc, length, ◌==◌, if◌then◌else◌}
use yatb.Text.{Bytes, codes, same, is_empty, member, for_each_field}

-- `vector<string> List`.
pub record StringList : Type 0 where
  pub list : List Bytes

-- The loop `if (List[i] == s) return 1;`, the result as a Boolean.
unfoldable pub is_in_list : StringList → Bytes → Bool
unfolding member
is_in_list l s = member s l.list

-- `Ins`.
unfoldable pub ins : StringList → Bytes → StringList
unfolding is_in_list
ins l s = if is_in_list l s then l else record l { list = l.list ++ s ∷ [] }

-- `List.erase(it)` at the first element that is equal to `s`.
unfoldable pub erase_first : Bytes → List Bytes → List Bytes
erase_first s [] = []
erase_first s (t ∷ ts) = if same t s then ts else t ∷ erase_first s ts

-- `Del`.
unfoldable pub del : StringList → Bytes → StringList
unfolding erase_first
del l s = record l { list = erase_first s l.list }

-- The body of the loop: `Del` in mode 0, `Ins` in mode 1.
unfoldable pub visit : ℕ → StringList → Bytes → StringList
unfolding ins del
visit mode l tmp = if mode == 0 then del l tmp else if mode == 1 then ins l tmp else l

-- `ParseString`; every round drops a byte of `s`, so its length bounds the rounds.
unfoldable pub parse_string : ℕ → StringList → Bytes → StringList
unfolding visit for_each_field
parse_string mode l s =
    if is_empty s then l else for_each_field (visit mode) b',' (suc (length s)) (s ++ codes ",") l

unfoldable pub insert : StringList → Bytes → StringList
unfolding parse_string
insert l s = parse_string 1 l s

unfoldable pub remove : StringList → Bytes → StringList
unfolding parse_string
remove l s = parse_string 0 l s

-- The loop of `GetList`: a comma behind every element but the last.
get_loop : Bytes → List Bytes → Bytes
get_loop tmp [] = tmp
get_loop tmp (x ∷ []) = tmp ++ x
get_loop tmp (x ∷ y ∷ rest) = get_loop ((tmp ++ x) ++ codes ",") (y ∷ rest)

unfoldable pub get_list : StringList → Bytes
unfolding get_loop
get_list l = get_loop [] l.list
