-- ===== src/StringList/AbstractSet.antt =====
-- `CStringlist` implements a set of texts: the view that forgets the order of the list.
use mathlib.Core.List.{foldl}
use yatb.Prelude.{Bool, not, ◌&&◌, ◌||◌, List, [], ◌∷◌, ◌≡◌, refl, ◌∙◌, ap, fun_ext}
use yatb.StringList.{StringList, is_in_list, insert, remove}
use yatb.StringList.Members.{IsValid, is_in_list-insert, is_in_list-remove, parse_string-IsValid}
use yatb.Text.{Bytes, member, parts}

-- A call of `Insert` or of `Remove`.
pub data Change : Type 0 where
  inserted : Bytes → Change
  removed : Bytes → Change

-- What the calls do to a list.
abbrev pub changed : StringList → Change → StringList
changed l (inserted s) = insert l s
changed l (removed s) = remove l s

-- A set of texts, and what the calls do to it.
abbrev pub NameSet : Type 0
NameSet = Bytes → Bool

abbrev pub set_changed : NameSet → Change → NameSet
set_changed names (inserted s) = λ x. names x || member x (parts s)
set_changed names (removed s) = λ x. names x && not (member x (parts s))

changed-IsValid : (l : StringList) (c : Change) → IsValid l → IsValid (changed l c)
unfolding insert remove
changed-IsValid l (inserted s) v = parse_string-IsValid 1 l s v
changed-IsValid l (removed s) v = parse_string-IsValid 0 l s v

changed-set :
    (l : StringList) (c : Change)
    → IsValid l
    → is_in_list (changed l c) ≡ set_changed (is_in_list l) c
changed-set l (inserted s) v = fun_ext (λ x. is_in_list-insert l s x)
changed-set l (removed s) v = fun_ext (λ x. is_in_list-remove l s x v)

-- A list without repetitions, after any sequence of calls of `Insert` and `Remove`, still has none, and
-- `IsInList` is the set that the same calls make of the set before them: a call of `Insert` joins the
-- comma-separated parts of its argument to the set, one of `Remove` takes them out.
pub changed_refines :
    (cs : List Change) (l : StringList)
    → IsValid l
    → IsValid (foldl changed l cs)
      × (is_in_list (foldl changed l cs) ≡ foldl set_changed (is_in_list l) cs)
changed_refines [] l v = (v, refl)
changed_refines (c ∷ cs) l v =
    let (valid, same_set) = changed_refines cs (changed l c) (changed-IsValid l c v) in
    (valid, same_set ∙ ap (λ names. foldl set_changed names cs) (changed-set l c v))
