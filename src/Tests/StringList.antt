-- ===== src/Tests/StringList.antt =====
-- src/stringlist.cc at concrete lists.
use yatb.Prelude.{List, [], ◌∷◌, ◌≡◌, refl}
use yatb.StringList.{StringList, is_in_list, insert, remove, get_list}
use yatb.StringList.AbstractSet.{Change, inserted, removed, changed, set_changed, changed_refines}
use yatb.StringList.Members.{IsValid}
use mathlib.Core.List.{foldl}
use yatb.Text.{codes, member, same, cut_at}

abbrev admins : StringList
admins = record { list = codes "hawk" ∷ codes "ppx" ∷ [] }

admins-IsValid : IsValid admins
unfolding member same
admins-IsValid = (refl, (refl, tt))

insert_run : get_list (insert admins (codes "joe,ppx,,ann")) ≡ codes "hawk,ppx,joe,,ann"
unfolding insert get_list member same cut_at
insert_run = refl

remove_run : get_list (remove admins (codes "joe,hawk")) ≡ codes "ppx"
unfolding remove get_list same cut_at
remove_run = refl

abbrev joe_for_hawk : List Change
joe_for_hawk = inserted (codes "joe,ppx") ∷ removed (codes "hawk") ∷ []

changed_refines_example :
    IsValid (foldl changed admins joe_for_hawk)
    × (is_in_list (foldl changed admins joe_for_hawk)
        ≡ foldl set_changed (is_in_list admins) joe_for_hawk)
changed_refines_example = changed_refines joe_for_hawk admins admins-IsValid
