-- ===== src/StringList/RoundTrip.antt =====
-- `GetList` and `Insert`: what the list prints can be read back.
use mathlib.Core.List.{foldl}
use yatb.Prelude.{
  false, List, [], ◌∷◌, ◌++◌, ◌≡◌, ◌≢◌, refl, arith, ◌∙◌, All, ap, append_assoc, append-nil, sym,
}
use yatb.Text.{
  Bytes, codes, member, member-append, same_comm, Distinct, parts, fields-join, join, Lacks,
}
use yatb.StringList.{StringList, is_in_list, ins, visit, insert, get_list, get_loop}
use yatb.StringList.Members.{parse_string-foldl}

get_loop-join : (ps : List Bytes) (tmp : Bytes) → get_loop tmp ps ≡ tmp ++ join b',' ps
unfolding get_loop join
get_loop-join [] tmp = sym (append-nil tmp)
get_loop-join (x ∷ []) tmp = refl
get_loop-join (x ∷ y ∷ rest) tmp =
    get_loop-join (y ∷ rest) ((tmp ++ x) ++ codes ",")
    ∙ append_assoc (tmp ++ x) (codes ",") _
    ∙ append_assoc tmp x _

-- `GetList` puts a comma between the entries, in their order.
get_list-join : (l : StringList) → get_list l ≡ join b',' l.list
unfolding get_list
get_list-join l = get_loop-join l.list []

Distinct-middle :
    (qs : List Bytes) (p : Bytes) (ps : List Bytes) → Distinct (qs ++ p ∷ ps) → member p qs ≡ false
unfolding member
Distinct-middle [] p ps d = refl
Distinct-middle (t ∷ qs) p ps d =
    ground (arith, Distinct-middle qs p ps d.1, member-append t qs (p ∷ ps), d.0, same_comm t p)

foldl-ins :
    (ps qs : List Bytes)
    → Distinct (qs ++ ps)
    → foldl (visit 1) (record { list = qs }) ps ≡ (record { list = qs ++ ps })
unfolding visit ins is_in_list
foldl-ins [] qs d = ap (λ t. record { list = t }) (sym (append-nil qs))
foldl-ins (p ∷ ps) qs d = rw (Distinct-middle qs p ps d) (
    foldl-ins ps (qs ++ p ∷ []) (rw append_assoc d)
    ∙ ap (λ t. record { list = t }) (append_assoc qs (p ∷ []) ps))

parts-join : (ps : List Bytes) → ps ≢ [] ∷ [] → All (Lacks b',') ps → parts (join b',' ps) ≡ ps
unfolding join
parts-join [] ne c = refl
parts-join ([] ∷ []) ne c = absurd (ne refl)
parts-join ((x ∷ p) ∷ []) ne c = fields-join b',' (x ∷ p) [] c
parts-join ([] ∷ q ∷ ps) ne c = fields-join b',' [] (q ∷ ps) c
parts-join ((x ∷ p) ∷ q ∷ ps) ne c = fields-join b',' (x ∷ p) (q ∷ ps) c

abbrev pub empty : StringList
empty = record { list = [] }

-- A list whose entries are distinct and hold no comma, printed and inserted into an empty list, is
-- the same list, in the same order. The list of one empty entry is printed as the empty text, which
-- `Insert` ignores, so it is left out.
pub insert-get_list :
    (l : StringList)
    → Distinct l.list
    → All (Lacks b',') l.list
    → l.list ≢ [] ∷ []
    → insert empty (get_list l) ≡ l
unfolding insert
insert-get_list l d c ne =
    parse_string-foldl 1 empty (get_list l)
    ∙ ap (λ t. foldl (visit 1) empty (parts t)) (get_list-join l)
    ∙ ap (foldl (visit 1) empty) (parts-join l.list ne c)
    ∙ foldl-ins l.list [] d
