-- ===== src/StringList/Members.antt =====
-- What `Insert` and `Remove` do to the members of a list.
use mathlib.Core.List.{foldl}
use yatb.Prelude.{
  ℕ, not, ◌&&◌, ◌||◌, List, [], ◌∷◌, suc, ◌≡◌, refl, inl, inr, Bool-cases, length, ◌==◌, arith,
}
use yatb.Text.{
  Bytes, same, same_comm, same_iff, member, member-append, Distinct, Distinct-snoc, parts,
  for_each_field_lem,
}
use yatb.StringList.{
  StringList, is_in_list, ins, del, erase_first, visit, parse_string, insert, remove,
}

-- `ParseString` visits the comma-separated parts of its argument in order, and ends.
pub parse_string-foldl :
    (mode : ℕ) (l : StringList) (s : Bytes) → parse_string mode l s ≡ foldl (visit mode) l (parts s)
unfolding parse_string
parse_string-foldl mode l [] = refl
parse_string-foldl mode l (c ∷ s) =
    for_each_field_lem (visit mode) b',' (suc (length (c ∷ s))) (c ∷ s) l (omega arith)

ins-member : (l : StringList) (s x : Bytes) → is_in_list (ins l s) x ≡ (is_in_list l x || same s x)
unfolding ins is_in_list
ins-member l s x = ground (arith, member-append x l.list (s ∷ []), same_iff s x)

ins-Distinct : (l : StringList) (s : Bytes) → Distinct l.list → Distinct (ins l s).list
unfolding ins is_in_list
ins-Distinct l s d = elim (Bool-cases (member s l.list)) [
  | inl e ↦ rw e d
  | inr e ↦ rw e (Distinct-snoc l.list s d e)
]

erase_first-member :
    (s x : Bytes) (ts : List Bytes)
    → Distinct ts
    → member x (erase_first s ts) ≡ (member x ts && not (same s x))
unfolding member erase_first
erase_first-member s x [] d = refl
erase_first-member s x (t ∷ ts) d =
    ground
      (arith, erase_first-member s x ts, same_iff t s, same_iff s x, same_iff t x, same_comm s x)

erase_first-Distinct : (s : Bytes) (ts : List Bytes) → Distinct ts → Distinct (erase_first s ts)
unfolding erase_first
erase_first-Distinct s [] d = tt
erase_first-Distinct s (t ∷ ts) d = elim (Bool-cases (same t s)) [
  | inl e ↦ rw e d.1
  | inr e ↦ rw e (rw (erase_first-member s t ts d.1, d.0) refl, erase_first-Distinct s ts d.1)
]

-- A list of entries in which none stands twice.
abbrev pub IsValid : StringList → Type 0
IsValid l = Distinct l.list

visit-IsValid : (mode : ℕ) (l : StringList) (s : Bytes) → IsValid l → IsValid (visit mode l s)
unfolding visit del
visit-IsValid mode l s v = elim (Bool-cases (mode == 0)) [
  | inl e ↦ rw e (erase_first-Distinct s l.list v)
  | inr e ↦ elim (Bool-cases (mode == 1)) [
    | inl f ↦ rw (e, f) (ins-Distinct l s v)
    | inr f ↦ rw (e, f) v
  ]
]

foldl-IsValid :
    (mode : ℕ) (ps : List Bytes) (l : StringList) → IsValid l → IsValid (foldl (visit mode) l ps)
foldl-IsValid mode [] l v = v
foldl-IsValid mode (p ∷ ps) l v = foldl-IsValid mode ps (visit mode l p) (visit-IsValid mode l p v)

-- `ParseString` in any mode, and so `Insert` and `Remove`, leave a list without repetitions so.
pub parse_string-IsValid :
    (mode : ℕ) (l : StringList) (s : Bytes) → IsValid l → IsValid (parse_string mode l s)
parse_string-IsValid mode l s v =
    rw (parse_string-foldl mode l s) (foldl-IsValid mode (parts s) l v)

foldl-ins-member :
    (ps : List Bytes) (l : StringList) (x : Bytes)
    → is_in_list (foldl (visit 1) l ps) x ≡ (is_in_list l x || member x ps)
unfolding member visit
foldl-ins-member [] l x = ground arith
foldl-ins-member (p ∷ ps) l x = ground (arith, foldl-ins-member ps (ins l p) x, ins-member l p x)

-- After `Insert` the members are those before it and the comma-separated parts of its argument.
pub is_in_list-insert :
    (l : StringList) (s x : Bytes)
    → is_in_list (insert l s) x ≡ (is_in_list l x || member x (parts s))
unfolding insert
is_in_list-insert l s x = rw (parse_string-foldl 1 l s) (foldl-ins-member (parts s) l x)

foldl-del-member :
    (ps : List Bytes) (l : StringList) (x : Bytes)
    → IsValid l
    → is_in_list (foldl (visit 0) l ps) x ≡ (is_in_list l x && not (member x ps))
unfolding member visit del is_in_list
foldl-del-member [] l x v = ground arith
foldl-del-member (p ∷ ps) l x v = ground (
  arith,
  foldl-del-member ps (del l p) x (visit-IsValid 0 l p v),
  erase_first-member p x l.list v,
)

-- In a list without repetitions the members after `Remove` are those before it that are no comma-
-- separated part of its argument.
pub is_in_list-remove :
    (l : StringList) (s x : Bytes)
    → IsValid l
    → is_in_list (remove l s) x ≡ (is_in_list l x && not (member x (parts s)))
unfolding remove
is_in_list-remove l s x v = rw (parse_string-foldl 0 l s) (foldl-del-member (parts s) l x v)

-- After `Insert` the members are those before it and the comma-separated parts of its argument; after
-- `Remove`, from a list without repetitions, those before it that are no such part.
pub is_in_list-insert-remove :
    (l : StringList) (s x : Bytes)
    → IsValid l
    → (is_in_list (insert l s) x ≡ (is_in_list l x || member x (parts s)))
      × (is_in_list (remove l s) x ≡ (is_in_list l x && not (member x (parts s))))
is_in_list-insert-remove l s x h = (is_in_list-insert l s x, is_in_list-remove l s x h)
