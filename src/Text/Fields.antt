-- ===== src/Text/Fields.antt =====
-- Texts cut at every separator, and the loop with which `ParseString` does it.
use mathlib.Core.List.{foldl}
use yatb.Prelude.{
  ℕ, zero, suc, ◌<◌, ◌≡◌, refl, sym, ap, inl, inr, List, [], ◌∷◌, ◌++◌, none, some, arith, length,
  ◌==◌, if◌then◌else◌, length-append, Option-cases, append_assoc, All, ◌∙◌,
}
use yatb.Text.Basic.{Bytes, Lacks}
use yatb.Text.Find.{
  first_field, first_field_sound, Lacks-first_field, cut_at, cut_at-first_field, first_field-append,
  first_field-none,
}

-- Puts a byte before the first of some parts.
unfoldable pub prepend : ℕ → List Bytes → List Bytes
prepend x [] = (x ∷ []) ∷ []
prepend x (p ∷ ps) = (x ∷ p) ∷ ps

-- The parts between the separators; a text with no separator is one part.
unfoldable pub fields : ℕ → Bytes → List Bytes
unfolding prepend
fields c [] = [] ∷ []
fields c (x ∷ s) = if x == c then [] ∷ fields c s else prepend x (fields c s)

module _ {S : Type 0} (body : S → Bytes → S) (c : ℕ) where
  -- `do { pos = s.find(c,0); if (pos != npos) { body(s.substr(0,pos)); s = s.substr(pos + 1, …); } }
  -- while (pos != npos);`, on fuel.
  unfoldable pub for_each_field : ℕ → Bytes → S → S
  for_each_field zero s st = st
  for_each_field (suc fuel) s st = elim (cut_at c s) [
    | none ↦ st
    | some t ↦ for_each_field fuel t.1 (body st t.0)
  ]

  -- A round on a text with a separator, and the last round.
  for_each_field_next :
      (fuel : ℕ) (s p r : Bytes) (st : S)
      → first_field c s ≡ some (p, r)
      → for_each_field (suc fuel) s st ≡ for_each_field fuel r (body st p)
  unfolding for_each_field
  for_each_field_next fuel s p r st h = rw (cut_at-first_field c s ∙ h, for_each_field)

  for_each_field_last :
      (fuel : ℕ) (s : Bytes) (st : S) → first_field c s ≡ none → for_each_field fuel s st ≡ st
  unfolding for_each_field
  for_each_field_last zero s st h = refl
  for_each_field_last (suc fuel) s st h = rw (cut_at-first_field c s ∙ h, for_each_field)

pub fields_cut : (c : ℕ) (p r : Bytes) → Lacks c p → fields c (p ++ c ∷ r) ≡ p ∷ fields c r
unfolding fields
fields_cut c [] r h = ground arith
fields_cut c (x ∷ p) r h = ground (arith, fields_cut c p r h.1)

pub fields_whole : (c : ℕ) (p : Bytes) → Lacks c p → fields c p ≡ p ∷ []
unfolding fields
fields_whole c [] h = refl
fields_whole c (x ∷ p) h = ground (arith, fields_whole c p h.1)

module _ {S : Type 0} (body : S → Bytes → S) (c : ℕ) where
  -- With more fuel than bytes the loop visits every part of the text, in order, and then stops.
  pub for_each_field_lem :
      (fuel : ℕ) (s : Bytes) (st : S)
      → length s < fuel
      → for_each_field body c fuel (s ++ c ∷ []) st ≡ foldl body st (fields c s)
  for_each_field_lem zero s st h = elim h [ ]
  for_each_field_lem (suc fuel) s st h = elim (Option-cases (first_field c s)) [
    | inl e ↦
        let l = Lacks-first_field c s e in
        for_each_field_next body c fuel (s ++ c ∷ []) s [] st (first_field-append c s [] l)
        ∙ for_each_field_last body c fuel [] (body st s) (first_field-none c [] tt)
        ∙ sym (ap (foldl body st) (fields_whole c s l))
    | inr (t, e) ↦
        let f = first_field_sound c s t.0 t.1 e in
        let split : s ++ c ∷ [] ≡ t.0 ++ c ∷ (t.1 ++ c ∷ []) =
          ap (λ u. u ++ c ∷ []) f.0 ∙ append_assoc t.0 (c ∷ t.1) (c ∷ []) in
        let shorter : length t.1 < fuel =
          omega (arith, ap length f.0, length-append t.0 (c ∷ t.1)) in
        for_each_field_next body c fuel (s ++ c ∷ []) t.0 (t.1 ++ c ∷ []) st
          (ap (first_field c) split ∙ first_field-append c t.0 (t.1 ++ c ∷ []) f.1)
        ∙ for_each_field_lem fuel t.1 (body st t.0) shorter
        ∙ sym (ap (foldl body st) (ap (fields c) f.0 ∙ fields_cut c t.0 t.1 f.1))
  ]

-- `GetList`'s format: the separator between the parts.
unfoldable pub join : ℕ → List Bytes → Bytes
join c [] = []
join c (p ∷ []) = p
join c (p ∷ q ∷ ps) = p ++ c ∷ join c (q ∷ ps)

-- Cutting a join gives the parts back, if there is one and none holds the separator.
pub fields-join :
    (c : ℕ) (p : Bytes) (ps : List Bytes)
    → All (Lacks c) (p ∷ ps)
    → fields c (join c (p ∷ ps)) ≡ p ∷ ps
unfolding join
fields-join c p [] h = fields_whole c p h.0
fields-join c p (q ∷ ps) h = fields_cut c p _ h.0 ∙ ap (λ t. p ∷ t) (fields-join c q ps h.1)

-- The parts of a non-empty argument; the empty argument has none.
abbrev pub parts : Bytes → List Bytes
parts [] = []
parts (c ∷ s) = fields b',' (c ∷ s)
