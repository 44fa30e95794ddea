-- ===== src/Text/Find.antt =====
-- `find`, `rfind`, and the cut at a separator: `pos = s.find(c, 0)` with the two `substr` behind it.
use mathlib.Core.Option
use yatb.Prelude.{
  ℕ, suc, ◌+◌, ◌-◌, ◌≡◌, refl, ap, inl, inr, Bool, true, false, ◌&&◌, [], ◌∷◌, ◌++◌, Option, none,
  some, arith, length, take, drop, ◌==◌, if◌then◌else◌, length-append, ◌∙◌, take_prefix,
  drop_prefix_cons, take_all, Option-cases, Bool-cases, leb,
}
use yatb.Text.Basic.{Bytes, substr, is_empty, Lacks}

unfoldable pub starts_with : Bytes → Bytes → Bool
starts_with s [] = true
starts_with [] (d ∷ t) = false
starts_with (c ∷ s) (d ∷ t) = c == d && starts_with s t

-- `s.find(pat, 0)`.
unfoldable pub find : Bytes → Bytes → Option ℕ
unfolding starts_with
find [] pat = if is_empty pat then some 0 else none
find (c ∷ s) pat = if starts_with (c ∷ s) pat then some 0 else Option.map suc (find s pat)

-- `s.find(pat, pos)` for a position inside the string.
unfoldable pub find_at : Bytes → Bytes → ℕ → Option ℕ
unfolding find
find_at s pat pos =
    if leb pos (length s) then Option.map (λ i. pos + i) (find (drop pos s) pat) else none

-- The last position of `c` in a text.
unfoldable pub last_of : Bytes → ℕ → Option ℕ
last_of [] c = none
last_of (x ∷ s) c = elim (last_of s c) [
  | some i ↦ some (suc i)
  | none ↦ if x == c then some 0 else none
]

-- `s.rfind(c, pos)`: the last occurrence that begins at `pos` or before it.
unfoldable pub rfind : Bytes → ℕ → ℕ → Option ℕ
unfolding last_of
rfind s c pos = last_of (take (suc pos) s) c

-- What stands before the first `c`, and what stands behind it.
unfoldable pub first_field : ℕ → Bytes → Option (Bytes × Bytes)
first_field c [] = none
first_field c (x ∷ s) =
    if x == c then some ([], s) else Option.map (λ t. (x ∷ t.0, t.1)) (first_field c s)

-- `pos = s.find(c,0)`, then `s.substr(0,pos)` and `s.substr(pos + 1, s.length() - pos - 1)`.
unfoldable pub cut_at : ℕ → Bytes → Option (Bytes × Bytes)
unfolding find
cut_at c s =
    Option.map (λ pos. (substr s 0 pos, substr s (pos + 1) (length s - pos - 1))) (find s (c ∷ []))

pub find-first_field :
    (c : ℕ) (s : Bytes) → find s (c ∷ []) ≡ Option.map (λ t. length t.0) (first_field c s)
unfolding find first_field
find-first_field c [] = refl
find-first_field c (x ∷ s) = elim (Bool-cases (x == c)) [
  | inl e ↦ rw e refl
  | inr e ↦ rw (e, find-first_field c s) (under (first_field c s))
]
  where
    under :
        (o : Option (Bytes × Bytes))
        → Option.map suc (Option.map (λ (t : Bytes × Bytes). length t.0) o)
          ≡ Option.map
              (λ (t : Bytes × Bytes). length t.0)
              (Option.map (λ (t : Bytes × Bytes). (x ∷ t.0, t.1)) o)
    under none = refl
    under (some t) = refl

pub first_field_sound :
    (c : ℕ) (s p r : Bytes) → first_field c s ≡ some (p, r) → (s ≡ p ++ c ∷ r) × Lacks c p
unfolding first_field
first_field_sound c [] p r h = cc
first_field_sound c (x ∷ s) p r h = elim (Option-cases (first_field c s)) [
  | inl e ↦ ground (arith, e)
  | inr (t, e) ↦ let ih = first_field_sound c s t.0 t.1 e in ground (arith, e, ih.0, ih.1)
]

pub first_field-append :
    (c : ℕ) (p r : Bytes) → Lacks c p → first_field c (p ++ c ∷ r) ≡ some (p, r)
unfolding first_field
first_field-append c [] r h = ground arith
first_field-append c (x ∷ p) r h = ground (arith, first_field-append c p r h.1)

pub first_field-none : (c : ℕ) (s : Bytes) → Lacks c s → first_field c s ≡ none
unfolding first_field
first_field-none c [] h = refl
first_field-none c (x ∷ s) h = ground (arith, first_field-none c s h.1)

pub Lacks-first_field : (c : ℕ) (s : Bytes) → first_field c s ≡ none → Lacks c s
unfolding first_field
Lacks-first_field c [] h = tt
Lacks-first_field c (x ∷ s) h = ground (arith, Lacks-first_field c s)

pub cut_at-first_field : (c : ℕ) (s : Bytes) → cut_at c s ≡ first_field c s
unfolding cut_at
cut_at-first_field c s = elim (Option-cases (first_field c s)) [
  | inl e ↦ rw (find-first_field, e) refl
  | inr (t, e) ↦ rw (find-first_field, e) (ap some (pieces (first_field_sound c s t.0 t.1 e).0))
]
  where
    pieces :
        {t : Bytes × Bytes}
        → s ≡ t.0 ++ c ∷ t.1
        → ◌≡◌ {A = Bytes × Bytes}
            (substr s 0 (length t.0), substr s (length t.0 + 1) (length s - length t.0 - 1))
            t
    pieces {t = t} h =
        let e : length s ≡ length t.0 + suc (length t.1) =
          ap length h ∙ length-append t.0 (c ∷ t.1) in
        let n : length s - length t.0 - 1 ≡ length t.1 = omega arith in
        let m : length t.0 + 1 ≡ suc (length t.0) = omega arith in
        rw (n, m, h, take_prefix, drop_prefix_cons, take_all (length t.1) t.1 (omega arith)) refl

pub cut_at-append : (c : ℕ) (p r : Bytes) → Lacks c p → cut_at c (p ++ c ∷ r) ≡ some (p, r)
cut_at-append c p r h = cut_at-first_field c (p ++ c ∷ r) ∙ first_field-append c p r h

pub cut_at-none : (c : ℕ) (s : Bytes) → Lacks c s → cut_at c s ≡ none
cut_at-none c s h = cut_at-first_field c s ∙ first_field-none c s h

pub is_empty-append : (c : ℕ) (p r : Bytes) → is_empty (p ++ c ∷ r) ≡ false
is_empty-append c [] r = refl
is_empty-append c (x ∷ p) r = refl

pub last_of-none : (c : ℕ) (s : Bytes) → Lacks c s → last_of s c ≡ none
unfolding last_of
last_of-none c [] h = refl
last_of-none c (x ∷ s) h = ground (arith, last_of-none c s h.1)

-- The last `c` of a text, if none is behind it.
pub last_of-append : (c : ℕ) (s t : Bytes) → Lacks c t → last_of (s ++ c ∷ t) c ≡ some (length s)
unfolding last_of
last_of-append c [] t h = ground (arith, last_of-none c t h)
last_of-append c (x ∷ s) t h = ground (arith, last_of-append c s t h)
