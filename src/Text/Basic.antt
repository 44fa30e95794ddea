-- ===== src/Text/Basic.antt =====
-- Byte strings: literals, equality, substrings and single reads.
use Prim.Native.Char.{code}
use Prim.Native.String.{String}
use yatb.Prelude.{
  ℕ, zero, suc, ◌≡◌, refl, ◌≢◌, ◌↔◌, Bool, true, false, ◌&&◌, List, [], ◌∷◌, ◌++◌, ◌||◌, Option,
  none, some, arith, leb, ◌-◌, take, drop, ◌==◌, if◌then◌else◌, All, Bool-cases, inl, inr,
}

abbrev pub Bytes : Type 0
Bytes = List ℕ

-- The bytes of an ASCII literal.
abbrev pub codes : String → Bytes
codes String.[] = []
codes (String.◌∷◌ c s) = code c ∷ codes s

abbrev pub is_empty : Bytes → Bool
is_empty [] = true
is_empty (c ∷ s) = false

-- `s == t`.
unfoldable pub same : Bytes → Bytes → Bool
same [] [] = true
same [] (d ∷ t) = false
same (c ∷ s) [] = false
same (c ∷ s) (d ∷ t) = c == d && same s t

pub same_sound : (s t : Bytes) → same s t ≡ true → s ≡ t
unfolding same
same_sound [] [] h = refl
same_sound [] (d ∷ t) h = cc
same_sound (c ∷ s) [] h = cc
same_sound (c ∷ s) (d ∷ t) h = ground (arith, same_sound s t)

pub same_refl : (s : Bytes) → same s s ≡ true
unfolding same
same_refl [] = refl
same_refl (c ∷ s) = ground (arith, same_refl s)

pub same_comm : (s t : Bytes) → same s t ≡ same t s
unfolding same
same_comm [] [] = refl
same_comm [] (d ∷ t) = refl
same_comm (c ∷ s) [] = refl
same_comm (c ∷ s) (d ∷ t) = ground (arith, same_comm s t)

pub same_iff : (s t : Bytes) → (same s t ≡ true) ↔ (s ≡ t)
same_iff s t = (same_sound s t, λ e. rw e (same_refl t))

pub same_ne : (s t : Bytes) → s ≢ t → same s t ≡ false
same_ne s t h = elim (Bool-cases (same s t)) [ inl e ↦ absurd (h (same_sound s t e)) | inr e ↦ e ]

-- `s.substr(pos, len)` for a position inside the string; `len` is cut at its end.
abbrev pub substr : Bytes → ℕ → ℕ → Bytes
substr s pos len = take len (drop pos s)

-- `s[i]` of a `std::string`: the terminator at `size()`, and no defined value behind it.
unfoldable pub at : Bytes → ℕ → Option ℕ
at [] zero = some 0
at [] (suc i) = none
at (c ∷ s) zero = some c
at (c ∷ s) (suc i) = at s i

-- No byte of the text is `c`.
abbrev pub Lacks : ℕ → Bytes → Type 0
Lacks c = All (λ x. x ≢ c)

-- `(char *)buffer`: the text ends before its first NUL.
unfoldable pub c_str : Bytes → Bytes
c_str [] = []
c_str (c ∷ s) = if c == 0 then [] else c ∷ c_str s

pub c_str_whole : (s : Bytes) → Lacks 0 s → c_str s ≡ s
unfolding c_str
c_str_whole [] h = refl
c_str_whole (c ∷ s) h = ground (arith, c_str_whole s h.1)

-- Membership of a text in a list of texts.
unfoldable pub member : Bytes → List Bytes → Bool
member s [] = false
member s (t ∷ ts) = if same t s then true else member s ts

-- No text stands twice.
abbrev pub Distinct : List Bytes → Type 0
Distinct [] = Unit {0}
Distinct (t ∷ ts) = (member t ts ≡ false) × Distinct ts

pub member-append :
    (s : Bytes) (ts us : List Bytes) → member s (ts ++ us) ≡ (member s ts || member s us)
unfolding member
member-append s [] us = refl
member-append s (t ∷ ts) us = ground (arith, member-append s ts us)

pub Distinct-snoc :
    (ts : List Bytes) (s : Bytes) → Distinct ts → member s ts ≡ false → Distinct (ts ++ s ∷ [])
unfolding member
Distinct-snoc [] s d h = (refl, tt)
Distinct-snoc (t ∷ ts) s d h = (
  ground (arith, member-append t ts (s ∷ []), same_comm s t),
  Distinct-snoc ts s d.1 (ground arith),
)

-- `toupper` in the C locale, and a text with it applied to every byte.
unfoldable pub toupper : ℕ → ℕ
toupper c = if leb b'a' c && leb c b'z' then c - 32 else c
