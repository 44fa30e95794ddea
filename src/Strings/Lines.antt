-- ===== src/Strings/Lines.antt =====
-- `correctReply` and `crcut`: line ends.
use yatb.Prelude.{
  ℕ, ◌-◌, Bool, false, not, ◌&&◌, [], ◌∷◌, ◌++◌, Option, none, some, length, ◌==◌, if◌then◌else◌,
  ◌≡◌, refl, sym, arith, append_assoc, append-nil, ◌∙◌, ap, ◌≢◌, Bool-cases, inl, inr, ◌⊎◌,
  length-append, take_prefix,
}
use yatb.Text.{Bytes, at}
use yatb.Strings.{correct_loop, correct_reply, crcut, cut_last, last}

-- What the loop writes for a text, given the byte before it.
needs_cr : Option ℕ → ℕ → Bool
needs_cr none c = c == b'\n'
needs_cr (some p) c = c == b'\n' && not (p == b'\r')

needs_cr_none :
    (prev : Option ℕ) (c : ℕ) → needs_cr prev c ≡ false → (c ≢ b'\n') ⊎ (prev ≡ some b'\r')
unfolding needs_cr
needs_cr_none none c h = inl (ground arith)
needs_cr_none (some p) c h = ground arith

needs_cr-false :
    (prev : Option ℕ) (c : ℕ) → (c ≢ b'\n') ⊎ (prev ≡ some b'\r') → needs_cr prev c ≡ false
unfolding needs_cr
needs_cr-false none c h = ground arith
needs_cr-false (some p) c h = ground arith

corrected : Option ℕ → Bytes → Bytes
corrected prev [] = []
corrected prev (c ∷ s) =
    let rest = corrected (some c) s in if needs_cr prev c then b'\r' ∷ c ∷ rest else c ∷ rest

correct_loop-corrected :
    (prev : Option ℕ) (s tmp : Bytes) → correct_loop prev s tmp ≡ tmp ++ corrected prev s
unfolding correct_loop corrected needs_cr
correct_loop-corrected prev [] tmp = sym (append-nil tmp)
correct_loop-corrected none (c ∷ s) tmp =
    grind (arith, correct_loop-corrected (some c) s, append_assoc)
correct_loop-corrected (some p) (c ∷ s) tmp =
    grind (arith, correct_loop-corrected (some c) s, append_assoc)

-- Every line feed has a carriage return before it; the first argument is the byte before the text.
abbrev pub IsCrLf : Option ℕ → Bytes → Type 0
IsCrLf prev [] = Unit
IsCrLf prev (c ∷ s) = ((c ≢ b'\n') ⊎ (prev ≡ some b'\r')) × IsCrLf (some c) s

corrected-IsCrLf : (prev : Option ℕ) (s : Bytes) → IsCrLf prev (corrected prev s)
unfolding corrected
corrected-IsCrLf prev [] = tt
corrected-IsCrLf prev (c ∷ s) = elim (Bool-cases (needs_cr prev c)) [
  | inl e ↦ rw e (inl (λ h. absurd (omega arith)), (inr refl, corrected-IsCrLf (some c) s))
  | inr e ↦ rw e (needs_cr_none prev c e, corrected-IsCrLf (some c) s)
]

corrected_fixed : (prev : Option ℕ) (s : Bytes) → IsCrLf prev s → corrected prev s ≡ s
unfolding corrected
corrected_fixed prev [] h = refl
corrected_fixed prev (c ∷ s) h =
    rw (needs_cr-false prev c h.0) (ap (λ t. c ∷ t) (corrected_fixed (some c) s h.1))

-- In a corrected reply every line feed follows a carriage return.
pub correct_reply-IsCrLf : (s : Bytes) → IsCrLf none (correct_reply s)
unfolding correct_reply
correct_reply-IsCrLf s = rw (correct_loop-corrected none s []) (corrected-IsCrLf none s)

-- A reply in which every line feed follows a carriage return is left as it is.
pub correct_reply_fixed : (s : Bytes) → IsCrLf none s → correct_reply s ≡ s
unfolding correct_reply
correct_reply_fixed s h = correct_loop-corrected none s [] ∙ corrected_fixed none s h

-- The text without its carriage returns.
abbrev pub without_cr : Bytes → Bytes
without_cr [] = []
without_cr (c ∷ s) = if c == b'\r' then without_cr s else c ∷ without_cr s

corrected-without_cr : (prev : Option ℕ) (s : Bytes) → without_cr (corrected prev s) ≡ without_cr s
unfolding corrected
corrected-without_cr prev [] = refl
corrected-without_cr prev (c ∷ s) = ground (arith, corrected-without_cr (some c) s)

-- `correctReply` makes every line feed follow a carriage return, adds and drops nothing but carriage
-- returns, and changes nothing when it is run again.
pub correct_reply_lem :
    (s : Bytes)
    → IsCrLf none (correct_reply s)
      × (without_cr (correct_reply s) ≡ without_cr s)
      × (correct_reply (correct_reply s) ≡ correct_reply s)
unfolding correct_reply
correct_reply_lem s = (
  correct_reply-IsCrLf s,
  rw (correct_loop-corrected none s []) (corrected-without_cr none s),
  correct_reply_fixed (correct_reply s) (correct_reply-IsCrLf s),
)

at_middle : (s t : Bytes) (c : ℕ) → at (s ++ c ∷ t) (length s) ≡ some c
unfolding at
at_middle [] t c = refl
at_middle (d ∷ s) t c = at_middle s t c

last-snoc : (s : Bytes) (d : ℕ) → last (s ++ d ∷ []) ≡ some d
unfolding last at
last-snoc [] d = refl
last-snoc (x ∷ s) d =
    let e : length (x ∷ (s ++ d ∷ [])) - 1 ≡ length (x ∷ s) =
      omega (arith, length-append s (d ∷ [])) in
    rw e (at_middle s [] d)

cut_last-snoc :
    (c d : ℕ) (s : Bytes) → cut_last c (s ++ d ∷ []) ≡ some (if d == c then s else s ++ d ∷ [])
unfolding cut_last
cut_last-snoc c d s =
    let e : length (s ++ d ∷ []) - 1 ≡ length s = omega (arith, length-append s (d ∷ [])) in
    rw (last-snoc s d, cut_last) (rw (e, take_prefix) refl)

crcut_cr_lf : (s : Bytes) → crcut ((s ++ b'\r' ∷ []) ++ b'\n' ∷ []) ≡ some s
unfolding crcut
crcut_cr_lf s =
    rw (cut_last-snoc b'\n' b'\n' (s ++ b'\r' ∷ []), crcut) (cut_last-snoc b'\r' b'\r' s)

crcut_lf :
    (s : Bytes) (d : ℕ) → d ≢ b'\r' → crcut ((s ++ d ∷ []) ++ b'\n' ∷ []) ≡ some (s ++ d ∷ [])
unfolding crcut
crcut_lf s d h =
    rw (cut_last-snoc b'\n' b'\n' (s ++ d ∷ []), crcut) (ground (arith, cut_last-snoc b'\r' d s))

crcut_bare : (s : Bytes) (d : ℕ) → d ≢ b'\r' → d ≢ b'\n' → crcut (s ++ d ∷ []) ≡ some (s ++ d ∷ [])
unfolding crcut
crcut_bare s d h k =
    let whole : cut_last b'\n' (s ++ d ∷ []) ≡ some (s ++ d ∷ []) =
      ground (arith, cut_last-snoc b'\n' d s) in
    rw (whole, crcut) (ground (arith, cut_last-snoc b'\r' d s))

-- A text that ends in neither `\r` nor `\n` is given back whole, and so is its line, be the line's
-- end `\r\n` or `\n`.
pub crcut-line :
    (s : Bytes) (d : ℕ)
    → d ≢ b'\r'
    → d ≢ b'\n'
    → (crcut ((s ++ d ∷ []) ++ b'\r' ∷ b'\n' ∷ []) ≡ some (s ++ d ∷ []))
      × (crcut ((s ++ d ∷ []) ++ b'\n' ∷ []) ≡ some (s ++ d ∷ []))
      × (crcut (s ++ d ∷ []) ≡ some (s ++ d ∷ []))
crcut-line s d h k = (
  ap crcut (sym (append_assoc (s ++ d ∷ []) (b'\r' ∷ []) (b'\n' ∷ []))) ∙ crcut_cr_lf (s ++ d ∷ []),
  crcut_lf s d h,
  crcut_bare s d h k,
)
