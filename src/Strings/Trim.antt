-- ===== src/Strings/Trim.antt =====
-- `trim`: what is cut, and what is left.
use yatb.Prelude.{
  ℕ, suc, ◌+◌, true, false, [], ◌∷◌, ◌++◌, none, some, take, drop, if◌then◌else◌, ◌≡◌, refl, sym,
  arith, ◌∙◌, ap, All, Bool-cases, Option-cases, inl, inr, ◌⊎◌, take-append-drop,
}
use yatb.Text.{Bytes}
use yatb.Strings.{one_of, find_first_not_of, find_last_not_of, ltrim, rtrim, trim}

module _ (ws : Bytes) where
  -- Every byte is whitespace.
  abbrev pub AreBlank : Bytes → Type 0
  AreBlank = All (λ c. one_of ws c ≡ true)

  -- The text does not begin with whitespace.
  abbrev pub StartsBare : Bytes → Type 0
  StartsBare [] = Unit
  StartsBare (c ∷ s) = one_of ws c ≡ false

  -- The text does not end with whitespace.
  abbrev pub EndsBare : Bytes → Type 0
  EndsBare [] = Unit
  EndsBare (c ∷ []) = one_of ws c ≡ false
  EndsBare (c ∷ d ∷ s) = EndsBare (d ∷ s)

  ltrim_step : (c : ℕ) (s : Bytes) → ltrim (c ∷ s) ws ≡ (if one_of ws c then ltrim s ws else c ∷ s)
  unfolding ltrim
  ltrim_step c s = elim (Bool-cases (one_of ws c)) [
    | inl e ↦ elim (Option-cases (find_first_not_of s ws)) [
      | inl f ↦ ground (arith, e, f)
      | inr (i, f) ↦ ground (arith, e, f)
    ]
    | inr e ↦ ground (arith, e)
  ]

  ltrim_lem :
      (s : Bytes) → (p : Bytes) × (s ≡ p ++ ltrim s ws) × AreBlank p × StartsBare (ltrim s ws)
  unfolding ltrim
  ltrim_lem [] = ([], refl, tt, tt)
  ltrim_lem (c ∷ s) = elim (Bool-cases (one_of ws c)) [
    | inl e ↦
        let (p, parts, blank, bare) = ltrim_lem s in
        let step : ltrim (c ∷ s) ws ≡ ltrim s ws = rw (ltrim_step c s, e) refl in
        (c ∷ p, rw step (ap (λ t. c ∷ t) parts), (e, blank), rw step bare)
    | inr e ↦
        let step : ltrim (c ∷ s) ws ≡ c ∷ s = rw (ltrim_step c s, e) refl in
        ([], sym step, tt, rw step e)
  ]

  -- The last byte that is no whitespace.
  last_bare :
      (s : Bytes)
      → (find_last_not_of s ws ≡ none) × AreBlank s
        ⊎ ((i : ℕ) × (find_last_not_of s ws ≡ some i)
            × AreBlank (drop (suc i) s)
            × EndsBare (take (suc i) s))
  unfolding find_last_not_of
  last_bare [] = inl (refl, tt)
  last_bare (c ∷ s) = elim (last_bare s) [
    | inl (f, blank) ↦ elim (Bool-cases (one_of ws c)) [
      | inl e ↦ inl (ground (arith, e, f), (e, blank))
      | inr e ↦ inr (0, ground (arith, e, f), blank, e)
    ]
    | inr (i, f, blank, bare) ↦ inr (suc i, ground (arith, f), blank, ends s i f bare)
  ]
    where
      ends :
          (s : Bytes) (i : ℕ)
          → find_last_not_of s ws ≡ some i
          → EndsBare (take (suc i) s)
          → EndsBare (c ∷ take (suc i) s)
      ends [] i f bare = absurd (cc)
      ends (d ∷ s) i f bare = bare

  rtrim_lem :
      (s : Bytes)
      → StartsBare s
      → (q : Bytes) × (s ≡ rtrim s ws ++ q)
        × AreBlank q
        × StartsBare (rtrim s ws)
        × EndsBare (rtrim s ws)
  unfolding rtrim
  rtrim_lem [] h = ([], refl, tt, tt, tt)
  rtrim_lem (c ∷ s) h = elim (last_bare (c ∷ s)) [
    | inl (f, blank) ↦ absurd (clash blank.0)
    | inr (i, f, blank, bare) ↦
        let cut : rtrim (c ∷ s) ws ≡ take (suc i) (c ∷ s) =
          rw (f, rtrim) (rw (let a : i + 1 ≡ suc i = omega arith in a) refl) in
        (
          drop (suc i) (c ∷ s),
          rw cut (sym (take-append-drop (suc i) (c ∷ s))),
          blank,
          rw cut h,
          rw cut bare,
        )
  ]
    where
      clash : one_of ws c ≡ true → ⊥
      clash e = cc

-- `trim` cuts a blank piece off either end of the text, and what it leaves neither begins nor ends
-- with whitespace.
pub trim_lem :
    (s ws : Bytes)
    → (p q : Bytes) × (s ≡ p ++ (trim s ws ++ q))
      × AreBlank ws p
      × AreBlank ws q
      × StartsBare ws (trim s ws)
      × EndsBare ws (trim s ws)
unfolding trim
trim_lem s ws =
    let (p, front, blank_p, bare) = ltrim_lem ws s in
    let (q, back, blank_q, bare', ends) = rtrim_lem ws (ltrim s ws) bare in
    (p, q, front ∙ ap (λ t. p ++ t) back, blank_p, blank_q, bare', ends)
