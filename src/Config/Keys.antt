-- ===== src/Config/Keys.antt =====
-- What `getkey` finds.
use yatb.Address.Parse.{find_byte}
use yatb.Config.{commented, getkey}
use yatb.Prelude.{
  ℕ, ◌+◌, ◌-◌, true, false, [], ◌∷◌, ◌++◌, some, length, ltb, leb, ◌≡◌, ◌≢◌, refl, sym, ap, ◌∙◌,
  arith, append_assoc, All-append, length-append, take_prefix, drop_prefix,
}
use yatb.Text.{Bytes, codes, at, substr, find, find_at, Lacks}

-- The line of an option.
abbrev pub assignment : Bytes → Bytes → Bytes
assignment name v = name ++ b'=' ∷ (v ++ b';' ∷ [])

-- The key and its value stand behind `p`.
module _ (p name v r : Bytes) where
  abbrev pub around : Bytes
  around = p ++ (name ++ b'=' ∷ (v ++ b';' ∷ r))

  front-Lacks : Lacks b';' name → Lacks b';' v → Lacks b';' (name ++ b'=' ∷ v)
  front-Lacks h k = All-append (λ c. c ≢ b';') name (b'=' ∷ v) h (omega arith, k)

  -- The semicolon behind the value is the first from the key on.
  find_semicolon :
      Lacks b';' name
      → Lacks b';' v
      → find_at around (codes ";") (length p) ≡ some (length p + (length name + 1 + length v))
  unfolding find_at
  find_semicolon h k =
      let front = name ++ b'=' ∷ v in
      let whole : name ++ b'=' ∷ (v ++ b';' ∷ r) ≡ front ++ b';' ∷ r =
        sym (append_assoc name (b'=' ∷ v) (b';' ∷ r)) in
      let l : length front ≡ length name + 1 + length v =
        omega (arith, length-append name (b'=' ∷ v)) in
      let n : leb (length p) (length around) ≡ true =
        ground (arith, length-append p (name ++ b'=' ∷ (v ++ b';' ∷ r))) in
      let i : find (front ++ b';' ∷ r) (codes ";") ≡ some (length front) =
        find_byte b';' front r (front-Lacks h k) in
      rw (n, drop_prefix, whole, i, l) refl

  -- Between the key and the semicolon stands the value.
  substr_value :
      substr around
        (length p + length (name ++ codes "="))
        (length p + (length name + 1 + length v) - length p - length (name ++ codes "="))
      ≡ v
  substr_value =
      let front = name ++ codes "=" in
      let whole : around ≡ (p ++ front) ++ (v ++ b';' ∷ r) =
        ap (λ t. p ++ t) (sym (append_assoc name (codes "=") (v ++ b';' ∷ r)))
        ∙ sym (append_assoc p front (v ++ b';' ∷ r)) in
      let l : length p + length front ≡ length (p ++ front) = sym (length-append p front) in
      let n : length p + (length name + 1 + length v) - length p - length front ≡ length v =
        omega (arith, length-append name (codes "=")) in
      rw (n, l, whole, drop_prefix, take_prefix) refl

  -- `getkey` gives the value that stands between the first `name=` and the next semicolon, if no `#`
  -- stands in front of it, and neither name nor value has a semicolon.
  pub getkey_lem :
      find around (name ++ codes "=") ≡ some (length p)
      → commented around (length p) ≡ false
      → Lacks b';' name
      → Lacks b';' v
      → getkey name around ≡ v
  unfolding getkey
  getkey_lem f c h k = rw (f, getkey) (rw c (rw (find_semicolon h k) substr_value))

at_middle : (s t : Bytes) (c : ℕ) → at (s ++ c ∷ t) (length s) ≡ some c
unfolding at
at_middle [] t c = refl
at_middle (d ∷ s) t c = at_middle s t c

-- Where the first `name=` stands behind a `#` the key counts as missing, whatever follows: a line
-- further on that sets it is not seen.
pub getkey-commented :
    (name p q : Bytes)
    → find (p ++ b'#' ∷ q) (name ++ codes "=") ≡ some (length p + 1)
    → getkey name (p ++ b'#' ∷ q) ≡ codes "ERROR"
unfolding getkey
getkey-commented name p q h =
    let c : commented (p ++ b'#' ∷ q) (length p + 1) ≡ true = hash in rw (h, getkey) (rw c refl)
  where
    hash : commented (p ++ b'#' ∷ q) (length p + 1) ≡ true
    hash =
        let e : length p + 1 - 1 ≡ length p = omega arith in
        let l : ltb 0 (length p + 1) ≡ true = ground arith in
        unfold commented in rw (l, e, at_middle) refl
