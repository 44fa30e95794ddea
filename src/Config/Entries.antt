-- ===== src/Config/Entries.antt =====
-- What `readconf` makes of the members.
use mathlib.Core.List.{foldl}
use yatb.Config.{Kind, Entry, Value, Config, getkey, value, getentry, plain_text, readconf}
use yatb.Platform.{Crypto, Disk}
use yatb.Prelude.{
  Bool, true, false, List, [], ◌∷◌, Option, none, some, if◌then◌else◌, ◌≡◌, refl, ap, ◌∙◌, subst,
  inl, inr, Bool-cases,
}
use yatb.Text.{Bytes, codes, same, same_sound, same_refl}

-- The kind of the option of that name.
abbrev pub kind_of : Bytes → List Entry → Option Kind
kind_of name [] = none
kind_of name (e ∷ es) = if same e.name name then some e.kind else kind_of name es

-- No option stands twice.
abbrev pub DistinctNames : List Entry → Type 0
DistinctNames [] = Unit {0}
DistinctNames (e ∷ es) = (kind_of e.name es ≡ none) × DistinctNames es

module _ {D : Type 0} (atof : Bytes → D) where
  -- What the member has to be: the value of its option, or what it was if it is no option or its key
  -- is not in the text.
  abbrev pub configured : List Entry → Bytes → Config D → Bytes → Value D
  configured es daten config name = elim (kind_of name es) [
    | none ↦ config name
    | some k ↦
        if same (getkey name daten) (codes "ERROR")
        then config name
        else value atof k (getkey name daten)
  ]

  getentry_other :
      (daten : Bytes) (e : Entry) (p : Config D × Bool) (name : Bytes)
      → same e.name name ≡ false
      → (getentry atof daten p e).0 name ≡ p.0 name
  unfolding getentry
  getentry_other daten e p name h = elim (Bool-cases (same (getkey e.name daten) (codes "ERROR"))) [
    | inl f ↦ rw (f, getentry) refl
    | inr f ↦ rw (f, getentry) (rw h refl)
  ]

  getentry_own :
      (daten : Bytes) (e : Entry) (p : Config D × Bool)
      → (getentry atof daten p e).0 e.name ≡ (
          if same (getkey e.name daten) (codes "ERROR")
          then p.0 e.name
          else value atof e.kind (getkey e.name daten))
  unfolding getentry
  getentry_own daten e p = elim (Bool-cases (same (getkey e.name daten) (codes "ERROR"))) [
    | inl f ↦ rw (f, getentry) refl
    | inr f ↦ rw (f, getentry, same_refl e.name) refl
  ]

  -- One entry more is one call of `getentry` more.
  configured_own :
      (daten : Bytes) (e : Entry) (es : List Entry) (p : Config D × Bool)
      → kind_of e.name es ≡ none
      → configured es daten (getentry atof daten p e).0 e.name
        ≡ configured (e ∷ es) daten p.0 e.name
  configured_own daten e es p d =
      rw (d, configured) (rw (same_refl e.name) (getentry_own daten e p))

  configured_other :
      (daten : Bytes) (e : Entry) (es : List Entry) (p : Config D × Bool) (name : Bytes)
      → same e.name name ≡ false
      → configured es daten (getentry atof daten p e).0 name ≡ configured (e ∷ es) daten p.0 name
  configured_other daten e es p name h =
      ap
        (λ u. elim (kind_of name es) as (λ x. Value D) [
          | none ↦ u
          | some k ↦
              if same (getkey name daten) (codes "ERROR")
              then u
              else value atof k (getkey name daten)
        ])
        (getentry_other daten e p name h)
      ∙ rw (h, configured) refl

  foldl-getentry :
      (daten : Bytes) (es : List Entry) (p : Config D × Bool) (name : Bytes)
      → DistinctNames es
      → (foldl (getentry atof daten) p es).0 name ≡ configured es daten p.0 name
  foldl-getentry daten [] p name d = refl
  foldl-getentry daten (e ∷ es) p name d =
      foldl-getentry daten es (getentry atof daten p e) name d.1
      ∙ elim (Bool-cases (same e.name name))
          as (λ x.
            configured es daten (getentry atof daten p e).0 name
            ≡ configured (e ∷ es) daten p.0 name) [
              | inl h ↦
                  subst
                    (λ n.
                      configured es daten (getentry atof daten p e).0 n
                      ≡ configured (e ∷ es) daten p.0 n)
                    (same_sound e.name name h) (configured_own daten e es p d.0)
              | inr h ↦ configured_other daten e es p name h
            ]

  -- `readconf`, with a table of distinct options, returns 1 for a file that exists. Every member
  -- that is an option with its key in the text has the value that stands there, read by its type;
  -- every other member is as it was.
  pub readconf_lem :
      (es : List Entry) (crypto : Crypto) (disk : Disk) (filename key daten : Bytes)
      (crypted : Bool) (config : Config D) (name : Bytes)
      → DistinctNames es
      → plain_text atof crypto disk filename key crypted ≡ some daten
      → ((readconf atof es crypto disk filename key crypted config).0 ≡ true)
        × ((readconf atof es crypto disk filename key crypted config).1 name
            ≡ configured es daten config name)
  unfolding readconf
  readconf_lem es crypto disk filename key daten crypted config name d h =
      (rw (h, readconf) refl, rw (h, readconf) (foldl-getentry daten es (config, true) name d))
