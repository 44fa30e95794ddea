-- ===== src/Config/Written.antt =====
-- What the configuration that the constructor and `readconf` make has of a file.
use yatb.Config.Defaults.{Default, assignments, new_config}
use yatb.Config.Entries.{kind_of, DistinctNames, configured, readconf_lem}
use yatb.Config.Keys.{around, getkey_lem}
use yatb.Config.Options.{options}
use yatb.Config.{
  Kind, text, number, real, Entry, Value, text_value, number_value, real_value, Config, commented,
  getkey, value, plain_text, readconf,
}
use yatb.Platform.{Crypto, Disk}
use yatb.Prelude.{
  Bool, true, false, ◌&&◌, List, [], ◌∷◌, ◌++◌, Option, none, some, length, if◌then◌else◌, ◌≡◌,
  refl, ap, ◌∙◌, sym, subst, arith, inl, inr, Bool-cases,
}
use yatb.Text.{Bytes, codes, find, same, same_refl, same_sound, Lacks}

-- No option stands twice.
pub options-DistinctNames : DistinctNames options
unfolding same
options-DistinctNames = search

and_left : (a b : Bool) → (a && b) ≡ true → a ≡ true
and_left a b h = ground arith

and_right : (a b : Bool) → (a && b) ≡ true → b ≡ true
and_right a b h = ground arith

pub some_same {ℓ} : {A : Type ℓ} (a b : A) → some a ≡ some b → a ≡ b
some_same a b e = cc

-- Is it that kind?
abbrev is_kind : Option Kind → Kind → Bool
is_kind none k = false
is_kind (some text) text = true
is_kind (some text) number = false
is_kind (some text) real = false
is_kind (some number) text = false
is_kind (some number) number = true
is_kind (some number) real = false
is_kind (some real) text = false
is_kind (some real) number = false
is_kind (some real) real = true

is_kind_sound : (o : Option Kind) (k : Kind) → is_kind o k ≡ true → o ≡ some k
is_kind_sound none k e = ground arith
is_kind_sound (some text) text e = refl
is_kind_sound (some text) number e = ground arith
is_kind_sound (some text) real e = ground arith
is_kind_sound (some number) text e = ground arith
is_kind_sound (some number) number e = refl
is_kind_sound (some number) real e = ground arith
is_kind_sound (some real) text e = ground arith
is_kind_sound (some real) number e = ground arith
is_kind_sound (some real) real e = refl

-- Every one of these stands among the options, with its kind.
abbrev all_options : List Entry → Bool
all_options [] = true
all_options (d ∷ ds) = is_kind (kind_of d.name options) d.kind && all_options ds

all_options_lem :
    (ds : List Entry) (name : Bytes) (k : Kind)
    → all_options ds ≡ true
    → kind_of name ds ≡ some k
    → kind_of name options ≡ some k
all_options_lem [] name k h e = absurd (none_not_some k e)
  where
    none_not_some : (c : Kind) → none ≡ some c → ⊥
    none_not_some c f = cc
all_options_lem (d ∷ ds) name k h e = elim (Bool-cases (same d.name name)) [
  | inl s ↦
      let own : d.kind ≡ k =
        some_same d.kind k (sym (ap (λ b. if b then some d.kind else kind_of name ds) s) ∙ e) in
      subst (λ n. kind_of n options ≡ some k) (same_sound d.name name s)
        (is_kind_sound (kind_of d.name options) d.kind (and_left _ _ h) ∙ ap some own)
  | inr s ↦
      all_options_lem ds name k (and_right _ _ h)
        (sym (ap (λ b. if b then some d.kind else kind_of name ds) s) ∙ e)
]

module _ {D : Type 0} (zero : D) where
  abbrev pub kind_of_value : Value D → Kind
  kind_of_value (text_value s) = text
  kind_of_value (number_value n) = number
  kind_of_value (real_value d) = real

  abbrev kinds : List (Default D) → List Entry
  kinds [] = []
  kinds (a ∷ rest) = (record { name = a.member; kind = kind_of_value a.value }) ∷ kinds rest

  -- The members that the constructor sets, with their kinds.
  abbrev pub declared : List Entry
  declared = kinds (assignments zero)

  declared-all_options : all_options declared ≡ true
  unfolding same
  declared-all_options = refl

  module _ (atof : Bytes → D) (crypto : Crypto) (disk : Disk) (filename key : Bytes)
      (crypted : Bool) (before : Config D) where
    -- For every member that the constructor sets, where the file in the clear has the member's name and `=`,
    -- for the first time behind `p`, and then a value that a semicolon ends: the configuration that the
    -- constructor and `readconf` make has this value, read by the member's type, or, if a `#` stands
    -- directly in front of the name, still has what the constructor gave it. The name and the value have no
    -- semicolon, and the value is not `ERROR`.
    pub readconf-written :
        (p name v r : Bytes) (k : Kind)
        → plain_text atof crypto disk filename key crypted ≡ some (around p name v r)
        → kind_of name declared ≡ some k
        → find (around p name v r) (name ++ codes "=") ≡ some (length p)
        → Lacks b';' name
        → Lacks b';' v
        → same v (codes "ERROR") ≡ false
        → (readconf atof options crypto disk filename key crypted (new_config zero before)).1 name
          ≡ (if commented (around p name v r) (length p)
              then new_config zero before name
              else value atof k v)
    readconf-written p name v r k t d f c e n =
        let o = all_options_lem declared name k declared-all_options d in
        let config = new_config zero before in
        (readconf_lem atof options crypto disk filename key (around p name v r) crypted config name
          options-DistinctNames t).1
        ∙ elim (Bool-cases (commented (around p name v r) (length p))) [
          | inl h ↦
              let g : getkey name (around p name v r) ≡ codes "ERROR" =
                unfold getkey in rw (f, getkey) (rw h refl) in
              rw (o, configured) (rw (h, g, same_refl (codes "ERROR")) refl)
          | inr h ↦ rw (o, configured) (rw (h, getkey_lem p name v r f h c e, n) refl)
        ]
