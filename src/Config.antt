-- ===== src/Config.antt =====
-- src/config.cc: `getkey`, the three `getentry` and `readconf`, with include/config.h: the options of
-- the configuration file.
pub mod Options
pub mod Keys
pub mod Entries
pub mod Defaults
pub mod Written
use mathlib.Core.List.{foldl}
use yatb.Platform.{Crypto, Disk, decrypt, filesize, readfile}
use yatb.Prelude.{
  ℕ, suc, ◌+◌, ◌-◌, Bool, true, false, not, ◌&&◌, List, [], ◌∷◌, ◌++◌, Option, none, some, length,
  take, ltb, ◌==◌, if◌then◌else◌, ℤ,
}
use yatb.Text.{Bytes, codes, same, at, substr, find, find_at, c_str}
use yatb.Text.Number.{atoi}

-- Is the byte in front of the key a `#`?
unfoldable pub commented : Bytes → ℕ → Bool
unfolding at
commented data' start =
    ltb 0 start && (elim (at data' (start - 1)) [ none ↦ false | some c ↦ c == b'#' ])

-- `getkey`: the text between `name=` and the next semicolon, or "ERROR".
unfoldable pub getkey : Bytes → Bytes → Bytes
unfolding commented
getkey name data' =
    let name' = name ++ codes "=" in
    elim (find data' name') [
      | none ↦ codes "ERROR"
      | some start ↦
          if commented data' start then codes "ERROR" else elim (find_at data' (codes ";") start) [
            | none ↦ codes "ERROR"
            | some end ↦ substr data' (start + length name') (end - start - length name')
          ]
    ]

-- The type of a member of `CConfig`: which `getentry` reads it.
pub data Kind : Type 0 where
  text : Kind
  number : Kind
  real : Kind

pub record Entry : Type 0 where
  pub name : Bytes
  pub kind : Kind

-- The value of a member; `D` is `double`.
pub data Value (D : Type 0) : Type 0 where
  text_value : Bytes → Value D
  number_value : ℤ → Value D
  real_value : D → Value D

-- The members of `CConfig` by their names, which are those of the options.
abbrev pub Config : Type 0 → Type 0
Config D = Bytes → Value D

module _ {D : Type 0} (atof : Bytes → D) where
  -- `i = val.c_str()`, `i = atoi(val.c_str())` and `i = atof(val.c_str())`.
  unfoldable pub value : Kind → Bytes → Value D
  unfolding atoi c_str
  value text val = text_value (c_str val)
  value number val = number_value (atoi (c_str val))
  value real val = real_value (atof (c_str val))

  -- `getentry`: the member, with `ok`, which nothing reads.
  unfoldable pub getentry : Bytes → Config D × Bool → Entry → Config D × Bool
  unfolding value
  getentry daten (config, ok) s =
      let val = getkey s.name daten in
      if not (same val (codes "ERROR"))
      then ((λ name. if same s.name name then value s.kind val else config name), ok)
      else (config, false)

  -- The text of the file, in the clear; `none` where there is no file.
  unfoldable pub plain_text : Crypto → Disk → Bytes → Bytes → Bool → Option Bytes
  unfolding filesize readfile decrypt c_str
  plain_text crypto disk filename key crypted = elim (filesize disk filename) [
    | none ↦ none
    | some s ↦
        let bufferin = readfile disk filename in
        let bufferout = (decrypt crypto key (take s bufferin)).1 in
        some (if crypted then c_str (bufferout ++ 0 ∷ []) else c_str bufferin)
  ]

  -- `readconf` with the table of its calls of `getentry`. It returns 1 for every file it can open.
  unfoldable pub readconf :
      List Entry → Crypto → Disk → Bytes → Bytes → Bool → Config D → Bool × Config D
  unfolding getentry
  readconf entries crypto disk filename key crypted config =
      elim (plain_text crypto disk filename key crypted) [
        | none ↦ (false, config)
        | some daten ↦ (true, (foldl (getentry daten) (config, true) entries).0)
      ]
