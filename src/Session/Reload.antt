-- ===== src/Session/Reload.antt =====
-- Reading the configuration again.
use yatb.Config.{Config}
use yatb.Prelude.{
  Bool, true, false, ◌||◌, Option, none, some, ◌≡◌, refl, ◌∙◌, ap, subst, arith, if◌then◌else◌,
}
use yatb.Config.Written.{some_same}
use yatb.IpList.{IpList}
use yatb.Session.Admin.{
  NameList, adminlist, entrylist, fxpfromsitelist, fxptositelist, sslexcludelist, names,
}
use yatb.Session.Configure.{
  insert_lists, with_config, read_ips, config_taken, take_config, reloaded, reload, reload_with,
  entry_options,
}
use yatb.Session.State.{Host, Shared, word}
use yatb.StringList.Members.{is_in_list-insert}
use yatb.StringList.{is_in_list, insert}
use yatb.Text.{Bytes, codes, member, same, parts}

-- The option with the names of a list.
abbrev pub option_of : NameList → Bytes
option_of adminlist = codes "admin_list"
option_of entrylist = codes "entry_list"
option_of fxpfromsitelist = codes "fxp_fromsite_list"
option_of fxptositelist = codes "fxp_tosite_list"
option_of sslexcludelist = codes "sslexclude_list"

module _ ⦃h : Host⦄ where
  insert_lists_lem :
      (l : NameList) (g : Shared)
      → names l (insert_lists g) ≡ insert (names l g) (word g (option_of l))
  unfolding names insert_lists
  insert_lists_lem adminlist g = refl
  insert_lists_lem entrylist g = refl
  insert_lists_lem fxpfromsitelist g = refl
  insert_lists_lem fxptositelist g = refl
  insert_lists_lem sslexcludelist g = refl

  -- An option about names is not one of those that entry bouncers turn off.
  entry_options_names :
      (l : NameList) (config : Config h.Real)
      → entry_options config (option_of l) ≡ config (option_of l)
  unfolding entry_options same
  entry_options_names adminlist config = refl
  entry_options_names entrylist config = refl
  entry_options_names fxpfromsitelist config = refl
  entry_options_names fxptositelist config = refl
  entry_options_names sslexcludelist config = refl

  kept :
      (l : NameList) (config : Config h.Real) (b : Bool)
      → (if b then config else entry_options config) (option_of l) ≡ config (option_of l)
  kept l config true = refl
  kept l config false = entry_options_names l config

  with_config-names :
      (l : NameList) (config : Config h.Real) (iplist : IpList) (g : Shared)
      → names l (with_config config iplist g)
        ≡ insert (names l g) (word (with_config config iplist g) (option_of l))
  unfolding with_config insert_lists names word
  with_config-names adminlist config iplist g = refl
  with_config-names entrylist config iplist g = refl
  with_config-names fxpfromsitelist config iplist g = refl
  with_config-names fxptositelist config iplist g = refl
  with_config-names sslexcludelist config iplist g = refl

  -- What a reload that succeeds makes of the lists.
  Inserts : Shared → Shared → Type 0
  Inserts g g' = (l : NameList) → names l g' ≡ insert (names l g) (word g' (option_of l))

  config_taken-Inserts :
      (config : Config h.Real) (g g' : Shared) (o : Option (IpList × Bool))
      → config_taken config g o ≡ some g'
      → Inserts g g'
  unfolding config_taken Inserts
  config_taken-Inserts config g g' none e l = ground arith
  config_taken-Inserts config g g' (some (iplist, ok)) e l =
      subst (λ (u : Shared). names l u ≡ insert (names l g) (word u (option_of l)))
        (some_same _ _ e) (with_config-names l config iplist g)

  reloaded-some : (o : Option Shared) (g' : Shared) → reloaded o ≡ some (true, g') → o ≡ some g'
  unfolding reloaded
  reloaded-some none g' e = ground arith
  reloaded-some (some g) g' e = ap (λ (p : Bool × Shared). some p.1) (some_same _ _ e)

  reload_with-Inserts :
      (p : Bool × Config h.Real) (g g' : Shared) → reload_with p g ≡ some (true, g') → Inserts g g'
  unfolding reload_with take_config
  reload_with-Inserts (true, tmpconf) g g' e =
      config_taken-Inserts tmpconf g g' (read_ips tmpconf g) (reloaded-some _ g' e)
  reload_with-Inserts (false, tmpconf) g g' e =
      let b : false ≡ true = ap (λ (p : Bool × Shared). p.0) (some_same _ _ e) in ground arith

  -- Reloading never takes a name from a list: where it succeeds, a list has the names that it had and those
  -- that the configuration names now, so an admin whose name was deleted from the configuration stays one.
  pub is_in_list-reload :
      (l : NameList) (g g' : Shared) (x : Bytes)
      → reload g ≡ some (true, g')
      → is_in_list (names l g') x
        ≡ (is_in_list (names l g) x || member x (parts (word g' (option_of l))))
  unfolding reload Inserts
  is_in_list-reload l g g' x e =
      ap (λ u. is_in_list u x) (reload_with-Inserts _ g g' e l)
      ∙ is_in_list-insert (names l g) (word g' (option_of l)) x
