-- ===== src/Session/Names.antt =====
-- The commands of an admin that add names to a list or delete some.
use yatb.Prelude.{◌≡◌}
use yatb.Session.Admin.{
  NameList, adminlist, entrylist, fxpfromsitelist, fxptositelist, sslexcludelist,
}
use yatb.Session.State.{Host, State, Shared}
use yatb.StringList.{StringList}

module _ ⦃h : Host⦄ where
  -- The globals differ at most in that list.
  abbrev pub SameBut : NameList → Shared → Shared → Type 0
  SameBut adminlist g g' = record g' { adminlist = g.adminlist } ≡ g
  SameBut entrylist g g' = record g' { entrylist = g.entrylist } ≡ g
  SameBut fxpfromsitelist g g' = record g' { fxpfromsitelist = g.fxpfromsitelist } ≡ g
  SameBut fxptositelist g g' = record g' { fxptositelist = g.fxptositelist } ≡ g
  SameBut sslexcludelist g g' = record g' { sslexcludelist = g.sslexcludelist } ≡ g

  -- The member of the globals that a list is.
  abbrev pub list_of : NameList → Shared → StringList
  list_of adminlist g = g.adminlist
  list_of entrylist g = g.entrylist
  list_of fxpfromsitelist g = g.fxpfromsitelist
  list_of fxptositelist g = g.fxptositelist
  list_of sslexcludelist g = g.sslexcludelist
