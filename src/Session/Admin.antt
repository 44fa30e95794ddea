-- ===== src/Session/Admin.antt =====
-- src/controlthread.cc, the part of `mainloop` that reads from the client: the commands of admins.
use yatb.Control.{client}
use yatb.FpWhitelist
use yatb.KillFile.{kill_file}
use yatb.Platform.{Disk}
use yatb.Prelude.{Bool, not, ◌&&◌, ◌++◌, none, some, ◌==◌, if◌then◌else◌}
use yatb.Session.Relink.{not_understood, behind}
use yatb.Session.State.{
  Host, Shared, State, Run, ◌>>=◌, ◌>>◌, get, set_shared, tell, flag, word, exited,
}
use yatb.StringList.{StringList, insert, remove, get_list, is_in_list}
use yatb.Text.{Bytes, codes, find}
use yatb.Whitelist

-- The lists of names that have commands.
pub data NameList : Type 0 where
  adminlist entrylist fxpfromsitelist fxptositelist sslexcludelist : NameList

-- The words in the replies about a list, behind `230- added`, `230` and `230 no`.
unfoldable pub plural : NameList → Bytes
plural adminlist = codes "admin(s)"
plural entrylist = codes "entry(s)"
plural fxpfromsitelist = codes "user(s)"
plural fxptositelist = codes "user(s)"
plural sslexcludelist = codes "user(s)"

unfoldable pub kind_of_name : NameList → Bytes
kind_of_name adminlist = codes "admins"
kind_of_name entrylist = codes "entry"
kind_of_name fxpfromsitelist = codes "user"
kind_of_name fxptositelist = codes "user"
kind_of_name sslexcludelist = codes "user"

module _ ⦃h : Host⦄ where
  -- `adminlist.IsInList(username) && !relinked`.
  unfoldable pub is_admin : State → Bool
  is_admin t = is_in_list t.shared.adminlist t.thread.username && not t.thread.relinked

  -- What every command of an admin has around it.
  unfoldable pub guarded : Bytes → Run Unit → Run Unit
  guarded s action = do t ← get; if is_admin t then action else tell client (not_understood s)

  -- A change of the globals that the client is told.
  unfoldable pub change : (Shared → Shared) → Bytes → Run Unit
  change f text = do set_shared f; tell client text

  -- A command with an argument: `s` behind the first space, or the reply that there is none.
  unfoldable pub with_argument : Bytes → Bytes → (Bytes → Run Unit) → Run Unit
  with_argument s none_text action = elim (find s (codes " ")) [
    | none ↦ tell client none_text
    | some i ↦ action (behind s i)
  ]

  unfoldable pub names : NameList → Shared → StringList
  names adminlist g = g.adminlist
  names entrylist g = g.entrylist
  names fxpfromsitelist g = g.fxpfromsitelist
  names fxptositelist g = g.fxptositelist
  names sslexcludelist g = g.sslexcludelist

  unfoldable pub set_names : NameList → StringList → Shared → Shared
  set_names adminlist l g = record g { adminlist = l }
  set_names entrylist l g = record g { entrylist = l }
  set_names fxpfromsitelist l g = record g { fxpfromsitelist = l }
  set_names fxptositelist l g = record g { fxptositelist = l }
  set_names sslexcludelist l g = record g { sslexcludelist = l }

  -- `show`, `add` and `del` of a list of names.
  unfoldable pub names_show : NameList → Run Unit
  names_show l = do
    t ← get
    tell client (
        codes "230- added "
        ++ (plural l
            ++ (codes ": '" ++ (get_list (names l t.shared) ++ codes "'\r\n230 done.\r\n"))))

  unfoldable pub insert_names : NameList → Bytes → Run Unit
  insert_names l s =
      change (λ g. set_names l (insert (names l g) s) g)
        (codes "230 " ++ (plural l ++ codes " added.\r\n"))

  unfoldable pub remove_names : NameList → Bytes → Run Unit
  remove_names l s =
      change (λ g. set_names l (remove (names l g) s) g)
        (codes "230 " ++ (plural l ++ codes " removed.\r\n"))

  unfoldable pub names_add : NameList → Bytes → Run Unit
  names_add l s =
      with_argument s (codes "230 no " ++ (kind_of_name l ++ codes " to add!\r\n")) (insert_names l)

  unfoldable pub names_del : NameList → Bytes → Run Unit
  names_del l s =
      with_argument s (codes "230 no " ++ (kind_of_name l ++ codes " to remove!\r\n"))
        (remove_names l)

  -- The members of `config` that the white list reads.
  unfoldable pub list_settings : Shared → Whitelist.Settings
  list_settings g = record {
    use_fxpiphash = flag g (codes "use_fxpiphash");
    hash_algo = word g (codes "hash_algo");
    bk = g.bk;
    crypted_iplist = flag g (codes "crypted_iplist");
  }

  -- `show`, `add` and `del` of the white list of addresses.
  unfoldable pub fxpip_show : Run Unit
  fxpip_show = do t ← get; tell client (Whitelist.get_list t.shared.whitelist)

  -- `whitelist.WriteList(config.iplist_file,ip_bk)`, whose result is not looked at.
  unfoldable pub fxpip_store : Shared → Shared
  fxpip_store g = record g {
    disk =
        (Whitelist.write_list h.crypto g.disk (word g (codes "iplist_file")) g.ip_bk g.whitelist).0;
  }

  unfoldable pub fxpip_insert : Bytes → Run Unit
  fxpip_insert s = do
    t ← get
    let (res, w) = Whitelist.insert h.crypto (list_settings t.shared) t.shared.whitelist s
    if res == 1
        then change (λ g. fxpip_store (record g { whitelist = w })) (codes "230 ip added.\r\n")
        else if res == 2
        then tell client (
            codes "230 ip already added! ["
            ++ (Whitelist.get_comment h.crypto (list_settings t.shared) t.shared.whitelist s
                ++ codes "]\r\n"))
        else tell client (codes "230 check your syntax!\r\n")

  unfoldable pub fxpip_add : Bytes → Run Unit
  fxpip_add s = with_argument s (codes "230 no ip to add!\r\n") fxpip_insert

  unfoldable pub fxpip_remove : Bytes → Run Unit
  fxpip_remove s =
      change
        (λ g.
          fxpip_store
            (record g { whitelist = Whitelist.remove h.crypto (list_settings g) g.whitelist s }))
        (codes "230 ip removed.\r\n")

  unfoldable pub fxpip_del : Bytes → Run Unit
  fxpip_del s = with_argument s (codes "230 no ip to remove!\r\n") fxpip_remove

  -- `show`, `add` and `del` of the white list of fingerprints.
  unfoldable pub fpwl_show : Run Unit
  fpwl_show = do t ← get; tell client (FpWhitelist.get_list t.shared.fpwhitelist)

  unfoldable pub fpwl_store : Shared → Shared
  fpwl_store g = record g {
    disk =
        (FpWhitelist.write_list h.crypto g.disk (word g (codes "fpwhitelist_file")) g.fpwl_bk
          g.fpwhitelist).0;
  }

  unfoldable pub fpwl_insert : Bytes → Run Unit
  fpwl_insert s = do
    t ← get
    let (res, w) = FpWhitelist.insert t.shared.fpwhitelist s
    if res == 1
        then change (λ g. fpwl_store (record g { fpwhitelist = w })) (codes "230 fp added.\r\n")
        else if res == 2
        then tell client (
            codes "230 fp already added! ["
            ++ (FpWhitelist.get_comment t.shared.fpwhitelist s ++ codes "]\r\n"))
        else tell client (codes "230 check your syntax!\r\n")

  unfoldable pub fpwl_add : Bytes → Run Unit
  fpwl_add s = with_argument s (codes "230 no fp to add!\r\n") fpwl_insert

  unfoldable pub fpwl_remove : Bytes → Run Unit
  fpwl_remove s =
      change (λ g. fpwl_store (record g { fpwhitelist = FpWhitelist.remove g.fpwhitelist s }))
        (codes "230 fp removed.\r\n")

  unfoldable pub fpwl_del : Bytes → Run Unit
  fpwl_del s = with_argument s (codes "230 no fp to remove!\r\n") fpwl_remove

  -- `kill`: the certificate, the configuration, the program and the white list, and `exit(0)`.
  unfoldable pub kill_all : Shared → Shared
  kill_all g =
      let kill : Disk → Bytes → Disk = λ disk name. (kill_file h.shell disk name).0 in
      record g {
        disk =
            kill (kill (kill (kill g.disk (word g (codes "cert_path"))) g.conffile) g.yatbfilename)
              (word g (codes "iplist_file"));
      }

  unfoldable pub kill : Run Unit
  kill t = exited (record t { shared = kill_all t.shared })
