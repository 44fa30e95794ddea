-- ===== src/Session/Client.antt =====
-- src/controlthread.cc, the part of `mainloop` that reads from the client: which branch a line takes.
use yatb.Control.{site}
use yatb.Prelude.{◌+◌, Bool, true, false, not, ◌&&◌, List, [], ◌∷◌, ◌++◌, length, if◌then◌else◌}
use yatb.Session.Admin.{
  NameList, adminlist, entrylist, fxpfromsitelist, fxptositelist, sslexcludelist, guarded,
  names_show, names_add, names_del, fxpip_show, fxpip_add, fxpip_del, fpwl_show, fpwl_add, fpwl_del,
  kill,
}
use yatb.Session.Commands.{
  idnt, abor, auth_tls, auth_ssl, prot_p, prot_c, type_is, before_user, before_pass, pasv, port,
  quit, cpsv, sscn_set, sscn_reply, noop, transfer,
}
use yatb.Session.Configure.{reload_command}
use yatb.Session.Help.{bnchelp, bncinfo}
use yatb.Session.Relink.{starts}
use yatb.Session.State.{Host, Shared, Run, ◌>>=◌, get, tell, flag, word}
use yatb.Strings.{upper}
use yatb.Text.{Bytes, codes}

-- The first action whose test holds, as in a chain of `else if`.
abbrev pub choose : {A : Type 0} → List (Bool × A) → A → A
choose [] other = other
choose ((test, action) ∷ rest) other = if test then action else choose rest other

module _ ⦃h : Host⦄ where
  -- The test of a command of the bouncer: its name behind `cmd_prefix`, in upper case, with what stands
  -- behind it. Its length counts the prefix, the name and that.
  unfoldable pub command : Shared → Bytes → Bytes → Bytes → Bool
  command g cmd suffix s =
      let prefix = word g (codes "cmd_prefix") in
      let name = word g cmd in
      flag g (codes "usecommands")
      && starts s (length name + length prefix + length suffix) (upper (prefix ++ name) 0 ++ suffix)

  unfoldable pub forward : Bytes → Run Unit
  forward s = tell site s

  -- The commands that are looked at in front of `USER`.
  unfoldable pub early : Bytes → List (Bool × Run Unit)
  early s =
      (starts s 5 (codes "IDNT"), idnt s)
      ∷ (starts s 6 (codes "ABOR"), abor)
      ∷ (starts s 9 (codes "AUTH TLS"), auth_tls s)
      ∷ (starts s 9 (codes "AUTH SSL"), auth_ssl s)
      ∷ (starts s 7 (codes "PROT P"), prot_p s)
      ∷ (starts s 7 (codes "PROT C"), prot_c s)
      ∷ (starts s 7 (codes "TYPE A"), type_is 1 s)
      ∷ (starts s 7 (codes "TYPE I"), type_is 2 s)
      ∷ []

  -- `show`, `add` and `del` of a list of names, by the member of `config` with its command.
  unfoldable pub names_commands : Shared → Bytes → NameList → Bytes → List (Bool × Run Unit)
  names_commands g cmd l s =
      (command g cmd (codes "SHOW") s, names_show l)
      ∷ (command g cmd (codes "ADD") s, names_add l s)
      ∷ (command g cmd (codes "DEL") s, names_del l s)
      ∷ []

  -- The same for the two white lists.
  unfoldable pub whitelist_commands : Shared → Bytes → List (Bool × Run Unit)
  whitelist_commands g s =
      (command g (codes "fxpipcmd") (codes "SHOW") s, fxpip_show)
      ∷ (command g (codes "fxpipcmd") (codes "ADD") s, fxpip_add s)
      ∷ (command g (codes "fxpipcmd") (codes "DEL") s, fxpip_del s)
      ∷ (command g (codes "fpwlcmd") (codes "SHOW") s, fpwl_show)
      ∷ (command g (codes "fpwlcmd") (codes "ADD") s, fpwl_add s)
      ∷ (command g (codes "fpwlcmd") (codes "DEL") s, fpwl_del s)
      ∷ []

  -- The commands of admins behind `NOOP`, without the guard that each of them has.
  unfoldable pub admin_commands : Shared → Bytes → List (Bool × Run Unit)
  admin_commands g s =
      (command g (codes "killcmd") [] s, kill)
      ∷ (command g (codes "reloadcmd") [] s, reload_command)
      ∷ (names_commands g (codes "admincmd") adminlist s
          ++ (names_commands g (codes "entrycmd") entrylist s
              ++ (names_commands g (codes "fromsitecmd") fxpfromsitelist s
                  ++ (names_commands g (codes "tositecmd") fxptositelist s
                      ++ (names_commands g (codes "sslexcludecmd") sslexcludelist s
                          ++ whitelist_commands g s)))))

  -- Every action behind the guard of admins.
  unfoldable pub guard_all : Bytes → List (Bool × Run Unit) → List (Bool × Run Unit)
  guard_all s [] = []
  guard_all s ((test, action) ∷ rest) = (test, guarded s action) ∷ guard_all s rest

  -- The commands behind the login, in front of those of admins.
  unfoldable pub middle : Shared → Bytes → List (Bool × Run Unit)
  middle g s =
      (starts s 5 (codes "PASV"), pasv s)
      ∷ (starts s 5 (codes "PORT"), port s)
      ∷ (starts s 5 (codes "QUIT"), quit s)
      ∷ (command g (codes "helpcmd") [] s, guarded s bnchelp)
      ∷ (command g (codes "infocmd") [] s, guarded s bncinfo)
      ∷ (starts s 5 (codes "CPSV"), cpsv s)
      ∷ (starts s 8 (codes "SSCN ON"), sscn_set true s)
      ∷ (starts s 9 (codes "SSCN OFF"), sscn_set false s)
      ∷ (starts s 5 (codes "SSCN"), sscn_reply s)
      ∷ (starts s 5 (codes "EPSV") && flag g (codes "traffic_bnc"), idnt s)
      ∷ (starts s 5 (codes "EPRT") && flag g (codes "traffic_bnc"), idnt s)
      ∷ (starts s 5 (codes "NOOP") && flag g (codes "disable_noop"), noop)
      ∷ []

  -- The transfers, which stand behind the commands of admins.
  unfoldable pub transfers : Bytes → List (Bool × Run Unit)
  transfers s =
      (starts s 5 (codes "STOR"), transfer (codes "upload") false s)
      ∷ (starts s 5 (codes "RETR"), transfer (codes "download") false s)
      ∷ (starts s 5 (codes "LIST"), transfer (codes "download") true s)
      ∷ (starts s 5 (codes "NLST"), transfer (codes "download") true s)
      ∷ []

  -- The chain behind the login.
  unfoldable pub logged_in_command : Bytes → Run Unit
  logged_in_command s = do
    t ← get
    choose (middle t.shared s)
        (choose (guard_all s (admin_commands t.shared s)) (choose (transfers s) (forward s)))

  -- By how far the login is.
  unfoldable pub login_command : Bytes → Run Unit
  login_command s = do
    t ← get
    if not t.thread.gotusercmd
        then before_user s
        else if not t.thread.gotpasscmd
        then before_pass s
        else logged_in_command s

  -- A line from the client.
  unfoldable pub client_command : Bytes → Run Unit
  client_command s = choose (early s) (login_command s)
