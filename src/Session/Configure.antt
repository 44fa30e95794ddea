-- ===== src/Session/Configure.antt =====
-- src/yatb.cc: `reload`, which `mainloop` of src/controlthread.cc repeats for the command of an admin.
use yatb.Config.Defaults.{new_config}
use yatb.Config.Options.{options}
use yatb.Config.{Config, readconf, number_value}
use yatb.Control.{client}
use yatb.IpList.{IpList, readlist}
use yatb.Prelude.{Bool, true, false, Option, none, some, if◌then◌else◌, pos}
use yatb.Session.State.{Host, Shared, Run, ◌>>=◌, get, tell, word, undefined}
use yatb.StringList.{insert}
use yatb.Text.{codes, is_empty, same}
use yatb.Session.Admin.{change}

module _ ⦃h : Host⦄ where
  -- The options that are off where entry bouncers are used.
  unfoldable pub entry_options : Config h.Real → Config h.Real
  entry_options config name =
      if same (codes "fake_serverstring") name
      then number_value (pos 0)
      else if same (codes "use_ident") name
      then number_value (pos 0)
      else config name

  -- `adminlist.Insert(config.admin_list)` and the four others.
  unfoldable pub insert_lists : Shared → Shared
  insert_lists g = record g {
    adminlist = insert g.adminlist (word g (codes "admin_list"));
    fxpfromsitelist = insert g.fxpfromsitelist (word g (codes "fxp_fromsite_list"));
    fxptositelist = insert g.fxptositelist (word g (codes "fxp_tosite_list"));
    sslexcludelist = insert g.sslexcludelist (word g (codes "sslexclude_list"));
    entrylist = insert g.entrylist (word g (codes "entry_list"));
  }

  -- The globals with a configuration and the addresses of its sites.
  unfoldable pub with_config : Config h.Real → IpList → Shared → Shared
  with_config config iplist g = insert_lists (record g {
    iplist = iplist;
    config =
        if is_empty (word (record g { config = config }) (codes "entry_list"))
        then config
        else entry_options config;
  })

  -- `readlist` reads outside of a vector where there are fewer ports than addresses. What it returns is
  -- not looked at.
  unfoldable pub read_ips : Config h.Real → Shared → Option (IpList × Bool)
  read_ips config g =
      let g1 : Shared = record g { config = config } in
      readlist g.iplist (word g1 (codes "site_ip")) (word g1 (codes "site_port"))

  unfoldable pub config_taken : Config h.Real → Shared → Option (IpList × Bool) → Option Shared
  config_taken config g none = none
  config_taken config g (some (iplist, ok)) = some (with_config config iplist g)

  unfoldable pub take_config : Config h.Real → Shared → Option Shared
  take_config config g = config_taken config g (read_ips config g)

  unfoldable pub reloaded : Option Shared → Option (Bool × Shared)
  reloaded none = none
  reloaded (some g) = some (true, g)

  -- By whether the file could be read.
  unfoldable pub reload_with : Bool × Config h.Real → Shared → Option (Bool × Shared)
  reload_with (true, tmpconf) g = reloaded (take_config tmpconf g)
  reload_with (false, tmpconf) g = some (false, g)

  -- `reload`: none for undefined behaviour, or could the file be read, with the globals.
  unfoldable pub reload : Shared → Option (Bool × Shared)
  reload g =
      reload_with
        (readconf h.atof options h.crypto g.disk g.conffile g.bk g.use_blowconf
          (new_config h.zero g.config))
        g

  -- What the client is told of it.
  unfoldable pub reload_reply : Option (Bool × Shared) → Run Unit
  reload_reply none = λ t. undefined
  reload_reply (some (true, g)) = change (λ g0. g) (codes "230 config reloaded.\r\n")
  reload_reply (some (false, g)) = tell client (codes "230 failed to reload config.\r\n")

  unfoldable pub reload_command : Run Unit
  reload_command = do t ← get; reload_reply (reload t.shared)
