-- ===== src/Tests/Session.antt =====
-- A host for sessions on which every call succeeds, but for the login at a relink site; the globals, and
-- lines of a client and replies of a site.
use yatb.Config.{Config, text_value, number_value}
use yatb.Prelude.{ℕ, Bool, true, false, [], ◌∷◌, none, some, if◌then◌else◌, pos}
use yatb.Session.Mainloop.{new_control_thread}
use yatb.Session.State.{Host, Call, login_relink, Shared, State, Thread}
use yatb.Tests.Host.{host}
use yatb.Text.{Bytes, codes, same}

abbrev pub succeeds : Call → Bool
succeeds login_relink = false
succeeds _ = true

instance abbrev pub session_host : Host
session_host = record {
  World = Unit {0};
  Real = ℕ;
  zero = 0;
  atof = λ s. 0;
  crypto = host;
  shell = record { run = λ command disk. disk; removable = λ name. true };
  write = λ peer s w. some (true, w);
  notice = λ s w. some w;
  allowed = λ w. true;
  succeeds = λ c w. some (succeeds c, w);
  read = λ peer w. some (some (codes "220 hello\r\n"), w);
  ident = λ ip w. some (none, w);
  random_range = λ a b w. (a, w);
  resolved = λ name w. name;
  interface_ip = λ name w. some (codes "10.0.0.1");
  traffic_info = λ w. [];
  versions = [];
  stats = λ c n w. [];
}

-- Commands, traffic through the bouncer and TLS are asked for.
abbrev pub config : Config ℕ
config name =
    if same name (codes "usecommands")
    then number_value (pos 1)
    else if same name (codes "enforce_tls")
    then number_value (pos 1)
    else if same name (codes "traffic_bnc")
    then number_value (pos 1)
    else if same name (codes "cmd_prefix")
    then text_value (codes "!")
    else if same name (codes "killcmd")
    then text_value (codes "kill")
    else if same name (codes "helpcmd")
    then text_value (codes "help")
    else if same name (codes "infocmd")
    then text_value (codes "info")
    else if same name (codes "user_login_success")
    then text_value (codes "logged in.")
    else text_value []

-- There is one admin, bob.
abbrev pub shared : Shared
shared = record {
  config = config;
  adminlist = record { list = codes "bob" ∷ [] };
  fxpfromsitelist = record { list = [] };
  fxptositelist = record { list = [] };
  sslexcludelist = record { list = [] };
  entrylist = record { list = [] };
  whitelist = record { list = [] };
  fpwhitelist = record { list = [] };
  iplist = record { list = []; ip_list = []; port_list = []; counter = 0 };
  disk = record { file = λ name. some (codes "admin_list=joe;\n"); writable = λ name. true };
  conffile = codes "yatb.conf";
  yatbfilename = codes "yatb";
  bk = [];
  ip_bk = [];
  fpwl_bk = [];
  use_blowconf = false;
  nr_logins = 0;
}

-- A session in which the client has sent `USER` with the name.
abbrev pub user_sent : Bytes → Thread
user_sent name = record (new_control_thread (codes "10.0.0.9")) {
  gotfirstcmd = true;
  gotusercmd = true;
  username = name;
}

abbrev pub pass_sent : Bytes → Thread
pass_sent name = record (user_sent name) { gotpasscmd = true }

abbrev pub session : Thread → State
session th = record { thread = th; shared = shared; events = []; world = tt }
