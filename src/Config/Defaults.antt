-- ===== src/Config/Defaults.antt =====
-- src/config.cc: the constructor of `CConfig`, which gives every member a value, by its sections.
use mathlib.Core.List.{foldl}
use yatb.Config.{Config, Value, text_value, number_value, real_value}
use yatb.Prelude.{List, [], ◌∷◌, ◌++◌, pos, if◌then◌else◌}
use yatb.Text.{Bytes, codes, same}

-- A member and its value.
pub record Default (D : Type 0) : Type 0 where
  pub member : Bytes
  pub value : Value D

-- The assignments in the order of the source; `zero` is `0` as a `double`.
module _ {D : Type 0} (zero : D) where
  abbrev pub debug_defaults : List (Default D)
  debug_defaults =
      (record { member = codes "debug"; value = number_value (pos 0) })
      ∷ (record { member = codes "debug_logfile"; value = text_value [] })
      ∷ (record { member = codes "command_logfile"; value = text_value [] })
      ∷ (record { member = codes "log_to_screen"; value = number_value (pos 0) })
      ∷ (record { member = codes "syslog"; value = number_value (pos 0) })
      ∷ []

  abbrev pub connection_defaults : List (Default D)
  connection_defaults =
      (record { member = codes "listen_port"; value = number_value (pos 0) })
      ∷ (record { member = codes "site_ip"; value = text_value [] })
      ∷ (record { member = codes "connect_ip"; value = text_value [] })
      ∷ (record { member = codes "site_port"; value = text_value [] })
      ∷ (record { member = codes "listen_interface"; value = text_value (codes "eth0") })
      ∷ (record { member = codes "listen_ip"; value = text_value [] })
      ∷ (record { member = codes "entry_list"; value = text_value [] })
      ∷ (record { member = codes "traffic_bnc"; value = number_value (pos 0) })
      ∷ (record { member = codes "nat_pasv_ip"; value = text_value [] })
      ∷ []

  abbrev pub limit_defaults : List (Default D)
  limit_defaults =
      (record { member = codes "day_limit"; value = real_value zero })
      ∷ (record { member = codes "week_limit"; value = real_value zero })
      ∷ (record { member = codes "month_limit"; value = real_value zero })
      ∷ []

  abbrev pub ssl_defaults : List (Default D)
  ssl_defaults =
      (record { member = codes "cert_path"; value = text_value (codes "ftpd-rsa.pem") })
      ∷ (record { member = codes "crypted_cert"; value = number_value (pos 0) })
      ∷ (record { member = codes "enforce_tls"; value = number_value (pos 0) })
      ∷ (record { member = codes "enforce_tls_fxp"; value = number_value (pos 0) })
      ∷ (record { member = codes "ssl_forward"; value = number_value (pos 1) })
      ∷ (record { member = codes "use_ssl_exclude"; value = number_value (pos 0) })
      ∷ (record { member = codes "sslexclude_list"; value = text_value [] })
      ∷ (record { member = codes "translate_nosslfxp"; value = number_value (pos 0) })
      ∷ (record {
        member = codes "control_cipher";
        value = text_value (codes "HIGH+EECDH:HIGH+EDH");
      })
      ∷ (record { member = codes "data_cipher"; value = text_value (codes "HIGH+EECDH:HIGH+EDH") })
      ∷ []

  abbrev pub ident_defaults : List (Default D)
  ident_defaults =
      (record { member = codes "use_ident"; value = number_value (pos 1) })
      ∷ (record { member = codes "enforce_ident"; value = number_value (pos 0) })
      ∷ (record { member = codes "no_idnt_cmd"; value = number_value (pos 0) })
      ∷ []

  abbrev pub relink_defaults : List (Default D)
  relink_defaults =
      (record { member = codes "trytorelink"; value = number_value (pos 0) })
      ∷ (record { member = codes "relink_ip"; value = text_value [] })
      ∷ (record { member = codes "relink_port"; value = number_value (pos 0) })
      ∷ (record { member = codes "relink_user"; value = text_value [] })
      ∷ (record { member = codes "relink_pass"; value = text_value [] })
      ∷ (record { member = codes "ssl_relink"; value = number_value (pos 0) })
      ∷ (record { member = codes "relink_notls"; value = number_value (pos 0) })
      ∷ (record { member = codes "traffic_bnc_relink"; value = number_value (pos 0) })
      ∷ []

  abbrev pub fxp_defaults : List (Default D)
  fxp_defaults =
      (record { member = codes "fxp_fromsite_list"; value = text_value [] })
      ∷ (record { member = codes "use_fxpfromsite_list"; value = number_value (pos 0) })
      ∷ (record { member = codes "use_fxptosite_list"; value = number_value (pos 0) })
      ∷ (record { member = codes "fxp_tosite_list"; value = text_value [] })
      ∷ (record { member = codes "use_fxpiplist"; value = number_value (pos 0) })
      ∷ (record { member = codes "use_fxpiphash"; value = number_value (pos 0) })
      ∷ (record { member = codes "hash_algo"; value = text_value (codes "sha256") })
      ∷ (record { member = codes "iplist_file"; value = text_value [] })
      ∷ (record { member = codes "crypted_iplist"; value = number_value (pos 0) })
      ∷ (record { member = codes "fpwhitelist_file"; value = text_value [] })
      ∷ (record { member = codes "crypted_fpwhitelist"; value = number_value (pos 0) })
      ∷ (record { member = codes "fp_new_ip_msg"; value = number_value (pos 0) })
      ∷ (record { member = codes "fp_msg_nick"; value = text_value [] })
      ∷ []

  abbrev pub admin_defaults : List (Default D)
  admin_defaults =
      (record { member = codes "usecommands"; value = number_value (pos 0) })
      ∷ (record { member = codes "admin_list"; value = text_value [] })
      ∷ (record { member = codes "cmd_prefix"; value = text_value [] })
      ∷ (record { member = codes "infocmd"; value = text_value [] })
      ∷ (record { member = codes "helpcmd"; value = text_value [] })
      ∷ (record { member = codes "admincmd"; value = text_value [] })
      ∷ (record { member = codes "tositecmd"; value = text_value [] })
      ∷ (record { member = codes "fromsitecmd"; value = text_value [] })
      ∷ (record { member = codes "sslexcludecmd"; value = text_value [] })
      ∷ (record { member = codes "reloadcmd"; value = text_value [] })
      ∷ (record { member = codes "killcmd"; value = text_value [] })
      ∷ (record { member = codes "entrycmd"; value = text_value [] })
      ∷ (record { member = codes "fxpipcmd"; value = text_value [] })
      ∷ (record { member = codes "fpwlcmd"; value = text_value [] })
      ∷ []

  abbrev pub ftpd_setup_defaults : List (Default D)
  ftpd_setup_defaults =
      (record { member = codes "server_string"; value = text_value [] })
      ∷ (record { member = codes "fake_serverstring"; value = number_value (pos 0) })
      ∷ (record { member = codes "send_traffic_info"; value = number_value (pos 0) })
      ∷ (record {
        member = codes "user_access_denied";
        value = text_value (codes "access denied.");
      })
      ∷ (record { member = codes "user_login_success"; value = text_value (codes "logged in.") })
      ∷ (record {
        member = codes "site_closed";
        value = text_value (codes "The server has been shut down, try again later.");
      })
      ∷ (record {
        member = codes "site_full";
        value = text_value (codes "The site is full, try again later.");
      })
      ∷ (record {
        member = codes "max_numlogins";
        value = text_value (codes "Sorry, your account is restricted to");
      })
      ∷ (record { member = codes "show_connect_failmsg"; value = number_value (pos 0) })
      ∷ (record { member = codes "connectfailmsg"; value = text_value [] })
      ∷ []

  abbrev pub forwarder_defaults : List (Default D)
  forwarder_defaults =
      (record { member = codes "use_forwarder"; value = number_value (pos 0) })
      ∷ (record { member = codes "forwarder_sport"; value = number_value (pos 0) })
      ∷ (record { member = codes "forwarder_dport"; value = number_value (pos 0) })
      ∷ (record { member = codes "forwarder_ip"; value = text_value [] })
      ∷ []

  abbrev pub advanced_defaults : List (Default D)
  advanced_defaults =
      (record { member = codes "add_to_passive_port"; value = number_value (pos 0) })
      ∷ (record { member = codes "port_range_start"; value = number_value (pos 0) })
      ∷ (record { member = codes "port_range_end"; value = number_value (pos 0) })
      ∷ (record { member = codes "use_port_range"; value = number_value (pos 0) })
      ∷ (record { member = codes "buffersize"; value = number_value (pos 4096) })
      ∷ (record { member = codes "pending"; value = number_value (pos 10) })
      ∷ (record { member = codes "connect_timeout"; value = number_value (pos 7) })
      ∷ (record { member = codes "ident_timeout"; value = number_value (pos 7) })
      ∷ (record { member = codes "read_write_timeout"; value = number_value (pos 30) })
      ∷ (record { member = codes "uid"; value = number_value (pos 1) })
      ∷ (record { member = codes "pidfile"; value = text_value (codes "yatb.pid") })
      ∷ (record { member = codes "retry_count"; value = number_value (pos 5) })
      ∷ (record { member = codes "ssl_ascii_cache"; value = number_value (pos 0) })
      ∷ (record { member = codes "disable_noop"; value = number_value (pos 0) })
      ∷ (record { member = codes "speed_write"; value = number_value (pos 0) })
      ∷ (record { member = codes "allow_noentry_connect"; value = number_value (pos 0) })
      ∷ (record { member = codes "active_bind_range_start"; value = number_value (pos 0) })
      ∷ (record { member = codes "active_bind_range_end"; value = number_value (pos 0) })
      ∷ (record { member = codes "use_active_bind"; value = number_value (pos 0) })
      ∷ []

  abbrev pub assignments : List (Default D)
  assignments =
      debug_defaults
      ++ (connection_defaults
          ++ (limit_defaults
              ++ (ssl_defaults
                  ++ (ident_defaults
                      ++ (relink_defaults
                          ++ (fxp_defaults
                              ++ (admin_defaults
                                  ++ (ftpd_setup_defaults
                                      ++ (forwarder_defaults ++ (advanced_defaults))))))))))

  -- One assignment.
  abbrev pub assign : Config D → Default D → Config D
  assign config d name = if same d.member name then d.value else config name

  -- `CConfig()`, from whatever the members held. `CConfig` has no other members.
  unfoldable pub new_config : Config D → Config D
  new_config before = foldl assign before assignments
