-- ===== src/Config/Options.antt =====
-- src/config.cc: the options in the order in which `readconf` reads them, by the sections of the file.
use yatb.Config.{number, text, real, Entry}
use yatb.Prelude.{List, [], ◌∷◌, ◌++◌}
use yatb.Text.{codes}

abbrev pub debug_section : List Entry
debug_section =
    (record { name = codes "debug"; kind = number })
    ∷ (record { name = codes "log_to_screen"; kind = number })
    ∷ (record { name = codes "debug_logfile"; kind = text })
    ∷ (record { name = codes "command_logfile"; kind = text })
    ∷ (record { name = codes "syslog"; kind = number })
    ∷ []

abbrev pub connection_section : List Entry
connection_section =
    (record { name = codes "listen_port"; kind = number })
    ∷ (record { name = codes "site_ip"; kind = text })
    ∷ (record { name = codes "site_port"; kind = text })
    ∷ (record { name = codes "entry_list"; kind = text })
    ∷ (record { name = codes "connect_ip"; kind = text })
    ∷ (record { name = codes "listen_interface"; kind = text })
    ∷ (record { name = codes "listen_ip"; kind = text })
    ∷ (record { name = codes "traffic_bnc"; kind = number })
    ∷ (record { name = codes "nat_pasv_ip"; kind = text })
    ∷ []

abbrev pub limit_section : List Entry
limit_section =
    (record { name = codes "day_limit"; kind = real })
    ∷ (record { name = codes "week_limit"; kind = real })
    ∷ (record { name = codes "month_limit"; kind = real })
    ∷ []

abbrev pub ssl_section : List Entry
ssl_section =
    (record { name = codes "cert_path"; kind = text })
    ∷ (record { name = codes "crypted_cert"; kind = number })
    ∷ (record { name = codes "enforce_tls"; kind = number })
    ∷ (record { name = codes "enforce_tls_fxp"; kind = number })
    ∷ (record { name = codes "ssl_forward"; kind = number })
    ∷ (record { name = codes "use_ssl_exclude"; kind = number })
    ∷ (record { name = codes "sslexclude_list"; kind = text })
    ∷ (record { name = codes "translate_nosslfxp"; kind = number })
    ∷ (record { name = codes "control_cipher"; kind = text })
    ∷ (record { name = codes "data_cipher"; kind = text })
    ∷ []

abbrev pub ident_section : List Entry
ident_section =
    (record { name = codes "use_ident"; kind = number })
    ∷ (record { name = codes "enforce_ident"; kind = number })
    ∷ (record { name = codes "no_idnt_cmd"; kind = number })
    ∷ []

abbrev pub relink_section : List Entry
relink_section =
    (record { name = codes "trytorelink"; kind = number })
    ∷ (record { name = codes "relink_ip"; kind = text })
    ∷ (record { name = codes "relink_port"; kind = number })
    ∷ (record { name = codes "relink_user"; kind = text })
    ∷ (record { name = codes "relink_pass"; kind = text })
    ∷ (record { name = codes "ssl_relink"; kind = number })
    ∷ (record { name = codes "relink_notls"; kind = number })
    ∷ (record { name = codes "traffic_bnc_relink"; kind = number })
    ∷ []

abbrev pub fxp_section : List Entry
fxp_section =
    (record { name = codes "use_fxpfromsite_list"; kind = number })
    ∷ (record { name = codes "fxp_fromsite_list"; kind = text })
    ∷ (record { name = codes "use_fxptosite_list"; kind = number })
    ∷ (record { name = codes "fxp_tosite_list"; kind = text })
    ∷ (record { name = codes "use_fxpiplist"; kind = number })
    ∷ (record { name = codes "use_fxpiphash"; kind = number })
    ∷ (record { name = codes "hash_algo"; kind = text })
    ∷ (record { name = codes "iplist_file"; kind = text })
    ∷ (record { name = codes "crypted_iplist"; kind = number })
    ∷ (record { name = codes "fpwhitelist_file"; kind = text })
    ∷ (record { name = codes "crypted_fpwhitelist"; kind = number })
    ∷ (record { name = codes "fp_new_ip_msg"; kind = number })
    ∷ (record { name = codes "fp_msg_nick"; kind = text })
    ∷ []

abbrev pub admin_section : List Entry
admin_section =
    (record { name = codes "usecommands"; kind = number })
    ∷ (record { name = codes "admin_list"; kind = text })
    ∷ (record { name = codes "cmd_prefix"; kind = text })
    ∷ (record { name = codes "infocmd"; kind = text })
    ∷ (record { name = codes "helpcmd"; kind = text })
    ∷ (record { name = codes "admincmd"; kind = text })
    ∷ (record { name = codes "tositecmd"; kind = text })
    ∷ (record { name = codes "fromsitecmd"; kind = text })
    ∷ (record { name = codes "sslexcludecmd"; kind = text })
    ∷ (record { name = codes "reloadcmd"; kind = text })
    ∷ (record { name = codes "entrycmd"; kind = text })
    ∷ (record { name = codes "killcmd"; kind = text })
    ∷ (record { name = codes "fxpipcmd"; kind = text })
    ∷ (record { name = codes "fpwlcmd"; kind = text })
    ∷ []

abbrev pub ftpd_setup_section : List Entry
ftpd_setup_section =
    (record { name = codes "server_string"; kind = text })
    ∷ (record { name = codes "fake_serverstring"; kind = number })
    ∷ (record { name = codes "send_traffic_info"; kind = number })
    ∷ (record { name = codes "user_access_denied"; kind = text })
    ∷ (record { name = codes "user_login_success"; kind = text })
    ∷ (record { name = codes "site_closed"; kind = text })
    ∷ (record { name = codes "site_full"; kind = text })
    ∷ (record { name = codes "max_numlogins"; kind = text })
    ∷ (record { name = codes "show_connect_failmsg"; kind = number })
    ∷ (record { name = codes "connectfailmsg"; kind = text })
    ∷ []

abbrev pub forwarder_section : List Entry
forwarder_section =
    (record { name = codes "use_forwarder"; kind = number })
    ∷ (record { name = codes "forwarder_sport"; kind = number })
    ∷ (record { name = codes "forwarder_dport"; kind = number })
    ∷ (record { name = codes "forwarder_ip"; kind = text })
    ∷ []

abbrev pub advanced_section : List Entry
advanced_section =
    (record { name = codes "add_to_passive_port"; kind = number })
    ∷ (record { name = codes "port_range_start"; kind = number })
    ∷ (record { name = codes "port_range_end"; kind = number })
    ∷ (record { name = codes "use_port_range"; kind = number })
    ∷ (record { name = codes "buffersize"; kind = number })
    ∷ (record { name = codes "pending"; kind = number })
    ∷ (record { name = codes "connect_timeout"; kind = number })
    ∷ (record { name = codes "ident_timeout"; kind = number })
    ∷ (record { name = codes "read_write_timeout"; kind = number })
    ∷ (record { name = codes "uid"; kind = number })
    ∷ (record { name = codes "pidfile"; kind = text })
    ∷ (record { name = codes "retry_count"; kind = number })
    ∷ (record { name = codes "ssl_ascii_cache"; kind = number })
    ∷ (record { name = codes "disable_noop"; kind = number })
    ∷ (record { name = codes "speed_write"; kind = number })
    ∷ (record { name = codes "allow_noentry_connect"; kind = number })
    ∷ (record { name = codes "active_bind_range_start"; kind = number })
    ∷ (record { name = codes "active_bind_range_end"; kind = number })
    ∷ (record { name = codes "use_active_bind"; kind = number })
    ∷ []

abbrev pub options : List Entry
options =
    debug_section
    ++ (connection_section
        ++ (limit_section
            ++ (ssl_section
                ++ (ident_section
                    ++ (relink_section
                        ++ (fxp_section
                            ++ (admin_section
                                ++ (ftpd_setup_section
                                    ++ (forwarder_section ++ (advanced_section))))))))))
