-- ===== src/Session/Help.antt =====
-- src/controlthread.cc, the part of `mainloop` that reads from the client: the texts of the help and of the
-- statistics.
use yatb.Control.{client}
use yatb.Prelude.{◌++◌, if◌then◌else◌}
use yatb.Session.State.{Host, Shared, Run, ◌>>=◌, get, tell, flag, word}
use yatb.Text.{Bytes, codes}

module _ ⦃h : Host⦄ where
  -- A line of the help: a command with what stands behind it, and what it does.
  unfoldable pub help_line : Shared → Bytes → Bytes → Bytes
  help_line g cmd text =
      codes "230- '" ++ (word g (codes "cmd_prefix") ++ (word g cmd ++ (text ++ codes "\r\n")))

  -- The three lines about a list, and the line behind them.
  unfoldable pub help_list : Shared → Bytes → Bytes → Bytes → Bytes → Bytes
  help_list g cmd show add del =
      help_line g cmd (codes "show' - " ++ show)
      ++ (help_line g cmd (codes "add " ++ add)
          ++ (help_line g cmd (codes "del " ++ del) ++ codes "230-\r\n"))

  -- The help for the lists of names.
  unfoldable pub help_names : Shared → Bytes
  help_names g =
      help_list g (codes "admincmd") (codes "show added admins")
        (codes "user1[,user2]' - add new admin(s)") (codes "user1[,user2]' - delete admin(s)")
      ++ (help_list g (codes "tositecmd") (codes "show added users allowed to fxp to site")
            (codes "user1[,user2]' - add new user(s)") (codes "user1[,user2]' - delete user(s)")
          ++ (help_list g (codes "fromsitecmd") (codes "show added users allowed to fxp from site")
                (codes "user1[,user2]' - add new user(s)") (codes "user1[,user2]' - delete user(s)")
              ++ (help_list g (codes "sslexcludecmd")
                    (codes "show added users excluded from using ssl")
                    (codes "user1[,user2]' - add new user(s)")
                    (codes "user1[,user2]' - delete user(s)")
                  ++ help_list g (codes "entrycmd") (codes "show added entry(s)")
                      (codes "entry1[,entry2]' - add new entry(s)")
                      (codes "entry1[,entry2]' - delete entry(s)"))))

  -- The text of the help.
  unfoldable pub help_text : Shared → Bytes
  help_text g =
      codes "230- --== yatb help ==--\r\n230-\r\n"
      ++ (help_names g
          ++ (help_list g (codes "fxpipcmd") (codes "show allowed fxp ip(s)")
                (codes "ip,comment,user' - add new ip") (codes "ip' - delete ip")
              ++ (help_list g (codes "fpwlcmd") (codes "show allowed fxp fingerprints(s)")
                    (codes "fp,comment,user' - add new fingerprint")
                    (codes "fp' - delete fingerprint")
                  ++ (help_line g (codes "infocmd") (codes "' - show some infos")
                      ++ (codes "230-\r\n"
                          ++ (help_line g (codes "helpcmd") (codes "' - show this help")
                              ++ (codes "230-\r\n"
                                  ++ (help_line g (codes "reloadcmd") (codes "' - reload config")
                                      ++ (codes "230-\r\n"
                                          ++ (help_line g (codes "killcmd")
                                                (codes "' - kill cert,conf,yatb and exit")
                                              ++ codes
                                                  "230-\r\n230 --== yatb help end ==--\r\n"))))))))))

  unfoldable pub bnchelp : Run Unit
  bnchelp = do t ← get; tell client (help_text t.shared)

  -- A line of the statistics about a switch.
  unfoldable pub switch : Shared → Bytes → Bytes → Bytes
  switch g member text =
      codes "230- "
      ++ (text ++ (if flag g member then codes " is [On]\r\n" else codes " is [Off]\r\n"))

  unfoldable pub switches : Shared → Bytes
  switches g =
      switch g (codes "enforce_tls") (codes "enforce ssl")
      ++ (switch g (codes "enforce_ident") (codes "enforce ident")
          ++ (switch g (codes "enforce_tls_fxp") (codes "enforce ssl fxp")
              ++ (switch g (codes "use_fxpfromsite_list") (codes "from site list")
                  ++ (switch g (codes "use_fxptosite_list") (codes "to site list")
                      ++ (switch g (codes "use_fxpiplist") (codes "fxp ip list")
                          ++ (switch g (codes "use_ssl_exclude") (codes "ssl exclude list")
                              ++ switch g (codes "trytorelink") (codes "try to relink")))))))

  -- The lines about versions, traffic and connections are the host's.
  unfoldable pub bncinfo : Run Unit
  bncinfo = do
    t ← get
    tell client (
        codes "230- --== stats ==--\r\n"
        ++ (h.versions
            ++ (switches t.shared
                ++ (h.stats t.shared.config t.shared.nr_logins t.world
                    ++ codes "230 --== stats ==--\r\n"))))
