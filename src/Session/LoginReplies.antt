-- ===== src/Session/LoginReplies.antt =====
-- src/controlthread.cc, the part of `mainloop` that reads from the site: the replies during the login.
use yatb.Control.{client}
use yatb.Prelude.{◌+◌, Bool, true, false, not, ◌&&◌, length, if◌then◌else◌}
use yatb.Reply.{is_endline}
use yatb.Session.Relink.{contains, tryrelink, trytls}
use yatb.Session.State.{
  Host, Run, ◌>>=◌, ◌>>◌, done, leave, get, set, set_shared, tell, defined, flag, word,
}
use yatb.StringList.{is_in_list}
use yatb.Strings.{upper}
use yatb.Text.{Bytes, codes}

-- `upper(s,s.length()).find(upper(text,text.length()),0) != string::npos`.
unfoldable pub mentions : Bytes → Bytes → Bool
mentions s text = contains (upper s (length s)) (upper text (length text))

module _ ⦃h : Host⦄ where
  -- A reply behind the first command and in front of `USER`.
  unfoldable pub reply_first : Bytes → Run Unit
  reply_first s = do
    t ← get
    if mentions s (codes "AUTH TLS SUCCESSFUL")
        then tell client (
            if t.thread.gotauthsslmsg && flag t.shared (codes "translate_nosslfxp")
            then codes "234 AUTH SSL successful\r\n"
            else s)
          >> trytls
        else if mentions s (codes "AUTH SSL SUCCESSFUL")
        then set (λ th. record th { sslprotp = true }) >> tell client s >> trytls
        else tell client s

  -- Behind the tests of `enforce_tls`: is the user refused?
  unfoldable pub reply_user_checked : Bytes → Run Unit
  reply_user_checked s = do
    endline ← defined (is_endline s)
    t ← get
    if endline && mentions s (word t.shared (codes "user_access_denied"))
        then if flag t.shared (codes "trytorelink") then tryrelink true else tell client s >> leave
        else tell client s

  -- A reply behind `USER` and in front of `PASS`. A relinked session does not come here, but for the
  -- rest of this round, in which nothing is left to do.
  unfoldable pub reply_user : Bytes → Run Unit
  reply_user s = do
    t ← get
    if flag t.shared (codes "enforce_tls")
          && (not t.thread.usingssl
              && (flag t.shared (codes "relink_notls") && flag t.shared (codes "trytorelink")))
        then tryrelink true
        else if flag t.shared (codes "enforce_tls")
            && (not t.thread.usingssl && not (flag t.shared (codes "use_ssl_exclude")))
        then tell client (codes "427 Use AUTH TLS!\r\n") >> leave
        else if t.thread.relinked
        then done
        else reply_user_checked s

  -- The login succeeded.
  unfoldable pub login_success : Bytes → Run Unit
  login_success s = do
    set (λ th. record th { gotwelcomemsg = true })
    set_shared (λ g. record g { nr_logins = g.nr_logins + 1 })
    tell client s
    t ← get
    if flag t.shared (codes "enforce_tls")
          && (not t.thread.usingssl
              && (flag t.shared (codes "use_ssl_exclude")
                  && not (is_in_list t.shared.sslexcludelist t.thread.username)))
        then tell client (codes "427 Use AUTH TLS!\r\n") >> leave
        else done

  -- The site is full or closed, or the user has too many logins.
  unfoldable pub login_closed : Bytes → Run Unit
  login_closed s = do set (λ th. record th { gotwelcomemsg = true }); tell client s; leave

  -- The site refuses for another reason.
  unfoldable pub login_failed : Bytes → Run Unit
  login_failed s = do
    set (λ th. record th { gotwelcomemsg = true })
    t ← get
    if flag t.shared (codes "trytorelink") then tryrelink false else tell client s

  -- The last line of an answer to the login.
  unfoldable pub login_answer : Bytes → Run Unit
  login_answer s = do
    t ← get
    if mentions s (word t.shared (codes "user_login_success"))
        then login_success s
        else if mentions s (word t.shared (codes "site_full"))
        then login_closed s
        else if mentions s (word t.shared (codes "site_closed"))
        then login_closed s
        else if mentions s (word t.shared (codes "max_numlogins"))
        then login_closed s
        else login_failed s

  -- A reply behind `USER` and `PASS`, until one ends the login.
  unfoldable pub reply_pass : Bytes → Run Unit
  reply_pass s = do
    endline ← defined (is_endline s)
    if endline then login_answer s else tell client s
