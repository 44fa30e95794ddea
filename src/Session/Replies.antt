-- ===== src/Session/Replies.antt =====
-- src/controlthread.cc, the part of `mainloop` that reads from the site: which branch a reply takes, by
-- how far the login is, and what is passed on.
use yatb.Control.{client, site}
use yatb.Prelude.{
  ℕ, Bool, true, false, not, ◌&&◌, ◌||◌, [], Option, none, some, ◌==◌, if◌then◌else◌, ℤ, pos,
  negsuc,
}
use yatb.Reply.{is_endline, ftp_code}
use yatb.Session.State.{
  Host, State, Run, ◌>>=◌, ◌>>◌, done, get, set, tell, defined, flag, undefined,
}
use yatb.Text.{Bytes, codes, is_empty}
use yatb.Session.LoginReplies.{mentions, reply_first, reply_user, reply_pass}
use yatb.Session.DataReplies.{reply_pasv, reply_port}

-- `code == n`.
abbrev pub is_code : ℤ → ℕ → Bool
is_code (pos c) n = c == n
is_code (negsuc c) n = false

module _ ⦃h : Host⦄ where
  -- Behind a 226 the message for the admins is sent.
  unfoldable pub send_admin_msg : Run Unit
  send_admin_msg = do
    t ← get
    if is_empty t.thread.admin_msg
        then done
        else tell site t.thread.admin_msg
          >> set (λ th. record th { admin_msg = []; sendadminmsg = true })

  -- The code of the reply: where `FtpCode` finds none the number is not initialised.
  unfoldable pub after_code : Option (Bool × ℤ) → Run Unit
  after_code none = λ t. undefined
  after_code (some (false, code)) = λ t. undefined
  after_code (some (true, code)) = if is_code code 226 then send_admin_msg else done

  unfoldable pub pass_on : Bytes → Run Unit
  pass_on s = do
    tell client s
    endline ← defined (is_endline s)
    if endline then after_code (ftp_code s (pos 0)) else done

  -- The reply to a message for the admins is not shown.
  unfoldable pub reply_other : Bytes → Run Unit
  reply_other s = do
    t ← get
    if t.thread.sendadminmsg
        then (do
          endline ← defined (is_endline s)
          if endline && mentions s (codes "200 MESSAGE SENT SUCCESSFULLY TO")
              then set (λ th. record th { sendadminmsg = false })
              else pass_on s)
        else pass_on s

  -- Is the reply that of a `PASV`, or of the `PASV` that was sent for a `PORT`?
  unfoldable pub is_pasv_reply : State → Bool
  is_pasv_reply t =
      (t.thread.gotpasvcmd && (flag t.shared (codes "traffic_bnc") && not t.thread.gotportcmd))
      || (t.thread.gotpasvcmd && (t.thread.relinked && flag t.shared (codes "traffic_bnc_relink")))

  unfoldable pub is_port_reply : State → Bool
  is_port_reply t =
      (t.thread.gotportcmd && flag t.shared (codes "traffic_bnc"))
      || (t.thread.relinked && (flag t.shared (codes "traffic_bnc_relink") && t.thread.gotportcmd))

  -- A text from the site.
  unfoldable pub site_reply : Bytes → Run Unit
  site_reply s = do
    t ← get
    if t.thread.gotfirstcmd && not t.thread.gotusercmd
        then reply_first s
        else if t.thread.gotusercmd && not t.thread.gotpasscmd
        then reply_user s
        else if t.thread.gotusercmd && (t.thread.gotpasscmd && not t.thread.gotwelcomemsg)
        then reply_pass s
        else if is_pasv_reply t
        then reply_pasv s
        else if is_port_reply t
        then reply_port s
        else reply_other s
