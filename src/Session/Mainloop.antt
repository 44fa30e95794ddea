-- ===== src/Session/Mainloop.antt =====
-- src/controlthread.cc: the constructor of `CControlThread`, `mainloop` in front of its loop, and the
-- rounds of the loop.
use yatb.Control.{Peer, client, site}
use yatb.Prelude.{
  ℕ, Option, ◌+◌, Bool, false, not, ◌&&◌, ◌||◌, List, [], ◌∷◌, ◌++◌, none, some, drop,
  if◌then◌else◌,
}
use yatb.Session.Client.{client_command}
use yatb.Session.Relink.{wait_pass}
use yatb.Session.Replies.{site_reply}
use yatb.Session.State.{
  Host, Thread, Run, ◌>>=◌, ◌>>◌, give, done, leave, get, set, write, tell, call, ensure, defined,
  returns, flag, word, get_sock, bind_site, connect_site,
}
use yatb.StringList.{is_in_list}
use yatb.Strings.{crcut}
use yatb.Text.{Bytes, codes, find, is_empty}

-- The members as the constructor sets them, for the address of the client.
unfoldable pub new_control_thread : Bytes → Thread
new_control_thread cip = record {
  gotfirstcmd = false;
  gotusercmd = false;
  gotpasscmd = false;
  gotwelcomemsg = false;
  gotportcmd = false;
  gotpasvcmd = false;
  relinked = false;
  usingssl = false;
  sslprotp = false;
  cpsvcmd = false;
  activecon = false;
  sscn = false;
  gotauthsslmsg = false;
  dirlisting = false;
  sendadminmsg = false;
  directionset = false;
  awaits_pass = false;
  transfertype = 1;
  username = codes "-EMPTY-";
  clientip = cip;
  portcmd = [];
  admin_msg = [];
  direction = [];
  datathread = none;
}

-- What a round of the loop finds: `select` fails, or one side can be read. `TryRead` finds nothing yet,
-- fails, or has a text.
pub data Reading : Type 0 where
  not_yet failed : Reading
  got : Bytes → Reading

pub data Input : Type 0 where
  select_error : Input
  from_site from_client : Reading → Input

module _ ⦃h : Host⦄ where
  -- Only entry bouncers may connect.
  unfoldable pub check_entry : Bool → Run Unit
  check_entry using_entry = do
    t ← get
    if using_entry
          && (not (is_in_list t.shared.entrylist t.thread.clientip)
              && not (flag t.shared (codes "allow_noentry_connect")))
        then leave
        else done

  unfoldable pub found_user : Option Bytes → Run Bytes
  found_user (some user) = give user
  found_user none = do
    t ← get
    if flag t.shared (codes "enforce_ident") then leave else give (codes "*")

  -- The results of `Ident` and of `Read`.
  unfoldable pub ask_ident : Run (Option Bytes)
  ask_ident t = returns t (h.ident t.thread.clientip t.world)

  unfoldable pub read : Peer → Run (Option Bytes)
  read peer t = returns t (h.read peer t.world)

  -- The name that the client's ident server gives, or `*`.
  unfoldable pub ident_user : Bool → Run Bytes
  ident_user using_entry = do
    t ← get
    if flag t.shared (codes "use_ident")
          && (not using_entry || not (is_in_list t.shared.entrylist t.thread.clientip))
        then ask_ident >>= found_user
        else give (codes "*")

  unfoldable pub connect_to_site : Run Unit
  connect_to_site = do
    ensure (call get_sock)
    t ← get
    if is_empty (word t.shared (codes "connect_ip")) then done else ensure (call bind_site)
    ok ← call connect_site
    if ok
        then done
        else if flag t.shared (codes "show_connect_failmsg")
        then write client (word t.shared (codes "connectfailmsg") ++ codes "\r\n") >> leave
        else leave

  unfoldable pub idnt_cmd : Bytes → Bytes → Bytes
  idnt_cmd user ip =
      codes "IDNT " ++ (user ++ (codes "@" ++ (ip ++ (codes ":" ++ (ip ++ codes "\r\n")))))

  unfoldable pub set_clientip : Bytes → Option ℕ → Run Unit
  set_clientip cut none = leave
  set_clientip cut (some i) = set (λ th. record th { clientip = drop (i + 1) cut })

  -- The IDNT line of an entry bouncer is passed on, and names the client.
  unfoldable pub pass_idnt : Option Bytes → Run Unit
  pass_idnt none = leave
  pass_idnt (some idndtcmd) = do
    tell site idndtcmd
    cut ← defined (crcut idndtcmd)
    set_clientip cut (find cut (codes ":"))

  unfoldable pub read_idnt : Run Unit
  read_idnt = read client >>= pass_idnt

  -- The site is told who the client is.
  unfoldable pub send_idnt : Bool → Bytes → Run Unit
  send_idnt using_entry user = do
    t ← get
    let ip = t.thread.clientip
    let listed = is_in_list t.shared.entrylist ip
    let no_idnt_cmd = flag t.shared (codes "no_idnt_cmd")
    if not listed && (flag t.shared (codes "allow_noentry_connect") && not no_idnt_cmd)
        then tell site (idnt_cmd user ip)
        else done
    if not using_entry && not no_idnt_cmd
        then tell site (idnt_cmd user ip)
        else if not no_idnt_cmd && listed
        then read_idnt
        else done

  unfoldable pub show_welcome : Option Bytes → Run Unit
  show_welcome none = leave
  show_welcome (some serverwelcomemsg) = do
    t ← get
    tell client (
        if flag t.shared (codes "fake_serverstring")
        then word t.shared (codes "server_string") ++ codes "\r\n"
        else serverwelcomemsg)

  unfoldable pub welcome : Run Unit
  welcome = read site >>= show_welcome

  -- `mainloop` in front of its loop.
  unfoldable pub opening : Bool → Run Unit
  opening using_entry = do
    check_entry using_entry
    user ← ident_user using_entry
    set (λ th. record th { username = codes "-AFTER-IDENT-" })
    connect_to_site
    send_idnt using_entry user
    welcome
    set (λ th. record th { username = codes "-BEFORE-MAINLOOP-" })

  -- The loop of `tryrelink` looks at the client only, and reads with `Read`, which leaves an empty text
  -- where nothing is there yet.
  unfoldable pub wait_round : Input → Run Unit
  wait_round select_error = leave
  wait_round (from_site r) = done
  wait_round (from_client not_yet) = wait_pass []
  wait_round (from_client failed) = leave
  wait_round (from_client (got s)) = wait_pass s

  unfoldable pub main_round : Input → Run Unit
  main_round select_error = leave
  main_round (from_site not_yet) = done
  main_round (from_site failed) = leave
  main_round (from_site (got s)) = site_reply s
  main_round (from_client not_yet) = done
  main_round (from_client failed) = leave
  main_round (from_client (got s)) = client_command s

  unfoldable pub round : Input → Run Unit
  round i = do t ← get; if t.thread.awaits_pass then wait_round i else main_round i

  -- The loop over what its rounds find.
  unfoldable pub rounds : List Input → Run Unit
  rounds [] = done
  rounds (i ∷ is) = round i >> rounds is

  -- The whole of `mainloop`.
  unfoldable pub mainloop : Bool → List Input → Run Unit
  mainloop using_entry is = opening using_entry >> rounds is
