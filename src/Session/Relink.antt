-- ===== src/Session/Relink.antt =====
-- src/controlthread.cc: `deletedatathread`, `tryrelink` and `trytls`, which the handlers of a session
-- call, and the expressions on texts that the handlers share.
use yatb.Control.{client}
use yatb.Prelude.{
  Option, ℕ, ◌+◌, ◌-◌, Bool, true, false, ◌++◌, none, some, length, take, drop, leb, if◌then◌else◌,
}
use yatb.Session.State.{
  DataThread, Host, Run, ◌>>=◌, ◌>>◌, give, done, get, set, seen, write, tell, call, ensure, flag,
  word, joined, secured, join_thread, get_sock, bind_site, login_relink, ssl_connect, ssl_accept,
}
use yatb.Strings.{upper}
use yatb.Text.{Bytes, codes, find, is_empty}

-- `s.find(text,0) != string::npos`.
unfoldable pub contains : Bytes → Bytes → Bool
contains s text = elim (find s text) [ none ↦ false | some i ↦ true ]

-- `upper(s,n).find(text,0) != string::npos`.
unfoldable pub starts : Bytes → ℕ → Bytes → Bool
starts s n text = contains (upper s n) text

-- `"500 '" + upper(s,s.length()-2) + "' : Command not understood.\r\n"`; for a shorter text the length is
-- negative, which stands for the whole text.
unfoldable pub not_understood : Bytes → Bytes
not_understood s =
    let cut : ℕ = if leb 2 (length s) then length s - 2 else 0 in
    codes "500 '" ++ (upper s cut ++ codes "' : Command not understood.\r\n")

-- `s.substr(pos+1,s.length()-pos-3)`; where the length is negative it is a `size_t`, the whole rest.
unfoldable pub behind : Bytes → ℕ → Bytes
behind s i =
    if leb (i + 3) (length s) then take (length s - i - 3) (drop (i + 1) s) else drop (i + 1) s

module _ ⦃h : Host⦄ where
  -- The thread is forgotten, with the result of joining it.
  unfoldable pub forget : Bool → Run Bool
  forget ok = do seen joined; set (λ th. record th { datathread = none }); give ok

  unfoldable pub join_thread_of : Option DataThread → Run Bool
  join_thread_of none = give true
  join_thread_of (some d) = call join_thread >>= forget

  -- `deletedatathread`: the thread is forgotten also where it cannot be joined.
  unfoldable pub deletedatathread : Run Bool
  deletedatathread = do t ← get; join_thread_of t.thread.datathread

  -- The end of `tryrelink`.
  unfoldable pub relink_done : Run Unit
  relink_done = do
    t ← get
    tell client (codes "230 user " ++ (t.thread.username ++ codes " logged in.\r\n"))
    set λ th. record th {
      relinked = true;
      gotusercmd = true;
      gotpasscmd = true;
      gotwelcomemsg = true;
      awaits_pass = false;
    }

  -- `tryrelink`; wherever it returns 0 its callers end the session. With `state` it is left where it
  -- begins to wait for the password.
  unfoldable pub tryrelink : Bool → Run Unit
  tryrelink state = do
    ensure (call get_sock)
    t ← get
    if is_empty (word t.shared (codes "listen_ip")) then done else ensure (call bind_site)
    ok ← call login_relink
    if ok
        then done
        else if flag t.shared (codes "show_connect_failmsg")
        then write client (codes "427 Login failed!\r\n") >> done
        else done
    if state
        then tell client (codes "331 Password required.\r\n")
          >> set (λ th. record th { awaits_pass = true })
        else relink_done

  -- The round of the loop in `tryrelink` for a line of the client.
  unfoldable pub wait_pass : Bytes → Run Unit
  wait_pass tmp =
      if starts tmp 5 (codes "PASS")
      then relink_done
      else tell client (codes "500 : Command not understood.\r\n")

  -- `trytls`, whose callers end the session where it returns 0.
  unfoldable pub trytls : Run Unit
  trytls = do
    set (λ th. record th { username = codes "-TRYTLS-" })
    ensure (call ssl_connect)
    ensure (call ssl_accept)
    seen secured
    set (λ th. record th { usingssl = true; username = codes "-AFTERTRYTLS-" })
