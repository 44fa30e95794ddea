-- ===== src/Session/DataReplies.antt =====
-- src/controlthread.cc, the part of `mainloop` that reads from the site: the replies that a data thread is
-- started for.
use yatb.Address.{
  Parsed, parse_psv_command, parse_port_command, create_psv_command, comma_ip, own_ip, Local,
}
use yatb.Control.{client}
use yatb.Prelude.{
  ℕ, ◌+◌, ◌/◌, ◌%◌, true, false, not, ◌&&◌, [], ◌∷◌, ◌++◌, Option, none, some, ◌==◌, if◌then◌else◌,
  ℤ, pos, negsuc, ◌+ℤ◌,
}
use yatb.Session.Relink.{deletedatathread}
use yatb.Session.State.{
  Host, State, Thread, DataThread, Run, ◌>>=◌, ◌>>◌, give, done, leave, get, set, seen, tell, call,
  ensure, defined, flag, word, whole, noticed, started, create_thread, stuck, ends,
}
use yatb.Strings.{crcut}
use yatb.Text.{Bytes, codes}
use yatb.Text.Number.{print}

-- A number that is not positive, by its size.
unfoldable pub minus : ℕ → Bytes
minus n = if n == 0 then print 0 else b'-' ∷ print n

-- `CreatePsvCommand` of any number: `/` and `%` round to zero.
unfoldable pub psv_command : Local → ℤ → Option Bytes
psv_command local (pos port) = create_psv_command local port
psv_command local (negsuc n) = elim (comma_ip (own_ip local)) [
  | none ↦ none
  | some tmpip ↦ some (
      codes "227 Entering Passive Mode ("
      ++ (tmpip
          ++ b',' ∷ (minus ((n + 1) / 256) ++ b',' ∷ (minus ((n + 1) % 256) ++ codes ")\r\n"))))
]

module _ ⦃h : Host⦄ where
  -- Behind a limit the client is told with `control_write`, and the session ends.
  unfoldable pub limit_reached : Run Unit
  limit_reached = do
    seen noticed
    λ t. elim (h.notice (codes "427 traffic limit reached\r\n") t.world) [
      | none ↦ stuck t
      | some world ↦ ends (record t { world = world })
    ]

  -- The former data thread is joined, and the limits are tested.
  unfoldable pub make_room : Run Unit
  make_room = do ensure deletedatathread; t ← get; if h.allowed t.world then done else limit_reached

  -- `new CDataThread` and `pthread_create`: where that fails the object is deleted.
  unfoldable pub start_thread : DataThread → Run Unit
  start_thread d = do
    ok ← call create_thread
    if ok
        then seen (started d) >> set (λ th. record th { datathread = some d })
        else set (λ th. record th { datathread = none })

  unfoldable pub new_thread : Thread → Parsed → Parsed → ℤ → Bytes → DataThread
  new_thread th passive active newport passivecmd = record {
    sscn = th.sscn;
    cpsvcmd = th.cpsvcmd;
    transfertype = th.transfertype;
    sslprotp = th.sslprotp;
    relinked = th.relinked;
    usingssl = th.usingssl;
    activecon = th.activecon;
    username = th.username;
    clientip = th.clientip;
    passiveip = passive.ip;
    activeip = active.ip;
    passiveport = passive.port;
    activeport = active.port;
    newport = newport;
    passivecmd = passivecmd;
  }

  abbrev pub no_address : Parsed
  no_address = record { ret = false; ip = []; port = pos 0 }

  -- The variables are reset for the next data connection.
  unfoldable pub reset_datathread_vars : Run Unit
  reset_datathread_vars = set (λ th. record th {
    gotpasvcmd = false;
    gotportcmd = false;
    activecon = false;
    cpsvcmd = false;
    dirlisting = false;
    directionset = false;
  })

  -- The port that the client is told.
  unfoldable pub choose_port : Parsed → Run ℤ
  choose_port passive t =
      if t.thread.relinked && flag t.shared (codes "use_port_range")
      then (let (port, world) =
            h.random_range (whole t.shared (codes "port_range_start"))
              (whole t.shared (codes "port_range_end")) t.world in
          give port (record t { world = world }))
      else give (passive.port +ℤ whole t.shared (codes "add_to_passive_port")) t

  -- The exception that `CreatePsvCommand` may throw is caught in `makethread`, behind the session.
  unfoldable pub caught : {A : Type 0} → Option A → Run A
  caught none = leave
  caught (some a) = give a

  -- What `CreatePsvCommand` reads of the configuration and of the host.
  unfoldable pub local : State → Local
  local t =
      let nat_pasv_ip = word t.shared (codes "nat_pasv_ip") in
      record {
        nat_pasv_ip = nat_pasv_ip;
        listen_ip = word t.shared (codes "listen_ip");
        resolved_nat_ip = h.resolved nat_pasv_ip t.world;
        interface_ip = h.interface_ip (word t.shared (codes "listen_interface")) t.world;
      }

  unfoldable pub pasv_started : Parsed → Run Unit
  pasv_started passive = do
    newport ← choose_port passive
    t ← get
    passivecmd ← caught (psv_command (local t) newport)
    start_thread (new_thread t.thread passive no_address newport passivecmd)

  -- The data thread for `PASV`; a reply that is no address is dropped.
  unfoldable pub pasv_thread : Bytes → Run Unit
  pasv_thread s =
      let passive = parse_psv_command s [] (pos 0) in
      if passive.ret then pasv_started passive else done

  unfoldable pub reply_pasv : Bytes → Run Unit
  reply_pasv s = do make_room; pasv_thread s; reset_datathread_vars

  unfoldable pub port_refused : Run Unit
  port_refused = do
    t ← get
    cut ← defined (crcut t.thread.portcmd)
    tell client (codes "500 '" ++ (cut ++ codes "': Command not understood.\r\n"))

  unfoldable pub port_started : Parsed → Parsed → Run Unit
  port_started passive active = do
    t ← get
    start_thread (new_thread t.thread passive active (pos 0) [])
    tell client (codes "200 PORT command successful.\r\n")

  -- The data thread for `PORT`; a reply that is no address is dropped here too.
  unfoldable pub port_thread : Bytes → Run Unit
  port_thread s = do
    t ← get
    let active = parse_port_command t.thread.portcmd [] (pos 0)
    let passive = parse_psv_command s [] (pos 0)
    if not active.ret
        then port_refused
        else if passive.ret
        then port_started passive active
        else done

  unfoldable pub reply_port : Bytes → Run Unit
  reply_port s = do
    set (λ th. record th { activecon = true })
    make_room
    port_thread s
    reset_datathread_vars
