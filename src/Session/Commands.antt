-- ===== src/Session/Commands.antt =====
-- src/controlthread.cc, the part of `mainloop` that reads from the client: the commands of every user,
-- one function for each branch.
use yatb.Control.{client, site}
use yatb.Prelude.{ℕ, Bool, true, false, not, ◌&&◌, ◌||◌, Option, none, some, if◌then◌else◌}
use yatb.Session.Relink.{starts, not_understood, behind, deletedatathread}
use yatb.Session.State.{Host, State, Run, ◌>>=◌, ◌>>◌, done, leave, get, set, tell, ensure, flag}
use yatb.Text.{Bytes, codes, find}

module _ ⦃h : Host⦄ where
  -- `config.traffic_bnc || (relinked && config.traffic_bnc_relink)`.
  unfoldable pub bounces : State → Bool
  bounces t =
      flag t.shared (codes "traffic_bnc")
      || (t.thread.relinked && flag t.shared (codes "traffic_bnc_relink"))

  -- The former data thread is joined where the data connections go through the bouncer.
  unfoldable pub drop_datathread : Run Unit
  drop_datathread = do t ← get; if bounces t then ensure deletedatathread else done

  unfoldable pub idnt : Bytes → Run Unit
  idnt s = tell client (not_understood s)

  unfoldable pub abor : Run Unit
  abor = do drop_datathread; tell site (codes "ABOR\r\n")

  unfoldable pub auth_tls : Bytes → Run Unit
  auth_tls s = do tell site s; set (λ th. record th { gotfirstcmd = true })

  unfoldable pub auth_ssl : Bytes → Run Unit
  auth_ssl s = do
    t ← get
    if flag t.shared (codes "translate_nosslfxp")
        then set (λ th. record th { gotauthsslmsg = true }) >> tell site (codes "AUTH TLS\r\n")
        else tell site s
    set (λ th. record th { gotfirstcmd = true })

  unfoldable pub prot_p : Bytes → Run Unit
  prot_p s = do
    set (λ th. record th { sslprotp = th.sslprotp || th.usingssl })
    t ← get
    if t.thread.relinked || flag t.shared (codes "translate_nosslfxp")
        then tell client (codes "200 Protection set to Private\r\n")
        else tell site s

  unfoldable pub prot_c : Bytes → Run Unit
  prot_c s = do
    set (λ th. record th { sslprotp = false })
    t ← get
    if t.thread.relinked then tell client (codes "200 Protection set to Clear\r\n") else tell site s

  unfoldable pub type_is : ℕ → Bytes → Run Unit
  type_is n s = do set (λ th. record th { transfertype = n }); tell site s

  -- The user's name in `USER`: the text behind the first `!`, or else the first space, but for the last
  -- two bytes.
  unfoldable pub user_name : Bytes → Option Bytes
  user_name s = elim (find s (codes "!")) [
    | some pos2 ↦ some (behind s pos2)
    | none ↦ elim (find s (codes " ")) [ none ↦ none | some pos ↦ some (behind s pos) ]
  ]

  unfoldable pub set_user : Option Bytes → Run Unit
  set_user none = leave
  set_user (some name) = set (λ th. record th { username = name })

  -- A line in front of `USER`, and `USER` itself.
  unfoldable pub before_user : Bytes → Run Unit
  before_user s = do
    tell site s
    if starts s 5 (codes "USER")
        then set (λ th. record th { gotusercmd = true; gotfirstcmd = true })
          >> set_user (user_name s)
        else done

  -- A line between `USER` and `PASS`, and `PASS` itself.
  unfoldable pub before_pass : Bytes → Run Unit
  before_pass s = do
    tell site s
    if starts s 5 (codes "PASS") then set (λ th. record th { gotpasscmd = true }) else done

  unfoldable pub pasv : Bytes → Run Unit
  pasv s = do
    t ← get
    if bounces t
        then ensure deletedatathread >> set (λ th. record th { gotpasvcmd = true })
        else done
    tell site s

  unfoldable pub port : Bytes → Run Unit
  port s = do
    set (λ th. record th { gotportcmd = true; portcmd = s })
    t ← get
    if bounces t then ensure deletedatathread >> tell site (codes "PASV\r\n") else tell site s

  unfoldable pub quit : Bytes → Run Unit
  quit s = do
    t ← get
    if flag t.shared (codes "send_traffic_info") && not t.thread.relinked
        then tell client (h.traffic_info t.world)
        else done
    tell site s

  unfoldable pub cpsv : Bytes → Run Unit
  cpsv s = do
    t ← get
    if bounces t
        then ensure deletedatathread
          >> set (λ th. record th { gotpasvcmd = true; sslprotp = true; cpsvcmd = true })
          >> tell site (
              if flag t.shared (codes "translate_nosslfxp")
                || not (flag t.shared (codes "ssl_forward"))
              then codes "PASV\r\n"
              else codes "CPSV\r\n")
        else tell site s

  -- The answer to a form of `SSCN` that names the method.
  unfoldable pub sscn_reply : Bytes → Run Unit
  sscn_reply s = do
    t ← get
    if not (flag t.shared (codes "ssl_forward")) && flag t.shared (codes "traffic_bnc")
        then tell client (
            if t.thread.sscn
            then codes "200 SSCN:CLIENT METHOD\r\n"
            else codes "200 SSCN:SERVER METHOD\r\n")
        else tell site s

  unfoldable pub sscn_set : Bool → Bytes → Run Unit
  sscn_set on s = do set (λ th. record th { sscn = on }); sscn_reply s

  unfoldable pub noop : Run Unit
  noop = tell client (codes "200 NOOP command successful.\r\n")

  -- `STOR`, `RETR`, and the two listings.
  unfoldable pub transfer : Bytes → Bool → Bytes → Run Unit
  transfer way listing s = do
    set (λ th. record th {
      direction = way;
      dirlisting = th.dirlisting || listing;
      directionset = true;
    })
    tell site s
