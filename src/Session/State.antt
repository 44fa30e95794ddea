-- ===== src/Session/State.antt =====
-- src/controlthread.cc, include/controlthread.h: the state of a session, and the calls with which its
-- handlers act on it.
use yatb.Config.{Config, Value, text_value, number_value, real_value}
use yatb.Control.{Peer}
use yatb.FpWhitelist.{FpWhitelist}
use yatb.IpList.{IpList}
use yatb.KillFile.{Shell}
use yatb.Platform.{Crypto, Disk}
use yatb.Prelude.{
  ℕ, Bool, true, false, not, List, [], ◌∷◌, ◌++◌, Option, none, some, ◌==◌, if◌then◌else◌, ℤ, pos,
  negsuc,
}
use yatb.StringList.{StringList}
use yatb.Text.{Bytes}
use yatb.Whitelist.{Whitelist}

-- Calls of the system and of OpenSSL, and of the functions over them, that succeed or fail.
pub data Call : Type 0 where
  join_thread create_thread get_sock bind_site connect_site ssl_connect ssl_accept login_relink :
      Call

-- What the handlers use and do not implement. A call that never returns is `none`. `write` is
-- `CControlThread::Write`, `notice` the direct `control_write` to the client behind a traffic limit,
-- `allowed` is `trafficcheck`, `read` is `CControlThread::Read`, with no text where it returns 0, and
-- `ident` the name that `Ident` finds. `traffic_info`, `versions` and `stats` are the lines about traffic,
-- about the version and the libraries, and about connections, for the limits and the number of logins.
-- `resolved` is the address that `GetIp` finds for a name, `interface_ip` the answer of the `ioctl`
-- for an interface. `zero` is 0 as a `double`.
pub record Host : Type 1 where
  pub World : Type 0
  pub Real : Type 0
  pub zero : Real
  pub atof : Bytes → Real
  pub crypto : Crypto
  pub shell : Shell
  pub write : Peer → Bytes → World → Option (Bool × World)
  pub notice : Bytes → World → Option World
  pub allowed : World → Bool
  pub succeeds : Call → World → Option (Bool × World)
  pub read : Peer → World → Option (Option Bytes × World)
  pub ident : Bytes → World → Option (Option Bytes × World)
  pub random_range : ℤ → ℤ → World → ℤ × World
  pub resolved : Bytes → World → Bytes
  pub interface_ip : Bytes → World → Option Bytes
  pub traffic_info : World → Bytes
  pub versions : Bytes
  pub stats : Config Real → ℕ → World → Bytes

-- The arguments of `new CDataThread` that the session chooses.
pub record DataThread : Type 0 where
  pub sscn : Bool
  pub cpsvcmd : Bool
  pub transfertype : ℕ
  pub sslprotp : Bool
  pub relinked : Bool
  pub usingssl : Bool
  pub activecon : Bool
  pub username : Bytes
  pub clientip : Bytes
  pub passiveip : Bytes
  pub activeip : Bytes
  pub passiveport : ℤ
  pub activeport : ℤ
  pub newport : ℤ
  pub passivecmd : Bytes

-- What a handler does that can be seen from outside, in order: a text given to `Write`, or to
-- `control_write` at a traffic limit, a data thread joined or started, TLS begun.
pub data Event : Type 0 where
  told : Peer → Bytes → Event
  noticed : Event
  joined : Event
  started : DataThread → Event
  secured : Event

-- The members of `CControlThread`. The counters `gotfirstcmd`, `gotusercmd`, `gotpasscmd` and
-- `gotwelcomemsg` are only raised and only tested for zero, so they are Booleans like the other flags.
-- `awaits_pass` is set while the session is in the loop of `tryrelink` that waits for the password.
pub record Thread : Type 0 where
  pub gotfirstcmd : Bool
  pub gotusercmd : Bool
  pub gotpasscmd : Bool
  pub gotwelcomemsg : Bool
  pub gotportcmd : Bool
  pub gotpasvcmd : Bool
  pub relinked : Bool
  pub usingssl : Bool
  pub sslprotp : Bool
  pub cpsvcmd : Bool
  pub activecon : Bool
  pub sscn : Bool
  pub gotauthsslmsg : Bool
  pub dirlisting : Bool
  pub sendadminmsg : Bool
  pub directionset : Bool
  pub awaits_pass : Bool
  pub transfertype : ℕ
  pub username : Bytes
  pub clientip : Bytes
  pub portcmd : Bytes
  pub admin_msg : Bytes
  pub direction : Bytes
  pub datathread : Option DataThread

-- A member of `config` as a text, as a number, and as a condition.
abbrev pub text_of : {D : Type 0} → Value D → Bytes
text_of (text_value s) = s
text_of (number_value n) = []
text_of (real_value d) = []

abbrev pub number_of : {D : Type 0} → Value D → ℤ
number_of (text_value s) = pos 0
number_of (number_value n) = n
number_of (real_value d) = pos 0

abbrev pub flag_of : {D : Type 0} → Value D → Bool
flag_of (text_value s) = false
flag_of (number_value (pos n)) = not (n == 0)
flag_of (number_value (negsuc n)) = true
flag_of (real_value d) = false

module _ ⦃h : Host⦄ where
  -- The globals that sessions share.
  pub record Shared : Type 0 where
    pub config : Config h.Real
    pub adminlist : StringList
    pub fxpfromsitelist : StringList
    pub fxptositelist : StringList
    pub sslexcludelist : StringList
    pub entrylist : StringList
    pub whitelist : Whitelist
    pub fpwhitelist : FpWhitelist
    pub iplist : IpList
    pub disk : Disk
    pub conffile : Bytes
    pub yatbfilename : Bytes
    pub bk : Bytes
    pub ip_bk : Bytes
    pub fpwl_bk : Bytes
    pub use_blowconf : Bool
    pub nr_logins : ℕ

  pub record State : Type 0 where
    pub thread : Thread
    pub shared : Shared
    pub events : List Event
    pub world : h.World

  -- How a piece of a handler ends: it goes on, the session ends (`return` from `mainloop`), the program
  -- exits, a call never returns, or the behaviour is undefined.
  pub data Outcome (A : Type 0) : Type 0 where
    goes_on : A → State → Outcome A
    ends : State → Outcome A
    exited : State → Outcome A
    stuck : State → Outcome A
    undefined : Outcome A

  abbrev pub Run : Type 0 → Type 0
  Run A = State → Outcome A

  abbrev pub then_do : {A B : Type 0} → Outcome A → (A → Run B) → Outcome B
  then_do (goes_on a t) f = f a t
  then_do (ends t) f = ends t
  then_do (exited t) f = exited t
  then_do (stuck t) f = stuck t
  then_do undefined f = undefined

  infixl 5 ◌>>=◌ ◌>>◌
  abbrev pub ◌>>=◌ : {A B : Type 0} → Run A → (A → Run B) → Run B
  (m >>= f) t = then_do (m t) f

  abbrev pub ◌>>◌ : {A B : Type 0} → Run A → Run B → Run B
  (m >> k) t = then_do (m t) (λ _. k)

  abbrev pub give : {A : Type 0} → A → Run A
  give a t = goes_on a t

  abbrev pub done : Run Unit
  done t = goes_on tt t

  -- `return;`
  abbrev pub leave : {A : Type 0} → Run A
  leave t = ends t

  -- What a handler reads.
  abbrev pub get : Run State
  get t = goes_on t t

  -- An assignment to members of the session, and one to globals.
  unfoldable pub set : (Thread → Thread) → Run Unit
  set f t = goes_on tt (record t { thread = f t.thread })

  unfoldable pub set_shared : (Shared → Shared) → Run Unit
  set_shared f t = goes_on tt (record t { shared = f t.shared })

  unfoldable pub seen : Event → Run Unit
  seen e t = goes_on tt (record t { events = t.events ++ e ∷ [] })

  -- The result of a call that may never return.
  abbrev pub returns : {A : Type 0} → State → Option (A × h.World) → Outcome A
  returns t none = stuck t
  returns t (some (a, world)) = goes_on a (record t { world = world })

  -- A call of `Write`.
  abbrev pub write : Peer → Bytes → Run Bool
  write peer s t =
      let t' : State = record t { events = t.events ++ told peer s ∷ [] } in
      returns t' (h.write peer s t.world)

  -- `if(!Write(sock,s,ssl)) { return; }`.
  unfoldable pub tell : Peer → Bytes → Run Unit
  tell peer s = do ok ← write peer s; if ok then done else leave

  abbrev pub call : Call → Run Bool
  call c t = returns t (h.succeeds c t.world)

  -- `if(!f()) { return; }`.
  abbrev pub ensure : Run Bool → Run Unit
  ensure m = do ok ← m; if ok then done else leave

  -- A result that is missing where the code reads outside of a text.
  abbrev pub defined : {A : Type 0} → Option A → Run A
  defined none t = undefined
  defined (some a) t = goes_on a t

  -- The members of `config` by their names and types.
  unfoldable pub flag : Shared → Bytes → Bool
  flag g name = flag_of (g.config name)

  unfoldable pub word : Shared → Bytes → Bytes
  word g name = text_of (g.config name)

  unfoldable pub whole : Shared → Bytes → ℤ
  whole g name = number_of (g.config name)
