-- ===== src/Control.antt =====
-- src/controlthread.cc: `Read`, `TryRead` and `Write`, through which a session's threads use its
-- control connections, with the lock that they take and the traffic that they count.
pub mod Locks
use yatb.Prelude.{
  ℕ, Bool, true, false, not, ◌&&◌, List, [], ◌∷◌, ◌++◌, Option, none, some, length, ◌==◌,
  if◌then◌else◌,
}
use yatb.Text.{Bytes, codes, find}
use yatb.Traffic.{Double, Counter, Counters, Limits, addsend, addrecvd, trafficcheck}
use yatb.Transfer.{
  Line, Turn, Write, written, blocked, control_write, Arrival, Read, undefined, returned, reading,
  control_read,
}

-- What `sock` is: `client_sock`, or else `site_sock`, or neither.
pub data Peer : Type 0 where
  client : Peer
  site : Peer
  other : Peer

unfoldable pub is_client : Peer → Bool
is_client client = true
is_client site = false
is_client other = false

module _ (double : Double) where
  -- The state that the three share: is `rwlock` held, and the counters.
  pub record Session : Type 0 where
    pub locked : Bool
    pub localcounter : Counter double
    pub counters : Counters double

  -- The settings they read: `config.traffic_bnc`, `config.debug`, `_site_ip` and the limits.
  pub record Settings : Type 0 where
    pub traffic_bnc : Bool
    pub debug : Bool
    pub site_ip : Bytes
    pub limits : Limits double

  unfoldable pub count_recvd : Session → ℕ → Session
  unfolding addrecvd
  count_recvd t n =
      let d = double.of_nat n in
      record t {
        localcounter = addrecvd double t.localcounter d;
        counters = record {
          total = addrecvd double t.counters.total d;
          day = addrecvd double t.counters.day d;
          week = addrecvd double t.counters.week d;
          month = addrecvd double t.counters.month d;
        };
      }

  unfoldable pub count_send : Session → ℕ → Session
  unfolding addsend
  count_send t n =
      let d = double.of_nat n in
      record t {
        localcounter = addsend double t.localcounter d;
        counters = record {
          total = addsend double t.counters.total d;
          day = addsend double t.counters.day d;
          week = addsend double t.counters.week d;
          month = addsend double t.counters.month d;
        };
      }

  -- How a call ends: it waits for the lock, it waits for the socket with the lock held, its behaviour
  -- is undefined, or it returns its result with the session, the text (sent, or left in `s`), and what
  -- the socket was not asked for.
  pub data Ended (A : Type 0) : Type 0 where
    locked_out : Ended A
    waits : Bytes → Ended A
    undefined_behaviour : Ended A
    ended : ℕ → Session → Bytes → List A → Ended A

  -- `Read` behind the lock: every result of `control_read` but 0 counts as success, and 2 leaves `s`.
  unfoldable pub read_end : Session → Peer → Bytes → Read → Ended Arrival
  unfolding is_client
  read_end t sock s undefined = undefined_behaviour
  read_end t sock s (reading tmp) = waits tmp
  read_end t sock s (returned res str rest) =
      let s' : Bytes = elim str [ none ↦ s | some text ↦ text ] in
      if res == 0
      then ended 0 (record t { locked = false }) s' rest
      else ended 1
          (record (if is_client sock then count_recvd t (length s') else t) { locked = false }) s'
          rest

  -- `Read` on a socket, with its arrivals.
  unfoldable pub read : Session → Line → Peer → Bytes → List Arrival → Ended Arrival
  unfolding read_end
  read t line sock s rs =
      if t.locked
      then locked_out
      else read_end (record t { locked = true }) sock s (control_read line rs)

  -- `TryRead` behind the lock: the 2 of `control_read` is returned.
  unfoldable pub try_end : Session → Peer → Bytes → Read → Ended Arrival
  try_end t sock s undefined = undefined_behaviour
  try_end t sock s (reading tmp) = waits tmp
  try_end t sock s (returned res str rest) =
      let s' : Bytes = elim str [ none ↦ s | some text ↦ text ] in
      if res == 2
      then ended 2 (record t { locked = false }) s' rest
      else read_end t sock s (returned res str rest)

  unfoldable pub try_read : Session → Line → Peer → Bytes → List Arrival → Ended Arrival
  unfolding try_end
  try_read t line sock s rs =
      if t.locked
      then locked_out
      else try_end (record t { locked = true }) sock s (control_read line rs)

  -- The last part of `Write`: the text is counted, and behind it the limits are tested.
  unfoldable pub write_end :
      Settings → Session → Line → Peer → Bytes → Bytes → List Turn → Ended Turn
  unfolding is_client
  write_end config t line sock s sent rest =
      let t' = count_send t (length s) in
      if not (is_client sock)
      then ended 1 (record t { locked = false }) sent rest
      else if trafficcheck double config.limits t'.counters
      then ended 1 (record t' { locked = false }) sent rest
      else elim (control_write line (codes "427 traffic limit reached\r\n") rest) [
        | blocked sent' ↦ waits (sent ++ sent')
        | written res sent' rest' ↦ ended 0 t' (sent ++ sent') rest'
      ]

  -- `Write` behind its first `control_write`.
  unfoldable pub write_sent : Settings → Session → Line → Peer → Bytes → Write Turn → Ended Turn
  unfolding write_end
  write_sent config t line sock s (blocked sent) = waits sent
  write_sent config t line sock s (written false sent rest) =
      ended 0 (record t { locked = false }) sent rest
  write_sent config t line sock s (written true sent rest) =
      write_end config t line sock s sent rest

  -- The address of the site is not sent to a client: `s.find(_site_ip,0) != string::npos`.
  unfoldable pub shows_site : Settings → Peer → Bytes → Bool
  unfolding is_client
  shows_site config sock s =
      is_client sock
      && (config.traffic_bnc
          && (not config.debug
              && (elim (find s config.site_ip) [ none ↦ false | some pos ↦ true ])))

  -- `Write`; the early returns 0 behind the site's address and behind a limit do not unlock.
  unfoldable pub write : Settings → Session → Line → Peer → Bytes → List Turn → Ended Turn
  unfolding write_sent shows_site
  write config t line sock s rs =
      let t1 : Session = record t { locked = true } in
      if t.locked
      then locked_out
      else if shows_site config sock s
      then ended 0 t1 [] rs
      else write_sent config t1 line sock s (control_write line s rs)
