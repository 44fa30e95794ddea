-- ===== src/Control/Locks.antt =====
-- Which calls give `rwlock` back, and what they count.
use yatb.Control.{
  Peer, client, is_client, Session, Settings, count_recvd, count_send, Ended, locked_out, waits,
  undefined_behaviour, ended, read_end, read, try_read, write_end, shows_site, write, try_end,
  write_sent,
}
use yatb.Prelude.{
  Bool, true, false, List, ◌∷◌, ◌++◌, length, ◌==◌, ◌≡◌, refl, inl, inr, Bool-cases, ◌⊎◌,
}
use yatb.Text.{Bytes, codes}
use yatb.Traffic.{Double, trafficcheck}
use yatb.Transfer.{
  Line, Turn, Write, written, blocked, control_write, Arrival, Read, undefined, returned, reading,
  control_read, read_loop, failed, reached,
}

module _ (double : Double) where
  -- The lock is free after a call that returns.
  abbrev pub Unlocks : {A : Type 0} → Ended double A → Type 0
  Unlocks locked_out = Unit
  Unlocks (waits tmp) = Unit
  Unlocks undefined_behaviour = Unit
  Unlocks (ended res t s rest) = t.locked ≡ false

  read_end-Unlocks :
      (t : Session double) (sock : Peer) (s : Bytes) (r : Read)
      → Unlocks (read_end double t sock s r)
  unfolding read_end
  read_end-Unlocks t sock s undefined = tt
  read_end-Unlocks t sock s (reading tmp) = tt
  read_end-Unlocks t sock s (returned res str rest) = elim (Bool-cases (res == 0)) [
    | inl e ↦ rw (e, read_end) refl
    | inr e ↦ rw (e, read_end) refl
  ]

  try_end-Unlocks :
      (t : Session double) (sock : Peer) (s : Bytes) (r : Read)
      → Unlocks (try_end double t sock s r)
  unfolding try_end
  try_end-Unlocks t sock s undefined = tt
  try_end-Unlocks t sock s (reading tmp) = tt
  try_end-Unlocks t sock s (returned res str rest) = elim (Bool-cases (res == 2)) [
    | inl e ↦ rw (e, try_end) refl
    | inr e ↦ rw (e, try_end) (read_end-Unlocks t sock s (returned res str rest))
  ]

  -- `Read` and `TryRead` give the lock back whichever way they return, on any socket and whatever
  -- arrives.
  pub read-try_read-Unlocks :
      (t : Session double) (line : Line) (sock : Peer) (s : Bytes) (rs : List Arrival)
      → Unlocks (read double t line sock s rs) × Unlocks (try_read double t line sock s rs)
  unfolding read try_read
  read-try_read-Unlocks t line sock s rs =
      let taken : Session double = record t { locked = true } in
      elim (Bool-cases t.locked) [
        | inl e ↦ (rw (e, read) tt, rw (e, try_read) tt)
        | inr e ↦ (
          rw (e, read) (read_end-Unlocks taken sock s (control_read line rs)),
          rw (e, try_read) (try_end-Unlocks taken sock s (control_read line rs)),
        )
      ]

  -- `Read` from the client takes it for success when OpenSSL asks to wait: with a free lock, on a
  -- TLS connection that allows retries, it returns 1, leaves the text of an earlier call in `s`,
  -- and counts its length again.
  pub read-failed :
      (t : Session double) (line : Line) (s : Bytes) (rs : List Arrival)
      → t.locked ≡ false
      → line.ssl ≡ true
      → reached 0 line.retry_count ≡ false
      → read double t line client s (failed true ∷ rs)
        ≡ ended 1 (count_recvd double t (length s)) s rs
  unfolding read control_read read_loop read_end is_client count_recvd
  read-failed t line s rs h k m = rw (h, k, m) refl

  -- While the lock is held no call gets in.
  abbrev pub LocksOut : Settings double → Session double → Type 0
  LocksOut config t =
      (line : Line) (sock : Peer) (s : Bytes) (rs : List Arrival) (ws : List Turn)
      → (read double t line sock s rs ≡ locked_out)
        × (try_read double t line sock s rs ≡ locked_out)
        × (write double config t line sock s ws ≡ locked_out)

  locked-LocksOut :
      (config : Settings double) (t : Session double) → t.locked ≡ true → LocksOut config t
  unfolding read try_read write
  locked-LocksOut config t h line sock s rs ws =
      (rw (h, read) refl, rw (h, try_read) refl, rw (h, write) refl)

  module _ (config : Settings double) (t : Session double) (free : t.locked ≡ false) where
    -- The traffic limits with a text counted.
    abbrev pub within_limits : Bytes → Bool
    within_limits s = trafficcheck double config.limits (count_send double t (length s)).counters

    -- From a session with a free lock: a text for the client that does not show the address of the
    -- site (or `traffic_bnc` is not set, or `debug` is), is sent whole, and with which a traffic
    -- limit is reached is followed by the message about the limit, as far as that goes; `Write`
    -- returns 0 and never gives the lock back, so every later `Read`, `TryRead` and `Write` waits
    -- for it.
    pub write_over_limit :
        (line : Line) (s sent sent' : Bytes) (res : Bool) (ws rest rest' : List Turn)
        → shows_site double config client s ≡ false
        → control_write line s ws ≡ written true sent rest
        → within_limits s ≡ false
        → control_write line (codes "427 traffic limit reached\r\n") rest ≡ written res sent' rest'
        → (t' : Session double) × (write double config t line client s ws
            ≡ ended 0 t' (sent ++ sent') rest')
          × LocksOut config t'
    unfolding write write_sent write_end is_client count_send
    write_over_limit line s sent sent' res ws rest rest' h k m n =
        let t' : Session double = record (count_send double t (length s)) { locked = true } in
        (t', rw (free, h, write) (rw k (rw m (rw n refl))), locked-LocksOut config t' refl)

    write_sent-Unlocks :
        (line : Line) (sock : Peer) (s : Bytes) (w : Write Turn)
        → (is_client sock ≡ false) ⊎ (within_limits s ≡ true)
        → Unlocks (write_sent double config (record t { locked = true }) line sock s w)
    unfolding write_sent write_end count_send
    write_sent-Unlocks line sock s (blocked sent) h = tt
    write_sent-Unlocks line sock s (written false sent rest) h = refl
    write_sent-Unlocks line sock s (written true sent rest) (inl h) = rw (h, write_end) refl
    write_sent-Unlocks line sock s (written true sent rest) (inr h) =
        elim (Bool-cases (is_client sock)) [
          | inl c ↦ rw (c, write_end) (rw h refl)
          | inr c ↦ rw (c, write_end) refl
        ]

    -- From a session with a free lock, whatever the sockets do, a `Write` that returns gives the
    -- lock back, unless it writes to the client and either the text shows the address of the site,
    -- with `traffic_bnc` set and `debug` not, or a traffic limit is reached with the text counted.
    pub write-Unlocks :
        (line : Line) (sock : Peer) (s : Bytes) (ws : List Turn)
        → Unlocks (write double config t line sock s ws)
          ⊎ (shows_site double config sock s ≡ true)
          ⊎ ((is_client sock ≡ true) × (within_limits s ≡ false))
    unfolding write
    write-Unlocks line sock s ws = elim (Bool-cases (shows_site double config sock s)) [
      | inl e ↦ inr (inl e)
      | inr e ↦ elim (Bool-cases (is_client sock)) [
        | inl c ↦ elim (Bool-cases (within_limits s)) [
          | inl l ↦ inl (
              rw (free, e, write)
                (write_sent-Unlocks line sock s (control_write line s ws) (inr l)))
          | inr l ↦ inr (inr (c, l))
        ]
        | inr c ↦
            inl (
              rw (free, e, write)
                (write_sent-Unlocks line sock s (control_write line s ws) (inl c)))
      ]
    ]
