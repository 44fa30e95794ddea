-- ===== src/Tests/Control.antt =====
-- Calls on the control connections of a session, and the traffic limits.
use yatb.Control.{
  client, Session, Settings, count_send, ended, read, try_read, shows_site, write, is_client,
}
use yatb.Control.Locks.{
  Unlocks, read-try_read-Unlocks, LocksOut, within_limits, write_over_limit, write-Unlocks,
}
use yatb.Prelude.{
  ℕ, true, false, not, ◌||◌, [], ◌∷◌, ◌++◌, ◌≡◌, refl, pos, leb, ◌+◌, ◌*◌, ◌==◌, ◌⊎◌,
}
use yatb.Text.{codes, find, starts_with}
use yatb.Traffic.{Double, Counter, trafficcheck, gettotal, gigabytes, addsend}
use yatb.Traffic.{Calendar}
use yatb.Traffic.Check.{limit_reached, trafficcheck_lem}
use yatb.Transfer.{Line, called, room, arrived, control_write, control_loop, block}

-- Whole numbers, for `double`.
abbrev whole : Double
whole = record {
  Carrier = ℕ;
  of_nat = λ n. n;
  add = λ m n. m + n;
  mul = λ m n. m * n;
  equal = λ m n. m == n;
  at_least = λ m n. leb n m;
}

abbrev unused : Counter whole
unused = record { send = 0; recvd = 0 }

-- A gigabyte less three bytes was sent today.
abbrev almost : Counter whole
almost = record { send = 1073741821; recvd = 0 }

abbrev session : Session whole
session = record {
  locked = false;
  localcounter = unused;
  counters = record { total = almost; day = almost; week = almost; month = almost };
}

abbrev settings : Settings whole
settings = record {
  traffic_bnc = true;
  debug = false;
  site_ip = codes "(1,2,3,4";
  limits = record { day_limit = 1; week_limit = 0; month_limit = 0 };
}

abbrev tls : Line
tls = record { buffersize = 4096; retry_count = pos 5; ssl = true }

trafficcheck_lem_example :
    trafficcheck whole settings.limits session.counters
    ≡ not (
        limit_reached whole 1 almost
        || (limit_reached whole 0 almost || limit_reached whole 0 almost))
trafficcheck_lem_example = trafficcheck_lem whole settings.limits session.counters

read-try_read-Unlocks_example :
    Unlocks whole (read whole session tls client [] (arrived (codes "a\n") ∷ []))
    × Unlocks whole (try_read whole session tls client [] (arrived (codes "a\n") ∷ []))
read-try_read-Unlocks_example =
    read-try_read-Unlocks whole session tls client [] (arrived (codes "a\n") ∷ [])

write_over_limit_example :
    (t' : Session whole) × (write whole settings session tls client
        (codes "200\n")
        (called (room 99) ∷ called (room 99) ∷ [])
      ≡ ended 0 t' (codes "200\n" ++ codes "427 traffic limit reached\r\n") [])
    × LocksOut whole settings t'
unfolding shows_site find starts_with control_write control_loop block trafficcheck gettotal
    gigabytes count_send addsend
write_over_limit_example =
    write_over_limit whole settings session refl tls (codes "200\n") (codes "200\n")
      (codes "427 traffic limit reached\r\n") true (called (room 99) ∷ called (room 99) ∷ [])
      (called (room 99) ∷ []) [] refl refl refl refl

write-Unlocks_example :
    Unlocks whole (write whole settings session tls client (codes "2") (called (room 99) ∷ []))
    ⊎ (shows_site whole settings client (codes "2") ≡ true)
    ⊎ ((is_client client ≡ true) × (within_limits whole settings session refl (codes "2") ≡ false))
write-Unlocks_example =
    write-Unlocks whole settings session refl tls client (codes "2") (called (room 99) ∷ [])

-- The counters on the Sunday before.
abbrev calendar : Calendar whole
calendar = record {
  lastday = codes "Sun";
  lastweek = pos 24;
  lastmonth = codes "Nov";
  counters = session.counters;
}
