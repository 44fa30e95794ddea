-- ===== src/Session/Relinked.antt =====
-- What `tryrelink` does where it does not end the session.
use yatb.Control.{client}
use yatb.Prelude.{true, false, List, [], ◌∷◌, ◌++◌, ◌≡◌}
use yatb.Session.Leads.{Leads}
use yatb.Session.State.{Host, State, Shared, Thread, Event, told}
use yatb.Text.{codes}

-- The session is one with the relink site and behind its login, and the last thing that was done is to tell
-- the client that it is logged in.
abbrev pub IsWelcomed : Thread → List Event → Type 0
IsWelcomed th es =
    (th.relinked ≡ true)
    × (th.gotusercmd ≡ true)
    × (th.gotpasscmd ≡ true)
    × (th.gotwelcomemsg ≡ true)
    × (th.awaits_pass ≡ false)
    × ((earlier : List Event) × (es
          ≡ earlier
            ++ told client (codes "230 user " ++ (th.username ++ codes " logged in.\r\n")) ∷ []))

module _ ⦃h : Host⦄ where
  abbrev Welcomed : Thread → Shared → List Event → Type 0
  Welcomed th g es = IsWelcomed th es
