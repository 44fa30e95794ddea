-- ===== src/Session/Whole.antt =====
-- The whole of `mainloop`: its opening and all of its rounds keep the invariant.
use yatb.Control.{Peer, client, site}
use yatb.Prelude.{ℕ, ◌+◌, Bool, true, false, List, [], ◌∷◌, Option, none, some, ◌≡◌, refl, arith}
use yatb.Session.Admin.{is_admin}
use yatb.Session.AdminKeeps.{
  AnyShared, AllHold, AllKeep-Holds, guard_all-refused, guard_all-Keeps, admin_commands-Keeps,
}
use yatb.Session.Client.{guard_all, admin_commands}
use yatb.Session.ClientKeeps.{Anywhere, Pass}
use yatb.Session.Invariant.{Flags, Inv, threads, Inv-Quiet, tells, Keeps-free}
use yatb.Session.Keeps.{
  Keeps, Holds, if-Holds, Holds-weaken, Keeps-bind, Keeps-then, Keeps-get, Keeps-if, Keeps-done,
  Keeps-give, Keeps-leave, Keeps-ensure, Keeps-call, Keeps-defined, Keeps-write, returns-Holds,
}
use yatb.Session.Mainloop.{
  Input, not_yet, failed, got, select_error, from_site, from_client, new_control_thread,
  check_entry, ident_user, connect_to_site, send_idnt, found_user, ask_ident, read, set_clientip,
  pass_idnt, show_welcome, read_idnt, welcome, opening, wait_round, main_round, round, rounds,
  mainloop,
}
use yatb.Session.Relink.{wait_pass}
use yatb.Session.Rounds.{staged, unstaged, client_command-Holds, site_reply-Holds}
use yatb.Session.SiteKeeps.{wait_pass-Keeps}
use yatb.Session.State.{Host, State, Shared, Thread, Event, flag}
use yatb.Strings.{crcut}
use yatb.Text.{Bytes, codes}

module _ ⦃h : Host⦄ where
  abbrev Waits : Flags → Type 0
  Waits f = f.user ≡ true

  wait_pass-Holds :
      (G : Shared → Type 0) (X : Type 0) (s : Bytes) (t : State)
      → t.thread.awaits_pass ≡ true
      → Inv Anywhere G t.thread t.shared t.events
      → Holds (Inv Anywhere G) X (wait_pass s t)
  wait_pass-Holds G X s t e v = Holds-weaken (Inv Waits G) (Inv Anywhere G) X _ unstaged (
      (wait_pass-Keeps (λ f o a. a) (λ f b a. (a, refl)) s).run t
        (staged t v (v.ordered.awaits_user e)))

  wait_round-Holds :
      (G : Shared → Type 0) (X : Type 0) (i : Input) (t : State)
      → t.thread.awaits_pass ≡ true
      → Inv Anywhere G t.thread t.shared t.events
      → Holds (Inv Anywhere G) X (wait_round i t)
  unfolding wait_round
  wait_round-Holds G X select_error t e v = v
  wait_round-Holds G X (from_site r) t e v = v
  wait_round-Holds G X (from_client not_yet) t e v = wait_pass-Holds G X [] t e v
  wait_round-Holds G X (from_client failed) t e v = v
  wait_round-Holds G X (from_client (got s)) t e v = wait_pass-Holds G X s t e v

  module _ (G : Shared → Type 0) (X : Type 0)
      (more : (g : Shared) → G g → G (record g { nr_logins = g.nr_logins + 1 })) where
    main_round-Holds :
        (i : Input) (t : State)
        → ((s : Bytes)
            → Inv Pass G t.thread t.shared t.events
            → AllHold (Inv Pass G) X t (guard_all s (admin_commands t.shared s)))
        → Inv Anywhere G t.thread t.shared t.events
        → Holds (Inv Anywhere G) X (main_round i t)
    unfolding main_round
    main_round-Holds select_error t admin v = v
    main_round-Holds (from_site not_yet) t admin v = v
    main_round-Holds (from_site failed) t admin v = v
    main_round-Holds (from_site (got s)) t admin v = site_reply-Holds G X s t more v
    main_round-Holds (from_client not_yet) t admin v = v
    main_round-Holds (from_client failed) t admin v = v
    main_round-Holds (from_client (got s)) t admin v = client_command-Holds G X s t (admin s) v

    -- A round, if what becomes of the commands of admins is known.
    pub round-Holds :
        (i : Input) (t : State)
        → ((s : Bytes)
            → Inv Pass G t.thread t.shared t.events
            → AllHold (Inv Pass G) X t (guard_all s (admin_commands t.shared s)))
        → Inv Anywhere G t.thread t.shared t.events
        → Holds (Inv Anywhere G) X (round i t)
    round-Holds i t admin v =
        unfold round in
        if-Holds _ X t t.thread.awaits_pass _ _ (λ e. wait_round-Holds G X i t e v)
          (λ e. main_round-Holds i t admin v)

  -- A round, with nothing said of the globals: `X` is claimed of an exit.
  round-Keeps : (X : Type 0) (x : X) (i : Input) → Keeps (Inv Anywhere AnyShared) X (round i)
  round-Keeps X x i = record {
    run = λ t v.
        round-Holds AnyShared X (λ g a. tt) i t
          (λ s w.
            AllKeep-Holds _ X t _ w
              (guard_all-Keeps Pass AnyShared X s _ (admin_commands-Keeps Pass X t.shared s x)))
          v;
  }

  rounds-Keeps :
      (X : Type 0) (x : X) (is : List Input) → Keeps (Inv Anywhere AnyShared) X (rounds is)
  unfolding rounds
  rounds-Keeps X x [] = Keeps-done
  rounds-Keeps X x (i ∷ is) = Keeps-then (round-Keeps X x i) (rounds-Keeps X x is)

  module _ {G : Shared → Type 0} {X : Type 0} {S : Flags → Type 0} where
    check_entry-Keeps : (b : Bool) → Keeps (Inv S G) X (check_entry b)
    check_entry-Keeps b = unfold check_entry in Keeps-get λ t. Keeps-if _ Keeps-leave Keeps-done

    found_user-Keeps : (o : Option Bytes) → Keeps (Inv S G) X (found_user o)
    found_user-Keeps (some user) = unfold found_user in Keeps-give user
    found_user-Keeps none =
        unfold found_user in
        Keeps-get λ t. Keeps-if (flag t.shared (codes "enforce_ident")) Keeps-leave (Keeps-give _)

    ask_ident-Keeps : Keeps (Inv S G) X ask_ident
    ask_ident-Keeps =
        unfold ask_ident in
        record { run = λ t v. returns-Holds (Inv S G) X t (h.ident t.thread.clientip t.world) v }

    read-Keeps : (peer : Peer) → Keeps (Inv S G) X (read peer)
    read-Keeps peer =
        unfold read in record { run = λ t v. returns-Holds (Inv S G) X t (h.read peer t.world) v }

    ident_user-Keeps : (b : Bool) → Keeps (Inv S G) X (ident_user b)
    ident_user-Keeps b =
        unfold ident_user in
        Keeps-get λ t. Keeps-if _ (Keeps-bind ask_ident-Keeps found_user-Keeps) (Keeps-give _)

    connect_to_site-Keeps : Keeps (Inv S G) X connect_to_site
    connect_to_site-Keeps =
        unfold connect_to_site in
        Keeps-then (Keeps-ensure (Keeps-call _)) (
          Keeps-get λ t. Keeps-then (Keeps-if _ Keeps-done (Keeps-ensure (Keeps-call _))) (
            Keeps-bind (Keeps-call _) λ ok.
              Keeps-if ok Keeps-done (
                Keeps-if _ (Keeps-then (Keeps-write (Inv-Quiet S G) _ _) Keeps-leave) Keeps-leave)))

    set_clientip-Keeps : (cut : Bytes) (o : Option ℕ) → Keeps (Inv S G) X (set_clientip cut o)
    set_clientip-Keeps cut none = unfold set_clientip in Keeps-leave
    set_clientip-Keeps cut (some i) = unfold set_clientip in Keeps-free _ λ th. refl

    pass_idnt-Keeps : (o : Option Bytes) → Keeps (Inv S G) X (pass_idnt o)
    pass_idnt-Keeps none = unfold pass_idnt in Keeps-leave
    pass_idnt-Keeps (some idndtcmd) =
        unfold pass_idnt in
        Keeps-then (tells _ _)
          (Keeps-bind (Keeps-defined (crcut idndtcmd)) λ cut. set_clientip-Keeps cut _)

    send_idnt-Keeps : (b : Bool) (user : Bytes) → Keeps (Inv S G) X (send_idnt b user)
    send_idnt-Keeps b user =
        unfold send_idnt read_idnt in
        Keeps-get λ t. Keeps-then (Keeps-if _ (tells _ _) Keeps-done) (
          Keeps-if _ (tells _ _)
            (Keeps-if _ (Keeps-bind (read-Keeps client) pass_idnt-Keeps) Keeps-done))

    show_welcome-Keeps : (o : Option Bytes) → Keeps (Inv S G) X (show_welcome o)
    show_welcome-Keeps none = unfold show_welcome in Keeps-leave
    show_welcome-Keeps (some s) = unfold show_welcome in Keeps-get λ t. tells _ _

    opening-Keeps : (b : Bool) → Keeps (Inv S G) X (opening b)
    opening-Keeps b =
        unfold opening welcome in
        Keeps-then (check_entry-Keeps b) (
          Keeps-bind (ident_user-Keeps b) λ user. Keeps-then (Keeps-free _ λ th. refl) (
            Keeps-then connect_to_site-Keeps (
              Keeps-then (send_idnt-Keeps b user) (
                Keeps-then (Keeps-bind (read-Keeps site) show_welcome-Keeps)
                  (Keeps-free _ λ th. refl)))))

  mainloop-Keeps :
      (b : Bool) (is : List Input) → Keeps (Inv Anywhere AnyShared) (Unit {0}) (mainloop b is)
  mainloop-Keeps b is = unfold mainloop in Keeps-then (opening-Keeps b) (rounds-Keeps _ tt is)

  -- What holds of a session: the flags of the login come in their order, and in what it did every data
  -- thread was joined before the next one was started.
  abbrev pub IsValid : Thread → Shared → List Event → Type 0
  IsValid = Inv Anywhere AnyShared

  -- A session of `mainloop`, from its constructor on, with whatever its reads find: wherever it stops, waits
  -- or goes on, its flags are in order (a password behind a user, an answer behind a password, a relinked
  -- session and a data thread behind an answer, TLS behind a first command), and every data thread was joined
  -- before the next one was started.
  pub mainloop-IsValid :
      (cip : Bytes) (using_entry : Bool) (is : List Input) (g : Shared) (world : h.World)
      → Holds IsValid (Unit {0}) (
          mainloop using_entry is
            (record { thread = new_control_thread cip; shared = g; events = []; world = world }))
  mainloop-IsValid cip using_entry is g world = (mainloop-Keeps using_entry is).run _ (
      unfold new_control_thread threads in
      record { ordered = ground arith; stage = tt; shared = tt; logged = refl })

  -- The globals but for the number of logins.
  abbrev pub SameGlobals : Shared → Shared → Type 0
  SameGlobals g0 g = record g { nr_logins = 0 } ≡ record g0 { nr_logins = 0 }

  -- A round of a session in a valid state whose user is no admin, or that is relinked, whatever is read:
  -- the name lists, the white lists, the configuration, the files and all other globals but the number of
  -- logins are what they were, and the program does not exit.
  pub round_not_admin :
      (i : Input) (t : State)
      → IsValid t.thread t.shared t.events
      → is_admin t ≡ false
      → Holds (λ th g es. SameGlobals t.shared g) ⊥ (round i t)
  round_not_admin i t v e =
      Holds-weaken (Inv Anywhere (SameGlobals t.shared)) _ ⊥ _ (λ th g es w. w.shared)
        (round-Holds (SameGlobals t.shared) ⊥ (λ g a. a) i t (λ s w. guard_all-refused ⊥ s _ t e w)
          (record { ordered = v.ordered; stage = tt; shared = refl; logged = v.logged }))
