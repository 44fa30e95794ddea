-- ===== src/Session/DataKeeps.antt =====
-- The replies that a data thread is started for: the former one is joined first, so that a session has one
-- at most.
use yatb.Address.{Parsed, parse_psv_command}
use yatb.Prelude.{
  Bool-cases, ◌&&◌, false, [], ◌∷◌, Option, none, some, refl, arith, Option-cases, inl, inr, ap,
  ◌∙◌, pos,
}
use yatb.Session.DataReplies.{
  limit_reached, make_room, pasv_started, port_refused, port_started, start_thread, choose_port,
  caught, pasv_thread, port_thread, reply_pasv, reply_port, reset_datathread_vars,
}
use yatb.Session.Invariant.{
  Flags, Inv, Free, Free-Inv, deletedatathread-Leads, threads, threads-append, tells, Keeps-flags,
  Keeps-free, Keeps-seen,
}
use yatb.Session.Keeps.{
  Keeps, Keeps-bind, Keeps-then, Keeps-get, Keeps-if, Keeps-done, Keeps-leave, Keeps-call,
  Keeps-defined, Keeps-give,
}
use yatb.Session.Leads.{Leads, Leads-bind, Leads-get, Leads-if, Keeps-Leads, Leads-Keeps}
use yatb.Session.SiteKeeps.{Welcomed}
use yatb.Session.State.{flag, Host, Shared, Run, ◌>>◌, DataThread, started, noticed, seen, set}
use yatb.Strings.{crcut}
use yatb.Text.{Bytes, codes}

module _ ⦃h : Host⦄ {G : Shared → Type 0} {X : Type 0} where
  limit_reached-Keeps : {S : Flags → Type 0} → Keeps (Inv S G) X limit_reached
  unfolding threads
  limit_reached-Keeps =
      unfold limit_reached in
      Keeps-then (Keeps-seen noticed λ b. refl) (record {
        run = λ t v.
            elim (Option-cases (h.notice (codes "427 traffic limit reached\r\n") t.world)) [
              | inl e ↦ rw e v
              | inr (world, e) ↦ rw e v
            ];
      })

  make_room-Leads : Leads (Inv Welcomed G) (Inv Welcomed G) (Inv (Free Welcomed) G) X make_room
  make_room-Leads =
      unfold make_room in
      Leads-bind (Inv (Free Welcomed) G)
        (Leads-bind _ (deletedatathread-Leads X λ f a. a)
          λ ok. Keeps-Leads (Keeps-if ok Keeps-done Keeps-leave) (Free-Inv X λ f a. a) (λ t v. v))
        λ u.
          Keeps-Leads (Keeps-get λ t. Keeps-if _ Keeps-done limit_reached-Keeps)
            (Free-Inv X λ f a. a) (λ t v. v)

  -- A thread is started where there is none.
  new_started-Leads :
      (d : DataThread)
      → Leads
          (Inv Welcomed G)
          (Inv (Free Welcomed) G)
          (Inv Welcomed G)
          X
          (seen (started d) >> set (λ th. record th { datathread = some d }))
  new_started-Leads d =
      unfold seen set threads in
      record {
        run = λ t v. record {
          ordered = ground (arith, v.ordered, v.stage);
          stage = v.stage.0;
          shared = v.shared;
          logged =
              threads-append false false t.events (started d ∷ []) (v.logged ∙ ap some v.stage.1);
        };
      }

  none_started-Leads :
      Leads
        (Inv Welcomed G)
        (Inv (Free Welcomed) G)
        (Inv Welcomed G)
        X
        (set (λ th. record th { datathread = none }))
  none_started-Leads =
      unfold set in
      record {
        run = λ t v. record {
          ordered = ground (arith, v.ordered);
          stage = v.stage.0;
          shared = v.shared;
          logged = v.logged ∙ ap some v.stage.1;
        };
      }

  start_thread-Leads :
      (d : DataThread)
      → Leads (Inv Welcomed G) (Inv (Free Welcomed) G) (Inv Welcomed G) X (start_thread d)
  start_thread-Leads d =
      unfold start_thread in
      Leads-bind _ (Keeps-Leads (Keeps-call _) (Free-Inv X λ f a. a) λ t v. v)
        λ ok. Leads-if ok (new_started-Leads d) none_started-Leads

  choose_port-Keeps :
      {S : Flags → Type 0} (passive : Parsed) → Keeps (Inv S G) X (choose_port passive)
  choose_port-Keeps passive =
      unfold choose_port in
      record {
        run = λ t v.
            elim (Bool-cases (t.thread.relinked && flag t.shared (codes "use_port_range"))) [
              | inl e ↦ rw e v
              | inr e ↦ rw e v
            ];
      }

  caught-Keeps : {S : Flags → Type 0} {A : Type 0} (o : Option A) → Keeps (Inv S G) X (caught o)
  caught-Keeps none = unfold caught in Keeps-leave
  caught-Keeps (some a) = unfold caught in Keeps-give a

  -- What leads on from no data thread, and what does not start one.
  goes_idle :
      {A : Type 0} {m : Run A}
      → Keeps (Inv (Free Welcomed) G) X m
      → Leads (Inv Welcomed G) (Inv (Free Welcomed) G) (Inv (Free Welcomed) G) X m
  goes_idle k = Keeps-Leads k (Free-Inv X λ f a. a) (λ t v. v)

  stays_idle :
      {A : Type 0} {m : Run A}
      → Keeps (Inv (Free Welcomed) G) X m
      → Leads (Inv Welcomed G) (Inv (Free Welcomed) G) (Inv Welcomed G) X m
  stays_idle k = Keeps-Leads k (Free-Inv X λ f a. a) (Free-Inv X λ f a. a)

  pasv_started-Leads :
      (passive : Parsed)
      → Leads (Inv Welcomed G) (Inv (Free Welcomed) G) (Inv Welcomed G) X (pasv_started passive)
  pasv_started-Leads passive =
      unfold pasv_started in
      Leads-bind _ (goes_idle (choose_port-Keeps passive)) λ newport.
        Leads-get λ t. Leads-bind _ (goes_idle (caught-Keeps _)) λ passivecmd. start_thread-Leads _

  pasv_thread-Leads :
      (s : Bytes)
      → Leads (Inv Welcomed G) (Inv (Free Welcomed) G) (Inv Welcomed G) X (pasv_thread s)
  pasv_thread-Leads s =
      unfold pasv_thread in
      Leads-if (parse_psv_command s [] (pos 0)).ret (pasv_started-Leads _) (stays_idle Keeps-done)

  port_refused-Keeps : {S : Flags → Type 0} → Keeps (Inv S G) X port_refused
  port_refused-Keeps =
      unfold port_refused in
      Keeps-get λ t. Keeps-bind (Keeps-defined (crcut t.thread.portcmd)) λ cut. tells _ _

  port_started-Leads :
      (passive active : Parsed)
      → Leads
          (Inv Welcomed G)
          (Inv (Free Welcomed) G)
          (Inv Welcomed G)
          X
          (port_started passive active)
  port_started-Leads passive active =
      unfold port_started in
      Leads-get
        λ t. Leads-bind _ (start_thread-Leads _) λ u. Keeps-Leads (tells _ _) (λ t v. v) (λ t v. v)

  port_thread-Leads :
      (s : Bytes)
      → Leads (Inv Welcomed G) (Inv (Free Welcomed) G) (Inv Welcomed G) X (port_thread s)
  port_thread-Leads s =
      unfold port_thread in
      Leads-get λ t.
        Leads-if _ (stays_idle port_refused-Keeps)
          (Leads-if _ (port_started-Leads _ _) (stays_idle Keeps-done))

  reset-Keeps : Keeps (Inv Welcomed G) X reset_datathread_vars
  reset-Keeps = unfold reset_datathread_vars in Keeps-flags _ (λ th o a. ground arith) (λ th. refl)

  -- The reply to a `PASV` of the client.
  pub reply_pasv-Keeps : (s : Bytes) → Keeps (Inv Welcomed G) X (reply_pasv s)
  reply_pasv-Keeps s =
      unfold reply_pasv in
      Leads-Keeps (
        Leads-bind _ make_room-Leads λ u.
          Leads-bind _ (pasv_thread-Leads s) λ u'. Keeps-Leads reset-Keeps (λ t v. v) (λ t v. v))

  -- The reply to the `PASV` for a `PORT` of the client.
  pub reply_port-Keeps : (s : Bytes) → Keeps (Inv Welcomed G) X (reply_port s)
  reply_port-Keeps s =
      unfold reply_port in
      Keeps-then (Keeps-free _ λ th. refl) (
        Leads-Keeps (
          Leads-bind _ make_room-Leads λ u.
            Leads-bind _ (port_thread-Leads s) λ u'. Keeps-Leads reset-Keeps (λ t v. v) (λ t v. v)))
