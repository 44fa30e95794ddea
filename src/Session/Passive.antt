-- ===== src/Session/Passive.antt =====
-- The reply of the site to a `PASV`: what the client gets to see of it.
use yatb.Address.{Parsed, parse_psv_command}
use yatb.Prelude.{
  true, false, ◌&&◌, List, [], ◌∷◌, ◌++◌, Option, none, some, ◌≡◌, refl, sym, ap, ◌∙◌, pos, inl,
  inr, Bool-cases, Option-cases, All, All-append, append-nil, append_assoc,
}
use yatb.Session.DataReplies.{
  limit_reached, make_room, pasv_started, start_thread, choose_port, caught, pasv_thread,
  reply_pasv, reset_datathread_vars,
}
use yatb.Session.Keeps.{
  Keeps, Keeps-bind, Keeps-then, Keeps-get, Keeps-if, Keeps-done, Keeps-leave, Keeps-call,
  Keeps-give, Keeps-ensure, Keeps-set,
}
use yatb.Session.Leads.{HoldsTo, Leads, Leads-bind, Keeps-Leads}
use yatb.Session.Login.{and_false}
use yatb.Session.Relink.{forget, join_thread_of, deletedatathread}
use yatb.Session.Replies.{site_reply, is_pasv_reply}
use yatb.Session.State.{
  Host, State, Shared, Thread, DataThread, Event, told, noticed, joined, started, secured, seen,
  set, flag,
}
use yatb.Text.{Bytes, codes}

-- What may happen at a reply: nothing is written to either side, but for the message at a traffic limit,
-- TLS is not begun, and a data thread is started only where the reply has an address.
abbrev pub Unheard : Bytes → Event → Type 0
Unheard s (told peer text) = ⊥
Unheard s noticed = Unit {0}
Unheard s joined = Unit {0}
Unheard s (started d) = (parse_psv_command s [] (pos 0)).ret ≡ true
Unheard s secured = ⊥

-- The events behind those before it.
abbrev pub AddsUnheard : Bytes → List Event → List Event → Type 0
AddsUnheard s es0 es = (more : List Event) × (es ≡ es0 ++ more) × All (Unheard s) more

AddsUnheard-snoc :
    (s : Bytes) (es0 es : List Event) (e : Event)
    → Unheard s e
    → AddsUnheard s es0 es
    → AddsUnheard s es0 (es ++ e ∷ [])
AddsUnheard-snoc s es0 es e u (more, h, a) = (
  more ++ e ∷ [],
  ap (λ x. x ++ e ∷ []) h ∙ append_assoc es0 more (e ∷ []),
  All-append (Unheard s) more (e ∷ []) a (u, tt),
)

-- The variables of the data connection are as for a new command.
abbrev pub IsReset : Thread → Type 0
IsReset th =
    (th.gotpasvcmd ≡ false)
    × (th.gotportcmd ≡ false)
    × (th.activecon ≡ false)
    × (th.cpsvcmd ≡ false)
    × (th.dirlisting ≡ false)
    × (th.directionset ≡ false)

module _ ⦃h : Host⦄ (s : Bytes) (es0 : List Event) where
  abbrev Quietly : Thread → Shared → List Event → Type 0
  Quietly th g es = AddsUnheard s es0 es

  Keeps-Unheard : (e : Event) → Unheard s e → Keeps Quietly ⊥ (seen e)
  Keeps-Unheard e u = unfold seen in record { run = λ t p. AddsUnheard-snoc s es0 t.events e u p }

  assigns : (f : Thread → Thread) → Keeps Quietly ⊥ (set f)
  assigns f = Keeps-set f λ th g es p. p

  join_thread_of-Keeps : (d : Option DataThread) → Keeps Quietly ⊥ (join_thread_of d)
  join_thread_of-Keeps none = unfold join_thread_of in Keeps-give true
  join_thread_of-Keeps (some d) =
      unfold join_thread_of forget in
      Keeps-bind (Keeps-call _)
        λ ok. Keeps-then (Keeps-Unheard joined tt) (Keeps-then (assigns _) (Keeps-give ok))

  limit_reached-Keeps : Keeps Quietly ⊥ limit_reached
  limit_reached-Keeps =
      unfold limit_reached in
      Keeps-then (Keeps-Unheard noticed tt) (record {
        run = λ t v.
            elim (Option-cases (h.notice (codes "427 traffic limit reached\r\n") t.world)) [
              | inl e ↦ rw e v
              | inr (world, e) ↦ rw e v
            ];
      })

  make_room-Keeps : Keeps Quietly ⊥ make_room
  make_room-Keeps =
      unfold make_room deletedatathread in
      Keeps-then (Keeps-ensure (Keeps-get λ t. join_thread_of-Keeps t.thread.datathread))
        (Keeps-get λ t. Keeps-if _ Keeps-done limit_reached-Keeps)

  start_thread-Keeps :
      (d : DataThread)
      → (parse_psv_command s [] (pos 0)).ret ≡ true
      → Keeps Quietly ⊥ (start_thread d)
  start_thread-Keeps d r =
      unfold start_thread in
      Keeps-bind (Keeps-call _)
        λ ok. Keeps-if ok (Keeps-then (Keeps-Unheard (started d) r) (assigns _)) (assigns _)

  choose_port-Keeps : (passive : Parsed) → Keeps Quietly ⊥ (choose_port passive)
  choose_port-Keeps passive =
      unfold choose_port in
      record {
        run = λ t v.
            elim (Bool-cases (t.thread.relinked && flag t.shared (codes "use_port_range"))) [
              | inl e ↦ rw e v
              | inr e ↦ rw e v
            ];
      }

  caught-Keeps : {A : Type 0} (o : Option A) → Keeps Quietly ⊥ (caught o)
  caught-Keeps none = unfold caught in Keeps-leave
  caught-Keeps (some a) = unfold caught in Keeps-give a

  pasv_started-Keeps :
      (passive : Parsed)
      → (parse_psv_command s [] (pos 0)).ret ≡ true
      → Keeps Quietly ⊥ (pasv_started passive)
  pasv_started-Keeps passive r =
      unfold pasv_started in
      Keeps-bind (choose_port-Keeps passive)
        λ newport. Keeps-get λ t. Keeps-bind (caught-Keeps _) λ passivecmd. start_thread-Keeps _ r

  pasv_thread-Keeps : Keeps Quietly ⊥ (pasv_thread s)
  pasv_thread-Keeps =
      unfold pasv_thread in
      elim (Bool-cases (parse_psv_command s [] (pos 0)).ret) [
        | inl r ↦ rw r (pasv_started-Keeps _ r)
        | inr r ↦ rw r Keeps-done
      ]

  IsReset-Leads :
      Leads Quietly Quietly (λ th g es. Quietly th g es × IsReset th) ⊥ reset_datathread_vars
  IsReset-Leads =
      unfold reset_datathread_vars set in
      record { run = λ t p. (p, (refl, refl, refl, refl, refl, refl)) }

  reply_pasv-Leads :
      Leads Quietly Quietly (λ th g es. Quietly th g es × IsReset th) ⊥ (reply_pasv s)
  reply_pasv-Leads =
      unfold reply_pasv in
      Leads-bind Quietly (Keeps-Leads make_room-Keeps (λ t v. v) (λ t v. v)) λ u.
        Leads-bind Quietly (Keeps-Leads pasv_thread-Keeps (λ t v. v) (λ t v. v)) λ u'. IsReset-Leads

module _ ⦃h : Host⦄ where
  site_reply-pasv :
      (s : Bytes) (t : State)
      → t.thread.gotusercmd ≡ true
      → t.thread.gotpasscmd ≡ true
      → t.thread.gotwelcomemsg ≡ true
      → is_pasv_reply t ≡ true
      → site_reply s t ≡ reply_pasv s t
  unfolding site_reply
  site_reply-pasv s t u p w r = simp (u, p, w, r, and_false t.thread.gotfirstcmd)

  -- Whatever the site sends while a `PASV` or `CPSV` of a client waits for its reply, behind the answer to
  -- `PASS`, and whatever the host's calls do: neither the client nor the site is sent anything, but for the
  -- message at a traffic limit, so the client sees neither the site's address nor its errors; a data thread
  -- is started only if the reply has an address; the program does not exit; and where the session goes on,
  -- the variables of the data connection are reset.
  pub site_reply_unheard :
      (s : Bytes) (t : State)
      → t.thread.gotusercmd ≡ true
      → t.thread.gotpasscmd ≡ true
      → t.thread.gotwelcomemsg ≡ true
      → is_pasv_reply t ≡ true
      → HoldsTo
          (λ th g es. AddsUnheard s t.events es)
          (λ th g es. AddsUnheard s t.events es × IsReset th)
          ⊥
          (site_reply s t)
  site_reply_unheard s t u p w r =
      rw (site_reply-pasv s t u p w r)
        ((reply_pasv-Leads s t.events).run t ([], sym (append-nil t.events), tt))
