-- ===== src/Session/Login.antt =====
-- What a login asks for where `enforce_tls` is set.
use yatb.Control.{Peer, client}
use yatb.Prelude.{
  Bool, true, false, ◌&&◌, ◌||◌, List, if◌then◌else◌, ◌≡◌, refl, inl, inr, Bool-cases, arith,
}
use yatb.Reply.{is_endline}
use yatb.Session.Keeps.{
  Keeps, Keeps-then, Keeps-if, Keeps-done, Keeps-call, Keeps-defined, Keeps-ensure, Keeps-write,
  Keeps-tell,
}
use yatb.Session.Leads.{HoldsTo, Leads, Leads-bind, Leads-get, Leads-if, Keeps-Leads}
use yatb.Session.LoginReplies.{reply_user, reply_user_checked}
use yatb.Session.Relink.{tryrelink}
use yatb.Session.Replies.{site_reply}
use yatb.Session.State.{Host, State, Shared, Thread, Event, Run, ◌>>◌, leave, set, tell, flag}
use yatb.Text.{Bytes, codes}

pub and_false : (b : Bool) → (b && false) ≡ false
and_false true = refl
and_false false = refl

-- The client uses TLS, or the session is one with the relink site, or waits to become that.
abbrev pub HasTlsOrRelinks : Thread → Type 0
HasTlsOrRelinks th = (th.usingssl || (th.relinked || th.awaits_pass)) ≡ true

module _ ⦃h : Host⦄ where
  site_reply-user :
      (s : Bytes) (t : State)
      → t.thread.gotusercmd ≡ true
      → t.thread.gotpasscmd ≡ false
      → site_reply s t ≡ reply_user s t
  unfolding site_reply
  site_reply-user s t u p = simp (u, p, and_false t.thread.gotfirstcmd)

  -- Nothing is asked where a session ends.
  abbrev pub Anything : Thread → Shared → List Event → Type 0
  Anything th g es = Unit {0}

  abbrev UsesTls : Thread → Shared → List Event → Type 0
  UsesTls th g es = th.usingssl ≡ true

  abbrev Secured : Thread → Shared → List Event → Type 0
  Secured th g es = HasTlsOrRelinks th

  pub any_tell : (peer : Peer) (s : Bytes) → Keeps Anything ⊥ (tell peer s)
  any_tell peer s = Keeps-tell (λ th g es q u p. p) peer s

  pub any : {A : Type 0} {m : Run A} → Keeps Anything ⊥ m → Leads Anything Anything Anything ⊥ m
  any k = Keeps-Leads k (λ t p. p) (λ t p. p)

  -- `tryrelink` where the client is still to send `PASS`.
  tryrelink-Leads : Leads Anything Anything Secured ⊥ (tryrelink true)
  tryrelink-Leads =
      unfold tryrelink in
      Leads-bind Anything (any (Keeps-ensure (Keeps-call _))) λ u. Leads-get λ t.
        Leads-bind Anything (any (Keeps-if _ Keeps-done (Keeps-ensure (Keeps-call _)))) λ u'.
          Leads-bind Anything (any (Keeps-call _)) λ ok.
            Leads-bind Anything
              (any (
                Keeps-if ok Keeps-done (
                  Keeps-if _ (Keeps-then (Keeps-write (λ th g es q w p. p) _ _) Keeps-done)
                    Keeps-done)))
              λ u''. Leads-bind Anything (any (any_tell _ _)) λ v. waits
    where
      waits : Leads Anything Anything Secured ⊥ (set (λ th. record th { awaits_pass = true }))
      waits = unfold set in record { run = λ t p. ground arith }

  module _ {Q : Thread → Shared → List Event → Type 0} where
    -- A session that is told something and ends.
    pub stops :
        (P : Thread → Shared → List Event → Type 0) (s : Bytes)
        → Leads Anything P Q ⊥ {A = Unit {0}} (tell client s >> leave)
    stops P s = record {
      run = λ t p.
          (Leads-bind {P = Anything} {Q = Q} Anything (any (any_tell client s))
              λ u. record { run = λ t' q. tt }).run
            t tt;
    }

  relinks : Leads Anything UsesTls Secured ⊥ (tryrelink true)
  relinks = record { run = λ t p. tryrelink-Leads.run t tt }

  reply_user_checked-Leads : (s : Bytes) → Leads Anything UsesTls Secured ⊥ (reply_user_checked s)
  reply_user_checked-Leads s =
      unfold reply_user_checked in
      Leads-bind UsesTls (Keeps-Leads (Keeps-defined (is_endline s)) (λ t p. tt) (λ t p. p))
        λ endline. Leads-get λ t.
          Leads-if _ (Leads-if (flag t.shared (codes "trytorelink")) relinks (stops UsesTls s)) (
            Keeps-Leads (Keeps-tell (λ th g es q u p. p) client s) (λ t' p. tt)
              (λ t' p. ground arith))

  -- With TLS.
  reply_user-Leads : (s : Bytes) → Leads Anything UsesTls Secured ⊥ (reply_user s)
  reply_user-Leads s =
      unfold reply_user in
      Leads-get λ t. Leads-if _ relinks (
        Leads-if _ (stops UsesTls _) (
          Leads-if _ (Keeps-Leads Keeps-done (λ t' p. tt) (λ t' p. ground arith))
            (reply_user_checked-Leads s)))

  -- Without it.
  reply_user_clear :
      (s : Bytes) (t : State)
      → flag t.shared (codes "enforce_tls") ≡ true
      → t.thread.usingssl ≡ false
      → flag t.shared (codes "use_ssl_exclude") ≡ false
      → reply_user s t
        ≡ (if flag t.shared (codes "relink_notls") && flag t.shared (codes "trytorelink")
              then tryrelink true
              else tell client (codes "427 Use AUTH TLS!\r\n") >> leave)
            t
  unfolding reply_user
  reply_user_clear s t e u x = simp (e, u, x)

  -- Where `enforce_tls` is set and `use_ssl_exclude` is not, and the site sends anything between `USER` and
  -- `PASS` of the client: the session goes on only if the client uses TLS, or if it is one with the relink
  -- site or waits for the password to become that. It never makes the program exit.
  pub site_reply-enforces_tls :
      (s : Bytes) (t : State)
      → t.thread.gotusercmd ≡ true
      → t.thread.gotpasscmd ≡ false
      → flag t.shared (codes "enforce_tls") ≡ true
      → flag t.shared (codes "use_ssl_exclude") ≡ false
      → HoldsTo (λ th g es. Unit {0}) (λ th g es. HasTlsOrRelinks th) ⊥ (site_reply s t)
  site_reply-enforces_tls s t u p e x =
      rw (site_reply-user s t u p) (elim (Bool-cases t.thread.usingssl) [
        | inl y ↦ (reply_user-Leads s).run t y
        | inr n ↦ rw (reply_user_clear s t e n x) (
            (Leads-if (flag t.shared (codes "relink_notls") && flag t.shared (codes "trytorelink"))
                tryrelink-Leads (stops Anything _)).run
              t tt)
      ])
