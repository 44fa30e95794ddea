-- ===== src/Session/Logins.antt =====
-- Which logins are counted where `enforce_tls` is set.
use yatb.Control.{client}
use yatb.Prelude.{
  ℕ, ◌+◌, if◌then◌else◌, Bool, true, false, not, ◌&&◌, ◌||◌, List, ◌≡◌, refl, ◌⊎◌, inl, inr,
  Bool-cases, arith,
}
use yatb.Reply.{is_endline}
use yatb.Session.Keeps.{
  Keeps, Keeps-bind, Keeps-then, Keeps-get, Keeps-if, Keeps-done, Keeps-leave, Keeps-call,
  Keeps-defined, Keeps-ensure, Keeps-set, Keeps-write, Keeps-tell,
}
use yatb.Session.Leads.{HoldsTo, Leads, Leads-bind, Leads-get, Leads-if, Keeps-Leads}
use yatb.Session.Login.{and_false, Anything, any, any_tell, stops}
use yatb.Session.LoginReplies.{
  reply_pass, login_answer, login_success, login_closed, login_failed, mentions,
}
use yatb.Session.Relink.{tryrelink, relink_done}
use yatb.Session.Replies.{site_reply}
use yatb.Session.State.{
  Host, State, Shared, Thread, Event, Run, ◌>>=◌, ◌>>◌, done, leave, get, set, set_shared, tell,
  flag, word,
}
use yatb.StringList.{is_in_list}
use yatb.Text.{Bytes, codes}

module _ ⦃h : Host⦄ where
  site_reply-pass :
      (s : Bytes) (t : State)
      → t.thread.gotusercmd ≡ true
      → t.thread.gotpasscmd ≡ true
      → t.thread.gotwelcomemsg ≡ false
      → site_reply s t ≡ reply_pass s t
  unfolding site_reply
  site_reply-pass s t u p w = simp (u, p, w, and_false t.thread.gotfirstcmd)

  -- Why a login may be counted: TLS is not enforced or it is used, or the list of users that need not use
  -- it is not in use, or the user is in that list.
  abbrev pub may_log_in : Thread → Shared → Bool
  may_log_in th g =
      not (flag g (codes "enforce_tls"))
      || (th.usingssl
          || (not (flag g (codes "use_ssl_exclude")) || is_in_list g.sslexcludelist th.username))

  abbrev pub Counts : ℕ → Thread → Shared → List Event → Type 0
  Counts n th g es = (g.nr_logins ≡ n) ⊎ (may_log_in th g ≡ true)

  module _ (n : ℕ) where
    abbrev Same : Thread → Shared → List Event → Type 0
    Same th g es = g.nr_logins ≡ n

    tells : (s : Bytes) → Keeps Same ⊥ (tell client s)
    tells s = Keeps-tell (λ th g es q u p. p) client s

    assigns : (f : Thread → Thread) → Keeps Same ⊥ (set f)
    assigns f = Keeps-set f λ th g es p. p

    relink_done-Keeps : Keeps Same ⊥ relink_done
    relink_done-Keeps = unfold relink_done in Keeps-get λ t. Keeps-then (tells _) (assigns _)

    tryrelink-Keeps : (state : Bool) → Keeps Same ⊥ (tryrelink state)
    tryrelink-Keeps state =
        unfold tryrelink in
        Keeps-then (Keeps-ensure (Keeps-call _)) (
          Keeps-get λ t. Keeps-then (Keeps-if _ Keeps-done (Keeps-ensure (Keeps-call _))) (
            Keeps-bind (Keeps-call _) λ ok.
              Keeps-then
                (Keeps-if ok Keeps-done (
                  Keeps-if _ (Keeps-then (Keeps-write (λ th g es q u p. p) _ _) Keeps-done)
                    Keeps-done))
                (Keeps-if state (Keeps-then (tells _) (assigns _)) relink_done-Keeps)))

    same : {A : Type 0} {m : Run A} → Keeps Same ⊥ m → Leads Anything Same (Counts n) ⊥ m
    same k = Keeps-Leads k (λ t p. tt) (λ t p. inl p)

    closed-Keeps : (s : Bytes) → Keeps Same ⊥ (login_closed s)
    closed-Keeps s =
        unfold login_closed in Keeps-then (assigns _) (Keeps-then (tells _) Keeps-leave)

    failed-Keeps : (s : Bytes) → Keeps Same ⊥ (login_failed s)
    failed-Keeps s =
        unfold login_failed in
        Keeps-then (assigns _) (Keeps-get λ t. Keeps-if _ (tryrelink-Keeps false) (tells _))

    -- The test behind a login.
    abbrev must_use_tls : State → Bool
    must_use_tls t =
        flag t.shared (codes "enforce_tls")
        && (not t.thread.usingssl
            && (flag t.shared (codes "use_ssl_exclude")
                && not (is_in_list t.shared.sslexcludelist t.thread.username)))

    tested :
        (t : State)
        → HoldsTo Anything (Counts n) ⊥ (
            (if must_use_tls t then tell client (codes "427 Use AUTH TLS!\r\n") >> leave else done)
              t)
    tested t = elim (Bool-cases (must_use_tls t)) [
      | inl e ↦ rw e ((stops Anything (codes "427 Use AUTH TLS!\r\n")).run t tt)
      | inr e ↦ rw e (inr (ground arith))
    ]

    tested-Leads : Leads Anything Anything (Counts n) ⊥ (
        get >>= λ t.
        if must_use_tls t then tell client (codes "427 Use AUTH TLS!\r\n") >> leave else done)
    tested-Leads = record { run = λ t p. tested t }

    counted :
        Leads Anything Anything Anything ⊥
          (set_shared (λ g. record g { nr_logins = g.nr_logins + 1 }))
    counted = unfold set_shared in record { run = λ t p. tt }

    login_success-Leads : (s : Bytes) → Leads Anything Anything (Counts n) ⊥ (login_success s)
    login_success-Leads s =
        unfold login_success in
        Leads-bind Anything (any (Keeps-set _ λ th g es p. p)) λ u.
          Leads-bind Anything counted
            λ u'. Leads-bind Anything (any (any_tell client s)) λ u''. tested-Leads

    success : (s : Bytes) → Leads Anything Same (Counts n) ⊥ (login_success s)
    success s = record { run = λ t p. (login_success-Leads s).run t tt }

    answer-Leads : (s : Bytes) → Leads Anything Same (Counts n) ⊥ (login_answer s)
    answer-Leads s =
        unfold login_answer in
        Leads-get λ t.
          Leads-if (mentions s (word t.shared (codes "user_login_success"))) (success s) (
            Leads-if (mentions s (word t.shared (codes "site_full"))) (same (closed-Keeps s)) (
              Leads-if (mentions s (word t.shared (codes "site_closed"))) (same (closed-Keeps s)) (
                Leads-if (mentions s (word t.shared (codes "max_numlogins")))
                  (same (closed-Keeps s)) (same (failed-Keeps s)))))

    reply_pass-Leads : (s : Bytes) → Leads Anything Same (Counts n) ⊥ (reply_pass s)
    reply_pass-Leads s =
        unfold reply_pass in
        Leads-bind Same (Keeps-Leads (Keeps-defined (is_endline s)) (λ t p. tt) (λ t p. p))
          λ endline. Leads-if endline (answer-Leads s) (same (tells s))

  -- Whatever the site sends between the client's `PASS` and its answer to it: where the session goes on and
  -- the number of logins has changed, TLS is not enforced or is used, or `use_ssl_exclude` is not set, or
  -- the user is in the list of those who need not use TLS. The program does not exit.
  pub site_reply-counts :
      (s : Bytes) (t : State)
      → t.thread.gotusercmd ≡ true
      → t.thread.gotpasscmd ≡ true
      → t.thread.gotwelcomemsg ≡ false
      → HoldsTo (λ th g es. Unit {0}) (Counts t.shared.nr_logins) ⊥ (site_reply s t)
  site_reply-counts s t u p w =
      rw (site_reply-pass s t u p w) ((reply_pass-Leads t.shared.nr_logins s).run t refl)
