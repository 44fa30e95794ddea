-- ===== src/Session/SiteKeeps.antt =====
-- The branches for a reply of the site keep the invariant of a session, and leave the globals alone but
-- for the number of logins.
use yatb.Prelude.{◌+◌, Bool, true, false, Option, none, some, ◌≡◌, refl, arith, ℤ}
use yatb.Reply.{is_endline}
use yatb.Session.ClientKeeps.{User, Pass}
use yatb.Session.Invariant.{
  Flags, flags, IsOrdered, Inv, threads, Inv-Quiet, tells, Keeps-flags, Keeps-free, Keeps-seen,
  Keeps-shared,
}
use yatb.Session.Keeps.{
  Keeps, Keeps-bind, Keeps-then, Keeps-get, Keeps-if, Keeps-done, Keeps-leave, Keeps-ensure,
  Keeps-call, Keeps-defined, Keeps-write,
}
use yatb.Session.LoginReplies.{
  mentions, reply_first, reply_user, reply_user_checked, reply_pass, login_answer, login_success,
  login_closed, login_failed,
}
use yatb.Session.Relink.{relink_done, tryrelink, wait_pass, trytls}
use yatb.Session.Replies.{send_admin_msg, after_code, pass_on, reply_other}
use yatb.Session.State.{word, Host, Shared}
use yatb.Text.{Bytes, codes}

abbrev pub First : Flags → Type 0
First f = f.first ≡ true

abbrev pub Welcomed : Flags → Type 0
Welcomed f = f.welcomed ≡ true

-- The flags as `tryrelink` leaves them.
abbrev pub as_relinked : Flags → Flags
as_relinked f = record f {
  user = true;
  pass = true;
  welcomed = true;
  relinked = true;
  awaits = false;
}

module _ ⦃h : Host⦄ {G : Shared → Type 0} {X : Type 0} where
  module _ {S : Flags → Type 0} (up : (f : Flags) → IsOrdered f → S f → f.user ≡ true)
      (stays : (f : Flags) (b : Bool) → S f → S (record f { awaits = b }) × S (as_relinked f)) where
    pub relink_done-Keeps : Keeps (Inv S G) X relink_done
    relink_done-Keeps =
        unfold relink_done in
        Keeps-get λ t. Keeps-then (tells _ _) (
          Keeps-flags _ (λ th o a. (ground (arith, up (flags th) o a), (stays (flags th) true a).1))
            (λ th. refl))

    pub tryrelink-Keeps : (state : Bool) → Keeps (Inv S G) X (tryrelink state)
    tryrelink-Keeps state =
        unfold tryrelink in
        Keeps-then (Keeps-ensure (Keeps-call _)) (
          Keeps-get λ t. Keeps-then (Keeps-if _ Keeps-done (Keeps-ensure (Keeps-call _))) (
            Keeps-bind (Keeps-call _) λ ok.
              Keeps-then
                (Keeps-if ok Keeps-done
                  (Keeps-if _ (Keeps-then (Keeps-write (Inv-Quiet S G) _ _) Keeps-done) Keeps-done))
                (Keeps-if state
                  (Keeps-then (tells _ _) (
                    Keeps-flags _
                      (λ th o a. (ground (arith, up (flags th) o a), (stays (flags th) true a).0))
                      (λ th. refl)))
                  relink_done-Keeps)))

    pub wait_pass-Keeps : (tmp : Bytes) → Keeps (Inv S G) X (wait_pass tmp)
    wait_pass-Keeps tmp = unfold wait_pass in Keeps-if _ relink_done-Keeps (tells _ _)

  pub trytls-Keeps : Keeps (Inv First G) X trytls
  unfolding threads
  trytls-Keeps =
      unfold trytls in
      Keeps-then (Keeps-free _ λ th. refl) (
        Keeps-then (Keeps-ensure (Keeps-call _)) (
          Keeps-then (Keeps-ensure (Keeps-call _)) (
            Keeps-then (Keeps-seen _ λ b. refl)
              (Keeps-flags _ (λ th o a. ground arith) (λ th. refl)))))

  pub reply_first-Keeps : (s : Bytes) → Keeps (Inv First G) X (reply_first s)
  reply_first-Keeps s =
      unfold reply_first in
      Keeps-get λ t. Keeps-if _ (Keeps-then (tells _ _) trytls-Keeps) (
        Keeps-if _ (Keeps-then (Keeps-then (Keeps-free _ λ th. refl) (tells _ _)) trytls-Keeps)
          (tells _ _))

  reply_user_checked-Keeps : (s : Bytes) → Keeps (Inv User G) X (reply_user_checked s)
  reply_user_checked-Keeps s =
      unfold reply_user_checked in
      Keeps-bind (Keeps-defined (is_endline s)) λ endline. Keeps-get λ t.
        Keeps-if _
          (Keeps-if _ (tryrelink-Keeps (λ f o a. a) (λ f b a. (a, refl)) true)
            (Keeps-then (tells _ _) Keeps-leave))
          (tells _ _)

  pub reply_user-Keeps : (s : Bytes) → Keeps (Inv User G) X (reply_user s)
  reply_user-Keeps s =
      unfold reply_user in
      Keeps-get λ t. Keeps-if _ (tryrelink-Keeps (λ f o a. a) (λ f b a. (a, refl)) true) (
        Keeps-if _ (Keeps-then (tells _ _) Keeps-leave)
          (Keeps-if _ Keeps-done (reply_user_checked-Keeps s)))

  module _ (more : (g : Shared) → G g → G (record g { nr_logins = g.nr_logins + 1 })) where
    login_success-Keeps : (s : Bytes) → Keeps (Inv Pass G) X (login_success s)
    login_success-Keeps s =
        unfold login_success in
        Keeps-then (Keeps-flags _ (λ th o a. ground arith) (λ th. refl)) (
          Keeps-then (Keeps-shared _ more) (
            Keeps-then (tells _ _)
              (Keeps-get λ t. Keeps-if _ (Keeps-then (tells _ _) Keeps-leave) Keeps-done)))

    login_closed-Keeps : (s : Bytes) → Keeps (Inv Pass G) X (login_closed s)
    login_closed-Keeps s =
        unfold login_closed in
        Keeps-then (Keeps-flags _ (λ th o a. ground arith) (λ th. refl))
          (Keeps-then (tells _ _) Keeps-leave)

    login_failed-Keeps : (s : Bytes) → Keeps (Inv Pass G) X (login_failed s)
    login_failed-Keeps s =
        unfold login_failed in
        Keeps-then (Keeps-flags _ (λ th o a. ground arith) (λ th. refl)) (
          Keeps-get λ t.
            Keeps-if _ (tryrelink-Keeps (λ f o a. o.pass_user a) (λ f b a. (a, refl)) false)
              (tells _ _))

    login_answer-Keeps : (s : Bytes) → Keeps (Inv Pass G) X (login_answer s)
    login_answer-Keeps s =
        unfold login_answer in
        Keeps-get λ t.
          Keeps-if (mentions s (word t.shared (codes "user_login_success"))) (login_success-Keeps s)
            (Keeps-if (mentions s (word t.shared (codes "site_full"))) (login_closed-Keeps s) (
              Keeps-if (mentions s (word t.shared (codes "site_closed"))) (login_closed-Keeps s) (
                Keeps-if (mentions s (word t.shared (codes "max_numlogins"))) (login_closed-Keeps s)
                  (login_failed-Keeps s))))

    pub reply_pass-Keeps : (s : Bytes) → Keeps (Inv Pass G) X (reply_pass s)
    reply_pass-Keeps s =
        unfold reply_pass in
        Keeps-bind (Keeps-defined (is_endline s))
          λ endline. Keeps-if endline (login_answer-Keeps s) (tells _ _)

  module _ {S : Flags → Type 0} where
    send_admin_msg-Keeps : Keeps (Inv S G) X send_admin_msg
    send_admin_msg-Keeps =
        unfold send_admin_msg in
        Keeps-get λ t. Keeps-if _ Keeps-done (Keeps-then (tells _ _) (Keeps-free _ λ th. refl))

    after_code-Keeps : (o : Option (Bool × ℤ)) → Keeps (Inv S G) X (after_code o)
    after_code-Keeps none = unfold after_code in record { run = λ t v. tt }
    after_code-Keeps (some (false, code)) = unfold after_code in record { run = λ t v. tt }
    after_code-Keeps (some (true, code)) =
        unfold after_code in Keeps-if _ send_admin_msg-Keeps Keeps-done

    pass_on-Keeps : (s : Bytes) → Keeps (Inv S G) X (pass_on s)
    pass_on-Keeps s =
        unfold pass_on in
        Keeps-then (tells _ _) (
          Keeps-bind (Keeps-defined (is_endline s))
            λ endline. Keeps-if endline (after_code-Keeps _) Keeps-done)

    pub reply_other-Keeps : (s : Bytes) → Keeps (Inv S G) X (reply_other s)
    reply_other-Keeps s =
        unfold reply_other in
        Keeps-get λ t.
          Keeps-if t.thread.sendadminmsg
            (Keeps-bind (Keeps-defined (is_endline s))
              λ endline. Keeps-if _ (Keeps-free _ λ th. refl) (pass_on-Keeps s))
            (pass_on-Keeps s)
