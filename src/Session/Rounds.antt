-- ===== src/Session/Rounds.antt =====
-- The rounds of `mainloop` keep the invariant of a session, and those of a user who is no admin leave the
-- globals alone.
use yatb.Prelude.{◌+◌, true, false, not, ◌&&◌, List, ◌≡◌, arith}
use yatb.Session.AdminKeeps.{AllHold, choose-Holds, guarded-Keeps, bnchelp-Keeps, bncinfo-Keeps}
use yatb.Session.Client.{
  early, middle, transfers, forward, logged_in_command, login_command, client_command, guard_all,
  admin_commands,
}
use yatb.Session.ClientKeeps.{
  Anywhere, User, Pass, idnt-Keeps, abor-Keeps, auth_tls-Keeps, auth_ssl-Keeps, prot_p-Keeps,
  prot_c-Keeps, type_is-Keeps, before_user-Keeps, before_pass-Keeps, pasv-Keeps, port-Keeps,
  quit-Keeps, cpsv-Keeps, sscn_set-Keeps, sscn_reply-Keeps, noop-Keeps, transfer-Keeps,
}
use yatb.Session.DataKeeps.{reply_pasv-Keeps, reply_port-Keeps}
use yatb.Session.Invariant.{Flags, flags, IsOrdered, Inv, tells}
use yatb.Session.Keeps.{Keeps, Holds, if-Holds, Holds-weaken}
use yatb.Session.Replies.{site_reply, is_pasv_reply, is_port_reply}
use yatb.Session.SiteKeeps.{
  First, Welcomed, reply_first-Keeps, reply_user-Keeps, reply_pass-Keeps, reply_other-Keeps,
}
use yatb.Session.State.{Host, State, Shared, Thread, Event}
use yatb.Text.{Bytes}

module _ ⦃h : Host⦄ where
  -- What is known of a state is more than what is claimed.
  pub unstaged :
      {S : Flags → Type 0} {G : Shared → Type 0} (th : Thread) (g : Shared) (es : List Event)
      → Inv S G th g es
      → Inv Anywhere G th g es
  unstaged th g es v = record {
    ordered = v.ordered;
    stage = tt;
    shared = v.shared;
    logged = v.logged;
  }

  pub staged :
      {S : Flags → Type 0} {G : Shared → Type 0} (t : State)
      → Inv Anywhere G t.thread t.shared t.events
      → S (flags t.thread)
      → Inv S G t.thread t.shared t.events
  staged t v s = record { ordered = v.ordered; stage = s; shared = v.shared; logged = v.logged }

  -- The commands behind the login: `chain` is what becomes of those of admins.
  forward-Keeps :
      {S : Flags → Type 0} {G : Shared → Type 0} {X : Type 0} (s : Bytes)
      → Keeps (Inv S G) X (forward s)
  forward-Keeps s = unfold forward in tells _ _

  middle-Holds :
      (G : Shared → Type 0) (X : Type 0) (g : Shared) (s : Bytes) (t : State)
      → Inv Pass G t.thread t.shared t.events
      → AllHold (Inv Pass G) X t (middle g s)
  middle-Holds G X g s t v =
      unfold middle in
      (
        (pasv-Keeps s).run t v,
        (
          (port-Keeps s).run t v,
          (
            (quit-Keeps s).run t v,
            (
              (guarded-Keeps s _ bnchelp-Keeps).run t v,
              (
                (guarded-Keeps s _ bncinfo-Keeps).run t v,
                (
                  (cpsv-Keeps s).run t v,
                  (
                    (sscn_set-Keeps true s).run t v,
                    (
                      (sscn_set-Keeps false s).run t v,
                      (
                        (sscn_reply-Keeps s).run t v,
                        (
                          (idnt-Keeps s).run t v,
                          ((idnt-Keeps s).run t v, (noop-Keeps.run t v, tt)),
                        ),
                      ),
                    ),
                  ),
                ),
              ),
            ),
          ),
        ),
      )

  transfers-Holds :
      (G : Shared → Type 0) (X : Type 0) (s : Bytes) (t : State)
      → Inv Pass G t.thread t.shared t.events
      → AllHold (Inv Pass G) X t (transfers s)
  transfers-Holds G X s t v =
      unfold transfers in
      (
        (transfer-Keeps _ false s).run t v,
        (
          (transfer-Keeps _ false s).run t v,
          ((transfer-Keeps _ true s).run t v, ((transfer-Keeps _ true s).run t v, tt)),
        ),
      )

  early-Holds :
      (G : Shared → Type 0) (X : Type 0) (s : Bytes) (t : State)
      → Inv Anywhere G t.thread t.shared t.events
      → AllHold (Inv Anywhere G) X t (early s)
  early-Holds G X s t v =
      unfold early in
      (
        (idnt-Keeps s).run t v,
        (
          abor-Keeps.run t v,
          (
            (auth_tls-Keeps s).run t v,
            (
              (auth_ssl-Keeps s).run t v,
              (
                (prot_p-Keeps s).run t v,
                (
                  (prot_c-Keeps s).run t v,
                  ((type_is-Keeps 1 s).run t v, ((type_is-Keeps 2 s).run t v, tt)),
                ),
              ),
            ),
          ),
        ),
      )

  module _ (G : Shared → Type 0) (X : Type 0) (s : Bytes) (t : State)
      (admin : Inv Pass G t.thread t.shared t.events
        → AllHold (Inv Pass G) X t (guard_all s (admin_commands t.shared s))) where
    logged_in_command-Holds :
        Inv Pass G t.thread t.shared t.events → Holds (Inv Pass G) X (logged_in_command s t)
    logged_in_command-Holds v =
        unfold logged_in_command in
        choose-Holds _ X t _ _ (middle-Holds G X t.shared s t v) (
          choose-Holds _ X t _ _ (admin v)
            (choose-Holds _ X t _ _ (transfers-Holds G X s t v) ((forward-Keeps s).run t v)))

    login_command-Holds :
        Inv Anywhere G t.thread t.shared t.events → Holds (Inv Anywhere G) X (login_command s t)
    login_command-Holds v =
        unfold login_command in
        if-Holds _ X t (not t.thread.gotusercmd) _ _ (λ u. (before_user-Keeps s).run t v)
          λ u.
            if-Holds _ X t (not t.thread.gotpasscmd) _ _
              (λ p.
                Holds-weaken (Inv User G) (Inv Anywhere G) X _ unstaged
                  ((before_pass-Keeps s).run t (staged t v (ground (arith, u)))))
              (λ p.
                Holds-weaken (Inv Pass G) (Inv Anywhere G) X _ unstaged
                  (logged_in_command-Holds (staged t v (ground (arith, p)))))

    -- A line of the client.
    pub client_command-Holds :
        Inv Anywhere G t.thread t.shared t.events → Holds (Inv Anywhere G) X (client_command s t)
    client_command-Holds v =
        unfold client_command in
        choose-Holds _ X t _ _ (early-Holds G X s t v) (login_command-Holds v)

  -- A data connection is answered behind the answer to the login.
  pasv-welcomed :
      (t : State)
      → IsOrdered (flags t.thread)
      → (t.thread.gotfirstcmd && not t.thread.gotusercmd) ≡ false
      → (t.thread.gotusercmd && not t.thread.gotpasscmd) ≡ false
      → (t.thread.gotusercmd && (t.thread.gotpasscmd && not t.thread.gotwelcomemsg)) ≡ false
      → is_pasv_reply t ≡ true
      → t.thread.gotwelcomemsg ≡ true
  unfolding is_pasv_reply
  pasv-welcomed t o a b c e = ground (arith, o, a, b, c, e)

  port-welcomed :
      (t : State)
      → IsOrdered (flags t.thread)
      → (t.thread.gotfirstcmd && not t.thread.gotusercmd) ≡ false
      → (t.thread.gotusercmd && not t.thread.gotpasscmd) ≡ false
      → (t.thread.gotusercmd && (t.thread.gotpasscmd && not t.thread.gotwelcomemsg)) ≡ false
      → is_port_reply t ≡ true
      → t.thread.gotwelcomemsg ≡ true
  unfolding is_port_reply
  port-welcomed t o a b c e = ground (arith, o, a, b, c, e)

  module _ (G : Shared → Type 0) (X : Type 0) (s : Bytes) (t : State)
      (more : (g : Shared) → G g → G (record g { nr_logins = g.nr_logins + 1 })) where
    -- A reply of the site.
    pub site_reply-Holds :
        Inv Anywhere G t.thread t.shared t.events → Holds (Inv Anywhere G) X (site_reply s t)
    site_reply-Holds v =
        unfold site_reply in
        if-Holds _ X t (t.thread.gotfirstcmd && not t.thread.gotusercmd) _ _
          (λ a.
            Holds-weaken (Inv First G) (Inv Anywhere G) X _ unstaged
              ((reply_first-Keeps s).run t (staged t v (ground (arith, a)))))
          λ a.
            if-Holds _ X t (t.thread.gotusercmd && not t.thread.gotpasscmd) _ _
              (λ b.
                Holds-weaken (Inv User G) (Inv Anywhere G) X _ unstaged
                  ((reply_user-Keeps s).run t (staged t v (ground (arith, b)))))
              λ b.
                if-Holds _ X t
                  (t.thread.gotusercmd && (t.thread.gotpasscmd && not t.thread.gotwelcomemsg)) _ _
                  (λ c.
                    Holds-weaken (Inv Pass G) (Inv Anywhere G) X _ unstaged
                      ((reply_pass-Keeps more s).run t (staged t v (ground (arith, c)))))
                  λ c.
                    if-Holds _ X t (is_pasv_reply t) _ _
                      (λ d. Holds-weaken (Inv Welcomed G) (Inv Anywhere G) X _ unstaged (
                        (reply_pasv-Keeps s).run t
                          (staged t v (pasv-welcomed t v.ordered a b c d))))
                      λ d.
                        if-Holds _ X t (is_port_reply t) _ _
                          (λ e. Holds-weaken (Inv Welcomed G) (Inv Anywhere G) X _ unstaged (
                            (reply_port-Keeps s).run t
                              (staged t v (port-welcomed t v.ordered a b c e))))
                          (λ e. (reply_other-Keeps s).run t v)
