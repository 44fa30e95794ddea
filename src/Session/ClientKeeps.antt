-- ===== src/Session/ClientKeeps.antt =====
-- The branches for a line of the client keep the invariant of a session, and those that are not for
-- admins leave the globals alone.
use yatb.Prelude.{ℕ, Bool, true, Option, none, some, ◌≡◌, refl, arith}
use yatb.Session.Commands.{
  drop_datathread, idnt, abor, auth_tls, auth_ssl, prot_p, prot_c, type_is, set_user, before_user,
  before_pass, pasv, port, quit, cpsv, sscn_reply, sscn_set, noop, transfer,
}
use yatb.Session.Invariant.{Flags, Inv, tells, Keeps-flags, Keeps-free, deletedatathread-Keeps}
use yatb.Session.Keeps.{
  Keeps, Keeps-then, Keeps-get, Keeps-if, Keeps-done, Keeps-leave, Keeps-ensure,
}
use yatb.Session.State.{Host, Shared}
use yatb.Text.{Bytes}

abbrev pub Anywhere : Flags → Type 0
Anywhere f = Unit {0}

abbrev pub User : Flags → Type 0
User f = f.user ≡ true

abbrev pub Pass : Flags → Type 0
Pass f = f.pass ≡ true

module _ ⦃h : Host⦄ {G : Shared → Type 0} {X : Type 0} where
  module _ {S : Flags → Type 0} where
    pub idnt-Keeps : (s : Bytes) → Keeps (Inv S G) X (idnt s)
    idnt-Keeps s = unfold idnt in tells _ _

    pub prot_p-Keeps : (s : Bytes) → Keeps (Inv S G) X (prot_p s)
    prot_p-Keeps s =
        unfold prot_p in
        Keeps-then (Keeps-free _ λ th. refl) (Keeps-get λ t. Keeps-if _ (tells _ _) (tells _ _))

    pub prot_c-Keeps : (s : Bytes) → Keeps (Inv S G) X (prot_c s)
    prot_c-Keeps s =
        unfold prot_c in
        Keeps-then (Keeps-free _ λ th. refl) (Keeps-get λ t. Keeps-if _ (tells _ _) (tells _ _))

    pub type_is-Keeps : (n : ℕ) (s : Bytes) → Keeps (Inv S G) X (type_is n s)
    type_is-Keeps n s = unfold type_is in Keeps-then (Keeps-free _ λ th. refl) (tells _ _)

    pub quit-Keeps : (s : Bytes) → Keeps (Inv S G) X (quit s)
    quit-Keeps s =
        unfold quit in Keeps-get λ t. Keeps-then (Keeps-if _ (tells _ _) Keeps-done) (tells _ _)

    pub sscn_reply-Keeps : (s : Bytes) → Keeps (Inv S G) X (sscn_reply s)
    sscn_reply-Keeps s = unfold sscn_reply in Keeps-get λ t. Keeps-if _ (tells _ _) (tells _ _)

    pub sscn_set-Keeps : (on : Bool) (s : Bytes) → Keeps (Inv S G) X (sscn_set on s)
    sscn_set-Keeps on s =
        unfold sscn_set in Keeps-then (Keeps-free _ λ th. refl) (sscn_reply-Keeps s)

    pub noop-Keeps : Keeps (Inv S G) X noop
    noop-Keeps = unfold noop in tells _ _

    pub transfer-Keeps :
        (way : Bytes) (listing : Bool) (s : Bytes) → Keeps (Inv S G) X (transfer way listing s)
    transfer-Keeps way listing s =
        unfold transfer in Keeps-then (Keeps-free _ λ th. refl) (tells _ _)

    set_user-Keeps : (o : Option Bytes) → Keeps (Inv S G) X (set_user o)
    set_user-Keeps none = unfold set_user in Keeps-leave
    set_user-Keeps (some name) = unfold set_user in Keeps-free _ λ th. refl

  drop_datathread-Keeps : Keeps (Inv Anywhere G) X drop_datathread
  drop_datathread-Keeps =
      unfold drop_datathread in
      Keeps-get λ t. Keeps-if _ (Keeps-ensure (deletedatathread-Keeps X λ f a. tt)) Keeps-done

  pub abor-Keeps : Keeps (Inv Anywhere G) X abor
  abor-Keeps = unfold abor in Keeps-then drop_datathread-Keeps (tells _ _)

  pub auth_tls-Keeps : (s : Bytes) → Keeps (Inv Anywhere G) X (auth_tls s)
  auth_tls-Keeps s =
      unfold auth_tls in
      Keeps-then (tells _ _) (Keeps-flags _ (λ th o a. ground arith) (λ th. refl))

  pub auth_ssl-Keeps : (s : Bytes) → Keeps (Inv Anywhere G) X (auth_ssl s)
  auth_ssl-Keeps s =
      unfold auth_ssl in
      Keeps-get λ t.
        Keeps-then (Keeps-if _ (Keeps-then (Keeps-free _ λ th. refl) (tells _ _)) (tells _ _))
          (Keeps-flags _ (λ th o a. ground arith) (λ th. refl))

  pub before_user-Keeps : (s : Bytes) → Keeps (Inv Anywhere G) X (before_user s)
  before_user-Keeps s =
      unfold before_user in
      Keeps-then (tells _ _) (
        Keeps-if _
          (Keeps-then (Keeps-flags _ (λ th o a. ground arith) (λ th. refl)) (set_user-Keeps _))
          Keeps-done)

  pub before_pass-Keeps : (s : Bytes) → Keeps (Inv User G) X (before_pass s)
  before_pass-Keeps s =
      unfold before_pass in
      Keeps-then (tells _ _)
        (Keeps-if _ (Keeps-flags _ (λ th o a. ground arith) (λ th. refl)) Keeps-done)

  pub pasv-Keeps : (s : Bytes) → Keeps (Inv Pass G) X (pasv s)
  pasv-Keeps s =
      unfold pasv in
      Keeps-get λ t.
        Keeps-then
          (Keeps-if _
            (Keeps-then (Keeps-ensure (deletedatathread-Keeps X λ f a. a)) (
              Keeps-flags (λ th. record th { gotpasvcmd = true }) (λ th o a. ground arith)
                (λ th. refl)))
            Keeps-done)
          (tells _ _)

  pub port-Keeps : (s : Bytes) → Keeps (Inv Pass G) X (port s)
  port-Keeps s =
      unfold port in
      Keeps-then (Keeps-flags _ (λ th o a. ground arith) (λ th. refl)) (
        Keeps-get λ t.
          Keeps-if _ (Keeps-then (Keeps-ensure (deletedatathread-Keeps X λ f a. a)) (tells _ _))
            (tells _ _))

  pub cpsv-Keeps : (s : Bytes) → Keeps (Inv Pass G) X (cpsv s)
  cpsv-Keeps s =
      unfold cpsv in
      Keeps-get λ t.
        Keeps-if _
          (Keeps-then
            (Keeps-then (Keeps-ensure (deletedatathread-Keeps X λ f a. a)) (
              Keeps-flags (λ th. record th { gotpasvcmd = true; sslprotp = true; cpsvcmd = true })
                (λ th o a. ground arith) (λ th. refl)))
            (tells _ _))
          (tells _ _)
