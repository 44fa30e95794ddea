-- ===== src/DataChannel/Access.antt =====
-- What the decision about a transfer asks for.
use yatb.DataChannel.{
  Channel, Verdict, allowed, refused, in_the_clear, tls_excused, check_direct, note_ip, is_known,
  check_direction, check_fxp, other_end, check_access, remember_listing, message,
}
use yatb.Prelude.{
  List, ◌∷◌, Bool, true, false, not, ◌&&◌, ◌||◌, ◌≡◌, refl, sym, [], arith, inl, inr, Bool-cases,
  if◌then◌else◌, ℤ, pos, negsuc, suc, zero, ◌∙◌,
}
use yatb.Session.State.{Host, Shared, DataThread, flag}
use yatb.StringList.{is_in_list}
use yatb.Text.{Bytes, codes, same, same_iff, is_empty}

abbrev pub is_allowed : Verdict → Bool
is_allowed allowed = true
is_allowed (refused s) = false

module _ ⦃h : Host⦄ where
  -- The conditions for a transfer with the client itself.
  abbrev pub may_reach_client : Shared → DataThread → Bool
  may_reach_client g d =
      not (flag g (codes "enforce_tls")) || (d.sslprotp && d.usingssl || tls_excused g d)

  -- Those for one with a third party.
  abbrev pub may_reach_other : Shared → DataThread → Bytes → Bytes → Channel → Bool
  may_reach_other g d fp ip c =
      (not (flag g (codes "use_fxpiplist")) || is_known g d fp ip c)
      && ((not (flag g (codes "enforce_tls"))
            || (not (flag g (codes "enforce_tls_fxp"))
                || (d.sslprotp && d.usingssl || tls_excused g d)))
          && ((not (same c.direction (codes "download"))
                || (not (flag g (codes "use_fxpfromsite_list"))
                    || is_in_list g.fxpfromsitelist d.username))
              && (not (same c.direction (codes "upload"))
                  || (not (flag g (codes "use_fxptosite_list"))
                      || is_in_list g.fxptositelist d.username))))

  check_direct_lem :
      (g : Shared) (d : DataThread) → is_allowed (check_direct g d) ≡ may_reach_client g d
  unfolding check_direct in_the_clear
  check_direct_lem g d = ground arith

  check_direction_lem :
      (g : Shared) (d : DataThread) (c : Channel)
      → is_allowed (check_direction g d c) ≡ (
          (not (same c.direction (codes "download"))
            || (not (flag g (codes "use_fxpfromsite_list"))
                || is_in_list g.fxpfromsitelist d.username))
          && (not (same c.direction (codes "upload"))
              || (not (flag g (codes "use_fxptosite_list"))
                  || is_in_list g.fxptositelist d.username)))
  unfolding check_direction
  check_direction_lem g d c = ground arith

  check_fxp_lem :
      (g : Shared) (d : DataThread) (fp ip : Bytes) (c : Channel)
      → is_allowed (check_fxp g d fp ip c) ≡ may_reach_other g d fp ip c
  unfolding check_fxp in_the_clear
  check_fxp_lem g d fp ip c = ground (arith, check_direction_lem g d c)

  -- A transfer is allowed exactly where these conditions hold for the lists as they are behind `CheckIp`.
  -- With the client itself: TLS is not enforced, the transfer uses it, or the user is excused. With any other
  -- end: where `use_fxpiplist` is set, its fingerprint or its address is known, or the user is an admin; the
  -- same about TLS where `enforce_tls_fxp` is set too; and the user is in the list for the direction where that
  -- list is in use.
  pub check_access_lem :
      (g : Shared) (d : DataThread) (fp clip : Bytes) (c : Channel)
      → is_allowed (check_access g d fp clip c).2 ≡ (
          if same (other_end d clip) d.clientip
          then may_reach_client g d
          else may_reach_other
              (check_access g d fp clip c).0
              d
              fp
              (other_end d clip)
              (check_access g d fp clip c).1)
  unfolding check_access
  check_access_lem g d fp clip c = elim (Bool-cases (same (other_end d clip) d.clientip)) [
    | inl e ↦ rw e (check_direct_lem g d)
    | inr e ↦ rw e (check_fxp_lem _ d fp (other_end d clip) _)
  ]

  message-dirlist_ip :
      (g : Shared) (n : ℤ) (msg : Bytes) (c : Channel)
      → (message g n msg c).dirlist_ip ≡ c.dirlist_ip
  unfolding message
  message-dirlist_ip g (pos zero) msg c = refl
  message-dirlist_ip g (pos (suc zero)) msg c = refl
  message-dirlist_ip g (pos (suc (suc n))) msg c = refl
  message-dirlist_ip g (negsuc n) msg c = refl

  note_ip-dirlist_ip :
      (g : Shared) (fp ip : Bytes) (c : Channel) → (note_ip g fp ip c).1.dirlist_ip ≡ c.dirlist_ip
  unfolding note_ip
  note_ip-dirlist_ip g fp ip c =
      elim (Bool-cases (flag g (codes "use_fxpiplist") && flag g (codes "fp_new_ip_msg"))) [
        | inl e ↦ rw e (message-dirlist_ip g _ _ c)
        | inr e ↦ rw e refl
      ]

  -- Once an address is that of the first listing, it stays so.
  check_access-dirlist_ip :
      (g : Shared) (d : DataThread) (fp clip : Bytes) (c : Channel)
      → (check_access g d fp clip c).1.dirlist_ip
        ≡ (remember_listing (other_end d clip) c).dirlist_ip
  unfolding check_access
  check_access-dirlist_ip g d fp clip c = elim (Bool-cases (same (other_end d clip) d.clientip)) [
    | inl e ↦ rw e refl
    | inr e ↦ rw e (note_ip-dirlist_ip g fp (other_end d clip) _)
  ]

  is_known-same :
      (g : Shared) (d : DataThread) (fp ip : Bytes) (c : Channel)
      → c.dirlist_ip ≡ ip
      → is_known g d fp ip c ≡ true
  unfolding is_known
  is_known-same g d fp ip c e = ground (arith, same_iff ip c.dirlist_ip)

  remember_listing_first :
      (ip : Bytes) (c : Channel)
      → c.dirlist_ip ≡ []
      → c.dirlisting ≡ true
      → (remember_listing ip c).dirlist_ip ≡ ip
  unfolding remember_listing
  remember_listing_first ip c e l = simp (e, l)

  remember_listing_later :
      (ip ip' : Bytes) (c : Channel)
      → c.dirlist_ip ≡ ip
      → is_empty ip ≡ false
      → (remember_listing ip' c).dirlist_ip ≡ ip
  unfolding remember_listing
  remember_listing_later ip ip' c e n = simp (e, n)

  -- One check of a session: the globals and the data thread that it finds, the fingerprint and the address
  -- of the other end, and the direction and the kind of transfer that the control thread has set.
  pub record Check : Type 0 where
    pub globals : Shared
    pub thread : DataThread
    pub fp : Bytes
    pub clip : Bytes
    pub direction : Bytes
    pub dirlisting : Bool

  abbrev pub check : Check → Channel → Shared × Channel × Verdict
  check k c =
      check_access k.globals k.thread k.fp k.clip
        (record c { direction = k.direction; dirlisting = k.dirlisting })

  -- What is left of the control thread's members behind some checks.
  abbrev pub checked : List Check → Channel → Channel
  checked [] c = c
  checked (k ∷ ks) c = checked ks (check k c).1

  abbrev pub address : Check → Bytes
  address k = other_end k.thread k.clip

  -- The other end counts as known in a check.
  abbrev pub Knows : Check → Channel → Type 0
  Knows k c = is_known (check k c).0 k.thread k.fp (address k) (check k c).1 ≡ true

  check-later :
      (k : Check) (ip : Bytes) (c : Channel)
      → c.dirlist_ip ≡ ip
      → is_empty ip ≡ false
      → (check k c).1.dirlist_ip ≡ ip
  check-later k ip c e n =
      check_access-dirlist_ip k.globals k.thread k.fp k.clip _
      ∙ remember_listing_later ip (address k) _ e n

  checked-later :
      (ks : List Check) (ip : Bytes) (c : Channel)
      → c.dirlist_ip ≡ ip
      → is_empty ip ≡ false
      → (checked ks c).dirlist_ip ≡ ip
  checked-later [] ip c e n = e
  checked-later (k ∷ ks) ip c e n = checked-later ks ip (check k c).1 (check-later k ip c e n) n

  -- The first listing of a session may be with any address, whatever the lists are: that address is known
  -- for this listing, and, whatever other transfers and listings the session has in between and however
  -- the globals change, for every later transfer with it, in any direction.
  pub check_access-first_listing :
      (first later : Check) (between : List Check) (c : Channel)
      → c.dirlist_ip ≡ []
      → first.dirlisting ≡ true
      → is_empty (address first) ≡ false
      → address later ≡ address first
      → Knows first c × Knows later (checked (first ∷ between) c)
  check_access-first_listing first later between c e l n o =
      let c1 : Channel = record c { direction = first.direction; dirlisting = first.dirlisting } in
      let noted : (check first c).1.dirlist_ip ≡ address first =
        check_access-dirlist_ip first.globals first.thread first.fp first.clip c1
        ∙ remember_listing_first (address first) c1 e l in
      let kept = checked-later between (address first) (check first c).1 noted n in
      (
        is_known-same _ first.thread first.fp _ _ noted,
        is_known-same _ later.thread later.fp _ _
            (check-later later (address first) (checked (first ∷ between) c) kept n ∙ sym o),
      )
