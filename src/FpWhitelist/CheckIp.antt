-- ===== src/FpWhitelist/CheckIp.antt =====
-- `CheckIp`: an address is announced once.
use yatb.FpWhitelist.{
  FpEntry, FpWhitelist, Settings, has_fp, is_in_list, Check, absent, known, added, check_loop,
  stored_as, check_ip,
}
use yatb.Platform.{Crypto, Disk}
use yatb.Prelude.{
  true, false, List, [], ◌∷◌, ◌++◌, pos, negsuc, if◌then◌else◌, ◌≡◌, ◌≢◌, refl, arith, ◌⊎◌,
  Bool-cases, inl, inr,
}
use yatb.Text.{Bytes, same, member, member-append, same_refl}

check_loop-absent :
    (fp tmp : Bytes) (es : List FpEntry)
    → (elim (check_loop fp tmp es) [ absent ↦ false | known ↦ true | added fs c ↦ true ])
      ≡ has_fp fp es
unfolding check_loop has_fp
check_loop-absent fp tmp [] = refl
check_loop-absent fp tmp (e ∷ es) = ground (arith, check_loop-absent fp tmp es)

-- In entries to which the address was added it is known.
abbrev Settled : Bytes → Bytes → Check → Type 0
Settled fp tmp absent = Unit
Settled fp tmp known = Unit
Settled fp tmp (added fs comment) = check_loop fp tmp fs ≡ known

check_loop-Settled : (fp tmp : Bytes) (es : List FpEntry) → Settled fp tmp (check_loop fp tmp es)
unfolding check_loop
check_loop-Settled fp tmp [] = tt
check_loop-Settled fp tmp (e ∷ es) = elim (Bool-cases (same e.fp fp)) [
  | inl f ↦ elim (Bool-cases (member tmp e.iplist)) [
    | inl g ↦ rw (f, g) tt
    | inr g ↦ rw (f, g) (here f)
  ]
  | inr f ↦ rw f (later f (check_loop fp tmp es) (check_loop-Settled fp tmp es))
]
  where
    member_self : member tmp (tmp ∷ []) ≡ true
    member_self = unfold member in ground (arith, same_refl tmp)

    here :
        same e.fp fp ≡ true
        → check_loop fp tmp (record e { iplist = e.iplist ++ tmp ∷ [] } ∷ es) ≡ known
    here f = ground (arith, f, member-append tmp e.iplist (tmp ∷ []), member_self)

    later :
        same e.fp fp ≡ false
        → (r : Check) → Settled fp tmp r
        → Settled fp tmp
            (elim r [ absent ↦ absent | known ↦ known | added fs comment ↦ added (e ∷ fs) comment ])
    later f absent s = tt
    later f known s = tt
    later f (added fs comment) s = ground (arith, f, s)

Check-cases :
    (r : Check)
    → (r ≡ absent)
      ⊎ (r ≡ known)
      ⊎ ((fs : List FpEntry) × (comment : Bytes) × (r ≡ added fs comment))
Check-cases absent = inl refl
Check-cases known = inr (inl refl)
Check-cases (added fs comment) = inr (inr (fs, comment, refl))

module _ (crypto : Crypto) (config : Settings) where
  -- `CheckIp` answers -1 exactly for a fingerprint that is not in the list, and then, as for an
  -- address that is known (answer 0), changes neither list nor message nor disk.
  pub check_ip_unchanged :
      (disk : Disk) (w : FpWhitelist) (fp ip msg : Bytes)
      → (check_ip crypto config disk w fp ip msg).0 ≢ pos 1
      → check_ip crypto config disk w fp ip msg
        ≡ (if is_in_list w fp then pos 0 else negsuc 0, w, msg, disk)
  unfolding check_ip is_in_list
  check_ip_unchanged disk w fp ip msg h =
      let found = check_loop-absent fp (stored_as crypto config ip) w.list in
      elim (Check-cases (check_loop fp (stored_as crypto config ip) w.list)) [
        | inl e ↦ ground (arith, e, found)
        | inr (inl e) ↦ ground (arith, e, found)
        | inr (inr (fs, comment, e)) ↦ absurd (h (ground (arith, e)))
      ]

  -- An address that `CheckIp` has announced (answer 1) is known from then on: the next call with it
  -- answers 0 and changes nothing, whatever the message and the disk then are.
  pub check_ip_again :
      (disk disk' : Disk) (w : FpWhitelist) (fp ip msg msg' : Bytes)
      → (check_ip crypto config disk w fp ip msg).0 ≡ pos 1
      → check_ip crypto config disk' (check_ip crypto config disk w fp ip msg).1 fp ip msg'
        ≡ (pos 0, (check_ip crypto config disk w fp ip msg).1, msg', disk')
  unfolding check_ip
  check_ip_again disk disk' w fp ip msg msg' h =
      let settled = check_loop-Settled fp (stored_as crypto config ip) w.list in
      elim (Check-cases (check_loop fp (stored_as crypto config ip) w.list)) [
        | inl e ↦ absurd (ground (arith, e, h))
        | inr (inl e) ↦ absurd (ground (arith, e, h))
        | inr (inr (fs, comment, e)) ↦
            let again : check_loop fp (stored_as crypto config ip) fs ≡ known = (rw e at settled) in
            ground (arith, e, again)
      ]
