-- ===== src/Whitelist/Members.antt =====
-- What `Insert` and `Remove` do to the addresses of a white list.
use yatb.Platform.{Crypto}
use yatb.Prelude.{
  ℕ, true, false, not, ◌&&◌, ◌||◌, List, [], ◌∷◌, ◌++◌, none, some, length, if◌then◌else◌, ◌≡◌,
  refl, arith, inl, inr, Bool-cases, Option-cases,
}
use yatb.Text.{
  Bytes, codes, same, same_iff, same_comm, is_empty-append, cut_at-append, cut_at-none, same_sound,
  cut_at, first_field-append, first_field-none, Lacks, find, find-first_field,
}
use yatb.Whitelist.{
  Entry, Whitelist, Settings, has_ip, stored_as, is_in_list, insert, remove, erase_ip,
}

has_ip-append :
    (t : Bytes) (es fs : List Entry) → has_ip t (es ++ fs) ≡ (has_ip t es || has_ip t fs)
unfolding has_ip
has_ip-append t [] fs = refl
has_ip-append t (e ∷ es) fs = ground (arith, has_ip-append t es fs)

has_ip-snoc :
    (t : Bytes) (es : List Entry) (e : Entry)
    → has_ip t (es ++ e ∷ []) ≡ (has_ip t es || same e.ip t)
unfolding has_ip
has_ip-snoc t es e = ground (arith, has_ip-append t es (e ∷ []))

-- No address stands twice.
abbrev pub DistinctIps : List Entry → Type 0
DistinctIps [] = Unit {0}
DistinctIps (e ∷ es) = (has_ip e.ip es ≡ false) × DistinctIps es

module _ (crypto : Crypto) (config : Settings) where
  -- `Insert` of a well-formed line: 2 and no change if the address is there, and otherwise 1, the
  -- entry behind the others.
  pub insert_line :
      (w : Whitelist) (ip comment user : Bytes)
      → Lacks b',' ip
      → Lacks b',' comment
      → insert crypto config w (ip ++ b',' ∷ (comment ++ b',' ∷ user)) ≡ (
          if is_in_list crypto config w ip then (2, w) else (
            1,
            record w {
              list =
                  w.list
                  ++ (record { ip = stored_as crypto config ip; comment = comment; user = user })
                    ∷ [];
            },
          ))
  unfolding insert
  insert_line w ip comment user h k = ground (
    arith,
    is_empty-append b',' ip (comment ++ b',' ∷ user),
    cut_at-append b',' ip (comment ++ b',' ∷ user) h,
    cut_at-append b',' comment user k,
  )

  -- A line with fewer than two commas is refused and changes nothing: the answer is 0, or 2 where
  -- there is one comma and the address before it is in the list.
  pub insert_malformed :
      (w : Whitelist) (s ip rest : Bytes)
      → Lacks b',' s
      → Lacks b',' ip
      → Lacks b',' rest
      → (insert crypto config w s ≡ (0, w))
        × (insert crypto config w (ip ++ b',' ∷ rest)
            ≡ (if is_in_list crypto config w ip then 2 else 0, w))
  unfolding insert
  insert_malformed w s ip rest h k m = (
    ground (arith, cut_at-none b',' s h),
    ground (
      arith,
      is_empty-append b',' ip rest,
      cut_at-append b',' ip rest k,
      cut_at-none b',' rest m,
    ),
  )

  push :
      (es : List Entry) (e : Entry)
      → DistinctIps es
      → has_ip e.ip es ≡ false
      → DistinctIps (es ++ e ∷ [])
  unfolding has_ip
  push [] e d h = (refl, tt)
  push (f ∷ es) e d h = (
    ground (arith, has_ip-append f.ip es (e ∷ []), same_comm e.ip f.ip),
    push es e d.1 (ground arith),
  )

  insert-DistinctIps :
      (w : Whitelist) (s : Bytes)
      → DistinctIps w.list
      → DistinctIps (insert crypto config w s).1.list
  unfolding insert
  insert-DistinctIps w [] d = d
  insert-DistinctIps w (c ∷ s) d = elim (Option-cases (cut_at b',' (c ∷ s))) [
    | inl e ↦ rw (e, insert) d
    | inr (t, e) ↦ elim (Bool-cases (is_in_list crypto config w t.0)) [
      | inl f ↦ rw (e, insert) (rw f d)
      | inr f ↦ elim (Option-cases (cut_at b',' t.1)) [
        | inl g ↦ rw (e, insert) (rw f (rw (g, insert) d))
        | inr (u, g) ↦
            rw (e, insert) (rw f (rw (g, insert) (push w.list _ d (unfold is_in_list in f))))
      ]
    ]
  ]

  erase_ip-has_ip :
      (t x : Bytes) (es : List Entry)
      → DistinctIps es
      → has_ip x (erase_ip t es) ≡ (has_ip x es && not (same t x))
  unfolding has_ip erase_ip
  erase_ip-has_ip t x [] d = refl
  erase_ip-has_ip t x (e ∷ es) d =
      ground (
        arith,
        erase_ip-has_ip t x es,
        same_iff e.ip t,
        same_iff t x,
        same_iff e.ip x,
        same_comm t x,
      )

  erase_ip-DistinctIps :
      (t : Bytes) (es : List Entry) → DistinctIps es → DistinctIps (erase_ip t es)
  unfolding erase_ip
  erase_ip-DistinctIps t [] d = tt
  erase_ip-DistinctIps t (e ∷ es) d = elim (Bool-cases (same e.ip t)) [
    | inl f ↦ rw f d.1
    | inr f ↦ rw f (rw (erase_ip-has_ip t e.ip es d.1, d.0) refl, erase_ip-DistinctIps t es d.1)
  ]

  -- Neither `Insert` nor `Remove`, on any text, brings an address into the list a second time.
  pub insert-remove-DistinctIps :
      (w : Whitelist) (s : Bytes)
      → DistinctIps w.list
      → DistinctIps (insert crypto config w s).1.list × DistinctIps (remove crypto config w s).list
  unfolding remove
  insert-remove-DistinctIps w s d = (insert-DistinctIps w s d, erase_ip-DistinctIps _ w.list d)

  -- A well-formed line whose address is new: afterwards the address is in the list, and so are
  -- exactly those that were in it before.
  pub is_in_list-insert_line :
      (w : Whitelist) (ip comment user x : Bytes)
      → Lacks b',' ip
      → Lacks b',' comment
      → is_in_list crypto config
          (insert crypto config w (ip ++ b',' ∷ (comment ++ b',' ∷ user))).1
          x
        ≡ (is_in_list crypto config w x
            || same (stored_as crypto config ip) (stored_as crypto config x))
  unfolding is_in_list
  is_in_list-insert_line w ip comment user x h k =
      let e : Entry = record { ip = stored_as crypto config ip; comment = comment; user = user } in
      elim (Bool-cases (is_in_list crypto config w ip)) [
        | inl f ↦ rw (insert_line w ip comment user h k) (rw f (known f))
        | inr f ↦
            rw (insert_line w ip comment user h k)
              (rw f (has_ip-snoc (stored_as crypto config x) w.list e))
      ]
    where
      known :
          is_in_list crypto config w ip ≡ true
          → has_ip (stored_as crypto config x) w.list ≡ (
              has_ip (stored_as crypto config x) w.list
              || same (stored_as crypto config ip) (stored_as crypto config x))
      known f = elim (Bool-cases (same (stored_as crypto config ip) (stored_as crypto config x))) [
        | inl g ↦ rw g (
            ground
              (arith, f, same_sound (stored_as crypto config ip) (stored_as crypto config x) g))
        | inr g ↦ rw g (ground arith)
      ]

  remove_dotted :
      (w : Whitelist) (s : Bytes) (pos : ℕ)
      → find s (codes ".") ≡ some pos
      → remove crypto config w s ≡ record w { list = erase_ip (stored_as crypto config s) w.list }
  unfolding remove stored_as
  remove_dotted w s pos h = ground arith

  -- `Remove` of an address, that is of a text with a dot in it, from a list with no address twice:
  -- afterwards what the address is stored as is out of the list, and all else is as before.
  pub is_in_list-remove_address :
      (w : Whitelist) (p r x : Bytes)
      → Lacks b'.' p
      → DistinctIps w.list
      → is_in_list crypto config (remove crypto config w (p ++ b'.' ∷ r)) x ≡ (
          is_in_list crypto config w x
          && not (same (stored_as crypto config (p ++ b'.' ∷ r)) (stored_as crypto config x)))
  unfolding is_in_list
  is_in_list-remove_address w p r x h d =
      let dot : find (p ++ b'.' ∷ r) (codes ".") ≡ some (length p) =
        ground (arith, find-first_field b'.' (p ++ b'.' ∷ r), first_field-append b'.' p r h) in
      rw (remove_dotted w (p ++ b'.' ∷ r) (length p) dot) (
        erase_ip-has_ip (stored_as crypto config (p ++ b'.' ∷ r)) (stored_as crypto config x) w.list
          d)

  -- `Remove` of a text with no dot, with hashes in use, takes the text for a hash: the entry stored
  -- under it is out of the list, and all else is as before.
  pub has_ip-remove_hash :
      (w : Whitelist) (s x : Bytes)
      → Lacks b'.' s
      → config.use_fxpiphash ≡ true
      → DistinctIps w.list
      → has_ip x (remove crypto config w s).list ≡ (has_ip x w.list && not (same s x))
  unfolding remove
  has_ip-remove_hash w s x h e d =
      let no_dot : find s (codes ".") ≡ none =
        ground (arith, find-first_field b'.' s, first_field-none b'.' s h) in
      rw (e, no_dot) (erase_ip-has_ip s x w.list d)
