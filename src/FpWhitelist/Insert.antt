-- ===== src/FpWhitelist/Insert.antt =====
-- `Insert`: what becomes of a line.
use yatb.Prelude.{
  ℕ, false, not, ◌||◌, List, [], ◌∷◌, ◌++◌, init, if◌then◌else◌, ◌≡◌, ◌≢◌, refl, sym, arith, ◌∙◌,
  ap, All, append_assoc, append-nil,
}
use yatb.Strings.{upper}
use yatb.Text.{Bytes, same, same_ne, is_empty, is_empty-append, cut_at-append, Lacks, join}
use yatb.FpWhitelist.{FpEntry, FpWhitelist, has_fp, is_in_list, ip_loop, user_and_ips, insert}

-- An address as the file holds it: not empty, with no comma and no line end.
abbrev pub IsIp : Bytes → Type 0
IsIp ip = (ip ≢ []) × Lacks b',' ip × Lacks b'\r' ip × Lacks b'\n' ip

append-cons-ne-nil : (s : Bytes) (c : ℕ) → is_empty (s ++ c ∷ []) ≡ false
append-cons-ne-nil s c = is_empty-append c s []

ip_loop_piece :
    (p rest tmp : Bytes) (iplist : List Bytes)
    → tmp ++ p ≢ []
    → Lacks b',' p
    → Lacks b'\r' p
    → Lacks b'\n' p
    → ip_loop (p ++ b',' ∷ rest) tmp iplist ≡ ip_loop rest [] (iplist ++ (tmp ++ p) ∷ [])
unfolding ip_loop
ip_loop_piece [] rest [] iplist ne h k m = absurd (ne refl)
ip_loop_piece [] rest (t ∷ tmp) iplist ne h k m =
    ap (λ u. ip_loop rest [] (iplist ++ (t ∷ u) ∷ [])) (sym (append-nil tmp))
ip_loop_piece (c ∷ p) rest tmp iplist ne h k m = ground (
  arith,
  ip_loop_piece p rest (tmp ++ c ∷ []) iplist (rw append_assoc ne) h.1 k.1 m.1,
  append_assoc tmp (c ∷ []) p,
  h.0,
  k.0,
  m.0,
  append-cons-ne-nil tmp c,
)

ip_loop_last : (p tmp : Bytes) (iplist : List Bytes) → Lacks b',' p → ip_loop p tmp iplist ≡ iplist
unfolding ip_loop
ip_loop_last [] tmp iplist h = refl
ip_loop_last (c ∷ p) tmp iplist h =
    ground (arith, h.0, ip_loop_last p (tmp ++ c ∷ []) iplist h.1, ip_loop_last p tmp iplist h.1)

-- The loop over the addresses that `WriteList` wrote: the last has no comma behind it, and is lost.
ip_loop-join :
    (ips iplist : List Bytes)
    → All IsIp ips
    → ip_loop (join b',' ips) [] iplist ≡ iplist ++ init ips
unfolding join
ip_loop-join [] iplist h = unfold ip_loop in sym (append-nil iplist)
ip_loop-join (ip ∷ []) iplist h = ip_loop_last ip [] iplist h.0.1 ∙ sym (append-nil iplist)
ip_loop-join (ip ∷ jp ∷ ips) iplist h =
    ip_loop_piece ip _ [] iplist h.0.0 h.0.1 h.0.2 h.0.3
    ∙ ip_loop-join (jp ∷ ips) (iplist ++ ip ∷ []) h.1
    ∙ append_assoc iplist (ip ∷ []) (init (jp ∷ ips))

rest_ips : (s : Bytes) → (if not (is_empty s) then ip_loop s [] [] else []) ≡ ip_loop s [] []
rest_ips [] = unfold ip_loop in refl
rest_ips (c ∷ s) = refl

-- What `Insert` takes for the user and the addresses.
user_and_ips-join :
    (user : Bytes) (ips : List Bytes)
    → Lacks b',' user
    → All IsIp ips
    → user_and_ips (user ++ b',' ∷ join b',' ips) ≡ (user, init ips)
unfolding user_and_ips
user_and_ips-join user ips h k =
    rw (cut_at-append b',' user (join b',' ips) h, user_and_ips)
      (ap (λ l. (user, l)) (rest_ips (join b',' ips) ∙ ip_loop-join ips [] k))

-- A line of the file, and the entry that `Insert` makes of it.
abbrev pub file_line : Bytes → Bytes → Bytes → List Bytes → Bytes
file_line fp comment user ips = fp ++ b',' ∷ (comment ++ b',' ∷ (user ++ b',' ∷ join b',' ips))

abbrev pub read_entry : Bytes → Bytes → Bytes → List Bytes → FpEntry
read_entry fp comment user ips = record {
  fp = upper fp 0;
  comment = comment;
  user = user;
  iplist = init ips;
}

-- `Insert` of a line with a new fingerprint: the entry behind the others, the fingerprint in upper
-- case, and all its addresses but the last; 2 and no change if the fingerprint, as it stands in the
-- line, is in the list.
pub insert_line :
    (w : FpWhitelist) (fp comment user : Bytes) (ips : List Bytes)
    → Lacks b',' fp
    → Lacks b',' comment
    → Lacks b',' user
    → All IsIp ips
    → insert w (file_line fp comment user ips) ≡ (
        if is_in_list w fp
        then (2, w)
        else (1, record w { list = w.list ++ read_entry fp comment user ips ∷ [] }))
unfolding insert
insert_line w fp comment user ips h k m n =
    let rest = user ++ b',' ∷ join b',' ips in
    ground (
      arith,
      is_empty-append b',' fp (comment ++ b',' ∷ rest),
      cut_at-append b',' fp (comment ++ b',' ∷ rest) h,
      cut_at-append b',' comment rest k,
      user_and_ips-join user ips m n,
    )

pub has_fp-append :
    (t : Bytes) (es fs : List FpEntry) → has_fp t (es ++ fs) ≡ (has_fp t es || has_fp t fs)
unfolding has_fp
has_fp-append t [] fs = refl
has_fp-append t (e ∷ es) fs = ground (arith, has_fp-append t es fs)

pub has_fp-snoc :
    (t : Bytes) (es : List FpEntry) (e : FpEntry)
    → has_fp t (es ++ e ∷ []) ≡ (has_fp t es || same e.fp t)
unfolding has_fp
has_fp-snoc t es e = ground (arith, has_fp-append t es (e ∷ []))

-- A fingerprint that is not in upper case is never found again under its own spelling: a well-
-- formed line with it, inserted a second time, is taken for a new one, and its entry stands in the
-- list twice.
pub insert_twice :
    (w : FpWhitelist) (fp comment user : Bytes) (ips : List Bytes)
    → Lacks b',' fp
    → Lacks b',' comment
    → Lacks b',' user
    → All IsIp ips
    → upper fp 0 ≢ fp
    → is_in_list w fp ≡ false
    → insert (insert w (file_line fp comment user ips)).1 (file_line fp comment user ips) ≡ (
      1,
      record w {
        list =
            (w.list ++ read_entry fp comment user ips ∷ []) ++ read_entry fp comment user ips ∷ [];
      },
    )
unfolding is_in_list
insert_twice w fp comment user ips h k m n ne f =
    let e = read_entry fp comment user ips in
    let w' : FpWhitelist = record w { list = w.list ++ e ∷ [] } in
    let first : insert w (file_line fp comment user ips) ≡ (1, w') =
      insert_line w fp comment user ips h k m n ∙ ground (arith, f) in
    let again : is_in_list w' fp ≡ false =
      ground (arith, has_fp-snoc fp w.list e, f, same_ne (upper fp 0) fp ne) in
    ap (λ t. insert t.1 (file_line fp comment user ips)) first
    ∙ insert_line w' fp comment user ips h k m n
    ∙ ground (arith, again)
