-- ===== src/IpList/Rotation.antt =====
-- `getip` hands the addresses out in turn.
use native.Mathlib.Nat.{mod-lt, mod-eq_of_lt, mod-add-mod, mod_self}
use yatb.Prelude.{
  ℕ, zero, suc, ◌+◌, ◌<◌, ◌≤◌, ◌%◌, ◌^◌, true, false, List, [], ◌∷◌, Option, none, some, length,
  get_elem?, ◌==◌, if◌then◌else◌, ◌≡◌, ◌≢◌, refl, arith, ◌∙◌, ap, sym, inl, inr, Bool-cases,
}
use yatb.Text.{Bytes, codes, same, parts}
use yatb.IpList.{Ip, IpList, getip, readlist}
use yatb.IpList.Read.{readlist_ports, readlist-portless, entries, portless}

-- The next address is one of the list, and every position fits an `unsigned int`.
pub record IsValid (l : IpList) : Type 0 where
  pub inside : l.counter < length l.list
  pub fits : length l.list ≤ 2 ^ 32

get_elem?_inside :
    {A : Type 0} (xs : List A) (i : ℕ) → i < length xs → (x : A) × (get_elem? xs i ≡ some x)
get_elem?_inside [] i h = elim h [ ]
get_elem?_inside (x ∷ xs) zero h = (x, refl)
get_elem?_inside (x ∷ xs) (suc i) h = get_elem?_inside xs i (omega arith)

-- The new counter is the next position, round the list.
next_counter :
    (c n : ℕ)
    → c < n
    → n ≤ 2 ^ 32
    → (if (c + 1) % 2 ^ 32 == n then 0 else (c + 1) % 2 ^ 32) ≡ (c + 1) % n
next_counter c n h k = elim (Bool-cases (c + 1 == n)) [
  | inl e ↦
      let last : c + 1 ≡ n = ground arith in
      let none_left : (c + 1) % n ≡ 0 = rw last (mod_self n) in ground (arith, none_left)
  | inr e ↦
      let inner : (c + 1) % n ≡ c + 1 = mod-eq_of_lt (ground arith) in
      let whole : (c + 1) % 2 ^ 32 ≡ c + 1 = mod-eq_of_lt (ground arith) in
      ground (arith, inner, whole)
]

getip_step :
    (l : IpList) (e : Ip)
    → IsValid l
    → get_elem? l.list l.counter ≡ some e
    → getip l ≡ some (e.ip, e.port, record l { counter = (l.counter + 1) % length l.list })
unfolding getip
getip_step l e v h =
    rw (h, getip)
      (ap (λ c. some (e.ip, e.port, record l { counter = c }))
        (next_counter l.counter (length l.list) v.inside v.fits))

-- `n` calls of `getip`, their results dropped.
unfoldable pub skip : ℕ → IpList → Option IpList
unfolding getip
skip zero l = some l
skip (suc n) l = elim (getip l) [ none ↦ none | some t ↦ skip n t.2 ]

next-IsValid : (l : IpList) (c : ℕ) → IsValid l → IsValid (record l { counter = c % length l.list })
next-IsValid l c v = record {
  inside = mod-lt c (let some_entry : 0 < length l.list = omega arith in some_entry);
  fits = v.fits;
}

skip_lem :
    (n : ℕ) (l : IpList)
    → IsValid l
    → skip n l ≡ some (record l { counter = (l.counter + n) % length l.list })
unfolding skip
skip_lem zero l v =
    let same_place : l.counter ≡ (l.counter + 0) % length l.list =
      (let a : l.counter ≡ l.counter + 0 = omega arith in a)
      ∙ sym (mod-eq_of_lt (let b : l.counter + 0 < length l.list = omega arith in b)) in
    ap (λ c. some (record l { counter = c })) same_place
skip_lem (suc n) l v =
    let (e, h) = get_elem?_inside l.list l.counter v.inside in
    let place : ((l.counter + 1) % length l.list + n) % length l.list
        ≡ (l.counter + suc n) % length l.list =
      mod-add-mod (l.counter + 1) (length l.list) n
      ∙ ap (λ k. k % length l.list)
          (let a : l.counter + 1 + n ≡ l.counter + suc n = omega arith in a) in
    rw (getip_step l e v h, skip)
      (skip_lem n (record l { counter = (l.counter + 1) % length l.list })
          (next-IsValid l (l.counter + 1) v)
        ∙ ap (λ c. some (record l { counter = c })) place)

-- From a state in which the next address is one of the list, the call of `getip` that follows any
-- number `n` of others is defined and returns the address and port `n` places further on, round the
-- list; it changes nothing but the position, which is then one place further.
pub getip-skip :
    (n : ℕ) (l : IpList)
    → IsValid l
    → (e : Ip) × (get_elem? l.list ((l.counter + n) % length l.list) ≡ some e)
      × ((elim (skip n l) [ none ↦ none | some l' ↦ getip l' ])
          ≡ some (e.ip, e.port, record l { counter = (l.counter + n + 1) % length l.list }))
getip-skip n l v =
    let w = next-IsValid l (l.counter + n) v in
    let (e, h) = get_elem?_inside l.list ((l.counter + n) % length l.list) w.inside in
    (
      e,
      h,
      rw (skip_lem n l v) (
          getip_step (record l { counter = (l.counter + n) % length l.list }) e w h
          ∙ ap (λ c. some (e.ip, e.port, record l { counter = c }))
              (mod-add-mod (l.counter + n) (length l.list) 1)),
    )

length-entries :
    (ips ports : List Bytes) → length ips ≡ length ports → length (entries ips ports) ≡ length ips
length-entries [] ports h = refl
length-entries (ip ∷ ips) [] h = absurd (omega arith)
length-entries (ip ∷ ips) (port ∷ ports) h = ap suc (length-entries ips ports (omega arith))

length-portless : (ips : List Bytes) → length (portless ips) ≡ length ips
length-portless [] = refl
length-portless (ip ∷ ips) = ap suc (length-portless ips)

readlist_counts :
    (l l' : IpList) (iplist portlist : Bytes)
    → readlist l iplist portlist ≡ some (l', true)
    → (l'.counter ≡ 0) × (length l'.list ≡ length (parts iplist)) × (length (parts iplist) ≢ 0)
readlist_counts l l' iplist portlist h = elim (Bool-cases (same portlist (codes "0"))) [
  | inl e ↦ ground (arith, readlist-portless l iplist portlist e, length-portless (parts iplist))
  | inr e ↦
      ground
        (arith, readlist_ports l iplist portlist e, length-entries (parts iplist) (parts portlist))
]

-- After a successful `readlist` of at most 2 ^ 32 addresses the next address is the first, the
-- list has one entry for each address of the argument, and its position is inside the list.
pub readlist-IsValid :
    (l l' : IpList) (iplist portlist : Bytes)
    → length (parts iplist) ≤ 2 ^ 32
    → readlist l iplist portlist ≡ some (l', true)
    → IsValid l' × (l'.counter ≡ 0) × (length l'.list ≡ length (parts iplist))
readlist-IsValid l l' iplist portlist k h =
    let (start, size, some_entry) = readlist_counts l l' iplist portlist h in
    (record { inside = omega arith; fits = omega arith }, start, size)

-- After a `readlist` that fails, `getip` reads behind the end of the empty list, whatever was in the
-- list before: the behaviour is undefined.
pub getip-failed_readlist :
    (l l' : IpList) (iplist portlist : Bytes)
    → readlist l iplist portlist ≡ some (l', false)
    → getip l' ≡ none
unfolding getip
getip-failed_readlist l l' iplist portlist h = elim (Bool-cases (same portlist (codes "0"))) [
  | inl e ↦ ground (arith, readlist-portless l iplist portlist e)
  | inr e ↦ ground (arith, readlist_ports l iplist portlist e)
]
