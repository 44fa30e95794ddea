-- ===== src/IpList.antt =====
-- src/iplist.cc: `CIplist`, the addresses that connections take in turn (the sites to connect to,
-- and the local addresses to bind).
pub mod Read
pub mod Rotation
use yatb.Prelude.{
  ℕ, zero, suc, ◌+◌, ◌%◌, ◌^◌, Bool, true, false, not, List, [], ◌∷◌, ◌++◌, Option, none, some,
  length, get_elem?, ◌==◌, if◌then◌else◌, ℤ, pos,
}
use yatb.Text.{Bytes, codes, same, is_empty, for_each_field}
use yatb.Text.Number.{atoi}

pub record Ip : Type 0 where
  pub ip : Bytes
  pub port : ℤ
  pub working : ℕ

-- `CIp()`.
abbrev pub new_ip : Ip
new_ip = record { ip = []; port = pos 0; working = 1 }

-- `counter` is an `unsigned int`; the constructor leaves it unset, so a fresh list has any value.
pub record IpList : Type 0 where
  pub list : List Ip
  pub ip_list : List Bytes
  pub port_list : List Bytes
  pub counter : ℕ

-- `list.push_back(tmp)`.
abbrev pub push_back {ℓ} : {A : Type ℓ} → List A → A → List A
push_back list x = list ++ x ∷ []

-- `ParseString`.
unfoldable pub parse_string : Bytes → List Bytes → List Bytes
unfolding for_each_field
parse_string s list =
    if is_empty s
    then list
    else for_each_field push_back b',' (suc (length s)) (s ++ codes ",") list

-- The loop that fills `List`; `none` is a read of `port_list` behind its end.
unfoldable pub add_loop : Bool → List Bytes → ℕ → List Bytes → List Ip → Option (List Ip)
unfolding atoi
add_loop use_ports port_list i [] list = some list
add_loop use_ports port_list i (ip ∷ ips) list =
    elim (if use_ports then get_elem? port_list i else some []) [
      | none ↦ none
      | some port ↦ add_loop use_ports port_list (i + 1) ips (
          push_back list (record new_ip { ip = ip; port = if use_ports then atoi port else pos 0 }))
    ]

-- The second half of `readlist`, behind the test of the two sizes.
unfoldable pub fill : Bool → IpList → Option (IpList × Bool)
unfolding add_loop
fill use_ports l =
    if length l.ip_list == 0
    then some (l, false)
    else elim (add_loop use_ports l.port_list 0 l.ip_list l.list) [
      | none ↦ none
      | some list ↦ some (record l { list = list; counter = 0 }, true)
    ]

-- `readlist`: the new state with the result, or `none` for undefined behaviour.
unfoldable pub readlist : IpList → Bytes → Bytes → Option (IpList × Bool)
unfolding fill parse_string
readlist l iplist portlist =
    let l1 : IpList = record l { list = []; ip_list = parse_string iplist []; port_list = [] } in
    let l2 : IpList = record l1 { port_list = parse_string portlist [] } in
    if not (same portlist (codes "0"))
    then if not (length l2.ip_list == length l2.port_list) then some (l2, false) else fill true l2
    else fill false l1

-- `getip`: the next address and port; `none` is a read of `List` behind its end.
unfoldable pub getip : IpList → Option (Bytes × ℤ × IpList)
getip l = elim (get_elem? l.list l.counter) [
  | none ↦ none
  | some tmp ↦
      let counter = (l.counter + 1) % 2 ^ 32 in
      some
        (tmp.ip, tmp.port, record l { counter = if counter == length l.list then 0 else counter })
]
