-- ===== src/IpList/Read.antt =====
-- What `readlist` makes of its two texts.
use mathlib.Core.List.{foldl}
use yatb.Prelude.{
  ℕ, suc, ◌+◌, true, false, not, List, [], ◌∷◌, ◌++◌, some, length, get_elem?, ◌==◌, if◌then◌else◌,
  ◌≡◌, refl, ap, ap₂, length-append, arith, append_assoc, ◌∙◌, append-nil, sym, ◌&&◌,
}
use yatb.Text.{Bytes, codes, same, parts, for_each_field_lem}
use yatb.Text.Number.{atoi}
use yatb.IpList.{Ip, new_ip, IpList, push_back, parse_string, add_loop, readlist}

foldl-push_back : {A : Type 0} (xs list : List A) → foldl push_back list xs ≡ list ++ xs
foldl-push_back [] list = sym (append-nil list)
foldl-push_back (x ∷ xs) list = foldl-push_back xs (list ++ x ∷ []) ∙ append_assoc list (x ∷ []) xs

-- `ParseString` appends the comma-separated parts of its argument.
parse_string-parts : (s : Bytes) (list : List Bytes) → parse_string s list ≡ list ++ parts s
unfolding parse_string
parse_string-parts [] list = sym (append-nil list)
parse_string-parts (c ∷ s) list =
    for_each_field_lem push_back b',' (suc (length (c ∷ s))) (c ∷ s) list (omega arith)
    ∙ foldl-push_back (parts (c ∷ s)) list

-- One address with the text of its port.
abbrev pub entry : Bytes → Bytes → Ip
entry ip port = record new_ip { ip = ip; port = atoi port }

-- The addresses with their ports, in the order of the two texts.
abbrev pub entries : List Bytes → List Bytes → List Ip
entries [] ports = []
entries (ip ∷ ips) [] = []
entries (ip ∷ ips) (port ∷ ports) = entry ip port ∷ entries ips ports

-- Every address with port 0, for the port list "0".
abbrev pub portless : List Bytes → List Ip
portless [] = []
portless (ip ∷ ips) = record new_ip { ip = ip } ∷ portless ips

get_elem?_middle :
    {A : Type 0} (done : List A) (x : A) (xs : List A)
    → get_elem? (done ++ x ∷ xs) (length done) ≡ some x
get_elem?_middle [] x xs = refl
get_elem?_middle (y ∷ done) x xs = get_elem?_middle done x xs

add_loop_ports :
    (ips ports done : List Bytes) (list : List Ip)
    → length ips ≡ length ports
    → add_loop true (done ++ ports) (length done) ips list ≡ some (list ++ entries ips ports)
unfolding add_loop
add_loop_ports [] [] done list h = ap some (sym (append-nil list))
add_loop_ports [] (port ∷ ports) done list h = absurd (omega arith)
add_loop_ports (ip ∷ ips) [] done list h = absurd (omega arith)
add_loop_ports (ip ∷ ips) (port ∷ ports) done list h =
    rw (get_elem?_middle done port ports, add_loop)
      (ap₂ (λ pl i. add_loop true pl i ips (list ++ entry ip port ∷ []))
          (sym (append_assoc done (port ∷ []) ports))
          (let next : length done + 1 ≡ length (done ++ port ∷ []) =
              omega (arith, length-append done (port ∷ [])) in
            next)
        ∙ add_loop_ports ips ports (done ++ port ∷ []) (list ++ entry ip port ∷ []) (omega arith)
        ∙ ap some (append_assoc list (entry ip port ∷ []) (entries ips ports)))

add_loop-portless :
    (ips port_list : List Bytes) (i : ℕ) (list : List Ip)
    → add_loop false port_list i ips list ≡ some (list ++ portless ips)
unfolding add_loop
add_loop-portless [] port_list i list = ap some (sym (append-nil list))
add_loop-portless (ip ∷ ips) port_list i list =
    add_loop-portless ips port_list (i + 1) (list ++ record new_ip { ip = ip } ∷ [])
    ∙ ap some (append_assoc list (record new_ip { ip = ip } ∷ []) (portless ips))

-- `readlist` with a list of ports succeeds exactly when it has as many ports as addresses and at
-- least one: then it holds every address with its port, in order, and starts at the first. Otherwise
-- it holds no address, and the position of the next one is the old one.
pub readlist_ports :
    (l : IpList) (iplist portlist : Bytes)
    → same portlist (codes "0") ≡ false
    → readlist l iplist portlist
      ≡ some (
          if length (parts iplist) == length (parts portlist) && not (length (parts iplist) == 0)
          then (
            record {
              list = entries (parts iplist) (parts portlist);
              ip_list = parts iplist;
              port_list = parts portlist;
              counter = 0;
            },
            true,
          )
          else (
            record {
              list = [];
              ip_list = parts iplist;
              port_list = parts portlist;
              counter = l.counter;
            },
            false,
          ))
unfolding readlist
readlist_ports l iplist portlist h = ground (
  arith,
  parse_string-parts iplist [],
  parse_string-parts portlist [],
  add_loop_ports (parts iplist) (parts portlist) [] [],
)

-- With the port list "0" `readlist` succeeds exactly when there is an address: then it holds every
-- address with port 0, in order, and starts at the first. Otherwise it holds no address, and the
-- position of the next one is the old one.
pub readlist-portless :
    (l : IpList) (iplist portlist : Bytes)
    → same portlist (codes "0") ≡ true
    → readlist l iplist portlist
      ≡ some (
          if not (length (parts iplist) == 0)
          then (
            record {
              list = portless (parts iplist);
              ip_list = parts iplist;
              port_list = [];
              counter = 0;
            },
            true,
          )
          else (
            record { list = []; ip_list = parts iplist; port_list = []; counter = l.counter },
            false,
          ))
unfolding readlist
readlist-portless l iplist portlist h =
    ground (arith, parse_string-parts iplist [], add_loop-portless (parts iplist) [] 0 [])
