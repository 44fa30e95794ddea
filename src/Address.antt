-- ===== src/Address.antt =====
-- src/tools.cc `ParsePortCommand` and `ParsePsvCommand`, src/controlthread.cc `CreatePsvCommand`:
-- the addresses of data connections, as FTP writes them.
pub mod Parse
pub mod RoundTrip
use yatb.Prelude.{
  ℕ, zero, suc, ◌+◌, ◌-◌, ◌/◌, ◌%◌, Bool, true, false, not, ◌||◌, ◌&&◌, List, [], ◌∷◌, ◌++◌, Option,
  none, some, length, take, drop, leb, ◌==◌, if◌then◌else◌, ℤ, pos, ◌+ℤ◌, ◌*ℤ◌,
}
use yatb.Text.{Bytes, codes, is_empty, find, substr, cut_at}
use yatb.Text.Number.{atoi, print}

-- What a parser returns and leaves in its two reference arguments.
pub record Parsed : Type 0 where
  pub ret : Bool
  pub ip : Bytes
  pub port : ℤ

-- `s.replace(s.find(from,0), 1, to)` for one byte each; `none` where `from` is not found.
unfoldable pub replace_first : ℕ → ℕ → Bytes → Option Bytes
replace_first from to s = elim (find s (from ∷ [])) [
  | none ↦ none
  | some i ↦ some (take i s ++ to ∷ drop (i + 1) s)
]

-- `startpos = s.find(c,0)`, then `s.substr(0,startpos)` and `s.substr(startpos+1,s.length())`.
unfoldable pub cut_rest : ℕ → Bytes → Option (Bytes × Bytes)
cut_rest c s = elim (find s (c ∷ [])) [
  | none ↦ none
  | some i ↦ some (substr s 0 i, substr s (i + 1) (length s))
]

-- `ParsePortCommand` behind the command word: three commas become dots, the fourth ends the
-- address, the fifth stands in the port.
unfoldable pub parse_port_address : Bytes → Bytes → ℤ → Parsed
parse_port_address portcmd ip port =
    let refused : Parsed = record { ret = false; ip = ip; port = port } in
    elim (replace_first b',' b'.' portcmd) [
      | none ↦ refused
      | some portcmd1 ↦ elim (replace_first b',' b'.' portcmd1) [
        | none ↦ refused
        | some portcmd2 ↦ elim (replace_first b',' b'.' portcmd2) [
          | none ↦ refused
          | some portcmd3 ↦ elim (cut_rest b',' portcmd3) [
            | none ↦ refused
            | some (ip', tmpport) ↦ elim (cut_rest b',' tmpport) [
              | none ↦ record { ret = false; ip = ip'; port = port }
              | some (p1, p2) ↦
                  if is_empty p1 || is_empty p2
                  then record { ret = false; ip = ip'; port = port }
                  else record { ret = true; ip = ip'; port = pos 256 *ℤ atoi p1 +ℤ atoi p2 }
            ]
          ]
        ]
      ]
    ]

unfoldable pub parse_port_command : Bytes → Bytes → ℤ → Parsed
parse_port_command portcmd ip port = elim (cut_rest b' ' portcmd) [
  | none ↦ record { ret = false; ip = ip; port = port }
  | some (word, address) ↦ parse_port_address address ip port
]

-- `ParsePsvCommand` between the parentheses.
unfoldable pub parse_psv_address : Bytes → Bytes → ℤ → Parsed
parse_psv_address tmp ip port =
    let refused : Parsed = record { ret = false; ip = ip; port = port } in
    if is_empty tmp then refused else elim (cut_rest b',' tmp) [
      | none ↦ refused
      | some (ip1, tmp1) ↦ elim (cut_rest b',' tmp1) [
        | none ↦ refused
        | some (ip2, tmp2) ↦ elim (cut_rest b',' tmp2) [
          | none ↦ refused
          | some (ip3, tmp3) ↦ elim (cut_rest b',' tmp3) [
            | none ↦ refused
            | some (ip4, tmp4) ↦
                let ip' = ip1 ++ b'.' ∷ (ip2 ++ b'.' ∷ (ip3 ++ b'.' ∷ ip4)) in
                elim (cut_rest b',' tmp4) [
                  | none ↦ record { ret = false; ip = ip'; port = port }
                  | some (port1, port2) ↦
                      if is_empty port1 || is_empty port2
                      then record { ret = false; ip = ip'; port = port }
                      else record {
                        ret = true;
                        ip = ip';
                        port = atoi port1 *ℤ pos 256 +ℤ atoi port2;
                      }
                ]
          ]
        ]
      ]
    ]

-- The length of `substr` is computed in `int`: a closing parenthesis before the opening one gives a
-- negative number, which as a `size_t` reaches to the end of the text.
unfoldable pub parse_psv_command : Bytes → Bytes → ℤ → Parsed
parse_psv_command passivecmd ip port = elim (find passivecmd (codes "(")) [
  | none ↦ record { ret = false; ip = ip; port = port }
  | some startpos ↦ elim (find passivecmd (codes ")")) [
    | none ↦ record { ret = false; ip = ip; port = port }
    | some endpos ↦
        let len = if leb (startpos + 1) endpos then endpos - startpos - 1 else length passivecmd in
        parse_psv_address (substr passivecmd (1 + startpos) len) ip port
  ]
]

-- What `CreatePsvCommand` reads: the two members of `config`, the address that `GetIp` finds for
-- the first, and that of the listening interface, `none` where the `ioctl` fails.
pub record Local : Type 0 where
  pub nat_pasv_ip : Bytes
  pub listen_ip : Bytes
  pub resolved_nat_ip : Bytes
  pub interface_ip : Option Bytes

unfoldable pub own_ip : Local → Bytes
own_ip local =
    if not (is_empty local.nat_pasv_ip)
    then local.resolved_nat_ip
    else if not (is_empty local.listen_ip)
    then local.listen_ip
    else elim local.interface_ip [ none ↦ codes "0.0.0.0" | some ip ↦ ip ]

-- The three `tmpip.replace(tmpip.find(".",0),1,",")`; `none` is the exception that `replace` throws.
unfoldable pub comma_ip : Bytes → Option Bytes
comma_ip tmpip = elim (replace_first b'.' b',' tmpip) [
  | none ↦ none
  | some tmpip1 ↦ elim (replace_first b'.' b',' tmpip1) [
    | none ↦ none
    | some tmpip2 ↦ replace_first b'.' b',' tmpip2
  ]
]

unfoldable pub create_psv_command : Local → ℕ → Option Bytes
create_psv_command local port = elim (comma_ip (own_ip local)) [
  | none ↦ none
  | some tmpip ↦ some (
      codes "227 Entering Passive Mode ("
      ++ (tmpip ++ b',' ∷ (print (port / 256) ++ b',' ∷ (print (port % 256) ++ codes ")\r\n"))))
]
