-- ===== src/Tests/IpList.antt =====
-- src/iplist.cc at concrete lists.
use yatb.IpList.{Ip, IpList, getip, readlist}
use yatb.IpList.Read.{entry}
use yatb.IpList.Rotation.{IsValid, getip-skip, skip, getip-failed_readlist}
use yatb.Prelude.{[], ◌∷◌, ◌≡◌, refl, arith, some, none, ◌+◌, ◌%◌, length, get_elem?, pos}
use yatb.Text.{codes, same, cut_at}
use yatb.Text.Number.{atoi}

abbrev fresh : IpList
fresh = record { list = []; ip_list = []; port_list = []; counter = 77 }

abbrev two_sites : IpList
two_sites = record {
  list = entry (codes "a") (codes "21") ∷ entry (codes "b") (codes "22") ∷ [];
  ip_list = codes "a" ∷ codes "b" ∷ [];
  port_list = codes "21" ∷ codes "22" ∷ [];
  counter = 1;
}

two_sites-IsValid : IsValid two_sites
two_sites-IsValid = record { inside = omega arith; fits = omega arith }

getip_run : getip two_sites ≡ some (codes "b", pos 22, record two_sites { counter = 0 })
unfolding getip atoi
getip_run = refl

getip-skip_example :
    (e : Ip) × (get_elem? two_sites.list ((two_sites.counter + 3) % length two_sites.list) ≡ some e)
    × ((elim (skip 3 two_sites) [ none ↦ none | some l' ↦ getip l' ])
        ≡ some (
          e.ip,
          e.port,
          record two_sites { counter = (two_sites.counter + 3 + 1) % length two_sites.list },
        ))
getip-skip_example = getip-skip 3 two_sites two_sites-IsValid

abbrev read_two : IpList
read_two = record two_sites { counter = 0 }

abbrev emptied : IpList
emptied = record {
  list = [];
  ip_list = codes "a" ∷ codes "b" ∷ [];
  port_list = codes "21" ∷ [];
  counter = 1;
}

getip-failed_readlist_example : getip emptied ≡ none
unfolding readlist same cut_at
getip-failed_readlist_example =
    getip-failed_readlist two_sites emptied (codes "a,b") (codes "21") refl
