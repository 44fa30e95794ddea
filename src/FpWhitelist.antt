-- ===== src/FpWhitelist.antt =====
-- src/fpwhitelist.cc: `CFpWhitelist`, the certificate fingerprints of sites with the addresses that
-- each was seen at.
pub mod Insert
pub mod RoundTrip
pub mod CheckIp
use mathlib.Core.Option
use yatb.ListFile.{store, load}
use yatb.Platform.{Crypto, Disk, hash}
use yatb.Prelude.{
  ℕ, zero, suc, ◌+◌, Bool, true, false, not, ◌&&◌, List, [], ◌∷◌, ◌++◌, Option, none, some, length,
  ◌==◌, if◌then◌else◌, ℤ, pos, negsuc,
}
use yatb.Strings.{upper}
use yatb.Text.{Bytes, codes, same, is_empty, cut_at, member}
use yatb.Text.Number.{print}

pub record FpEntry : Type 0 where
  pub fp : Bytes
  pub comment : Bytes
  pub user : Bytes
  pub iplist : List Bytes

pub record FpWhitelist : Type 0 where
  pub list : List FpEntry

-- The members of `config` and the globals `bk` and `fpwl_bk` that the list reads.
pub record Settings : Type 0 where
  pub use_fxpiphash : Bool
  pub hash_algo : Bytes
  pub crypted_fpwhitelist : Bool
  pub fpwhitelist_file : Bytes
  pub bk : Bytes
  pub fpwl_bk : Bytes

-- The loop of `IsInList`.
unfoldable pub has_fp : Bytes → List FpEntry → Bool
has_fp tmp [] = false
has_fp tmp (e ∷ es) = if same e.fp tmp then true else has_fp tmp es

unfoldable pub is_in_list : FpWhitelist → Bytes → Bool
unfolding has_fp
is_in_list w s = has_fp s w.list

-- The loop of `GetComment`.
unfoldable pub comment_of : Bytes → List FpEntry → Bytes
comment_of tmp [] = []
comment_of tmp (e ∷ es) =
    if same e.fp tmp then e.comment ++ (codes " - " ++ e.user) else comment_of tmp es

unfoldable pub get_comment : FpWhitelist → Bytes → Bytes
unfolding comment_of
get_comment w s = comment_of s w.list

unfoldable pub erase_fp : Bytes → List FpEntry → List FpEntry
erase_fp tmp [] = []
erase_fp tmp (e ∷ es) = if same e.fp tmp then es else e ∷ erase_fp tmp es

unfoldable pub remove : FpWhitelist → Bytes → FpWhitelist
unfolding erase_fp
remove w s = record w { list = erase_fp s w.list }

-- The inner loop of `WriteList`: no comma behind the last address.
unfoldable pub write_ips : Bytes → List Bytes → Bytes
write_ips daten [] = daten
write_ips daten (ip ∷ []) = daten ++ ip
write_ips daten (ip ∷ jp ∷ ips) = write_ips (daten ++ (ip ++ codes ",")) (jp ∷ ips)

-- The outer loop of `WriteList`.
unfoldable pub write_loop : Bytes → List FpEntry → Bytes
unfolding write_ips
write_loop daten [] = daten
write_loop daten (e ∷ es) =
    let head = e.fp ++ b',' ∷ (e.comment ++ b',' ∷ (e.user ++ codes ",")) in
    write_loop (write_ips (daten ++ head) e.iplist ++ codes "\r\n") es

unfoldable pub write_list : Crypto → Disk → Bytes → Bytes → FpWhitelist → Disk × Bool
unfolding write_loop store
write_list crypto disk filename key w = store crypto disk filename key (write_loop [] w.list)

-- The loop of `Insert` over the addresses: one is pushed at the comma behind it.
unfoldable pub ip_loop : Bytes → Bytes → List Bytes → List Bytes
ip_loop [] tmp iplist = iplist
ip_loop (c ∷ s) tmp iplist =
    let tmp' =
      if not (c == b',') && (not (c == b'\r') && not (c == b'\n')) then tmp ++ c ∷ [] else tmp in
    let pushes = c == b',' && not (is_empty tmp') in
    ip_loop s (if pushes then [] else tmp') (if pushes then iplist ++ tmp' ∷ [] else iplist)

-- The user and the addresses behind it: `user = s.substr(0,pos)`, then the loop over the rest.
unfoldable pub user_and_ips : Bytes → Bytes × List Bytes
unfolding ip_loop
user_and_ips s = elim (cut_at b',' s) [
  | none ↦ (s, [])
  | some (user, rest) ↦ (user, if not (is_empty rest) then ip_loop rest [] [] else [])
]

-- `Insert`: 1 for a new entry, 2 for a fingerprint that is there, 0 for a malformed text.
unfoldable pub insert : FpWhitelist → Bytes → ℕ × FpWhitelist
insert w s = if is_empty s then (0, w) else elim (cut_at b',' s) [
  | none ↦ (0, w)
  | some (fp, rest) ↦ if is_in_list w fp then (2, w) else elim (cut_at b',' rest) [
    | none ↦ (0, w)
    | some (comment, rest') ↦ (
      1,
      record w {
        list =
            w.list
            ++ (record {
              fp = upper fp 0;
              comment = comment;
              user = (user_and_ips rest').0;
              iplist = (user_and_ips rest').1;
            })
              ∷ [];
      },
    )
  ]
]

unfoldable pub read_list :
    Crypto → Settings → Disk → Bytes → Bytes → FpWhitelist → Option (Bool × FpWhitelist)
unfolding load
read_list crypto config disk filename key w =
    load (λ w' s. (insert w' s).1) crypto disk config.crypted_fpwhitelist filename key w

-- The loop of `GetList`.
unfoldable pub report_loop : Bytes → List FpEntry → Bytes
unfolding print
report_loop ss [] = ss
report_loop ss (e ∷ es) =
    report_loop
      (ss
        ++ (codes "200- "
            ++ (e.fp
                ++ (codes " - "
                    ++ (e.comment
                        ++ (codes " - "
                            ++ (e.user
                                ++ (codes " #ips: "
                                    ++ (print (length e.iplist) ++ codes "\r\n")))))))))
      es

unfoldable pub get_list : FpWhitelist → Bytes
unfolding report_loop
get_list w =
    report_loop (codes "200- FpWhitelist report start\r\n") w.list
    ++ codes "200 FpWhitelist report end\r\n"

-- What the loops of `CheckIp` find: no such fingerprint, an address that is there, or the entries
-- with the new address and the comment of its entry.
pub data Check : Type 0 where
  absent : Check
  known : Check
  added : List FpEntry → Bytes → Check

unfoldable pub check_loop : Bytes → Bytes → List FpEntry → Check
check_loop fp tmp [] = absent
check_loop fp tmp (e ∷ es) =
    let rest = check_loop fp tmp es in
    if same e.fp fp
    then if member tmp e.iplist
      then known
      else added (record e { iplist = e.iplist ++ tmp ∷ [] } ∷ es) e.comment
    else elim rest [ absent ↦ absent | known ↦ known | added fs comment ↦ added (e ∷ fs) comment ]

-- What `CheckIp` keeps an address as: itself, or its hash behind the key.
unfoldable pub stored_as : Crypto → Settings → Bytes → Bytes
unfolding hash
stored_as crypto config ip =
    if config.use_fxpiphash then hash crypto (config.bk ++ ip) config.hash_algo else ip

-- `CheckIp`: the result, the list, the message and the disk, to which the list is written when an
-- address is new.
unfoldable pub check_ip :
    Crypto → Settings → Disk → FpWhitelist → Bytes → Bytes → Bytes → ℤ × FpWhitelist × Bytes × Disk
check_ip crypto config disk w fp ip msg = elim (check_loop fp (stored_as crypto config ip) w.list) [
  | absent ↦ (negsuc 0, w, msg, disk)
  | known ↦ (pos 0, w, msg, disk)
  | added es comment ↦
      let w' : FpWhitelist = record w { list = es } in
      (
        pos 1,
        w',
        codes " new ip: " ++ (comment ++ (codes " [" ++ (fp ++ (codes "] - " ++ ip)))),
        (write_list crypto disk config.fpwhitelist_file config.fpwl_bk w').0,
      )
]
