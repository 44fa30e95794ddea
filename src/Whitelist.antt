-- ===== src/Whitelist.antt =====
-- src/whitelist.cc: `CWhitelist`, the addresses to which data connections are allowed, in the clear
-- or as hashes. (src/fxpiplist.cc is an older copy of it that the Makefile does not build.)
pub mod Members
pub mod RoundTrip
use yatb.ListFile.{store, load}
use yatb.Platform.{Crypto, Disk, hash}
use yatb.Prelude.{ℕ, Bool, true, false, List, [], ◌∷◌, ◌++◌, Option, none, some, if◌then◌else◌}
use yatb.Text.{Bytes, codes, same, is_empty, find, cut_at}

pub record Entry : Type 0 where
  pub ip : Bytes
  pub comment : Bytes
  pub user : Bytes

pub record Whitelist : Type 0 where
  pub list : List Entry

-- The members of `config` and the global `bk` that the list reads.
pub record Settings : Type 0 where
  pub use_fxpiphash : Bool
  pub hash_algo : Bytes
  pub crypted_iplist : Bool
  pub bk : Bytes

-- The loop `if (List[i].ip == tmp) return 1;`.
unfoldable pub has_ip : Bytes → List Entry → Bool
has_ip tmp [] = false
has_ip tmp (e ∷ es) = if same e.ip tmp then true else has_ip tmp es

-- The loop of `GetComment`.
unfoldable pub comment_of : Bytes → List Entry → Bytes
comment_of tmp [] = []
comment_of tmp (e ∷ es) =
    if same e.ip tmp then e.comment ++ (codes " - " ++ e.user) else comment_of tmp es

-- `List.erase(it)` at the first entry of that address.
unfoldable pub erase_ip : Bytes → List Entry → List Entry
erase_ip tmp [] = []
erase_ip tmp (e ∷ es) = if same e.ip tmp then es else e ∷ erase_ip tmp es

-- The line of an entry in `WriteList`.
unfoldable pub entry_line : Entry → Bytes
entry_line e = e.ip ++ b',' ∷ (e.comment ++ b',' ∷ e.user)

-- The loop of `WriteList`.
unfoldable pub write_loop : Bytes → List Entry → Bytes
unfolding entry_line
write_loop daten [] = daten
write_loop daten (e ∷ es) = write_loop (daten ++ (entry_line e ++ codes "\r\n")) es

-- The loop of `GetList`.
unfoldable pub report_loop : Bytes → List Entry → Bytes
report_loop tmp [] = tmp
report_loop tmp (e ∷ es) =
    report_loop
      (tmp
        ++ (codes "200- "
            ++ (e.ip ++ (codes " - " ++ (e.comment ++ (codes " - " ++ (e.user ++ codes "\r\n")))))))
      es

unfoldable pub get_list : Whitelist → Bytes
unfolding report_loop
get_list w =
    report_loop (codes "200- FxpIp report start\r\n") w.list ++ codes "200 FxpIp report end\r\n"

unfoldable pub write_list : Crypto → Disk → Bytes → Bytes → Whitelist → Disk × Bool
unfolding write_loop store
write_list crypto disk filename key w = store crypto disk filename key (write_loop [] w.list)

module _ (crypto : Crypto) (config : Settings) where
  -- What an address is stored as: itself, or its hash behind the key.
  unfoldable pub stored_as : Bytes → Bytes
  unfolding hash
  stored_as s = if config.use_fxpiphash then hash crypto (config.bk ++ s) config.hash_algo else s

  unfoldable pub is_in_list : Whitelist → Bytes → Bool
  unfolding has_ip stored_as
  is_in_list w s = has_ip (stored_as s) w.list

  unfoldable pub get_comment : Whitelist → Bytes → Bytes
  unfolding comment_of stored_as
  get_comment w s = comment_of (stored_as s) w.list

  -- With hashes an argument that has no dot is taken for a hash.
  unfoldable pub remove : Whitelist → Bytes → Whitelist
  unfolding erase_ip find
  remove w s =
      let tmp =
        if config.use_fxpiphash
        then (elim (find s (codes ".")) [ none ↦ s | some pos ↦ stored_as s ])
        else s in
      record w { list = erase_ip tmp w.list }

  -- `Insert`: 1 for a new entry, 2 for an address that is there, 0 for a malformed text.
  unfoldable pub insert : Whitelist → Bytes → ℕ × Whitelist
  insert w s = if is_empty s then (0, w) else elim (cut_at b',' s) [
    | none ↦ (0, w)
    | some (first, rest) ↦ if is_in_list w first then (2, w) else elim (cut_at b',' rest) [
      | none ↦ (0, w)
      | some (comment, user) ↦ (
        1,
        record w {
          list = w.list ++ (record { ip = stored_as first; comment = comment; user = user }) ∷ [];
        },
      )
    ]
  ]

  -- `Insert_nokey`: the address is stored as it stands; the test is on the whole line.
  unfoldable pub insert_nokey : Whitelist → Bytes → Whitelist
  insert_nokey w s = if is_empty s then w else if is_in_list w s then w else elim (cut_at b',' s) [
    | none ↦ w
    | some (ip, rest) ↦ elim (cut_at b',' rest) [
      | none ↦ w
      | some (comment, user) ↦ record w {
        list = w.list ++ (record { ip = ip; comment = comment; user = user }) ∷ [];
      }
    ]
  ]

  unfoldable pub read_list : Disk → Bytes → Bytes → Whitelist → Option (Bool × Whitelist)
  unfolding insert_nokey
  read_list disk filename key w = load insert_nokey crypto disk config.crypted_iplist filename key w
