-- ===== src/Tests/Whitelist.antt =====
-- src/whitelist.cc at a concrete list.
use mathlib.Core.List.{foldl}
use yatb.ListFile.{store, load}
use yatb.ListFile.RoundTrip.{lines_text, load-store}
use yatb.Platform.{hash}
use yatb.Prelude.{true, false, not, ◌||◌, List, [], ◌∷◌, ◌++◌, some, ◌≡◌, refl, arith}
use yatb.Tests.Host.{host, host-IsCipher, blank}
use yatb.Text.{Bytes, codes, same, cut_at, is_empty}
use yatb.Whitelist.{
  Whitelist, entry_line, Settings, has_ip, stored_as, is_in_list, insert, read_list, write_list,
  get_comment,
}
use yatb.Whitelist.Members.{DistinctIps, is_in_list-insert_line}
use yatb.Whitelist.RoundTrip.{read_list-write_list}

-- Addresses in the clear.
abbrev clear : Settings
clear = record { use_fxpiphash = false; hash_algo = codes "sha1"; crypted_iplist = true; bk = [] }

-- Addresses as hashes behind the key `k`.
abbrev hashed : Settings
hashed = record {
  use_fxpiphash = true;
  hash_algo = codes "sha1";
  crypted_iplist = true;
  bk = codes "k";
}

abbrev sites : Whitelist
sites = record {
  list =
      (record { ip = codes "1.2.3.4"; comment = codes "home"; user = codes "joe" })
      ∷ (record { ip = codes "6b372e38"; comment = codes "work"; user = codes "ann" })
      ∷ [];
}

sites-DistinctIps : DistinctIps sites.list
unfolding has_ip same
sites-DistinctIps = (refl, (refl, tt))

insert_run : (insert host hashed sites (codes "7.8,site,joe")).0 ≡ 2
unfolding insert same cut_at hash is_in_list
insert_run = refl

get_comment_run : get_comment host hashed sites (codes "7.8") ≡ codes "work - ann"
unfolding get_comment same hash
get_comment_run = refl

is_in_list-insert_line_example :
    is_in_list host hashed
      (insert host hashed sites (codes "5.6" ++ b',' ∷ (codes "site" ++ b',' ∷ codes "joe"))).1
      (codes "7.8")
    ≡ (is_in_list host hashed sites (codes "7.8")
        || same (stored_as host hashed (codes "5.6")) (stored_as host hashed (codes "7.8")))
is_in_list-insert_line_example =
    is_in_list-insert_line host hashed sites (codes "5.6") (codes "site") (codes "joe")
      (codes "7.8") (omega arith) (omega arith)

read_list-write_list_example :
    read_list host clear
      (write_list host blank (codes "wl") (codes "key") sites).0
      (codes "wl")
      (codes "key")
      (record { list = [] })
    ≡ some (true, sites)
unfolding has_ip same stored_as entry_line
read_list-write_list_example =
    read_list-write_list host clear blank (codes "wl") (codes "key") sites host-IsCipher refl refl
      (omega arith) (refl, (refl, tt))

-- A reader that counts the lines.
abbrev collect : List Bytes → Bytes → List Bytes
collect ls l = ls ++ l ∷ []

load-store_example :
    load collect host
      (store host blank (codes "f") (codes "key") (lines_text (codes "one" ∷ codes "two" ∷ []))).0
      (not (is_empty (codes "key")))
      (codes "f")
      (codes "key")
      []
    ≡ some (true, foldl collect [] (codes "one" ∷ codes "two" ∷ []))
load-store_example =
    load-store collect host blank (codes "f") (codes "key") (codes "one" ∷ codes "two" ∷ []) []
      host-IsCipher refl (omega arith)
