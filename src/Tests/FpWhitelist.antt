-- ===== src/Tests/FpWhitelist.antt =====
-- src/fpwhitelist.cc at a concrete list.
use yatb.FpWhitelist.{FpWhitelist, Settings, has_fp, read_list, write_list}
use yatb.FpWhitelist.RoundTrip.{forget_last, read_list-write_list_forgets}
use yatb.Prelude.{true, false, [], ◌∷◌, some, ◌≡◌, refl, arith, map}
use yatb.Strings.{upper}
use yatb.Tests.Host.{host, host-IsCipher, blank}
use yatb.Text.{codes, same, join}

abbrev plain : Settings
plain = record {
  use_fxpiphash = false;
  hash_algo = codes "sha1";
  crypted_fpwhitelist = true;
  fpwhitelist_file = codes "fp";
  bk = [];
  fpwl_bk = codes "key";
}

abbrev known_sites : FpWhitelist
known_sites = record {
  list =
      (record {
        fp = codes "AB:CD";
        comment = codes "home";
        user = codes "joe";
        iplist = codes "1.2" ∷ codes "3.4" ∷ [];
      })
      ∷ [];
}

-- The same list as the program that reads it from the file has it.
reread_run :
    read_list host plain
      (write_list host blank (codes "fp") (codes "key") known_sites).0
      (codes "fp")
      (codes "key")
      (record { list = [] })
    ≡ some (
      true,
      record {
        list =
            (record {
              fp = codes "AB:CD";
              comment = codes "home";
              user = codes "joe";
              iplist = codes "1.2" ∷ [];
            })
            ∷ [];
      },
    )
unfolding has_fp same upper join
reread_run =
    read_list-write_list_forgets host plain blank (codes "fp") (codes "key") known_sites
      host-IsCipher refl refl
      ((refl, omega arith, omega arith, omega arith, grind arith, omega arith), tt) (refl, tt)

read_list-write_list_forgets_example :
    read_list host plain
      (write_list host blank (codes "fp") (codes "key") known_sites).0
      (codes "fp")
      (codes "key")
      (record { list = [] })
    ≡ some (true, record { list = map forget_last known_sites.list })
unfolding has_fp same upper join
read_list-write_list_forgets_example =
    read_list-write_list_forgets host plain blank (codes "fp") (codes "key") known_sites
      host-IsCipher refl refl
      ((refl, omega arith, omega arith, omega arith, grind arith, omega arith), tt) (refl, tt)
