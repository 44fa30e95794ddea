-- ===== src/Tests/DataChannel.antt =====
-- src/datathread.cc: a transfer of a user at concrete addresses.
use yatb.DataChannel.{
  check_direct, in_the_clear, tls_excused, Channel, other_end, check_access, refused,
}
use yatb.DataChannel.Access.{
  is_allowed, may_reach_client, may_reach_other, check_access_lem, check_access-first_listing,
  Check, Knows, checked,
}
use yatb.Prelude.{Bool, ◌∷◌, true, false, [], ◌≡◌, refl, if◌then◌else◌, pos}
use yatb.Session.State.{DataThread, flag}
use yatb.Tests.Session.{session_host, shared}
use yatb.Text.{Bytes, codes, same}

-- A passive connection of a user, who is at 10.0.0.9, without TLS.
abbrev plain : Bytes → DataThread
plain name = record {
  sscn = false;
  cpsvcmd = false;
  transfertype = 2;
  sslprotp = false;
  relinked = false;
  usingssl = false;
  activecon = false;
  username = name;
  clientip = codes "10.0.0.9";
  passiveip = codes "10.0.0.1";
  activeip = [];
  passiveport = pos 1025;
  activeport = pos 0;
  newport = pos 1026;
  passivecmd = [];
}

-- A listing, the first one of the session.
abbrev listing : Channel
listing = record {
  direction = codes "download";
  dirlisting = true;
  dirlist_ip = [];
  admin_msg = [];
}

-- `enforce_tls` is set in the configuration.
own_transfer_run :
    (check_access shared (plain (codes "ann")) [] (codes "10.0.0.9") listing).2
    ≡ refused (codes "427 Use SSL!\r\n")
unfolding check_access same other_end check_direct flag in_the_clear tls_excused
own_transfer_run = refl

check_access_lem_example :
    is_allowed (check_access shared (plain (codes "ann")) (codes "AB") (codes "10.0.0.7") listing).2
    ≡ (if same (other_end (plain (codes "ann")) (codes "10.0.0.7")) (codes "10.0.0.9")
        then may_reach_client shared (plain (codes "ann"))
        else may_reach_other
            (check_access shared (plain (codes "ann")) (codes "AB") (codes "10.0.0.7") listing).0
            (plain (codes "ann"))
            (codes "AB")
            (other_end (plain (codes "ann")) (codes "10.0.0.7"))
            (check_access shared (plain (codes "ann")) (codes "AB") (codes "10.0.0.7") listing).1)
check_access_lem_example =
    check_access_lem shared (plain (codes "ann")) (codes "AB") (codes "10.0.0.7") listing

-- A transfer of ann with an address, without TLS.
abbrev with_address : Bytes → Bytes → Bool → Check
with_address ip way is_listing = record {
  globals = shared;
  thread = plain (codes "ann");
  fp = [];
  clip = ip;
  direction = way;
  dirlisting = is_listing;
}

check_access-first_listing_example :
    Knows (with_address (codes "10.0.0.7") (codes "download") true) listing
    × Knows (with_address (codes "10.0.0.7") (codes "upload") false) (
        checked
          (with_address (codes "10.0.0.7") (codes "download") true
            ∷ with_address (codes "10.0.0.8") (codes "download") true
            ∷ [])
          listing)
unfolding other_end
check_access-first_listing_example =
    check_access-first_listing (with_address (codes "10.0.0.7") (codes "download") true)
      (with_address (codes "10.0.0.7") (codes "upload") false)
      (with_address (codes "10.0.0.8") (codes "download") true ∷ []) listing refl refl refl refl
