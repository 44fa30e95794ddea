-- ===== src/Tests/SessionReload.antt =====
-- A configuration read again.
use yatb.Config.Defaults.{new_config}
use yatb.Config.{value, getkey, commented, getentry, plain_text, readconf}
use yatb.IpList.{readlist}
use yatb.Platform.{readfile, filesize}
use yatb.Prelude.{Bool, true, ◌||◌, Option, none, some, ◌≡◌, refl}
use yatb.Session.Admin.{adminlist, names}
use yatb.Session.Configure.{reload, reload_with, reloaded, take_config, config_taken, read_ips}
use yatb.Session.Reload.{option_of, is_in_list-reload}
use yatb.Session.State.{Shared, word}
use yatb.StringList.{is_in_list}
use yatb.Tests.Session.{session_host, shared}
use yatb.Text.{codes, same, c_str, find, starts_with, find_at, at, member, parts}

-- The globals behind the reload.
abbrev shared_of : Option (Bool × Shared) → Shared
shared_of none = shared
shared_of (some p) = p.1

abbrev after : Shared
after = shared_of (reload shared)

reload_run : reload shared ≡ some (true, after)
unfolding reload reload_with reloaded take_config config_taken read_ips word readconf plain_text
    filesize readfile c_str readlist getentry getkey commented find starts_with at find_at same
    value new_config
reload_run = refl

is_in_list-reload_example : is_in_list (names adminlist after) (codes "bob") ≡ (
    is_in_list (names adminlist shared) (codes "bob")
    || member (codes "bob") (parts (word after (option_of adminlist))))
is_in_list-reload_example = is_in_list-reload adminlist shared after (codes "bob") reload_run
