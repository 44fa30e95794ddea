-- ===== src/Tests/Config.antt =====
-- A configuration file.
use yatb.Config.{text, text_value, value, commented, getkey, plain_text, readconf}
use yatb.Config.Written.{readconf-written}
use yatb.Config.Defaults.{new_config}
use yatb.Config.Options.{options}
use yatb.Platform.{Disk, readfile, filesize}
use yatb.Prelude.{arith, if◌then◌else◌, ℕ, true, false, [], some, ◌≡◌, refl, length}
use yatb.Tests.Host.{host}
use yatb.Text.{same, Bytes, codes, find, starts_with, at, c_str, find_at}

-- `atof` is not called for the options below.
abbrev atof : Bytes → ℕ
atof s = length s

abbrev conf : Bytes
conf = codes "# yatb\nlisten_port=1234;\nsite_ip=1.2.3.4;\n"

abbrev front : Bytes
front = codes "# yatb\nlisten_port=1234;\n"

abbrev disk : Disk
disk = record { file = λ name. some conf; writable = λ name. true }

getkey_run : getkey (codes "listen_port") conf ≡ codes "1234"
unfolding getkey find starts_with commented at find_at
getkey_run = refl

readconf-written_example :
    (readconf atof options host disk
        (codes "yatb.conf")
        []
        false
        (new_config 0 (λ n. text_value []))).1
      (codes "site_ip")
    ≡ (if commented conf (length front)
        then new_config 0 (λ n. text_value []) (codes "site_ip")
        else value atof text (codes "1.2.3.4"))
unfolding plain_text filesize readfile c_str same find starts_with
readconf-written_example =
    readconf-written 0 atof host disk (codes "yatb.conf") [] false (λ n. text_value []) front
      (codes "site_ip") (codes "1.2.3.4") (codes "\n") text refl refl refl (omega arith)
      (omega arith) refl
