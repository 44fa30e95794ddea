-- ===== src/DataChannel.antt =====
-- src/datathread.cc: the part of `CDataThread::dataloop` that decides, once both ends are connected and
-- the direction is known, whether the transfer is allowed.
pub mod Access
use yatb.FpWhitelist
use yatb.Prelude.{Bool, true, false, not, ◌&&◌, ◌||◌, ◌++◌, [], if◌then◌else◌, ℤ, pos, suc, zero}
use yatb.Session.Admin.{list_settings}
use yatb.Session.State.{Host, Shared, DataThread, flag, word}
use yatb.StringList.{is_in_list}
use yatb.Text.{Bytes, codes, same, is_empty}
use yatb.Whitelist

-- What the data thread reads and changes of its control thread.
pub record Channel : Type 0 where
  pub direction : Bytes
  pub dirlisting : Bool
  pub dirlist_ip : Bytes
  pub admin_msg : Bytes

-- The transfer goes on, or the client is sent a text and the thread returns.
pub data Verdict : Type 0 where
  allowed : Verdict
  refused : Bytes → Verdict

module _ ⦃h : Host⦄ where
  -- Behind the first listing its address is remembered.
  unfoldable pub remember_listing : Bytes → Channel → Channel
  remember_listing ip c =
      if is_empty c.dirlist_ip && c.dirlisting then record c { dirlist_ip = ip } else c

  -- `!sslprotp || !usingssl`.
  unfoldable pub in_the_clear : DataThread → Bool
  in_the_clear d = not d.sslprotp || not d.usingssl

  -- `(config.use_ssl_exclude && sslexcludelist.IsInList(username)) || relinked`.
  unfoldable pub tls_excused : Shared → DataThread → Bool
  tls_excused g d =
      (flag g (codes "use_ssl_exclude") && is_in_list g.sslexcludelist d.username) || d.relinked

  -- A transfer of the client itself.
  unfoldable pub check_direct : Shared → DataThread → Verdict
  check_direct g d =
      if flag g (codes "enforce_tls") && in_the_clear d
      then if tls_excused g d then allowed else refused (codes "427 Use SSL!\r\n")
      else allowed

  -- The members of `config` that the list of fingerprints reads.
  unfoldable pub fp_settings : Shared → FpWhitelist.Settings
  fp_settings g = record {
    use_fxpiphash = flag g (codes "use_fxpiphash");
    hash_algo = word g (codes "hash_algo");
    crypted_fpwhitelist = flag g (codes "crypted_fpwhitelist");
    fpwhitelist_file = word g (codes "fpwhitelist_file");
    bk = g.bk;
    fpwl_bk = g.fpwl_bk;
  }

  -- The message for the admins where `CheckIp` added the address.
  unfoldable pub message : Shared → ℤ → Bytes → Channel → Channel
  message g (pos (suc zero)) msg c = record c {
    admin_msg = codes "site msg " ++ (word g (codes "fp_msg_nick") ++ (msg ++ codes "\r\n"));
  }
  message g n msg c = c

  -- `CheckIp`, which adds the address to those of the fingerprint.
  unfoldable pub note_ip : Shared → Bytes → Bytes → Channel → Shared × Channel
  note_ip g fp ip c =
      let (res, w, msg, disk) =
        FpWhitelist.check_ip h.crypto (fp_settings g) g.disk g.fpwhitelist fp ip [] in
      if flag g (codes "use_fxpiplist") && flag g (codes "fp_new_ip_msg")
      then (record g { fpwhitelist = w; disk = disk }, message g res msg c)
      else (g, c)

  -- Is the other end known: by its fingerprint, by its address, or is the user an admin?
  unfoldable pub is_known : Shared → DataThread → Bytes → Bytes → Channel → Bool
  is_known g d fp ip c =
      FpWhitelist.is_in_list g.fpwhitelist fp
      || (is_in_list g.adminlist d.username
          || (Whitelist.is_in_list h.crypto (list_settings g) g.whitelist ip
              || same ip c.dirlist_ip))

  -- `passive` or `active` in the replies.
  unfoldable pub mode : DataThread → Bytes
  mode d = if d.activecon then codes "active" else codes "passive"

  -- The lists of the users that may move data to the site and from it.
  unfoldable pub check_direction : Shared → DataThread → Channel → Verdict
  check_direction g d c =
      if same c.direction (codes "download")
        && (flag g (codes "use_fxpfromsite_list") && not (is_in_list g.fxpfromsitelist d.username))
      then refused (codes "427 " ++ (mode d ++ codes " FXP (dl) not allowed!\r\n"))
      else if same c.direction (codes "upload")
          && (flag g (codes "use_fxptosite_list") && not (is_in_list g.fxptositelist d.username))
      then refused (codes "427 " ++ (mode d ++ codes " FXP (ul) not allowed!\r\n"))
      else allowed

  -- A transfer between the site and a third party, behind `CheckIp`.
  unfoldable pub check_fxp : Shared → DataThread → Bytes → Bytes → Channel → Verdict
  check_fxp g d fp ip c =
      if flag g (codes "use_fxpiplist") && not (is_known g d fp ip c)
      then refused
          (codes "427 " ++ (mode d ++ (codes " FXP fp: " ++ (fp ++ codes " - not allowed!\r\n"))))
      else if flag g (codes "enforce_tls")
          && (flag g (codes "enforce_tls_fxp") && (in_the_clear d && not (tls_excused g d)))
      then refused (codes "427 Use SSL FXP!\r\n")
      else check_direction g d c

  -- The other end: the one that connected, or the one that `PORT` named.
  unfoldable pub other_end : DataThread → Bytes → Bytes
  other_end d clip = if d.activecon then d.activeip else clip

  -- The whole decision, with the globals and the control thread behind it.
  unfoldable pub check_access :
      Shared → DataThread → Bytes → Bytes → Channel → Shared × Channel × Verdict
  check_access g d fp clip c =
      let ip = other_end d clip in
      let c1 = remember_listing ip c in
      if same ip d.clientip then (g, c1, check_direct g d) else (
        (note_ip g fp ip c1).0,
        (note_ip g fp ip c1).1,
        check_fxp (note_ip g fp ip c1).0 d fp ip (note_ip g fp ip c1).1,
      )
