-- ===== src/Tests/Login.antt =====
-- A login with TLS.
use yatb.Login.{
  Server, login, finished, auth_tls, login_user, login_tls, login_pass, says, user_accepted,
  pass_accepted, is_code,
}
use yatb.Login.Dialogue.{Ends, LetIn, login-Ends}
use yatb.Prelude.{true, [], ◌∷◌, some, ◌≡◌, refl}
use yatb.Reply.{ftp_code, last_line, before, code_at, is_numeric}
use yatb.Text.{codes, find, starts_with, at, rfind}
use yatb.Text.Number.{atoi}

abbrev site : Server
site = record {
  connects = true;
  greeting = some (codes "220 hello\r\n");
  auth_written = true;
  auth_reply = some (codes "234 AUTH TLS successful\r\n");
  tls = true;
  user_written = true;
  user_reply = some (codes "331 Password required for joe.\r\n");
  pass_written = true;
  pass_reply = some (codes "230 User joe logged in.\r\n");
}

login_run :
    login site (codes "joe") (codes "secret") true []
    ≡ finished true (codes "SSL login successfull") (
        auth_tls
        ∷ (record { encrypted = true; line = codes "user joe\r\n" })
        ∷ (record { encrypted = true; line = codes "pass secret\r\n" })
        ∷ [])
unfolding login login_tls login_user login_pass says find starts_with ftp_code last_line before
    code_at is_numeric at rfind atoi user_accepted pass_accepted is_code
login_run = refl

login-Ends_example : Ends true (LetIn site) (login site (codes "joe") (codes "secret") true [])
login-Ends_example = login-Ends site (codes "joe") (codes "secret") true []
