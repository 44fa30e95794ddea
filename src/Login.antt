-- ===== src/Login.antt =====
-- src/tools.cc: `Login`, which opens a control connection and logs in: the dialogue, over what the
-- calls of `Connect`, `GetLine`, `control_write` and `SslConnect` give.
pub mod Dialogue
use yatb.Prelude.{
  ℕ, Bool, true, false, not, ◌&&◌, ◌||◌, List, [], ◌∷◌, ◌++◌, Option, none, some, ◌==◌,
  if◌then◌else◌, ℤ, pos, negsuc,
}
use yatb.Reply.{ftp_code}
use yatb.Text.{Bytes, codes, find}

-- What the calls give, in their order: the results of `Connect`, `SslConnect` and `control_write`, and
-- the replies of `GetLine`, `none` for a read error.
pub record Server : Type 0 where
  pub connects : Bool
  pub greeting : Option Bytes
  pub auth_written : Bool
  pub auth_reply : Option Bytes
  pub tls : Bool
  pub user_written : Bool
  pub user_reply : Option Bytes
  pub pass_written : Bool
  pub pass_reply : Option Bytes

-- A line that is given to `control_write`: over the TLS connection in `*ssl`, or in the clear. `*ssl`
-- holds none when `Login` is called, and one behind `SslConnect` exactly where that returned 1.
pub record Sent : Type 0 where
  pub encrypted : Bool
  pub line : Bytes

-- How `Login` ends: `FtpCode` reads behind the reply, or with the result, the message and the lines.
pub data Result : Type 0 where
  undefined : Result
  finished : Bool → Bytes → List Sent → Result

-- `code == n`.
unfoldable pub is_code : ℤ → ℕ → Bool
is_code (pos c) n = c == n
is_code (negsuc c) n = false

-- `reply.find(text,0) != string::npos`.
unfoldable pub says : Bytes → Bytes → Bool
says reply text = elim (find reply text) [ none ↦ false | some i ↦ true ]

-- Does the site ask for the password, or let the user in?
unfoldable pub user_accepted : Bytes → ℤ → Bool
unfolding says is_code
user_accepted reply code =
    says reply (codes "331 Password required for")
    || (says reply (codes "login ok")
        || (says reply (codes "specify the password") || (is_code code 331 || is_code code 230)))

unfoldable pub pass_accepted : Bytes → ℤ → Bool
unfolding says is_code
pass_accepted reply code =
    says reply (codes "logged in.")
    || (says reply (codes "access granted")
        || (says reply (codes "Login successful") || is_code code 230))

-- The end of a successful login.
unfoldable pub succeeded : Bool → List Sent → Result
succeeded usessl sent =
    finished true (if usessl then codes "SSL login successfull" else codes "Login successfull") sent

-- The password and its reply. `ssl`: is there a TLS connection in `*ssl`?
unfoldable pub login_pass : Server → Bool → Bool → Bytes → ℤ → List Sent → Result
unfolding succeeded pass_accepted
login_pass server usessl ssl pass code before =
    let sent : List Sent =
      before ++ (record { encrypted = ssl; line = codes "pass " ++ (pass ++ codes "\r\n") }) ∷ [] in
    if not server.pass_written
    then finished false (codes "write error") sent
    else elim server.pass_reply [
      | none ↦ finished false (codes "read error") sent
      | some reply ↦ elim (ftp_code reply code) [
        | none ↦ undefined
        | some (found, code') ↦
            if not found
            then finished false (codes "ftpcode error") sent
            else if pass_accepted reply code'
            then succeeded usessl sent
            else finished false (codes "login failed") sent
      ]
    ]

-- The user and the reply to it.
unfoldable pub login_user : Server → Bool → Bool → Bytes → Bytes → List Sent → Result
unfolding succeeded user_accepted is_code login_pass
login_user server usessl ssl user pass before =
    let sent : List Sent =
      before ++ (record { encrypted = ssl; line = codes "user " ++ (user ++ codes "\r\n") }) ∷ [] in
    if not server.user_written
    then finished false (codes "write error") sent
    else elim server.user_reply [
      | none ↦ finished false (codes "read error") sent
      | some reply ↦ elim (ftp_code reply (pos 0)) [
        | none ↦ undefined
        | some (found, code) ↦
            if not found
            then finished false (codes "ftpcode error") sent
            else if not (user_accepted reply code)
            then finished false (codes "login failed") sent
            else if is_code code 230
            then succeeded usessl sent
            else login_pass server usessl ssl pass code sent
      ]
    ]

abbrev pub auth_tls : Sent
auth_tls = record { encrypted = false; line = codes "AUTH TLS\r\n" }

-- The change to TLS; where `SslConnect` fails the message is left as it was.
unfoldable pub login_tls : Server → Bytes → Bytes → Bytes → Result
unfolding login_user says
login_tls server user pass message =
    if not server.auth_written
    then finished false (codes "write error") (auth_tls ∷ [])
    else elim server.auth_reply [
      | none ↦ finished false (codes "read error") (auth_tls ∷ [])
      | some reply ↦
          if not (says reply (codes "AUTH TLS successful"))
          then finished false (codes "AUTH TLS failed") (auth_tls ∷ [])
          else if not server.tls
          then finished false message (auth_tls ∷ [])
          else login_user server true server.tls user pass (auth_tls ∷ [])
    ]

unfoldable pub login : Server → Bytes → Bytes → Bool → Bytes → Result
unfolding login_tls login_user
login server user pass usessl message =
    if not server.connects
    then finished false (codes "could not connect") []
    else elim server.greeting [
      | none ↦ finished false (codes "read error") []
      | some reply ↦
          if usessl
          then login_tls server user pass message
          else login_user server false false user pass []
    ]
