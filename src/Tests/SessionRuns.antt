-- ===== src/Tests/SessionRuns.antt =====
-- The theorems about sessions, at those of Tests/Session.
use yatb.Control.{client}
use yatb.Prelude.{All, none, true, false, List, [], ◌∷◌, ◌≡◌, refl, arith}
use yatb.Session.Admin.{is_admin}
use yatb.Reply.{is_endline, last_line, code_at, is_numeric, before}
use yatb.Session.Client.{client_command, early, middle, command}
use yatb.Session.LoginReplies.{mentions, reply_pass, login_answer, login_success}
use yatb.Strings.{upper}
use yatb.Session.Logins.{Counts, site_reply-counts}
use yatb.Session.Leads.{HoldsTo}
use yatb.Session.Killed.{secret_files, client_command-kill}
use yatb.Session.Invariant.{threads}
use yatb.Session.Keeps.{Holds}
use yatb.Session.Login.{HasTlsOrRelinks, site_reply-enforces_tls}
use yatb.Session.Mainloop.{Input, from_client, from_site, got, new_control_thread, mainloop, round}
use yatb.Session.Passive.{AddsUnheard, IsReset, site_reply_unheard}
use yatb.Session.Relink.{tryrelink, relink_done, starts, contains}
use yatb.Session.Replies.{site_reply, is_pasv_reply}
use yatb.Session.State.{State, Thread, set, set_shared, tell, flag, word, told, goes_on, exited}
use yatb.Session.Whole.{IsValid, SameGlobals, mainloop-IsValid, round_not_admin}
use yatb.StringList.{is_in_list}
use yatb.Tests.Session.{session_host, shared, user_sent, pass_sent, session}
use yatb.Text.{codes, same, member, find, starts_with, rfind, at, toupper}

abbrev inputs : List Input
inputs =
    from_client (got (codes "USER bob\r\n"))
    ∷ from_client (got (codes "PASS x\r\n"))
    ∷ from_site (got (codes "230 User bob logged in.\r\n"))
    ∷ []

mainloop-IsValid_example : Holds IsValid (Unit {0}) (
    mainloop false inputs (record {
      thread = new_control_thread (codes "10.0.0.9");
      shared = shared;
      events = [];
      world = tt;
    }))
mainloop-IsValid_example = mainloop-IsValid (codes "10.0.0.9") false inputs shared tt

joe-IsValid : IsValid (pass_sent (codes "joe")) shared []
unfolding threads new_control_thread
joe-IsValid = record { ordered = ground arith; stage = tt; shared = tt; logged = refl }

joe_no_admin : is_admin (session (pass_sent (codes "joe"))) ≡ false
unfolding is_admin is_in_list member same new_control_thread
joe_no_admin = refl

round_not_admin_example :
    Holds
      (λ th g es. SameGlobals shared g)
      ⊥
      (round (from_client (got (codes "!kill\r\n"))) (session (pass_sent (codes "joe"))))
round_not_admin_example =
    round_not_admin (from_client (got (codes "!kill\r\n"))) (session (pass_sent (codes "joe")))
      joe-IsValid joe_no_admin

client_command-kill_example :
    (t' : State) × (client_command (codes "!kill\r\n") (session (pass_sent (codes "bob")))
      ≡ exited t')
    × (t'.events ≡ [])
    × All (λ name. t'.shared.disk.file name ≡ none) (secret_files shared)
unfolding early middle command starts contains upper toupper find starts_with flag word is_admin
    is_in_list member same new_control_thread
client_command-kill_example =
    client_command-kill (codes "!kill\r\n") (session (pass_sent (codes "bob"))) refl refl (search)
      (search) refl refl (λ command name disk e. e) (refl, (refl, (refl, (refl, tt))))

site_reply-enforces_tls_example :
    HoldsTo
      (λ th g es. Unit {0})
      (λ th g es. HasTlsOrRelinks th)
      ⊥
      (site_reply (codes "331 Password required\r\n") (session (user_sent (codes "joe"))))
unfolding flag same new_control_thread
site_reply-enforces_tls_example =
    site_reply-enforces_tls (codes "331 Password required\r\n") (session (user_sent (codes "joe")))
      refl refl refl refl

site_reply-counts_example :
    HoldsTo
      (λ th g es. Unit {0})
      (Counts 0)
      ⊥
      (site_reply (codes "230 joe logged in.\r\n") (session (pass_sent (codes "joe"))))
unfolding new_control_thread
site_reply-counts_example =
    site_reply-counts (codes "230 joe logged in.\r\n") (session (pass_sent (codes "joe"))) refl refl
      refl

-- The login at the relink site fails on this host.
tryrelink_run :
    tryrelink false (session (pass_sent (codes "joe")))
    ≡ goes_on tt (record (session (pass_sent (codes "joe"))) {
      thread = record (pass_sent (codes "joe")) { relinked = true; gotwelcomemsg = true };
      events = told client (codes "230 user joe logged in.\r\n") ∷ [];
    })
unfolding tryrelink relink_done set tell flag word same new_control_thread
tryrelink_run = refl

-- `enforce_tls` is set, and `PASS` was sent before any answer: a login without TLS goes on.
site_reply_run :
    site_reply (codes "230 joe logged in.\r\n") (session (pass_sent (codes "joe")))
    ≡ goes_on tt (record (session (pass_sent (codes "joe"))) {
      thread = record (pass_sent (codes "joe")) { gotwelcomemsg = true };
      shared = record shared { nr_logins = 1 };
      events = told client (codes "230 joe logged in.\r\n") ∷ [];
    })
unfolding site_reply reply_pass login_answer login_success set set_shared tell flag same
    new_control_thread is_endline last_line code_at is_numeric before rfind at mentions contains
    upper toupper find starts_with word is_in_list member
site_reply_run = refl

-- Behind the answer to the login, with a `PASV` sent.
abbrev pasv_sent : Thread
pasv_sent = record (pass_sent (codes "joe")) { gotwelcomemsg = true; gotpasvcmd = true }

site_reply_unheard_example :
    HoldsTo
      (λ th g es. AddsUnheard (codes "425 No.\r\n") [] es)
      (λ th g es. AddsUnheard (codes "425 No.\r\n") [] es × IsReset th)
      ⊥
      (site_reply (codes "425 No.\r\n") (session pasv_sent))
unfolding flag same new_control_thread is_pasv_reply
site_reply_unheard_example =
    site_reply_unheard (codes "425 No.\r\n") (session pasv_sent) refl refl refl refl
