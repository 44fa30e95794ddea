-- ===== src/Session/Killed.antt =====
-- What the `kill` of an admin leaves.
use yatb.KillFile.Gone.{MakesNone, kill_file_removed, kill_file_other}
use yatb.KillFile.{kill_file}
use yatb.Platform.{Disk}
use yatb.Prelude.{true, List, [], ◌∷◌, none, ◌≡◌, refl, All}
use yatb.Session.Admin.{is_admin, kill_all}
use yatb.Session.Client.{early, middle, client_command, command}
use yatb.Session.Guard.{NoneOf, client_command-exits}
use yatb.Session.State.{Host, State, Shared, exited, word}
use yatb.Text.{Bytes, codes}

module _ ⦃h : Host⦄ where
  -- The certificate, the configuration, the program, and the white list of addresses.
  abbrev pub secret_files : Shared → List Bytes
  secret_files g =
      word g (codes "cert_path") ∷ g.conffile ∷ g.yatbfilename ∷ word g (codes "iplist_file") ∷ []

  abbrev destroyed : List Bytes → Disk → Disk
  destroyed [] disk = disk
  destroyed (f ∷ fs) disk = destroyed fs (kill_file h.shell disk f).0

  destroyed-none :
      (fs : List Bytes) (disk : Disk) (name : Bytes)
      → MakesNone h.shell
      → disk.file name ≡ none
      → (destroyed fs disk).file name ≡ none
  destroyed-none [] disk name m e = e
  destroyed-none (f ∷ fs) disk name m e =
      destroyed-none fs _ name m (kill_file_other h.shell disk f name m e)

  destroyed-Gone :
      (fs : List Bytes) (disk : Disk)
      → MakesNone h.shell
      → All (λ name. h.shell.removable name ≡ true) fs
      → All (λ name. (destroyed fs disk).file name ≡ none) fs
  destroyed-Gone [] disk m r = tt
  destroyed-Gone (f ∷ fs) disk m r = (
    destroyed-none fs _ f m (kill_file_removed h.shell disk f r.0),
    destroyed-Gone fs (kill_file h.shell disk f).0 m r.1,
  )

  kill_all-files : (g : Shared) → (kill_all g).disk ≡ destroyed (secret_files g) g.disk
  unfolding kill_all
  kill_all-files g = refl

  kill_all-Gone :
      (g : Shared)
      → MakesNone h.shell
      → All (λ name. h.shell.removable name ≡ true) (secret_files g)
      → All (λ name. (kill_all g).disk.file name ≡ none) (secret_files g)
  unfolding kill_all
  kill_all-Gone g m r = destroyed-Gone (secret_files g) g.disk m r

  -- A line that is no other command is the one for `kill`, and the user is an admin, who has sent `USER`
  -- and `PASS`: whatever the site has answered, if anything, the program exits without another word to
  -- anyone, and the certificate, the configuration, the program and the white list of addresses are no
  -- longer there. The four can be removed, and no command that the shell is given makes a file that was
  -- missing.
  pub client_command-kill :
      (s : Bytes) (t : State)
      → t.thread.gotusercmd ≡ true
      → t.thread.gotpasscmd ≡ true
      → NoneOf (early s)
      → NoneOf (middle t.shared s)
      → command t.shared (codes "killcmd") [] s ≡ true
      → is_admin t ≡ true
      → MakesNone h.shell
      → All (λ name. h.shell.removable name ≡ true) (secret_files t.shared)
      → (t' : State) × (client_command s t ≡ exited t')
        × (t'.events ≡ t.events)
        × All (λ name. t'.shared.disk.file name ≡ none) (secret_files t.shared)
  client_command-kill s t u p e m c a n r = (
    record t { shared = kill_all t.shared },
    client_command-exits s t u p e m c a,
    refl,
    kill_all-Gone t.shared n r,
  )
