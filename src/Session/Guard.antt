-- ===== src/Session/Guard.antt =====
-- The commands of admins: what lets them be done, and what they do.
use yatb.Control.{client}
use yatb.Prelude.{ap, ℕ, Bool, true, false, List, [], ◌∷◌, ◌++◌, some, ◌≡◌, refl, ◌∙◌}
use yatb.Session.Admin.{
  NameList, is_admin, guarded, kill, kill_all, names, set_names, names_add, names_del, insert_names,
  remove_names, with_argument, change, plural,
}
use yatb.Session.Client.{
  choose, transfers, forward, early, middle, guard_all, admin_commands, logged_in_command,
  login_command, client_command, command,
}
use yatb.Session.Relink.{behind}
use yatb.Session.State.{Host, State, Shared, Run, told, exited, goes_on, set_shared, tell}
use yatb.StringList.{insert, remove}
use yatb.Text.{Bytes, codes, find}

-- No test of a chain holds.
abbrev pub NoneOf : {A : Type 0} → List (Bool × A) → Type 0
NoneOf [] = Unit {0}
NoneOf ((test, action) ∷ rest) = (test ≡ false) × NoneOf rest

choose-NoneOf :
    {A : Type 0} (chain : List (Bool × A)) (other : A) → NoneOf chain → choose chain other ≡ other
choose-NoneOf [] other n = refl
choose-NoneOf ((test, action) ∷ rest) other n = rw n.0 (choose-NoneOf rest other n.1)

module _ ⦃h : Host⦄ where
  -- The reply to a change of a list.
  abbrev pub names_reply : NameList → Bytes → Bytes
  names_reply l what = codes "230 " ++ (plural l ++ what)

  login_command-logged_in :
      (s : Bytes) (t : State)
      → t.thread.gotusercmd ≡ true
      → t.thread.gotpasscmd ≡ true
      → login_command s t
        ≡ choose
            (middle t.shared s)
            (choose (guard_all s (admin_commands t.shared s)) (choose (transfers s) (forward s)))
            t
  unfolding login_command logged_in_command
  login_command-logged_in s t u p = simp (u, p)

  client_command-early : (s : Bytes) → NoneOf (early s) → client_command s ≡ login_command s
  unfolding client_command
  client_command-early s e = choose-NoneOf (early s) (login_command s) e

  -- Behind the login a line that is no command of every user goes to those of admins.
  client_command-admin :
      (s : Bytes) (t : State)
      → t.thread.gotusercmd ≡ true
      → t.thread.gotpasscmd ≡ true
      → NoneOf (early s)
      → NoneOf (middle t.shared s)
      → client_command s t
        ≡ choose (guard_all s (admin_commands t.shared s)) (choose (transfers s) (forward s)) t
  client_command-admin s t u p e m =
      ap (λ (run : Run Unit). run t) (client_command-early s e)
      ∙ (login_command-logged_in s t u p
          ∙ ap (λ (run : Run Unit). run t) (choose-NoneOf (middle t.shared s) _ m))

  -- The first of them.
  admin_commands-kill :
      (s : Bytes) (other : Run Unit) (t : State)
      → command t.shared (codes "killcmd") [] s ≡ true
      → is_admin t ≡ true
      → choose (guard_all s (admin_commands t.shared s)) other t
        ≡ exited (record t { shared = kill_all t.shared })
  unfolding guard_all admin_commands guarded kill
  admin_commands-kill s other t c a = simp (c, a)

  -- The command for `kill` of an admin.
  pub client_command-exits :
      (s : Bytes) (t : State)
      → t.thread.gotusercmd ≡ true
      → t.thread.gotpasscmd ≡ true
      → NoneOf (early s)
      → NoneOf (middle t.shared s)
      → command t.shared (codes "killcmd") [] s ≡ true
      → is_admin t ≡ true
      → client_command s t ≡ exited (record t { shared = kill_all t.shared })
  client_command-exits s t u p e m c a =
      client_command-admin s t u p e m ∙ admin_commands-kill s _ t c a

  guarded-admin :
      (s : Bytes) (action : Run Unit) (t : State)
      → is_admin t ≡ true
      → guarded s action t ≡ action t
  unfolding guarded
  guarded-admin s action t a = simp a

  with_argument-found :
      (s text : Bytes) (action : Bytes → Run Unit) (i : ℕ)
      → find s (codes " ") ≡ some i
      → with_argument s text action ≡ action (behind s i)
  unfolding with_argument
  with_argument-found s text action i f = rw (f, with_argument) refl

  change_lem :
      (f : Shared → Shared) (text : Bytes) (t : State) (world : h.World)
      → h.write client text t.world ≡ some (true, world)
      → change f text t
        ≡ goes_on tt (record t {
          shared = f t.shared;
          events = t.events ++ told client text ∷ [];
          world = world;
        })
  unfolding change set_shared tell
  change_lem f text t world w = simp w

  names_add_found :
      (l : NameList) (s : Bytes) (i : ℕ) (t : State) (world : h.World)
      → find s (codes " ") ≡ some i
      → h.write client (names_reply l (codes " added.\r\n")) t.world ≡ some (true, world)
      → names_add l s t
        ≡ goes_on tt (record t {
          shared = set_names l (insert (names l t.shared) (behind s i)) t.shared;
          events = t.events ++ told client (names_reply l (codes " added.\r\n")) ∷ [];
          world = world;
        })
  unfolding names_add insert_names
  names_add_found l s i t world f w =
      ap (λ (run : Run Unit). run t) (with_argument-found s _ (insert_names l) i f)
      ∙ change_lem _ _ t world w

  names_del_found :
      (l : NameList) (s : Bytes) (i : ℕ) (t : State) (world : h.World)
      → find s (codes " ") ≡ some i
      → h.write client (names_reply l (codes " removed.\r\n")) t.world ≡ some (true, world)
      → names_del l s t
        ≡ goes_on tt (record t {
          shared = set_names l (remove (names l t.shared) (behind s i)) t.shared;
          events = t.events ++ told client (names_reply l (codes " removed.\r\n")) ∷ [];
          world = world;
        })
  unfolding names_del remove_names
  names_del_found l s i t world f w =
      ap (λ (run : Run Unit). run t) (with_argument-found s _ (remove_names l) i f)
      ∙ change_lem _ _ t world w

  -- The two commands of an admin for a list, by the functions that they call.
  pub guarded-changes :
      (l : NameList) (s : Bytes) (i : ℕ) (t : State) (added removed : h.World)
      → is_admin t ≡ true
      → find s (codes " ") ≡ some i
      → h.write client (names_reply l (codes " added.\r\n")) t.world ≡ some (true, added)
      → h.write client (names_reply l (codes " removed.\r\n")) t.world ≡ some (true, removed)
      → (guarded s (names_add l s) t
          ≡ goes_on tt (record t {
            shared = set_names l (insert (names l t.shared) (behind s i)) t.shared;
            events = t.events ++ told client (names_reply l (codes " added.\r\n")) ∷ [];
            world = added;
          }))
        × (guarded s (names_del l s) t
            ≡ goes_on tt (record t {
              shared = set_names l (remove (names l t.shared) (behind s i)) t.shared;
              events = t.events ++ told client (names_reply l (codes " removed.\r\n")) ∷ [];
              world = removed;
            }))
  guarded-changes l s i t added removed a f w x = (
    guarded-admin s (names_add l s) t a ∙ names_add_found l s i t added f w,
    guarded-admin s (names_del l s) t a ∙ names_del_found l s i t removed f x,
  )
