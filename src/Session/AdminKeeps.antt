-- ===== src/Session/AdminKeeps.antt =====
-- The commands of admins keep the invariant of a session, and nothing of them is done for other users.
use yatb.Prelude.{
  Bool, true, false, List, [], ◌∷◌, ◌++◌, Option, none, some, ◌≡◌, Option-cases, inl, inr,
}
use yatb.Session.Admin.{
  NameList, is_admin, guarded, change, with_argument, names_show, insert_names, remove_names,
  fxpip_insert, fxpip_remove, fpwl_insert, fpwl_remove, names_add, names_del, fxpip_show, fxpip_add,
  fxpip_del, fpwl_show, fpwl_add, fpwl_del, kill,
}
use yatb.Session.Configure.{reload_reply, reload_command}
use yatb.Session.Client.{choose, names_commands, whitelist_commands, admin_commands, guard_all}
use yatb.Session.Help.{bnchelp, bncinfo}
use yatb.Session.Invariant.{Flags, Inv, tells, Keeps-shared}
use yatb.Session.Keeps.{Predicate, Holds, Keeps, Keeps-then, Keeps-get, Keeps-if}
use yatb.Session.State.{Host, State, Shared, Run}
use yatb.Text.{Bytes, codes, find}
use yatb.Control.{client}
use yatb.Session.Relink.{behind}

module _ ⦃h : Host⦄ where
  -- The actions of a chain, one by one.
  abbrev pub AllHold : Predicate → Type 0 → State → List (Bool × Run Unit) → Type 0
  AllHold P X t [] = Unit {0}
  AllHold P X t ((test, action) ∷ rest) = Holds P X (action t) × AllHold P X t rest

  abbrev pub AllKeep : Predicate → Type 0 → List (Bool × Run Unit) → Type 0
  AllKeep P X [] = Unit {0}
  AllKeep P X ((test, action) ∷ rest) = Keeps P X action × AllKeep P X rest

  pub choose-Holds :
      (P : Predicate) (X : Type 0) (t : State) (chain : List (Bool × Run Unit)) (other : Run Unit)
      → AllHold P X t chain
      → Holds P X (other t)
      → Holds P X (choose chain other t)
  choose-Holds P X t [] other all o = o
  choose-Holds P X t ((true, action) ∷ rest) other all o = all.0
  choose-Holds P X t ((false, action) ∷ rest) other all o = choose-Holds P X t rest other all.1 o

  pub AllKeep-Holds :
      (P : Predicate) (X : Type 0) (t : State) (chain : List (Bool × Run Unit))
      → P t.thread t.shared t.events
      → AllKeep P X chain
      → AllHold P X t chain
  AllKeep-Holds P X t [] p all = tt
  AllKeep-Holds P X t ((test, action) ∷ rest) p all =
      (all.0.run t p, AllKeep-Holds P X t rest p all.1)

  AllKeep-append :
      (P : Predicate) (X : Type 0) (xs ys : List (Bool × Run Unit))
      → AllKeep P X xs
      → AllKeep P X ys
      → AllKeep P X (xs ++ ys)
  AllKeep-append P X [] ys a b = b
  AllKeep-append P X ((test, action) ∷ xs) ys a b = (a.0, AllKeep-append P X xs ys a.1 b)

  module _ {S : Flags → Type 0} {G : Shared → Type 0} where
    -- What is behind the guard is not done for a user who is no admin.
    pub guarded_refused :
        (X : Type 0) (s : Bytes) (action : Run Unit) (t : State)
        → is_admin t ≡ false
        → Inv S G t.thread t.shared t.events
        → Holds (Inv S G) X (guarded s action t)
    guarded_refused X s action t e v =
        unfold guarded in rw e ((tells {S = S} {G = G} {X = X} _ _).run t v)

    pub guarded-Keeps :
        {X : Type 0} (s : Bytes) (action : Run Unit)
        → Keeps (Inv S G) X action
        → Keeps (Inv S G) X (guarded s action)
    guarded-Keeps s action k = unfold guarded in Keeps-get λ t. Keeps-if _ k (tells _ _)

    -- So it is for a whole chain.
    pub guard_all-refused :
        (X : Type 0) (s : Bytes) (chain : List (Bool × Run Unit)) (t : State)
        → is_admin t ≡ false
        → Inv S G t.thread t.shared t.events
        → AllHold (Inv S G) X t (guard_all s chain)
    unfolding guard_all
    guard_all-refused X s [] t e v = tt
    guard_all-refused X s ((test, action) ∷ rest) t e v =
        (guarded_refused X s action t e v, guard_all-refused X s rest t e v)

    pub bnchelp-Keeps : {X : Type 0} → Keeps (Inv S G) X bnchelp
    bnchelp-Keeps = unfold bnchelp in Keeps-get λ t. tells _ _

    pub bncinfo-Keeps : {X : Type 0} → Keeps (Inv S G) X bncinfo
    bncinfo-Keeps = unfold bncinfo in Keeps-get λ t. tells _ _

  pub guard_all-Keeps :
      (S : Flags → Type 0) (G : Shared → Type 0) (X : Type 0) (s : Bytes)
      (chain : List (Bool × Run Unit))
      → AllKeep (Inv S G) X chain
      → AllKeep (Inv S G) X (guard_all s chain)
  unfolding guard_all
  guard_all-Keeps S G X s [] all = tt
  guard_all-Keeps S G X s ((test, action) ∷ rest) all =
      (guarded-Keeps s action all.0, guard_all-Keeps S G X s rest all.1)

  -- With nothing said of the globals.
  abbrev pub AnyShared : Shared → Type 0
  AnyShared g = Unit {0}

  module _ {S : Flags → Type 0} {X : Type 0} where
    with_argument-Keeps :
        (s text : Bytes) (action : Bytes → Run Unit)
        → ((s' : Bytes) → Keeps (Inv S AnyShared) X (action s'))
        → Keeps (Inv S AnyShared) X (with_argument s text action)
    unfolding with_argument
    with_argument-Keeps s text action k = elim (Option-cases (find s (codes " "))) [
      | inl e ↦ rw (e, with_argument) (tells client text)
      | inr (i, e) ↦ rw (e, with_argument) (k (behind s i))
    ]

    changes : (f : Shared → Shared) (s : Bytes) → Keeps (Inv S AnyShared) X (change f s)
    changes f s = unfold change in Keeps-then (Keeps-shared f λ g a. tt) (tells client s)

    names_show-Keeps : (l : NameList) → Keeps (Inv S AnyShared) X (names_show l)
    names_show-Keeps l = unfold names_show in Keeps-get λ t. tells _ _

    insert_names-Keeps : (l : NameList) (s : Bytes) → Keeps (Inv S AnyShared) X (insert_names l s)
    insert_names-Keeps l s = unfold insert_names in changes _ _

    remove_names-Keeps : (l : NameList) (s : Bytes) → Keeps (Inv S AnyShared) X (remove_names l s)
    remove_names-Keeps l s = unfold remove_names in changes _ _

    names_add-Keeps : (l : NameList) (s : Bytes) → Keeps (Inv S AnyShared) X (names_add l s)
    names_add-Keeps l s = unfold names_add in with_argument-Keeps _ _ _ (insert_names-Keeps l)

    names_del-Keeps : (l : NameList) (s : Bytes) → Keeps (Inv S AnyShared) X (names_del l s)
    names_del-Keeps l s = unfold names_del in with_argument-Keeps _ _ _ (remove_names-Keeps l)

    fxpip_show-Keeps : Keeps (Inv S AnyShared) X fxpip_show
    fxpip_show-Keeps = unfold fxpip_show in Keeps-get λ t. tells _ _

    fxpip_insert-Keeps : (s : Bytes) → Keeps (Inv S AnyShared) X (fxpip_insert s)
    fxpip_insert-Keeps s =
        unfold fxpip_insert in
        Keeps-get λ t. Keeps-if _ (changes _ _) (Keeps-if _ (tells _ _) (tells _ _))

    fxpip_remove-Keeps : (s : Bytes) → Keeps (Inv S AnyShared) X (fxpip_remove s)
    fxpip_remove-Keeps s = unfold fxpip_remove in changes _ _

    fxpip_add-Keeps : (s : Bytes) → Keeps (Inv S AnyShared) X (fxpip_add s)
    fxpip_add-Keeps s = unfold fxpip_add in with_argument-Keeps _ _ _ fxpip_insert-Keeps

    fxpip_del-Keeps : (s : Bytes) → Keeps (Inv S AnyShared) X (fxpip_del s)
    fxpip_del-Keeps s = unfold fxpip_del in with_argument-Keeps s _ fxpip_remove fxpip_remove-Keeps

    fpwl_show-Keeps : Keeps (Inv S AnyShared) X fpwl_show
    fpwl_show-Keeps = unfold fpwl_show in Keeps-get λ t. tells _ _

    fpwl_insert-Keeps : (s : Bytes) → Keeps (Inv S AnyShared) X (fpwl_insert s)
    fpwl_insert-Keeps s =
        unfold fpwl_insert in
        Keeps-get λ t. Keeps-if _ (changes _ _) (Keeps-if _ (tells _ _) (tells _ _))

    fpwl_remove-Keeps : (s : Bytes) → Keeps (Inv S AnyShared) X (fpwl_remove s)
    fpwl_remove-Keeps s = unfold fpwl_remove in changes _ _

    fpwl_add-Keeps : (s : Bytes) → Keeps (Inv S AnyShared) X (fpwl_add s)
    fpwl_add-Keeps s = unfold fpwl_add in with_argument-Keeps _ _ _ fpwl_insert-Keeps

    fpwl_del-Keeps : (s : Bytes) → Keeps (Inv S AnyShared) X (fpwl_del s)
    fpwl_del-Keeps s = unfold fpwl_del in with_argument-Keeps _ _ _ fpwl_remove-Keeps

    kill-Keeps : X → Keeps (Inv S AnyShared) X kill
    kill-Keeps x = unfold kill in record { run = λ t v. x }

    reload_reply-Keeps : (o : Option (Bool × Shared)) → Keeps (Inv S AnyShared) X (reload_reply o)
    unfolding reload_reply
    reload_reply-Keeps none = record { run = λ t v. tt }
    reload_reply-Keeps (some (true, g)) = changes (λ g0. g) _
    reload_reply-Keeps (some (false, g)) = tells _ _

    reload_command-Keeps : Keeps (Inv S AnyShared) X reload_command
    reload_command-Keeps = unfold reload_command in Keeps-get λ t. reload_reply-Keeps _

  module _ (S : Flags → Type 0) (X : Type 0) (g : Shared) (s : Bytes) where
    names_commands-Keeps :
        (cmd : Bytes) (l : NameList) → AllKeep (Inv S AnyShared) X (names_commands g cmd l s)
    names_commands-Keeps cmd l =
        unfold names_commands in
        (names_show-Keeps l, (names_add-Keeps l s, (names_del-Keeps l s, tt)))

    whitelist_commands-Keeps : AllKeep (Inv S AnyShared) X (whitelist_commands g s)
    whitelist_commands-Keeps =
        unfold whitelist_commands in
        (
          fxpip_show-Keeps,
          (
            fxpip_add-Keeps s,
            (fxpip_del-Keeps s, (fpwl_show-Keeps, (fpwl_add-Keeps s, (fpwl_del-Keeps s, tt)))),
          ),
        )

    -- The commands of admins keep the invariant, with the globals as they make them.
    pub admin_commands-Keeps : X → AllKeep (Inv S AnyShared) X (admin_commands g s)
    admin_commands-Keeps x =
        unfold admin_commands in
        (
          kill-Keeps x,
          (
            reload_command-Keeps,
            AllKeep-append (Inv S AnyShared) X _ _ (names_commands-Keeps _ _) (
                AllKeep-append (Inv S AnyShared) X _ _ (names_commands-Keeps _ _) (
                  AllKeep-append (Inv S AnyShared) X _ _ (names_commands-Keeps _ _) (
                    AllKeep-append (Inv S AnyShared) X _ _ (names_commands-Keeps _ _) (
                      AllKeep-append (Inv S AnyShared) X _ _ (names_commands-Keeps _ _)
                        whitelist_commands-Keeps)))),
          ),
        )
