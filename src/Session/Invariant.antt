-- ===== src/Session/Invariant.antt =====
-- The invariant of a session: the order of the flags of the login, and at most one data thread.
use yatb.Control.{Peer}
use yatb.Prelude.{
  Option-cases, inl, inr, ap, sym, Bool, true, false, List, [], ◌∷◌, ◌++◌, Option, none, some, ◌≡◌,
  refl, ◌∙◌, arith,
}
use yatb.Session.Keeps.{Keeps, Quiet, Keeps-set, Keeps-tell}
use yatb.Session.Leads.{HoldsTo, Leads, Leads-Keeps, Leads-weaken}
use yatb.Session.Relink.{forget, join_thread_of, deletedatathread}
use yatb.Session.State.{
  join_thread, tell, Host, State, Shared, Thread, DataThread, Event, told, noticed, joined, started,
  secured, set, set_shared, seen,
}
use yatb.Text.{Bytes}

-- The members that the invariant is about.
pub record Flags : Type 0 where
  pub first : Bool
  pub user : Bool
  pub pass : Bool
  pub welcomed : Bool
  pub relinked : Bool
  pub tls : Bool
  pub port : Bool
  pub pasv : Bool
  pub awaits : Bool
  pub running : Bool

abbrev pub is_running : Option DataThread → Bool
is_running none = false
is_running (some d) = true

abbrev pub flags : Thread → Flags
flags th = record {
  first = th.gotfirstcmd;
  user = th.gotusercmd;
  pass = th.gotpasscmd;
  welcomed = th.gotwelcomemsg;
  relinked = th.relinked;
  tls = th.usingssl;
  port = th.gotportcmd;
  pasv = th.gotpasvcmd;
  awaits = th.awaits_pass;
  running = is_running th.datathread;
}

-- What the flags say of one another: the login goes by its steps, a session is relinked behind an answer
-- to its login or waits for the password for that, TLS begins behind a first command, and data connections
-- are asked for behind the password and made behind the answer.
pub record IsOrdered (f : Flags) : Type 0 where
  pub user_first : f.user ≡ true → f.first ≡ true
  pub pass_user : f.pass ≡ true → f.user ≡ true
  pub welcomed_pass : f.welcomed ≡ true → f.pass ≡ true
  pub relinked_welcomed : f.relinked ≡ true → f.welcomed ≡ true
  pub awaits_user : f.awaits ≡ true → f.user ≡ true
  pub tls_first : f.tls ≡ true → f.first ≡ true
  pub port_pass : f.port ≡ true → f.pass ≡ true
  pub pasv_pass : f.pasv ≡ true → f.pass ≡ true
  pub running_welcomed : f.running ≡ true → f.welcomed ≡ true

-- The data threads of a log: is one running behind it, if one ran in front of it? `none` where one is
-- started beside another, or joined where there is none.
unfoldable pub threads : Bool → List Event → Option Bool
threads b [] = some b
threads b (told peer s ∷ es) = threads b es
threads b (noticed ∷ es) = threads b es
threads b (secured ∷ es) = threads b es
threads true (joined ∷ es) = threads false es
threads false (joined ∷ es) = none
threads true (started d ∷ es) = none
threads false (started d ∷ es) = threads true es

pub threads-append :
    (b c : Bool) (es fs : List Event) → threads b es ≡ some c → threads b (es ++ fs) ≡ threads c fs
unfolding threads
threads-append b c [] fs e = ground arith
threads-append b c (told peer s ∷ es) fs e = threads-append b c es fs e
threads-append b c (noticed ∷ es) fs e = threads-append b c es fs e
threads-append b c (secured ∷ es) fs e = threads-append b c es fs e
threads-append true c (joined ∷ es) fs e = threads-append false c es fs e
threads-append false c (joined ∷ es) fs e = ground arith
threads-append true c (started d ∷ es) fs e = ground arith
threads-append false c (started d ∷ es) fs e = threads-append true c es fs e

module _ ⦃h : Host⦄ where
  -- The flags are in order, `S` holds of them, `G` of the globals, and the log has the data thread of the
  -- session.
  pub record Inv (S : Flags → Type 0) (G : Shared → Type 0) (th : Thread) (g : Shared)
      (es : List Event) : Type 0 where
    pub ordered : IsOrdered (flags th)
    pub stage : S (flags th)
    pub shared : G g
    pub logged : threads false es ≡ some (flags th).running

  pub Inv-Quiet : (S : Flags → Type 0) (G : Shared → Type 0) → Quiet (Inv S G)
  unfolding threads
  Inv-Quiet S G th g es peer s v = record {
    ordered = v.ordered;
    stage = v.stage;
    shared = v.shared;
    logged = threads-append false (flags th).running es (told peer s ∷ []) v.logged;
  }

  module _ {S : Flags → Type 0} {G : Shared → Type 0} {X : Type 0} where
    -- An assignment that keeps the order and is not about the data thread, and one that is not about the
    -- flags at all.
    pub Keeps-flags :
        (f : Thread → Thread)
        → ((th : Thread)
            → IsOrdered (flags th)
            → S (flags th)
            → IsOrdered (flags (f th)) × S (flags (f th)))
        → ((th : Thread) → (flags (f th)).running ≡ (flags th).running)
        → Keeps (Inv S G) X (set f)
    Keeps-flags f ordered same = Keeps-set f λ th g es v. record {
      ordered = (ordered th v.ordered v.stage).0;
      stage = (ordered th v.ordered v.stage).1;
      shared = v.shared;
      logged = v.logged ∙ ap some (sym (same th));
    }

    pub Keeps-free :
        (f : Thread → Thread)
        → ((th : Thread) → flags (f th) ≡ flags th)
        → Keeps (Inv S G) X (set f)
    Keeps-free f same =
        Keeps-flags f (λ th o s. rw (same th) (o, s)) (λ th. ap (λ b. b.running) (same th))

    pub Keeps-seen :
        (e : Event) → ((b : Bool) → threads b (e ∷ []) ≡ some b) → Keeps (Inv S G) X (seen e)
    Keeps-seen e plain =
        unfold seen threads in
        record {
          run = λ t v. record {
            ordered = v.ordered;
            stage = v.stage;
            shared = v.shared;
            logged =
                threads-append false (flags t.thread).running t.events (e ∷ []) v.logged
                ∙ plain (flags t.thread).running;
          };
        }

    pub Keeps-shared :
        (f : Shared → Shared) → ((g : Shared) → G g → G (f g)) → Keeps (Inv S G) X (set_shared f)
    Keeps-shared f k =
        unfold set_shared in
        record {
          run = λ t v. record {
            ordered = v.ordered;
            stage = v.stage;
            shared = k t.shared v.shared;
            logged = v.logged;
          };
        }

    pub tells : (peer : Peer) (s : Bytes) → Keeps (Inv S G) X (tell peer s)
    tells = Keeps-tell (Inv-Quiet S G)

  -- With no data thread.
  abbrev pub Free : (Flags → Type 0) → Flags → Type 0
  Free S f = S f × (f.running ≡ false)

  module _ {S : Flags → Type 0} {G : Shared → Type 0} (X : Type 0)
      (k : (f : Flags) → S f → S (record f { running = false })) where
    -- A thread that was running is joined and forgotten.
    forget-HoldsTo :
        (d : DataThread) (t : State) (ok : Bool)
        → t.thread.datathread ≡ some d
        → Inv S G t.thread t.shared t.events
        → HoldsTo (Inv S G) (Inv (Free S) G) X (forget ok t)
    unfolding forget seen set threads
    forget-HoldsTo d t ok e v = record {
      ordered = ground (arith, v.ordered);
      stage = (k (flags t.thread) v.stage, refl);
      shared = v.shared;
      logged =
          threads-append false true t.events (joined ∷ [])
            (v.logged ∙ ap (λ o. some (is_running o)) e);
    }

    join_thread_of-HoldsTo :
        (o : Option DataThread) (t : State)
        → t.thread.datathread ≡ o
        → Inv S G t.thread t.shared t.events
        → HoldsTo (Inv S G) (Inv (Free S) G) X (join_thread_of o t)
    unfolding join_thread_of
    join_thread_of-HoldsTo none t e v = record {
      ordered = v.ordered;
      stage = (v.stage, ap is_running e);
      shared = v.shared;
      logged = v.logged;
    }
    join_thread_of-HoldsTo (some d) t e v = elim (Option-cases (h.succeeds join_thread t.world)) [
      | inl f ↦ rw f v
      | inr ((ok, world), f) ↦ rw f (forget-HoldsTo d (record t { world = world }) ok e v)
    ]

    -- Behind `deletedatathread` there is no data thread.
    pub deletedatathread-Leads : Leads (Inv S G) (Inv S G) (Inv (Free S) G) X deletedatathread
    deletedatathread-Leads =
        unfold deletedatathread in
        record { run = λ t v. join_thread_of-HoldsTo t.thread.datathread t refl v }

    pub Free-Inv :
        (t : State) → Inv (Free S) G t.thread t.shared t.events → Inv S G t.thread t.shared t.events
    Free-Inv t v = record {
      ordered = v.ordered;
      stage = v.stage.0;
      shared = v.shared;
      logged = v.logged;
    }

    pub deletedatathread-Keeps : Keeps (Inv S G) X deletedatathread
    deletedatathread-Keeps = Leads-Keeps (Leads-weaken deletedatathread-Leads Free-Inv)
