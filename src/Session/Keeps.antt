-- ===== src/Session/Keeps.antt =====
-- What a handler keeps: a predicate on the members of a session, the globals and the events so far.
use yatb.Control.{Peer}
use yatb.Prelude.{
  Bool, true, false, List, [], ◌∷◌, ◌++◌, Option, none, some, if◌then◌else◌, ◌≡◌, refl,
}
use yatb.Session.State.{
  Host, State, Shared, Thread, Event, told, Outcome, goes_on, ends, exited, stuck, undefined, Run,
  ◌>>=◌, ◌>>◌, then_do, give, done, leave, get, set, write, tell, call, ensure, defined, returns,
  Call,
}
use yatb.Text.{Bytes}

module _ ⦃h : Host⦄ where
  abbrev pub Predicate : Type 1
  Predicate = Thread → Shared → List Event → Type 0

  -- `P` holds wherever a handler stops. `X` is what is claimed of an exit of the program.
  abbrev pub Holds : Predicate → Type 0 → {A : Type 0} → Outcome A → Type 0
  Holds P X (goes_on a t) = P t.thread t.shared t.events
  Holds P X (ends t) = P t.thread t.shared t.events
  Holds P X (stuck t) = P t.thread t.shared t.events
  Holds P X (exited t) = X
  Holds P X undefined = Unit {0}

  pub record Keeps (P : Predicate) (X : Type 0) {A : Type 0} (m : Run A) : Type 0 where
    pub run : (t : State) → P t.thread t.shared t.events → Holds P X (m t)

  -- Texts that are written are no matter.
  abbrev pub Quiet : Predicate → Type 0
  Quiet P =
      (th : Thread) (g : Shared) (es : List Event) (peer : Peer) (s : Bytes)
      → P th g es
      → P th g (es ++ told peer s ∷ [])

  then_do-Holds :
      {A B : Type 0} (P : Predicate) (X : Type 0) (o : Outcome A) (f : A → Run B)
      → Holds P X o
      → ((a : A) (t : State) → P t.thread t.shared t.events → Holds P X (f a t))
      → Holds P X (then_do o f)
  then_do-Holds P X (goes_on a t) f p k = k a t p
  then_do-Holds P X (ends t) f p k = p
  then_do-Holds P X (stuck t) f p k = p
  then_do-Holds P X (exited t) f p k = p
  then_do-Holds P X undefined f p k = tt

  pub Holds-weaken :
      {A : Type 0} (P Q : Predicate) (X : Type 0) (o : Outcome A)
      → ((th : Thread) (g : Shared) (es : List Event) → P th g es → Q th g es)
      → Holds P X o
      → Holds Q X o
  Holds-weaken P Q X (goes_on a t) k p = k t.thread t.shared t.events p
  Holds-weaken P Q X (ends t) k p = k t.thread t.shared t.events p
  Holds-weaken P Q X (stuck t) k p = k t.thread t.shared t.events p
  Holds-weaken P Q X (exited t) k p = p
  Holds-weaken P Q X undefined k p = tt

  pub returns-Holds :
      {A : Type 0} (P : Predicate) (X : Type 0) (t : State) (o : Option (A × h.World))
      → P t.thread t.shared t.events
      → Holds P X (returns t o)
  returns-Holds P X t none p = p
  returns-Holds P X t (some (a, world)) p = p

  -- The equation of a test goes with each of its branches.
  pub if-Holds :
      {A : Type 0} (P : Predicate) (X : Type 0) (t : State) (b : Bool) (m k : Run A)
      → (b ≡ true → Holds P X (m t))
      → (b ≡ false → Holds P X (k t))
      → Holds P X ((if b then m else k) t)
  if-Holds P X t true m k on off = on refl
  if-Holds P X t false m k on off = off refl

  module _ {P : Predicate} {X : Type 0} where
    pub Keeps-bind :
        {A B : Type 0} {m : Run A} {f : A → Run B}
        → Keeps P X m
        → ((a : A) → Keeps P X (f a))
        → Keeps P X (m >>= f)
    Keeps-bind {m = m} {f = f} km kf = record {
      run = λ t p. then_do-Holds P X (m t) f (km.run t p) (λ a. (kf a).run);
    }

    pub Keeps-then :
        {A B : Type 0} {m : Run A} {k : Run B} → Keeps P X m → Keeps P X k → Keeps P X (m >> k)
    Keeps-then {m = m} {k = k} km kk = record {
      run = λ t p. then_do-Holds P X (m t) (λ _. k) (km.run t p) (λ _. kk.run);
    }

    pub Keeps-get :
        {B : Type 0} {f : State → Run B} → ((t : State) → Keeps P X (f t)) → Keeps P X (get >>= f)
    Keeps-get k = record { run = λ t p. (k t).run t p }

    pub Keeps-if :
        {A : Type 0} (b : Bool) {m k : Run A}
        → Keeps P X m
        → Keeps P X k
        → Keeps P X (if b then m else k)
    Keeps-if true m k = m
    Keeps-if false m k = k

    pub Keeps-done : Keeps P X done
    Keeps-done = record { run = λ t p. p }

    pub Keeps-give : {A : Type 0} (a : A) → Keeps P X (give a)
    Keeps-give a = record { run = λ t p. p }

    pub Keeps-leave : {A : Type 0} → Keeps P X (leave {A = A})
    Keeps-leave = record { run = λ t p. p }

    pub Keeps-defined : {A : Type 0} (o : Option A) → Keeps P X (defined o)
    Keeps-defined none = record { run = λ t p. tt }
    Keeps-defined (some a) = record { run = λ t p. p }

    pub Keeps-set :
        (f : Thread → Thread)
        → ((th : Thread) (g : Shared) (es : List Event) → P th g es → P (f th) g es)
        → Keeps P X (set f)
    Keeps-set f k = unfold set in record { run = λ t p. k t.thread t.shared t.events p }

    pub Keeps-call : (c : Call) → Keeps P X (call c)
    Keeps-call c = record { run = λ t p. returns-Holds P X t (h.succeeds c t.world) p }

    pub Keeps-ensure : {m : Run Bool} → Keeps P X m → Keeps P X (ensure m)
    Keeps-ensure m = Keeps-bind m λ ok. Keeps-if ok Keeps-done Keeps-leave

    pub Keeps-write : Quiet P → (peer : Peer) (s : Bytes) → Keeps P X (write peer s)
    Keeps-write quiet peer s = record {
      run = λ t p.
          returns-Holds P X _ (h.write peer s t.world) (quiet t.thread t.shared t.events peer s p);
    }

    pub Keeps-tell : Quiet P → (peer : Peer) (s : Bytes) → Keeps P X (tell peer s)
    unfolding tell
    Keeps-tell quiet peer s =
        Keeps-bind (Keeps-write quiet peer s) λ ok. Keeps-if ok Keeps-done Keeps-leave
