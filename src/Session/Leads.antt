-- ===== src/Session/Leads.antt =====
-- What a handler leads to, where it goes on with more than what holds where it stops.
use yatb.Prelude.{Bool, true, false, if◌then◌else◌}
use yatb.Session.Keeps.{Predicate, Keeps, Holds}
use yatb.Session.State.{
  Host, State, Outcome, Run, goes_on, ends, exited, stuck, undefined, ◌>>=◌, then_do, get,
}

module _ ⦃h : Host⦄ where
  -- `Q` holds where a handler goes on, and `W` where it stops.
  abbrev pub HoldsTo : Predicate → Predicate → Type 0 → {A : Type 0} → Outcome A → Type 0
  HoldsTo W Q X (goes_on a t) = Q t.thread t.shared t.events
  HoldsTo W Q X (ends t) = W t.thread t.shared t.events
  HoldsTo W Q X (stuck t) = W t.thread t.shared t.events
  HoldsTo W Q X (exited t) = X
  HoldsTo W Q X undefined = Unit {0}

  -- From `P` a handler leads to `Q`.
  pub record Leads (W P Q : Predicate) (X : Type 0) {A : Type 0} (m : Run A) : Type 0 where
    pub run : (t : State) → P t.thread t.shared t.events → HoldsTo W Q X (m t)

  then_do-HoldsTo :
      {A B : Type 0} (W Q R : Predicate) (X : Type 0) (o : Outcome A) (f : A → Run B)
      → HoldsTo W Q X o
      → ((a : A) (t : State) → Q t.thread t.shared t.events → HoldsTo W R X (f a t))
      → HoldsTo W R X (then_do o f)
  then_do-HoldsTo W Q R X (goes_on a t) f p k = k a t p
  then_do-HoldsTo W Q R X (ends t) f p k = p
  then_do-HoldsTo W Q R X (stuck t) f p k = p
  then_do-HoldsTo W Q R X (exited t) f p k = p
  then_do-HoldsTo W Q R X undefined f p k = tt

  weaken-HoldsTo :
      {A : Type 0} (W Q R : Predicate) (X : Type 0) (o : Outcome A)
      → Holds Q X o
      → ((t : State) → Q t.thread t.shared t.events → W t.thread t.shared t.events)
      → ((t : State) → Q t.thread t.shared t.events → R t.thread t.shared t.events)
      → HoldsTo W R X o
  weaken-HoldsTo W Q R X (goes_on a t) p w r = r t p
  weaken-HoldsTo W Q R X (ends t) p w r = w t p
  weaken-HoldsTo W Q R X (stuck t) p w r = w t p
  weaken-HoldsTo W Q R X (exited t) p w r = p
  weaken-HoldsTo W Q R X undefined p w r = tt

  HoldsTo-same :
      {A : Type 0} (W : Predicate) (X : Type 0) (o : Outcome A) → HoldsTo W W X o → Holds W X o
  HoldsTo-same W X (goes_on a t) p = p
  HoldsTo-same W X (ends t) p = p
  HoldsTo-same W X (stuck t) p = p
  HoldsTo-same W X (exited t) p = p
  HoldsTo-same W X undefined p = tt

  module _ {W P Q : Predicate} {X : Type 0} where
    pub Leads-bind :
        {A B : Type 0} {m : Run A} {f : A → Run B} (R : Predicate)
        → Leads W P R X m
        → ((a : A) → Leads W R Q X (f a))
        → Leads W P Q X (m >>= f)
    Leads-bind {m = m} {f = f} R lm lf = record {
      run = λ t p. then_do-HoldsTo W R Q X (m t) f (lm.run t p) (λ a. (lf a).run);
    }

    pub Leads-get :
        {B : Type 0} {f : State → Run B}
        → ((t : State) → Leads W P Q X (f t))
        → Leads W P Q X (get >>= f)
    Leads-get k = record { run = λ t p. (k t).run t p }

    pub Leads-if :
        {A : Type 0} (b : Bool) {m k : Run A}
        → Leads W P Q X m
        → Leads W P Q X k
        → Leads W P Q X (if b then m else k)
    Leads-if true m k = m
    Leads-if false m k = k

  pub Keeps-Leads :
      {W P Q : Predicate} {X A : Type 0} {m : Run A}
      → Keeps P X m
      → ((t : State) → P t.thread t.shared t.events → W t.thread t.shared t.events)
      → ((t : State) → P t.thread t.shared t.events → Q t.thread t.shared t.events)
      → Leads W P Q X m
  Keeps-Leads {W = W} {P = P} {Q = Q} {X = X} {m = m} k w q = record {
    run = λ t p. weaken-HoldsTo W P Q X (m t) (k.run t p) w q;
  }

  pub Leads-Keeps : {W : Predicate} {X A : Type 0} {m : Run A} → Leads W W W X m → Keeps W X m
  Leads-Keeps {W = W} {X = X} {m = m} l = record { run = λ t p. HoldsTo-same W X (m t) (l.run t p) }

  HoldsTo-weaken :
      {A : Type 0} (W Q R : Predicate) (X : Type 0) (o : Outcome A)
      → HoldsTo W Q X o
      → ((t : State) → Q t.thread t.shared t.events → R t.thread t.shared t.events)
      → HoldsTo W R X o
  HoldsTo-weaken W Q R X (goes_on a t) p r = r t p
  HoldsTo-weaken W Q R X (ends t) p r = p
  HoldsTo-weaken W Q R X (stuck t) p r = p
  HoldsTo-weaken W Q R X (exited t) p r = p
  HoldsTo-weaken W Q R X undefined p r = tt

  pub Leads-weaken :
      {W P Q R : Predicate} {X A : Type 0} {m : Run A}
      → Leads W P Q X m
      → ((t : State) → Q t.thread t.shared t.events → R t.thread t.shared t.events)
      → Leads W P R X m
  Leads-weaken {W = W} {Q = Q} {R = R} {X = X} {m = m} l r = record {
    run = λ t p. HoldsTo-weaken W Q R X (m t) (l.run t p) r;
  }
