-- ===== src/Session/Rules.antt =====
-- Rules for statements about the state that a function leaves, however it ends.
use rootsh.Base.{◌≡◌, ◌≢◌, refl, Bool, true, false}
use rootsh.Session.State.{
  Session, Outcome, returned, exited, crashed, unfinished, Action, pure, gets, when, ◌>>=◌,
}

-- From a state with `P` the function leaves one with `Q`, whether it returns or ends the program.
pub record Leads {A : Type 0} (P : Session → Type 0) (m : Action A) (Q : Session → Type 0)
    : Type 0 where
  pub run : (s : Session) → P s → Q (m s).1

abbrev pub Keeps : {A : Type 0} → (Session → Type 0) → Action A → Type 0
Keeps P m = Leads P m P

-- The end of a bind, by what the first part has come to.
Leads-outcome :
    {A B : Type 0} (R Q : Session → Type 0) (f : A → Action B) (r : Outcome A) (s : Session)
    → R s
    → ((a : A) → Leads R (f a) Q)
    → ((t : Session) → R t → Q t)
    → Q (((λ (t : Session). (r, s)) >>= f) s).1
unfolding ◌>>=◌
Leads-outcome R Q f (returned a) s h next weaken = (next a).run s h
Leads-outcome R Q f (exited n) s h next weaken = weaken s h
Leads-outcome R Q f crashed s h next weaken = weaken s h
Leads-outcome R Q f unfinished s h next weaken = weaken s h

pub Leads-bind :
    {A B : Type 0} {P R Q : Session → Type 0} {m : Action A} {f : A → Action B}
    → Leads P m R
    → ((a : A) → Leads R (f a) Q)
    → ((t : Session) → R t → Q t)
    → Leads P (m >>= f) Q
unfolding ◌>>=◌
Leads-bind {R} {Q} {m} {f} first next weaken = record {
  run = λ s h. Leads-outcome R Q f (m s).0 (m s).1 (first.run s h) next weaken;
}

module _ {P : Session → Type 0} where
  pub Keeps-bind :
      {A B : Type 0} {m : Action A} {f : A → Action B}
      → Keeps P m
      → ((a : A) → Keeps P (f a))
      → Keeps P (m >>= f)
  Keeps-bind first next = Leads-bind first next (λ t h. h)

  pub Keeps-gets : {A : Type 0} (f : Session → A) → Keeps P (gets f)
  Keeps-gets f = record { run = λ s h. h }

  pub Keeps-pure : {A : Type 0} (a : A) → Keeps P (pure a)
  Keeps-pure a = record { run = λ s h. h }

  pub Keeps-when : {m : Action (Unit {0})} (b : Bool) → Keeps P m → Keeps P (when b m)
  Keeps-when true k = k
  Keeps-when false k = record { run = λ s h. h }

-- What a bind returned, its parts returned.
pub >>=-returned :
    {A B : Type 0} (m : Action A) (f : A → Action B) (s : Session) {b : B}
    → ((m >>= f) s).0 ≡ returned b
    → (a : A) × ((m s).0 ≡ returned a) × ((f a (m s).1).0 ≡ returned b)
unfolding ◌>>=◌
>>=-returned {A} {B} m f s {b} h = by_outcome (m s).0 refl h
  where
    by_outcome :
        (r : Outcome A)
        → (m s).0 ≡ r
        → (((λ (t : Session). (r, (m s).1)) >>= f) s).0 ≡ returned b
        → (a : A) × ((m s).0 ≡ returned a) × ((f a (m s).1).0 ≡ returned b)
    by_outcome (returned a) e k = (a, e, k)
    by_outcome (exited n) e k = cc
    by_outcome crashed e k = cc
    by_outcome unfinished e k = cc

-- A bind where more is known of the value in between.
pub Keeps-bind_value :
    {A B : Type 0} {P : Session → Type 0} {m : Action A} {f : A → Action B} (V : A → Type 0)
    → Keeps P m
    → ((s : Session) (a : A) → (m s).0 ≡ returned a → V a)
    → ((a : A) → V a → Keeps P (f a))
    → Keeps P (m >>= f)
unfolding ◌>>=◌
Keeps-bind_value {A} {P} {m} {f} V first value next = record {
  run = λ s h. by_outcome s (m s).0 refl (first.run s h);
}
  where
    by_outcome :
        (s : Session) (r : Outcome A)
        → (m s).0 ≡ r
        → P (m s).1
        → P (((λ (t : Session). (r, (m s).1)) >>= f) s).1
    by_outcome s (returned a) e h = (next a (value s a e)).run (m s).1 h
    by_outcome s (exited n) e h = h
    by_outcome s crashed e h = h
    by_outcome s unfinished e h = h

-- What an action returns, if it returns, has the property.
pub record Gives {A : Type 0} (V : A → Type 0) (m : Action A) : Type 0 where
  pub run : (s : Session) (a : A) → (m s).0 ≡ returned a → V a

pub Gives-bind :
    {A B : Type 0} {V : B → Type 0} (m : Action A) {f : A → Action B}
    → ((a : A) → Gives V (f a))
    → Gives V (m >>= f)
Gives-bind m {f} next = record {
  run = λ s b h. let (a, _, k) = >>=-returned m f s h in (next a).run (m s).1 b k;
}

-- A statement on how a function ends, from the states with `P`.
pub record Ensures {A : Type 0} (P : Session → Type 0) (m : Action A)
    (Q : Outcome A → Session → Type 0) : Type 0 where
  pub run : (s : Session) → P s → Q (m s).0 (m s).1

-- A bind; where the first part does not return, neither does the whole.
pub Ensures-then :
    {A B : Type 0} {P : Session → Type 0} {m : Action A} {f : A → Action B}
    (R : Outcome A → Session → Type 0) {Q : Outcome B → Session → Type 0}
    → ((r : Outcome A) (q : Outcome B) → ((b : B) → q ≢ returned b) → (t : Session) → R r t → Q q t)
    → Ensures P m R
    → ((a : A) → Ensures (R (returned a)) (f a) Q)
    → Ensures P (m >>= f) Q
unfolding ◌>>=◌
Ensures-then {A} {B} {P} {m} {f} R {Q} early first next = record {
  run = λ s h. by_outcome (m s).0 (m s).1 (first.run s h);
}
  where
    by_outcome :
        (r : Outcome A) (t : Session)
        → R r t
        → Q (((λ (s : Session). (r, t)) >>= f) t).0 (((λ (s : Session). (r, t)) >>= f) t).1
    by_outcome (returned a) t h = (next a).run t h
    by_outcome (exited n) t h = early (exited n) _ (λ b e. cc) t h
    by_outcome crashed t h = early crashed _ (λ b e. cc) t h
    by_outcome unfinished t h = early unfinished _ (λ b e. cc) t h

pub Ensures-bind :
    {A B : Type 0} {P : Session → Type 0} {m : Action A} {f : A → Action B}
    {Q : Outcome B → Session → Type 0}
    → ((r : Outcome B) → ((b : B) → r ≢ returned b) → (t : Session) → P t → Q r t)
    → Keeps P m
    → ((a : A) → Ensures P (f a) Q)
    → Ensures P (m >>= f) Q
Ensures-bind {P} early first next =
    Ensures-then (λ r t. P t) (λ r q never t h. early q never t h) (record { run = first.run }) next
