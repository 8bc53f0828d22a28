-- ===== src/Session/Completes.antt =====
-- An action that keeps a predicate, and in which no fuel runs out.
use rootsh.Base.{◌≢◌, refl, Bool, true, false, if◌then◌else◌}
use rootsh.Session.State.{
  Session, Outcome, returned, exited, crashed, unfinished, Action, pure, gets, when, ◌>>=◌,
}
use rootsh.Session.Rules.{Keeps, Keeps-bind}

pub record Completes {A : Type 0} (P : Session → Type 0) (m : Action A) : Type 0 where
  pub kept : Keeps P m
  pub ends : (s : Session) → P s → (m s).0 ≢ unfinished

module _ {P : Session → Type 0} where
  pub completes :
      {A : Type 0} (m : Action A)
      → ((s : Session) → P s → P (m s).1 × ((m s).0 ≢ unfinished))
      → Completes P m
  completes m run = record { kept = record { run = λ s h. (run s h).0 }; ends = λ s h. (run s h).1 }

  pub Completes-bind :
      {A B : Type 0} {m : Action A} {f : A → Action B}
      → Completes P m
      → ((a : A) → Completes P (f a))
      → Completes P (m >>= f)
  unfolding ◌>>=◌
  Completes-bind {A} {B} {m} {f} first next = record {
    kept = Keeps-bind first.kept (λ a. (next a).kept);
    ends = λ s h. by_outcome (m s).0 (m s).1 (first.kept.run s h) (first.ends s h);
  }
    where
      by_outcome :
          (r : Outcome A) (t : Session)
          → P t
          → r ≢ unfinished
          → (((λ (u : Session). (r, t)) >>= f) t).0 ≢ unfinished
      by_outcome (returned a) t h e = (next a).ends t h
      by_outcome (exited n) t h e = λ k. cc
      by_outcome crashed t h e = λ k. cc
      by_outcome unfinished t h e = λ k. e refl

  pub Completes-gets : {A : Type 0} (f : Session → A) → Completes P (gets f)
  Completes-gets f = completes _ (λ s h. (h, λ e. cc))

  pub Completes-pure : {A : Type 0} (a : A) → Completes P (pure a)
  Completes-pure a = completes _ (λ s h. (h, λ e. cc))

  pub Completes-when : {m : Action (Unit {0})} (b : Bool) → Completes P m → Completes P (when b m)
  Completes-when true k = k
  Completes-when false k = Completes-pure tt

  pub Completes-if :
      {A : Type 0} {m n : Action A} (b : Bool)
      → Completes P m
      → Completes P n
      → Completes P (if b then m else n)
  Completes-if true k l = k
  Completes-if false k l = l
