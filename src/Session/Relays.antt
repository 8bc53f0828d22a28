-- ===== src/Session/Relays.antt =====
-- The actions that leave no block unwritten are a closed class.
use rootsh.Base.{ℕ, ◌≤◌, List, [], length, arith}
use rootsh.Text.{Bytes}
use rootsh.Session.Calls.{System}
use rootsh.Session.State.{Session, Outcome, returned, exited, crashed, unfinished, Action, ◌>>=◌}
use rootsh.Session.Rules.{Keeps}
use rootsh.Session.Closed.{Closed}
use rootsh.Session.Closed.End.{Ends}
use rootsh.Session.Elsewhere.{OpensIn}
use rootsh.Session.WritesElsewhere.{Writes, Writes-Ends, recoverfile-kept}
use rootsh.Session.Relayed.{
  IsRelayed, IsApart, modify-IsRelayed, write_to-IsRelayed, read_from-IsRelayed, Relayed-Closed,
}

module _ (sys : System) (pty : ℕ) where
  -- All is relayed; only where the behaviour is undefined, a block may be left.
  abbrev pub LeavesNone : {A : Type 0} → Outcome A → Session → Type 0
  LeavesNone crashed t = (left : List Bytes) × (length left ≤ 1) × IsRelayed sys pty left t
  LeavesNone other t = IsRelayed sys pty [] t

  pub record Relays (A : Type 0) (m : Action A) : Type 0 where
    pub run : (s : Session) → IsRelayed sys pty [] s → LeavesNone (m s).0 (m s).1

  LeavesNone-kept :
      {A : Type 0} (r : Outcome A) (t : Session) → IsRelayed sys pty [] t → LeavesNone r t
  LeavesNone-kept (returned a) t h = h
  LeavesNone-kept (exited n) t h = h
  LeavesNone-kept crashed t h = ([], ground arith, h)
  LeavesNone-kept unfinished t h = h

  pub Keeps-Relays : {A : Type 0} {m : Action A} → Keeps (IsRelayed sys pty []) m → Relays A m
  Keeps-Relays k = record { run = λ s h. LeavesNone-kept _ _ (k.run s h) }

  Relays-bind :
      {A B : Type 0} {m : Action A} {f : A → Action B}
      → Relays A m
      → ((a : A) → Relays B (f a))
      → Relays B (m >>= f)
  unfolding ◌>>=◌
  Relays-bind {A} {B} {m} {f} first next = record {
    run = λ s h. by_outcome (m s).0 (m s).1 (first.run s h);
  }
    where
      by_outcome :
          (r : Outcome A) (t : Session)
          → LeavesNone r t
          → let after = ((λ (u : Session). (r, t)) >>= f) t in LeavesNone after.0 after.1
      by_outcome (returned a) t h = (next a).run t h
      by_outcome (exited n) t h = h
      by_outcome crashed t h = h
      by_outcome unfinished t h = h

  closed : Closed sys (λ A m. Keeps {A = A} (IsRelayed sys pty []) m)
  closed = Relayed-Closed sys pty []

  pub Relays-Closed : Closed sys Relays
  Relays-Closed = record {
    on_pure = λ a. Keeps-Relays (closed.on_pure a);
    on_crash = Keeps-Relays closed.on_crash;
    on_gets = λ f. Keeps-Relays (closed.on_gets f);
    on_bind = Relays-bind;
    on_perform = λ c result q. Keeps-Relays (closed.on_perform c result q);
    on_name = λ name. Keeps-Relays (closed.on_name name);
    on_log = λ text. Keeps-Relays (closed.on_log text);
    on_syslog = λ text. Keeps-Relays (closed.on_syslog text);
  }

  Relayed-Writes : Writes sys (IsApart pty) (IsRelayed sys pty [])
  Relayed-Writes = record {
    on_elsewhere = λ to q block result. write_to-IsRelayed sys pty [] to block result q;
    on_log = λ s h. read_from-IsRelayed sys pty [] _ _ h.log_no_input h.log_apart.1;
    on_changed =
        λ f settings log master writer calls. modify-IsRelayed sys pty [] f log master calls;
  }

  pub Relays-Ends : (fuel : ℕ) → OpensIn (IsApart pty) sys → Ends sys fuel Relays
  unfolding ◌>>=◌
  Relays-Ends fuel apart = record {
    on_recovered = λ name next. record {
      run = λ s h.
          (Relays-bind
              (Keeps-Relays (
                recoverfile-kept sys closed apart Relayed-Writes fuel s.log_file name
                  (Relayed-Writes.on_log s h)))
              (next s.log_file)).run
            s h;
    };
    on_handled = λ signals. Keeps-Relays (ends.on_handled signals);
    on_set_up = Keeps-Relays ends.on_set_up;
    on_cleared = Keeps-Relays ends.on_cleared;
  }
    where
      ends : Ends sys fuel (λ A m. Keeps {A = A} (IsRelayed sys pty []) m)
      ends = Writes-Ends sys closed apart Relayed-Writes fuel
