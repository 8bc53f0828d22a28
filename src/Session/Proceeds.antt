-- ===== src/Session/Proceeds.antt =====
-- The actions that do not end the program by `exit` are a closed class.
use rootsh.Base.{ℕ, ◌≢◌, refl, some}
use rootsh.Text.{Bytes}
use rootsh.Syslog.Writer.{Written, written, failed, write2syslog}
use rootsh.Session.Calls.{System}
use rootsh.Session.State.{Session, Outcome, returned, exited, crashed, unfinished, Action, ◌>>=◌}
use rootsh.Session.Logging.Output.{syslog_options, after_write, send_syslog}
use rootsh.Session.Closed.{Closed}
use rootsh.Session.Closed.End.{Ends}
use rootsh.Session.Closed.Recovery.{on_recoverfile}

-- The action does not end the program by `exit`.
pub record Proceeds (A : Type 0) (m : Action A) : Type 0 where
  pub run : (s : Session) (status : ℕ) → (m s).0 ≢ exited status

pub proceeding :
    {A : Type 0} (m : Session → A) (f : Session → Session) → Proceeds A (λ s. (returned (m s), f s))
proceeding m f = record { run = λ s status e. cc }

Proceeds-bind :
    {A B : Type 0} {m : Action A} {f : A → Action B}
    → Proceeds A m
    → ((a : A) → Proceeds B (f a))
    → Proceeds B (m >>= f)
unfolding ◌>>=◌
Proceeds-bind {A} {B} {m} {f} first next = record {
  run = λ s. by_outcome (m s).0 (m s).1 (first.run s);
}
  where
    by_outcome :
        (r : Outcome A) (t : Session)
        → ((status : ℕ) → r ≢ exited status)
        → (status : ℕ) → (((λ (u : Session). (r, t)) >>= f) t).0 ≢ exited status
    by_outcome (returned a) t h = (next a).run t
    by_outcome (exited n) t h = λ status e. h n refl
    by_outcome crashed t h = λ status e. cc
    by_outcome unfinished t h = λ status e. cc

send_syslog-Proceeds : (text : Bytes) → Proceeds Unit (send_syslog text)
unfolding send_syslog after_write
send_syslog-Proceeds text = record {
  run = λ s. by_result s (write2syslog (syslog_options s) s.writer (some text));
}
  where
    by_result : (s : Session) (r : Written) (status : ℕ) → (after_write s r).0 ≢ exited status
    by_result s (written w entries) status e = cc
    by_result s failed status e = cc

pub Proceeds-Closed : (sys : System) → Closed sys Proceeds
Proceeds-Closed sys = record {
  on_pure = λ a. proceeding _ _;
  on_crash = record { run = λ s status e. cc };
  on_gets = λ f. proceeding _ _;
  on_bind = Proceeds-bind;
  on_perform = λ c result q. proceeding _ _;
  on_name = λ name. proceeding _ _;
  on_log = λ text. Proceeds-bind (proceeding _ _) (λ fd. proceeding _ _);
  on_syslog = send_syslog-Proceeds;
}

pub signal_handlers-Proceed : (sys : System) (fuel : ℕ) → Ends sys fuel Proceeds
signal_handlers-Proceed sys fuel = record {
  on_recovered = λ name next. Proceeds-bind (proceeding _ _) (λ log.
      Proceeds-bind
        (on_recoverfile sys (Proceeds-Closed sys) (λ from. proceeding _ _)
          (λ to block result. proceeding _ _) (record { run = λ s status e. cc }) fuel log name)
        (next log));
  on_handled = λ signals. proceeding _ _;
  on_set_up = proceeding _ _;
  on_cleared = proceeding _ _;
}
