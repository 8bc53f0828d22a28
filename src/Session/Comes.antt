-- ===== src/Session/Comes.antt =====
-- The actions in which no fuel runs out are a closed class, with what `main` does before the session.
use rootsh.Base.{ℕ, ◌≢◌, Bool, Option, none, some}
use rootsh.Text.{Bytes}
use rootsh.Syslog.Writer.{Written, written, failed, write2syslog}
use rootsh.Session.Calls.{System, open_append}
use rootsh.Session.State.{Session, unfinished, Action, perform, modify, ◌>>=◌, ◌>>◌}
use rootsh.Session.Completes.{Completes, completes, Completes-bind, Completes-gets, Completes-pure}
use rootsh.Session.Logging.Output.{syslog_options, after_write, send_syslog}
use rootsh.Session.Logging.Begin.{fail_file}
use rootsh.Session.Pty.{Terminals}
use rootsh.Session.Closed.{Closed}
use rootsh.Session.Closed.Begin.{Starts, on_fail_file}
use rootsh.Session.Closed.Pty.{Forks}
use rootsh.Session.Prepares.{Prepares}
use rootsh.Session.Launch.{Launches}

-- No fuel runs out.
abbrev pub Always : Session → Type 0
Always s = Unit

abbrev pub Comes : (A : Type 0) → Action A → Type 0
Comes A m = Completes {A = A} Always m

pub coming : {A : Type 0} (m : Action A) → ((s : Session) → (m s).0 ≢ unfinished) → Comes A m
coming m ends = completes m (λ s h. (tt, ends s))

send_syslog-Comes : (text : Bytes) → Comes Unit (send_syslog text)
unfolding send_syslog after_write
send_syslog-Comes text =
    coming _ (λ s. ended s (write2syslog (syslog_options s) s.writer (some text)))
  where
    ended : (s : Session) (r : Written) → (after_write s r).0 ≢ unfinished
    ended s (written w entries) e = cc
    ended s failed e = cc

pub Comes-Prepares : Prepares Always
Comes-Prepares = record {
  on_message = λ text s h. tt;
  on_login = λ s h. tt;
  on_user = λ name s h. tt;
  on_id = λ id s h. tt;
  on_alone = λ b s h. tt;
}

pub Comes-Launches : Launches Always
Comes-Launches = record {
  on_message = λ text s h. tt;
  on_output = λ text s h. tt;
  on_changed = λ f log pty writer calls. record { run = λ s h. tt };
}

module _ (sys : System) where
  pub Comes-Closed : Closed sys Comes
  Comes-Closed = record {
    on_pure = Completes-pure;
    on_crash = coming _ (λ s e. cc);
    on_gets = Completes-gets;
    on_bind = Completes-bind;
    on_perform = λ c result q. coming _ (λ s e. cc);
    on_name = λ name. coming _ (λ s e. cc);
    on_log = λ text. Completes-bind (Completes-gets _) (λ fd. coming _ (λ s e. cc));
    on_syslog = send_syslog-Comes;
  }

  pub Comes-Starts : Starts sys Comes
  Comes-Starts = record { on_opened = opened; on_identity = λ st. coming _ (λ s e. cc) }
    where
      opened :
          (name : Bytes) {rest : ℕ → Action Bool}
          → ((fd : ℕ) → Comes _ (rest fd))
          → Comes _ (
              perform (open_append name) (λ calls. sys.opened calls name) >>= λ fd. elim fd [
                | none ↦ fail_file
                | some n ↦ modify (λ s. record s { log_file = n }) >> rest n
              ])
      opened name {rest} next = Completes-bind (coming _ (λ s e. cc)) by_result
        where
          by_result :
              (fd : Option ℕ)
              → Comes _ (elim fd [
                | none ↦ fail_file
                | some n ↦ modify (λ s. record s { log_file = n }) >> rest n
              ])
          by_result none = on_fail_file sys Comes-Closed
          by_result (some fd) = Completes-bind (coming _ (λ s e. cc)) (λ _. next fd)

  pub Comes-Forks : (pt : Terminals) → Forks pt (λ master. Unit) Comes
  Comes-Forks pt = record {
    on_opened = λ next. Completes-bind (coming _ (λ s e. cc)) (λ master. next master tt);
    on_stored = λ master q. coming _ (λ s e. cc);
  }
