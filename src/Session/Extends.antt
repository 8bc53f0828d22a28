-- ===== src/Session/Extends.antt =====
-- A predicate that no call, no text and no change of the window takes away is kept by what a
-- session does.
use rootsh.Base.{ℕ, Bool, false, Option, some, List, [], ◌∷◌, length}
use rootsh.Text.{Bytes}
use rootsh.Syslog.Writer.{Writer, Entry, Written, written, failed, write2syslog}
use rootsh.Session.Calls.{Call, System, to_syslog}
use rootsh.Session.State.{Session, Action, gets, perform, push_entries, ◌>>=◌}
use rootsh.Session.Rules.{Keeps, Keeps-bind, Keeps-gets, Keeps-pure}
use rootsh.Session.Logging.Output.{syslog_options, after_write, send_syslog, recoverfile}
use rootsh.Session.Loop.{check_passed, pass_input, check_shown, show_output}
use rootsh.Session.Closed.{Closed, on_dologging}
use rootsh.Session.Closed.Recovery.{on_recoverfile}
use rootsh.Session.Closed.Loop.{Interacts, interacting}

pub record Extends (P : Session → Type 0) : Type 0 where
  pub on_made : (c : Call) (s : Session) → P s → P (record s { calls = c ∷ s.calls })
  pub on_writer : (w : Writer) (s : Session) → P s → P (record s { writer = w })
  pub on_named : (name : Bytes) (s : Session) → P s → P (record s { log_file_name = name })
  pub on_resized : (s : Session) → P s → P (record s { sig_winch = false })

abbrev pub KeepsAll : (Session → Type 0) → (A : Type 0) → Action A → Type 0
KeepsAll P A m = Keeps {A = A} P m

module _ {P : Session → Type 0} (p : Extends P) where
  push_entries-kept :
      (es : List Entry) (s : Session) → P s → P (record s { calls = push_entries es s.calls })
  push_entries-kept [] s h = h
  push_entries-kept (e ∷ es) s h =
      push_entries-kept es (record s { calls = to_syslog e ∷ s.calls }) (p.on_made _ s h)

  performed : {A : Type 0} (c : Call) (result : List Call → A) → Keeps P (perform c result)
  performed c result = record { run = p.on_made c }

  send_syslog-kept : (text : Bytes) → Keeps P (send_syslog text)
  unfolding send_syslog after_write
  send_syslog-kept text = record {
    run = λ s h. by_result s (write2syslog (syslog_options s) s.writer (some text)) h;
  }
    where
      by_result : (s : Session) (r : Written) → P s → P (after_write s r).1
      by_result s (written w entries) h =
          push_entries-kept entries (record s { writer = w }) (p.on_writer w s h)
      by_result s failed h = h

  pub Extends-Closed : (sys : System) → Closed sys (KeepsAll P)
  Extends-Closed sys = record {
    on_pure = Keeps-pure;
    on_crash = record { run = λ s h. h };
    on_gets = Keeps-gets;
    on_bind = Keeps-bind;
    on_perform = λ c result q. performed c result;
    on_name = λ name. record { run = p.on_named name };
    on_log = λ text. Keeps-bind (Keeps-gets _) (λ fd. performed _ _);
    on_syslog = send_syslog-kept;
  }

  pass_input-kept :
      (sys : System) (buf : Bytes)
      → ((count : Option ℕ) → Keeps P (check_passed sys (length buf) count))
      → Keeps P (pass_input sys (some buf))
  unfolding pass_input
  pass_input-kept sys buf checked =
      Keeps-bind (Keeps-gets _) (λ pty. Keeps-bind (performed _ _) checked)

  show_output-kept :
      (sys : System) (c : ℕ) (cs : Bytes)
      → ((count : Option ℕ) → Keeps P (check_shown sys count))
      → Keeps P (show_output sys (some (c ∷ cs)))
  unfolding show_output
  show_output-kept sys c cs checked =
      Keeps-bind (on_dologging sys (Extends-Closed sys) (c ∷ cs))
        (λ _. Keeps-bind (performed _ _) checked)

  pub Extends-Interacts : (sys : System) → Interacts sys (KeepsAll P)
  Extends-Interacts sys = interacting sys (Extends-Closed sys) (record {
    on_read = λ fd. performed _ _;
    on_exit = λ status. record { run = λ s h. h };
    on_passed = pass_input-kept sys;
    on_shown = show_output-kept sys;
    on_window = record { run = p.on_resized };
  })

  pub recovery-kept :
      (sys : System) (fuel : ℕ) {B : Type 0} (name : Bytes) {rest : ℕ → Bool → Action B}
      → ((log : ℕ) (done : Bool) → Keeps P (rest log done))
      → Keeps P (gets (λ s. s.log_file) >>= λ log. recoverfile sys fuel log name >>= rest log)
  recovery-kept sys fuel name next = Keeps-bind (Keeps-gets _) (λ log.
      Keeps-bind
        (on_recoverfile sys (Extends-Closed sys) (λ from. performed _ _)
          (λ to block result. performed _ _) (record { run = λ s h. h }) fuel log name)
        (next log))
