-- ===== src/Session/Settled.antt =====
-- What a session leaves of the variables that name the log, the user and the terminal, and that no
-- function but the copying loop runs out of fuel.
use rootsh.Base.{ℕ, ◌≡◌, ◌≢◌, refl, ◌∙◌, Bool, false, Option, some, List, [], ◌∷◌, length}
use rootsh.Text.{Bytes}
use rootsh.Config.File.{Settings}
use rootsh.Syslog.Writer.{Written, written, failed, write2syslog}
use rootsh.Session.Modes.{Modes}
use rootsh.Session.Calls.{Call, System, Signal, sigint, sigquit, sigchld, sigwinch, unexpected}
use rootsh.Session.State.{
  Session, Outcome, returned, exited, crashed, unfinished, Action, gets, perform, modify, ◌>>=◌,
}
use rootsh.Session.Logging.Output.{syslog_options, after_write, send_syslog}
use rootsh.Session.Loop.{
  signal_handler, handle_all, pass_input, check_passed, check_shown, show_output,
}
use rootsh.Session.Closed.{Closed, on_dologging}
use rootsh.Session.Closed.Loop.{Interacts, interacting}

-- What `main` has set before the session.
pub record Identity : Type 0 where
  pub settings : Settings
  pub prog_name : Bytes
  pub session_id : Bytes
  pub log_file : ℕ
  pub log_inode : ℕ
  pub log_dev : ℕ
  pub user_name : Bytes
  pub run_as_user : Option Bytes
  pub standalone : Bool
  pub master_pty : ℕ
  pub term_params : Modes

abbrev pub identity : Session → Identity
identity s = record {
  settings = s.settings;
  prog_name = s.prog_name;
  session_id = s.session_id;
  log_file = s.log_file;
  log_inode = s.log_inode;
  log_dev = s.log_dev;
  user_name = s.user_name;
  run_as_user = s.run_as_user;
  standalone = s.standalone;
  master_pty = s.master_pty;
  term_params = s.term_params;
}

-- The identity stays, and under `Q` the fuel of no loop runs out.
pub record Settles (i : Identity) (Q : Type 0) (A : Type 0) (m : Action A) : Type 0 where
  pub stays : (s : Session) → identity s ≡ i → identity (m s).1 ≡ i
  pub ends : Q → (s : Session) → identity s ≡ i → (m s).0 ≢ unfinished

module _ (i : Identity) (Q : Type 0) where
  pub Settles-modify :
      (f : Session → Session)
      → ((s : Session) → identity (f s) ≡ identity s)
      → Settles i Q Unit (modify f)
  Settles-modify f same = record { stays = λ s h. same s ∙ h; ends = λ q s h e. cc }

  pub Settles-bind :
      {A B : Type 0} {m : Action A} {f : A → Action B}
      → Settles i Q A m
      → ((a : A) → Settles i Q B (f a))
      → Settles i Q B (m >>= f)
  unfolding ◌>>=◌
  Settles-bind {A} {B} {m} {f} first next = record {
    stays = λ s h. stays_by (m s).0 (m s).1 (first.stays s h);
    ends = λ q s h. ends_by q (m s).0 (m s).1 (first.stays s h) (first.ends q s h);
  }
    where
      after : Outcome A → Session → Outcome B × Session
      after r t = ((λ (u : Session). (r, t)) >>= f) t

      stays_by : (r : Outcome A) (t : Session) → identity t ≡ i → identity (after r t).1 ≡ i
      stays_by (returned a) t h = (next a).stays t h
      stays_by (exited n) t h = h
      stays_by crashed t h = h
      stays_by unfinished t h = h

      ends_by :
          Q
          → (r : Outcome A) (t : Session) → identity t ≡ i
          → r ≢ unfinished
          → (after r t).0 ≢ unfinished
      ends_by q (returned a) t h e = (next a).ends q t h
      ends_by q (exited n) t h e = λ k. cc
      ends_by q crashed t h e = λ k. cc
      ends_by q unfinished t h e = λ k. e refl

  send_syslog-Settles : (text : Bytes) → Settles i Q Unit (send_syslog text)
  unfolding send_syslog after_write
  send_syslog-Settles text = record {
    stays = λ s h. by_result s (write2syslog (syslog_options s) s.writer (some text)) h;
    ends = λ q s h. ended s (write2syslog (syslog_options s) s.writer (some text));
  }
    where
      by_result : (s : Session) (r : Written) → identity s ≡ i → identity (after_write s r).1 ≡ i
      by_result s (written w entries) h = h
      by_result s failed h = h

      ended : (s : Session) (r : Written) → (after_write s r).0 ≢ unfinished
      ended s (written w entries) e = cc
      ended s failed e = cc

  pub Settles-perform :
      {A : Type 0} (c : Call) (result : List Call → A) → Settles i Q A (perform c result)
  Settles-perform c result = record { stays = λ s h. h; ends = λ q s h e. cc }

  pub Settles-gets : {A : Type 0} (f : Session → A) → Settles i Q A (gets f)
  Settles-gets f = record { stays = λ s h. h; ends = λ q s h e. cc }

  pub Settles-Closed : (sys : System) → Closed sys (Settles i Q)
  Settles-Closed sys = record {
    on_pure = λ a. record { stays = λ s h. h; ends = λ q s h e. cc };
    on_crash = record { stays = λ s h. h; ends = λ q s h e. cc };
    on_gets = Settles-gets;
    on_bind = Settles-bind;
    on_perform = λ c result q. Settles-perform c result;
    on_name = λ name. Settles-modify (λ s. record s { log_file_name = name }) (λ s. refl);
    on_log = λ text. Settles-bind (Settles-gets _) (λ fd. Settles-perform _ _);
    on_syslog = send_syslog-Settles;
  }

  Settles-pass_input :
      (sys : System) (buf : Bytes)
      → ((count : Option ℕ) → Settles i Q Unit (check_passed sys (length buf) count))
      → Settles i Q Unit (pass_input sys (some buf))
  unfolding pass_input
  Settles-pass_input sys buf checked =
      Settles-bind (Settles-gets _) (λ pty. Settles-bind (Settles-perform _ _) checked)

  Settles-show_output :
      (sys : System) (c : ℕ) (cs : Bytes)
      → ((count : Option ℕ) → Settles i Q Unit (check_shown sys count))
      → Settles i Q Unit (show_output sys (some (c ∷ cs)))
  unfolding show_output
  Settles-show_output sys c cs checked =
      Settles-bind (on_dologging sys (Settles-Closed sys) (c ∷ cs))
        (λ _. Settles-bind (Settles-perform _ _) checked)

  pub Settles-Interacts : (sys : System) → Interacts sys (Settles i Q)
  Settles-Interacts sys = interacting sys (Settles-Closed sys) (record {
    on_read = λ fd. Settles-perform _ _;
    on_exit = λ status. record { stays = λ s h. h; ends = λ q s h e. cc };
    on_passed = Settles-pass_input sys;
    on_shown = Settles-show_output sys;
    on_window = Settles-modify (λ s. record s { sig_winch = false }) (λ s. refl);
  })

  signal_handler-identity :
      (signal : Signal) (s : Session) → identity (signal_handler signal s) ≡ identity s
  unfolding signal_handler
  signal_handler-identity sigint s = refl
  signal_handler-identity sigquit s = refl
  signal_handler-identity sigchld s = refl
  signal_handler-identity sigwinch s = refl
  signal_handler-identity (unexpected n) s = refl

  pub handle_all-identity :
      (signals : List Signal) (s : Session) → identity (handle_all signals s) ≡ identity s
  unfolding handle_all
  handle_all-identity [] s = refl
  handle_all-identity (signal ∷ later) s =
      handle_all-identity later (signal_handler signal s) ∙ signal_handler-identity signal s
