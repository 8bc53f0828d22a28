-- ===== src/Session/Main.antt =====
-- `main`, over the system, the accounts, the terminals, the configuration file, and what getopt_long
-- gives for the command line. The size of the window that main saves for `forkpty` is not kept.
use rootsh.Base.{ℕ, zero, suc, Bool, true, false, Option, none, some}
use rootsh.Text.{Bytes, codes}
use rootsh.Session.Calls.{print_error, get_tty}
use rootsh.Session.State.{
  Session, Outcome, returned, exited, crashed, unfinished, Action, exit, gets, modify, perform,
  call, ◌>>=◌, ◌>>◌,
}
use rootsh.Session.Logging.Begin.{beginlogging}
use rootsh.Session.Loop.{log_session}
use rootsh.Session.Environment.{Environ}
use rootsh.Session.Setup.{setupusername, setupusermode, setupshell}
use rootsh.Session.Exec.{exec_shell}
use rootsh.Session.Usage.{Build}
use rootsh.Session.Pty.{Forked, forkpty}
use rootsh.Session.StartUp.{
  Machine, fail, start_up, parse_options, make_session_id, note_session, stands_alone,
}

-- The environment is passed on beside the other variables.
abbrev pub with_environment : {A : Type 0} → Environ → Outcome A → Outcome (A × Environ)
with_environment env (returned a) = returned (a, env)
with_environment env (exited status) = exited status
with_environment env crashed = crashed
with_environment env unfinished = unfinished

abbrev pub lifted :
    {A : Type 0}
    → (Environ → Session → Outcome A × Environ × Session)
    → Environ
    → Action (A × Environ)
lifted m env s = let (r, env', s') = m env s in (with_environment env' r, s')

-- Behind `forkpty`. A child that has become the shell has returned here: the `exit` behind execShell
-- is not reached.
unfoldable pub after_pty :
    Build → Machine → ℕ → ℕ → Bytes → Option Bytes → Option Forked → Action (Unit {0})
after_pty build m fuel turns shell commands none = call (print_error (codes "forkpty")) >> fail
after_pty build m fuel turns shell commands (some f) = elim f.pid [
  | zero ↦ exec_shell build.sucmd m.exec_fails shell commands
  | suc child ↦ log_session m.system fuel turns >> exit 0
]

-- Behind `beginlogging`.
unfoldable pub after_begin :
    Build → Machine → ℕ → ℕ → Bytes → Option Bytes → Bool → Action (Unit {0})
unfolding after_pty
after_begin build m fuel turns shell commands false = fail
after_begin build m fuel turns shell commands true = do
  modes ← perform get_tty m.terminals.modes
  modify (λ s. record s { term_params = modes })
  forked ← forkpty m.terminals (some modes) true false
  after_pty build m fuel turns shell commands forked

unfoldable pub after_shell :
    Build → Machine → ℕ → ℕ → Option Bytes → Option Bytes × Environ → Action (Unit {0})
unfolding after_begin
after_shell build m fuel turns commands (none, env) = fail
after_shell build m fuel turns commands (some shell, env) =
    beginlogging m.system commands >>= after_begin build m fuel turns shell commands

unfoldable pub after_mode :
    Build → Machine → ℕ → ℕ → Option Bytes → Bool × Environ → Action (Unit {0})
unfolding after_shell
after_mode build m fuel turns commands (false, env) = fail
after_mode build m fuel turns commands (true, env) =
    lifted (setupshell m.accounts) env >>= after_shell build m fuel turns commands

unfoldable pub after_name :
    Build → Machine → ℕ → ℕ → Option Bytes → Environ → Option Bytes → Action (Unit {0})
unfolding after_mode
after_name build m fuel turns commands env none = fail
after_name build m fuel turns commands env (some name) =
    modify (λ s. record s { user_name = name })
    >> (lifted (setupusermode m.accounts) env >>= after_mode build m fuel turns commands)

-- The part behind the options.
unfoldable pub run_session : Build → Machine → ℕ → ℕ → Option Bytes → Action (Unit {0})
unfolding after_name
run_session build m fuel turns commands = do
  modify (λ s. record s { session_id = make_session_id m.system.pid s.prog_name })
  env ← gets (λ s. note_session s.session_id m.environment)
  modify (λ s. record s { standalone = stands_alone env })
  user ← setupusername m.accounts
  after_name build m fuel turns commands env user

unfoldable pub main : Build → Machine → ℕ → ℕ → Action (Unit {0})
unfolding run_session
main build m fuel turns = do
  start_up build m
  parse_options build m >>= run_session build m fuel turns
