-- ===== src/Session/Runs.antt =====
-- What `main` does behind the options, for any predicate that its parts keep.
use rootsh.Base.{ℕ, zero, suc, refl, Bool, true, false, Option, none, some}
use rootsh.Text.{Bytes}
use rootsh.Session.Modes.{Modes}
use rootsh.Session.State.{Session, exit, modify, ◌>>◌}
use rootsh.Session.Rules.{Keeps, Keeps-bind, Keeps-gets}
use rootsh.Session.Loop.{log_session}
use rootsh.Session.Environment.{Environ}
use rootsh.Session.Exec.{exec_shell}
use rootsh.Session.Usage.{Build}
use rootsh.Session.Pty.{Forked}
use rootsh.Session.StartUp.{Machine, fail, make_session_id, stands_alone}
use rootsh.Session.Main.{after_pty, after_begin, after_shell, after_mode, after_name, run_session}
use rootsh.Session.Closed.{Closed, on_call}
use rootsh.Session.Closed.Begin.{Starts, on_beginlogging}
use rootsh.Session.Closed.Pty.{Forks, on_forkpty, on_exec_shell}
use rootsh.Session.Extends.{KeepsAll}
use rootsh.Session.Prepares.{
  Prepares, setupusername-Completes, setupusermode-Completes, setupshell-Completes,
}

pub record Runs (m : Machine) (fuel turns : ℕ) (V : Option ℕ → Type 0) (P : Session → Type 0)
    : Type 1 where
  pub prepares : Prepares P
  pub closed : Closed m.system (KeepsAll P)
  pub starts : Starts m.system (KeepsAll P)
  pub forks : Forks m.terminals V (KeepsAll P)
  pub on_modes : (modes : Modes) → Keeps P (modify (λ s. record s { term_params = modes }))
  pub on_session : Keeps P (log_session m.system fuel turns)

module _ {V : Option ℕ → Type 0} {P : Session → Type 0} (build : Build) (m : Machine)
    (fuel turns : ℕ) (r : Runs m fuel turns V P) where
  fail-kept : Keeps P fail
  fail-kept = record { run = λ s h. h }

  after_pty-kept :
      (shell : Bytes) (commands : Option Bytes) (forked : Option Forked)
      → Keeps P (after_pty build m fuel turns shell commands forked)
  unfolding after_pty
  after_pty-kept shell commands none =
      Keeps-bind (on_call m.system r.closed _ refl) (λ _. fail-kept)
  after_pty-kept shell commands (some f) = by_pid f.pid
    where
      by_pid :
          (pid : ℕ)
          → Keeps P (elim pid [
            | zero ↦ exec_shell build.sucmd m.exec_fails shell commands
            | suc child ↦ log_session m.system fuel turns >> exit 0
          ])
      by_pid zero =
          on_exec_shell m.system r.closed (record { run = λ s h. h }) build.sucmd m.exec_fails shell
            commands
      by_pid (suc child) = Keeps-bind r.on_session (λ _. record { run = λ s h. h })

  after_begin-kept :
      (shell : Bytes) (commands : Option Bytes) (begun : Bool)
      → Keeps P (after_begin build m fuel turns shell commands begun)
  unfolding after_begin
  after_begin-kept shell commands false = fail-kept
  after_begin-kept shell commands true = Keeps-bind (r.closed.on_perform _ _ refl) (λ modes.
      Keeps-bind (r.on_modes modes) (λ _.
        Keeps-bind (on_forkpty m.system r.closed m.terminals r.forks modes false)
          (after_pty-kept shell commands)))

  after_shell-kept :
      (commands : Option Bytes) (found : Option Bytes × Environ)
      → Keeps P (after_shell build m fuel turns commands found)
  unfolding after_shell
  after_shell-kept commands (none, env) = fail-kept
  after_shell-kept commands (some shell, env) =
      Keeps-bind (on_beginlogging m.system r.closed r.starts commands)
        (after_begin-kept shell commands)

  after_mode-kept :
      (commands : Option Bytes) (done : Bool × Environ)
      → Keeps P (after_mode build m fuel turns commands done)
  unfolding after_mode
  after_mode-kept commands (false, env) = fail-kept
  after_mode-kept commands (true, env) =
      Keeps-bind (setupshell-Completes r.prepares m.accounts env).kept (after_shell-kept commands)

  after_name-kept :
      (commands : Option Bytes) (env : Environ) (name : Option Bytes)
      → Keeps P (after_name build m fuel turns commands env name)
  unfolding after_name
  after_name-kept commands env none = fail-kept
  after_name-kept commands env (some name) =
      Keeps-bind (record { run = r.prepares.on_user name })
        (λ _.
          Keeps-bind (setupusermode-Completes r.prepares m.accounts env).kept
            (after_mode-kept commands))

  pub run_session-kept :
      (commands : Option Bytes) → Keeps P (run_session build m fuel turns commands)
  unfolding run_session
  run_session-kept commands =
      Keeps-bind
        (record { run = λ s h. r.prepares.on_id (make_session_id m.system.pid s.prog_name) s h })
        (λ _. Keeps-bind (Keeps-gets _) (λ env.
          Keeps-bind (record { run = r.prepares.on_alone (stands_alone env) })
            (λ _.
              Keeps-bind (setupusername-Completes r.prepares m.accounts).kept
                (after_name-kept commands env))))
