-- ===== src/Session/MainEnds.antt =====
-- `main` comes to an end: it exits, or it becomes the shell.
use mathlib.Core.Path.{subst}
use rootsh.Base.{
  ◌≡◌, ℕ, zero, suc, ◌<◌, ◌≢◌, refl, Bool, true, false, Option, none, some, List, [], ◌∷◌,
}
use rootsh.Text.{Bytes}
use rootsh.Session.Calls.{System, Call, execute}
use rootsh.Session.State.{
  Session, Outcome, returned, exited, crashed, unfinished, Action, exit, call, ◌>>=◌, ◌>>◌,
}
use rootsh.Session.Completes.{Completes-gets}
use rootsh.Session.Loop.{log_session}
use rootsh.Session.Environment.{Environ}
use rootsh.Session.Usage.{Build}
use rootsh.Session.Exec.{after_exec, run_call, exec_shell}
use rootsh.Session.Pty.{Forked}
use rootsh.Session.StartUp.{Machine, fail}
use rootsh.Session.Main.{
  after_pty, after_begin, after_shell, after_mode, after_name, run_session, main,
}
use rootsh.Session.Closed.Begin.{on_beginlogging}
use rootsh.Session.Closed.Pty.{on_forkpty}
use rootsh.Session.Prepares.{setupusername-Completes, setupusermode-Completes, setupshell-Completes}
use rootsh.Session.Launch.{start_up-Completes, parse_options-Completes}
use rootsh.Session.Settled.{identity}
use rootsh.Session.SettledLoop.{Copies, log_session-identity}
use rootsh.Session.Liveness.{SignalsAfter, HasEnded, log_session-HasEnded}
use rootsh.Session.Comes.{
  Comes, coming, Comes-Prepares, Comes-Launches, Comes-Closed, Comes-Starts, Comes-Forks,
}

-- Where the program returns it has become another.
abbrev IsOther : List Call → Type 0
IsOther [] = ⊥
IsOther (execute path arguments ∷ calls) = Unit
IsOther (other ∷ calls) = ⊥

-- The program has exited, or has become another.
abbrev pub IsOver : Outcome (Unit {0}) → List Call → Type 0
IsOver (returned a) calls = IsOther calls
IsOver (exited status) calls = Unit
IsOver crashed calls = Unit
IsOver unfinished calls = ⊥

-- How the action ends, where reading the log file that it leaves ends.
record Ends (sys : System) (fuel : ℕ) (m : Action (Unit {0})) : Type 0 where
  run : (s : Session) → Copies sys fuel (identity (m s).1) → IsOver (m s).0 (m s).1.calls

module _ (sys : System) (fuel : ℕ) where
  Ends-bind :
      {A : Type 0} {m : Action A} {f : A → Action (Unit {0})}
      → Comes A m
      → ((a : A) → Ends sys fuel (f a))
      → Ends sys fuel (m >>= f)
  unfolding ◌>>=◌
  Ends-bind {A} {m} {f} first next = record {
    run = λ s. by_outcome (m s).0 (m s).1 (first.ends s tt);
  }
    where
      by_outcome :
          (r : Outcome A) (t : Session)
          → r ≢ unfinished
          → let after = ((λ (u : Session). (r, t)) >>= f) t in
            Copies sys fuel (identity after.1) → IsOver after.0 after.1.calls
      by_outcome (returned a) t e enough = (next a).run t enough
      by_outcome (exited n) t e enough = tt
      by_outcome crashed t e enough = tt
      by_outcome unfinished t e enough = absurd (e refl)

  Ends-fail : Ends sys fuel fail
  Ends-fail = record { run = λ s enough. tt }

  after_exec-Ends :
      (fails : Bool) (path : Bytes) (arguments : List Bytes)
      → Ends sys fuel (call (execute path arguments) >> after_exec fails)
  unfolding after_exec ◌>>=◌
  after_exec-Ends true path arguments = record { run = λ s enough. tt }
  after_exec-Ends false path arguments = record { run = λ s enough. tt }

  run_call-Ends :
      (fails : Bool) (found : Option (Bytes × List Bytes)) → Ends sys fuel (run_call fails found)
  unfolding run_call
  run_call-Ends fails none = record { run = λ s enough. tt }
  run_call-Ends fails (some (path, arguments)) = after_exec-Ends fails path arguments

  exec_shell-Ends :
      (sucmd : Bytes) (fails : Bool) (shell : Bytes) (commands : Option Bytes)
      → Ends sys fuel (exec_shell sucmd fails shell commands)
  unfolding exec_shell
  exec_shell-Ends sucmd fails shell commands = Ends-bind (Completes-gets _) (run_call-Ends fails)

module _ (build : Build) (m : Machine) (fuel n turns : ℕ) (later : SignalsAfter m.system n)
    (more : n < turns) where
  -- The session leaves the descriptor of the log file as it is.
  log_session-Ends : Ends m.system fuel (log_session m.system fuel turns >> exit 0)
  unfolding ◌>>=◌
  log_session-Ends = record {
    run = λ s.
        by_outcome s (log_session m.system fuel turns s).0 (log_session m.system fuel turns s).1
          (log_session-identity m.system fuel turns s)
          (λ enough. log_session-HasEnded m.system fuel n turns s enough later more);
  }
    where
      by_outcome :
          (s : Session) (r : Outcome (Unit {0})) (t : Session)
          → identity t ≡ identity s
          → (Copies m.system fuel (identity s) → HasEnded r)
          → let after = ((λ (u : Session). (r, t)) >>= λ _. exit 0) t in
            Copies m.system fuel (identity after.1) → IsOver after.0 after.1.calls
      by_outcome s (returned a) t same e enough =
          absurd (e (subst (Copies m.system fuel) same enough))
      by_outcome s (exited status) t same e enough = tt
      by_outcome s crashed t same e enough = tt
      by_outcome s unfinished t same e enough =
          absurd (e (subst (Copies m.system fuel) same enough))

  after_pty-Ends :
      (shell : Bytes) (commands : Option Bytes) (forked : Option Forked)
      → Ends m.system fuel (after_pty build m fuel turns shell commands forked)
  unfolding after_pty
  after_pty-Ends shell commands none =
      Ends-bind m.system fuel (coming _ (λ s e. cc)) (λ _. Ends-fail m.system fuel)
  after_pty-Ends shell commands (some f) = by_pid f.pid
    where
      by_pid :
          (pid : ℕ)
          → Ends m.system fuel (elim pid [
            | zero ↦ exec_shell build.sucmd m.exec_fails shell commands
            | suc child ↦ log_session m.system fuel turns >> exit 0
          ])
      by_pid zero = exec_shell-Ends m.system fuel build.sucmd m.exec_fails shell commands
      by_pid (suc child) = log_session-Ends

  after_begin-Ends :
      (shell : Bytes) (commands : Option Bytes) (begun : Bool)
      → Ends m.system fuel (after_begin build m fuel turns shell commands begun)
  unfolding after_begin
  after_begin-Ends shell commands false = Ends-fail m.system fuel
  after_begin-Ends shell commands true = Ends-bind m.system fuel (coming _ (λ s e. cc)) (λ modes.
      Ends-bind m.system fuel (coming _ (λ s e. cc)) (λ _.
        Ends-bind m.system fuel
          (on_forkpty m.system (Comes-Closed m.system) m.terminals
            (Comes-Forks m.system m.terminals) modes false)
          (after_pty-Ends shell commands)))

  after_shell-Ends :
      (commands : Option Bytes) (found : Option Bytes × Environ)
      → Ends m.system fuel (after_shell build m fuel turns commands found)
  unfolding after_shell
  after_shell-Ends commands (none, env) = Ends-fail m.system fuel
  after_shell-Ends commands (some shell, env) =
      Ends-bind m.system fuel
        (on_beginlogging m.system (Comes-Closed m.system) (Comes-Starts m.system) commands)
        (after_begin-Ends shell commands)

  after_mode-Ends :
      (commands : Option Bytes) (done : Bool × Environ)
      → Ends m.system fuel (after_mode build m fuel turns commands done)
  unfolding after_mode
  after_mode-Ends commands (false, env) = Ends-fail m.system fuel
  after_mode-Ends commands (true, env) =
      Ends-bind m.system fuel (setupshell-Completes Comes-Prepares m.accounts env)
        (after_shell-Ends commands)

  after_name-Ends :
      (commands : Option Bytes) (env : Environ) (name : Option Bytes)
      → Ends m.system fuel (after_name build m fuel turns commands env name)
  unfolding after_name
  after_name-Ends commands env none = Ends-fail m.system fuel
  after_name-Ends commands env (some name) = Ends-bind m.system fuel (coming _ (λ s e. cc)) (λ _.
      Ends-bind m.system fuel (setupusermode-Completes Comes-Prepares m.accounts env)
        (after_mode-Ends commands))

  run_session-Ends :
      (commands : Option Bytes) → Ends m.system fuel (run_session build m fuel turns commands)
  unfolding run_session
  run_session-Ends commands = Ends-bind m.system fuel (coming _ (λ s e. cc)) (λ _.
      Ends-bind m.system fuel (Completes-gets _) (λ env.
        Ends-bind m.system fuel (coming _ (λ s e. cc)) (λ _.
          Ends-bind m.system fuel (setupusername-Completes Comes-Prepares m.accounts)
            (after_name-Ends commands env))))

  main-Ends : Ends m.system fuel (main build m fuel turns)
  unfolding main
  main-Ends = Ends-bind m.system fuel (start_up-Completes Comes-Launches build m) (λ _.
      Ends-bind m.system fuel (parse_options-Completes Comes-Launches build m) run_session-Ends)

-- The program as a whole, from `main` on, comes to an end on every command line, configuration and
-- account database, in both processes of the fork: it exits, or its behaviour is undefined, or it has
-- become the program that its last call executes. One of the signals SIGINT, SIGQUIT and SIGCHLD comes
-- within `n` waits of the session, which has more turns; and reading the log file that the program
-- has in the end comes to an end, with fuel for more turns of the copying loop than the reads give
-- bytes.
pub main-IsOver :
    (build : Build) (m : Machine) (fuel n turns : ℕ) (s : Session)
    → Copies m.system fuel (identity (main build m fuel turns s).1)
    → SignalsAfter m.system n
    → n < turns
    → IsOver (main build m fuel turns s).0 (main build m fuel turns s).1.calls
main-IsOver build m fuel n turns s enough later more =
    (main-Ends build m fuel n turns later more).run s enough
