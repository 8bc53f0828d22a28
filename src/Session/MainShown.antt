-- ===== src/Session/MainShown.antt =====
-- What the program shows on the terminal, from its start on, is in the log first.
use rootsh.Base.{
  ℕ, zero, suc, ◌≡◌, refl, ap, sym, ◌∙◌, Bool, true, false, Option, none, some, [], ◌==◌,
}
use rootsh.Text.{Bytes}
use rootsh.Session.Modes.{Modes}
use rootsh.Session.Calls.{get_tty}
use rootsh.Session.State.{Session, Action, exit, modify, ◌>>=◌, ◌>>◌}
use rootsh.Session.Rules.{Leads, Leads-bind, Keeps, Keeps-gets}
use rootsh.Session.Loop.{log_session}
use rootsh.Session.Environment.{Environ}
use rootsh.Session.Usage.{Build}
use rootsh.Session.Exec.{exec_shell}
use rootsh.Session.Pty.{Forked, forkpty}
use rootsh.Session.StartUp.{Machine, fail, stands_alone, make_session_id}
use rootsh.Session.Launch.{start_up-Completes, parse_options-Completes}
use rootsh.Session.Main.{
  after_pty, after_begin, after_shell, after_mode, after_name, run_session, main,
}
use rootsh.Session.Closed.{on_call}
use rootsh.Session.Blocks.{blocks_to}
use rootsh.Session.Shown.{LogsFirst}
use rootsh.Session.Elsewhere.{OpensElsewhere, MasterElsewhere}
use rootsh.Session.WritesElsewhere.{Forks-kept}
use rootsh.Session.ShownLoop.{LogsFirst-silent, log_session-LogsFirst}
use rootsh.Session.Settled.{Identity}
use rootsh.Session.SettledLoop.{log_session-identity}
use rootsh.Session.Prepares.{setupusername-Completes, setupusermode-Completes, setupshell-Completes}
use rootsh.Session.Silent.{
  Silent, Silent-modify, Silent-perform, Silent-Closed, Silent-Prepares, Silent-Launches,
  beginlogging-Silent,
}
use rootsh.Session.Closed.Pty.{on_forkpty, on_exec_shell}

-- The log has what was shown first, where there is a log file.
pub record Faithful (s : Session) : Type 0 where
  pub logged : s.settings.logtofile ≡ true → LogsFirst s.log_file s.calls

Silent-Faithful : (s : Session) → Silent s → Faithful s
Silent-Faithful s h = record { logged = λ on. LogsFirst-silent s.log_file s.calls h.nothing }

-- From a silent state on, nothing is shown that was not logged.
abbrev Shows : {A : Type 0} → Action A → Type 0
Shows m = Leads Silent m Faithful

Shows-bind :
    {A B : Type 0} {m : Action A} {f : A → Action B}
    → Keeps Silent m
    → ((a : A) → Shows (f a))
    → Shows (m >>= f)
Shows-bind k next = Leads-bind k next Silent-Faithful

Shows-end : {A : Type 0} {m : Action A} → Keeps Silent m → Shows m
Shows-end k = record { run = λ s h. Silent-Faithful _ (k.run s h) }

Shows-fail : Shows fail
Shows-fail = record { run = λ s h. Silent-Faithful s h }

Silent-master :
    (master : ℕ)
    → (master == 1) ≡ false
    → Keeps Silent (modify (λ s. record s { master_pty = master }))
Silent-master master q = record {
  run = λ s h. record { nothing = h.nothing; log_elsewhere = h.log_elsewhere; pty_elsewhere = q };
}

module _ (build : Build) (m : Machine) (fuel turns : ℕ) (elsewhere : OpensElsewhere m.system)
    (pty : MasterElsewhere m.terminals) where
  log_session-Faithful : Shows {A = Unit {0}} (log_session m.system fuel turns >> exit 0)
  log_session-Faithful =
      Leads-bind
        (record {
          run = λ s h. record {
            logged = λ on.
                let same = log_session-identity m.system fuel turns s in
                let log : (log_session m.system fuel turns s).1.log_file ≡ s.log_file =
                  ap (λ (i : Identity). i.log_file) same in
                rw log (
                  log_session-LogsFirst m.system fuel turns s elsewhere
                    (ap (λ (i : Identity). i.settings.logtofile) (sym same) ∙ on) h.log_elsewhere
                    h.pty_elsewhere h.nothing);
          };
        })
        (λ _. record { run = λ s h. h }) (λ s h. h)

  forkpty-Silent : (modes : Modes) → Keeps Silent (forkpty m.terminals (some modes) true false)
  forkpty-Silent modes =
      on_forkpty m.system (Silent-Closed m.system) m.terminals
        (Forks-kept m.system (Silent-Closed m.system) m.terminals pty Silent-master) modes false

  after_pty-Faithful :
      (shell : Bytes) (commands : Option Bytes) (forked : Option Forked)
      → Shows (after_pty build m fuel turns shell commands forked)
  unfolding after_pty
  after_pty-Faithful shell commands none =
      Shows-bind (on_call m.system (Silent-Closed m.system) _ refl) (λ _. Shows-fail)
  after_pty-Faithful shell commands (some f) = by_pid f.pid
    where
      by_pid :
          (pid : ℕ)
          → Shows (elim pid [
            | zero ↦ exec_shell build.sucmd m.exec_fails shell commands
            | suc child ↦ log_session m.system fuel turns >> exit 0
          ])
      by_pid zero = Shows-end (
          on_exec_shell m.system (Silent-Closed m.system) (record { run = λ s h. h }) build.sucmd
            m.exec_fails shell commands)
      by_pid (suc child) = log_session-Faithful

  after_begin-Faithful :
      (shell : Bytes) (commands : Option Bytes) (begun : Bool)
      → Shows (after_begin build m fuel turns shell commands begun)
  unfolding after_begin
  after_begin-Faithful shell commands false = Shows-fail
  after_begin-Faithful shell commands true = Shows-bind (Silent-perform get_tty _ refl) (λ modes.
      Shows-bind
        (Silent-modify (λ s. record s { term_params = modes }) (λ _. refl) (λ _. refl) (λ _. refl))
        (λ _. Shows-bind (forkpty-Silent modes) (after_pty-Faithful shell commands)))

  after_shell-Faithful :
      (commands : Option Bytes) (found : Option Bytes × Environ)
      → Shows (after_shell build m fuel turns commands found)
  unfolding after_shell
  after_shell-Faithful commands (none, env) = Shows-fail
  after_shell-Faithful commands (some shell, env) =
      Shows-bind (beginlogging-Silent m.system elsewhere commands)
        (after_begin-Faithful shell commands)

  after_mode-Faithful :
      (commands : Option Bytes) (done : Bool × Environ)
      → Shows (after_mode build m fuel turns commands done)
  unfolding after_mode
  after_mode-Faithful commands (false, env) = Shows-fail
  after_mode-Faithful commands (true, env) =
      Shows-bind ((setupshell-Completes Silent-Prepares m.accounts env).kept)
        (after_shell-Faithful commands)

  after_name-Faithful :
      (commands : Option Bytes) (env : Environ) (name : Option Bytes)
      → Shows (after_name build m fuel turns commands env name)
  unfolding after_name
  after_name-Faithful commands env none = Shows-fail
  after_name-Faithful commands env (some name) =
      Shows-bind (record { run = Silent-Prepares.on_user name })
        (λ _.
          Shows-bind ((setupusermode-Completes Silent-Prepares m.accounts env).kept)
            (after_mode-Faithful commands))

  run_session-Faithful : (commands : Option Bytes) → Shows (run_session build m fuel turns commands)
  unfolding run_session
  run_session-Faithful commands =
      Shows-bind
        (Silent-modify (λ s. record s { session_id = make_session_id m.system.pid s.prog_name })
          (λ _. refl) (λ _. refl) (λ _. refl))
        (λ _. Shows-bind (Keeps-gets _) (λ env.
          Shows-bind (record { run = Silent-Prepares.on_alone (stands_alone env) })
            (λ _.
              Shows-bind ((setupusername-Completes Silent-Prepares m.accounts).kept)
                (after_name-Faithful commands env))))

  main-Faithful : Shows (main build m fuel turns)
  unfolding main
  main-Faithful = Shows-bind ((start_up-Completes Silent-Launches build m).kept) (λ _.
      Shows-bind ((parse_options-Completes Silent-Launches build m).kept) run_session-Faithful)

-- The program as a whole, from `main` on: where it logs to a file in the end, at every moment the
-- blocks written to the terminal were handed to `write` on that file before, in the same order,
-- however the program ends, and in either process of the fork. Nothing was shown before it starts,
-- its variables for the log file and the pty do not hold the terminal's descriptor, and neither
-- `open` nor the opening of a pty gives that one. The texts that `version` and `usage` print are no
-- such blocks.
pub main-LogsFirst :
    (build : Build) (m : Machine) (fuel turns : ℕ) (s : Session)
    → OpensElsewhere m.system
    → MasterElsewhere m.terminals
    → (s.log_file == 1) ≡ false
    → (s.master_pty == 1) ≡ false
    → blocks_to 1 s.calls ≡ []
    → (main build m fuel turns s).1.settings.logtofile ≡ true
    → LogsFirst (main build m fuel turns s).1.log_file (main build m fuel turns s).1.calls
main-LogsFirst build m fuel turns s elsewhere pty log master silent on =
    ((main-Faithful build m fuel turns elsewhere pty).run s
        (record { nothing = silent; log_elsewhere = log; pty_elsewhere = master })).logged
      on
