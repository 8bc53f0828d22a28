-- ===== src/Session/LoopTests.antt =====
-- A session that ends, and the theorems on its end.
use rootsh.Base.{ℕ, ◌+◌, ◌≤◌, ◌≡◌, ◌⊎◌, refl, inr, true, [], ◌∷◌, leb, if◌then◌else◌, arith}
use rootsh.Text.{codes}
use rootsh.Session.Calls.{System, sigchld}
use rootsh.Session.State.{exited, crashed}
use rootsh.Session.Logging.Output.{forceopen, copy_loop}
use rootsh.Session.Logging.CopyLaws.{EndsAfter, reads}
use rootsh.Session.Logging.CopiedLaws.{Copied, copy_loop-Copied}
use rootsh.Session.Logging.RetryLaws.{opens, forceopen-opens}
use rootsh.Session.Loop.{log_session, finish, restore_tty}
use rootsh.Session.Settled.{Identity, identity}
use rootsh.Session.SettledLoop.{Copies}
use rootsh.Session.Liveness.{waits, HasEnded, SignalsAfter, log_session-HasEnded}
use rootsh.Session.FinishLaws.{child_code, finish-exited}
use rootsh.Session.Tests.{opened_session, short_log}

-- The shell is gone at the third wait.
abbrev pub ending_system : System
ending_system = record short_log {
  signals = λ calls. if leb 3 (waits calls) then sigchld ∷ [] else [];
}

pub ending_system-SignalsAfter : SignalsAfter ending_system 3
ending_system-SignalsAfter calls late =
    let come : leb 3 (waits calls) ≡ true = ground arith in rw come refl

pub ending_system-Copies : (i : Identity) → Copies ending_system 3 i
ending_system-Copies i = (2, by_reads i.log_file, omega arith)
  where
    by_reads : (fd : ℕ) → EndsAfter ending_system fd 2
    by_reads fd calls late =
        let stops : leb 2 (reads fd calls) ≡ true = ground arith in inr (rw stops)

log_session-HasEnded_example : HasEnded (log_session ending_system 3 4 opened_session).0
log_session-HasEnded_example =
    log_session-HasEnded ending_system 3 3 4 opened_session
      (ending_system-Copies (identity opened_session)) ending_system-SignalsAfter (omega arith)

finish-exited_example :
    let child = ending_system.wait (restore_tty ending_system opened_session).1.calls in
    ((finish ending_system 3 opened_session).0 ≡ exited (child_code child))
    ⊎ ((finish ending_system 3 opened_session).0 ≡ crashed)
finish-exited_example =
    finish-exited ending_system 3 opened_session (ending_system-Copies (identity opened_session))

copy_loop-Copied_example :
    Copied ending_system 5 9 [] (copy_loop ending_system 3 5 9 opened_session).1.calls
copy_loop-Copied_example = copy_loop-Copied ending_system 5 9 3 opened_session

forceopen-opens_example :
    opens (forceopen ending_system (codes "log.tampered") opened_session).1.calls ≤ 0 + 3
forceopen-opens_example = forceopen-opens ending_system (codes "log.tampered") opened_session
