-- ===== src/Session/ShownLoop.antt =====
-- The loop of `logSession` shows nothing that is not in the log, up to and with its end.
use mathlib.Core.List.{nil-sublist}
use rootsh.Base.{ℕ, ◌≡◌, refl, true, false, ◌==◌, Option, some, List, [], ◌∷◌}
use rootsh.Text.{Bytes}
use rootsh.Session.Calls.{Call, System}
use rootsh.Session.State.{Session}
use rootsh.Session.Rules.{Keeps, Leads-bind}
use rootsh.Session.Loop.{check_shown, show_output, log_session}
use rootsh.Session.Closed.Loop.{on_log_session}
use rootsh.Session.Blocks.{blocks_to, blocks_to-tail}
use rootsh.Session.Shown.{
  IsLogged, LogsFirst, write_to-IsLogged, perform-IsLogged, weaken-IsLogged, dologging-IsLogged,
  shown-IsLogged,
}
use rootsh.Session.ShownClosed.{Safe, modify-Safe, Safe-Closed}
use rootsh.Session.Elsewhere.{OpensElsewhere, NotTerminal}
use rootsh.Session.WritesElsewhere.{Writes, Writes-Ends, Writes-Interacts}

module _ (fd : ℕ) where
  Safe-Writes : (sys : System) → Writes sys NotTerminal (Safe fd)
  Safe-Writes sys = record {
    on_elsewhere = λ to q block result. write_to-IsLogged fd [] to block result q;
    on_changed = λ f settings log pty writer calls. modify-Safe fd f settings log pty calls;
    on_log = λ s h. perform-IsLogged fd [] _ _ refl;
  }

  module _ (sys : System) where
    show_output-Safe :
        (c : ℕ) (cs : Bytes)
        → ((count : Option ℕ) → Keeps (Safe fd) (check_shown sys count))
        → Keeps (Safe fd) (show_output sys (some (c ∷ cs)))
    unfolding show_output
    show_output-Safe c cs checked =
        Leads-bind (dologging-IsLogged fd (c ∷ cs) sys)
          (λ _. Leads-bind (shown-IsLogged fd (c ∷ cs) _) checked (λ t h. h))
          (weaken-IsLogged fd (c ∷ cs))

    log_session-Safe :
        (fuel turns : ℕ) → OpensElsewhere sys → Keeps (Safe fd) (log_session sys fuel turns)
    log_session-Safe fuel turns elsewhere =
        on_log_session sys fuel (Safe-Closed fd sys)
          (Writes-Interacts sys (Safe-Closed fd sys) (Safe-Writes sys)
            (λ n. perform-IsLogged fd [] _ _ refl) (λ s h. h.pty_elsewhere) show_output-Safe)
          (Writes-Ends sys (Safe-Closed fd sys) elsewhere (Safe-Writes sys) fuel)
          (record { run = λ s h. h }) turns

pub LogsFirst-silent : (fd : ℕ) (calls : List Call) → blocks_to 1 calls ≡ [] → LogsFirst fd calls
LogsFirst-silent fd [] h = tt
LogsFirst-silent fd (c ∷ calls) h =
    (rw h (nil-sublist _), LogsFirst-silent fd calls (blocks_to-tail c calls h))

-- With logging to a file on, at every moment of a session, after each of its calls: the blocks
-- written to the terminal so far are among those handed to `write` on the log file so far, in the
-- same order. This holds for any number of turns of the loop, and however the program ends. The
-- log file and the pty are other descriptors than that of the terminal, nothing was shown before,
-- and `open` never gives the terminal's descriptor.
pub log_session-LogsFirst :
    (sys : System) (fuel turns : ℕ) (s : Session)
    → OpensElsewhere sys
    → s.settings.logtofile ≡ true
    → (s.log_file == 1) ≡ false
    → (s.master_pty == 1) ≡ false
    → blocks_to 1 s.calls ≡ []
    → LogsFirst s.log_file (log_session sys fuel turns s).1.calls
log_session-LogsFirst sys fuel turns s elsewhere on log pty silent =
    ((log_session-Safe s.log_file sys fuel turns elsewhere).run s at_start).always
  where
    at_start : IsLogged s.log_file [] s
    at_start = record {
      file_on = on;
      log_is = refl;
      log_elsewhere = log;
      pty_elsewhere = pty;
      among = rw silent (nil-sublist _);
      always = LogsFirst-silent s.log_file s.calls silent;
    }
