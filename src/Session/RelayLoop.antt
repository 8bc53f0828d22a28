-- ===== src/Session/RelayLoop.antt =====
-- The loop of `logSession` relays every block, up to and with its end.
use rootsh.Base.{
  ℕ, ◌≤◌, ◌≡◌, ◌≢◌, refl, ◌==◌, false, Option, none, some, List, [], ◌∷◌, ◌++◌, length, arith,
}
use rootsh.Text.{Bytes}
use rootsh.Session.Calls.{System, read_from}
use rootsh.Session.State.{Session, Outcome, returned, exited, crashed, unfinished, ◌>>=◌}
use rootsh.Session.Logging.Output.{dologging}
use rootsh.Session.Loop.{
  check_passed, pass_input, read_stdin, check_shown, show_output, write_fd, read_pty, log_session,
}
use rootsh.Session.Closed.{on_dologging}
use rootsh.Session.Closed.Loop.{Interacts, on_log_session}
use rootsh.Session.Elsewhere.{OpensIn}
use rootsh.Session.Comes.{Comes-Closed}
use rootsh.Session.Proceeds.{Proceeds-Closed}
use rootsh.Session.Blocks.{blocks_to}
use rootsh.Session.RelaySteps.{passed_on, no_more_input, read_output, shown_on}
use rootsh.Session.Relayed.{
  IsRelayed, IsApart, received, nonempty, given, modify-IsRelayed, Relayed-Closed,
}
use rootsh.Session.Relays.{LeavesNone, Relays, Keeps-Relays, Relays-Closed, Relays-Ends}

module _ (sys : System) (pty : ℕ) (no_input : (pty == 0) ≡ false) (apart : (pty == 1) ≡ false) where
  read_stdin-Relays :
      Relays sys pty Unit (pass_input sys none)
      → ((size : ℕ) (count : Option ℕ) → Relays sys pty Unit (check_passed sys size count))
      → Relays sys pty Unit (read_stdin sys)
  unfolding read_stdin pass_input ◌>>=◌
  read_stdin-Relays wrong checked = record { run = λ s h. by_block s (sys.read s.calls 0) refl h }
    where
      by_block :
          (s : Session) (r : Option Bytes)
          → sys.read s.calls 0 ≡ r
          → IsRelayed sys pty [] s
          → let after = pass_input sys r (record s { calls = read_from 0 ∷ s.calls }) in
            LeavesNone sys pty after.0 after.1
      by_block s none e h = wrong.run _ (no_more_input sys pty no_input apart s e h)
      by_block s (some buf) e h =
          (checked (length buf) (sys.write (read_from 0 ∷ s.calls) s.master_pty buf)).run _
            (passed_on sys pty no_input apart s buf e h)

  -- `dologging` does not end the program: where it does not return, its behaviour is undefined.
  show_output-Relays :
      ((count : Option ℕ) → Relays sys pty Unit (check_shown sys count))
      → (block : Option Bytes) (s : Session) → IsRelayed sys pty (nonempty (given block)) s
      → let after = show_output sys block s in LeavesNone sys pty after.0 after.1
  unfolding show_output ◌>>=◌
  show_output-Relays checked none s h = h
  show_output-Relays checked (some []) s h = h
  show_output-Relays checked (some (c ∷ cs)) s h =
      by_outcome (dologging sys (c ∷ cs) s).0 (dologging sys (c ∷ cs) s).1
        ((on_dologging sys (Relayed-Closed sys pty ((c ∷ cs) ∷ [])) (c ∷ cs)).run s h)
        ((on_dologging sys (Comes-Closed sys) (c ∷ cs)).ends s tt)
        ((on_dologging sys (Proceeds-Closed sys) (c ∷ cs)).run s)
    where
      by_outcome :
          (r : Outcome (Unit {0})) (t : Session)
          → IsRelayed sys pty ((c ∷ cs) ∷ []) t
          → r ≢ unfinished
          → ((status : ℕ) → r ≢ exited status)
          → let after =
              ((λ (u : Session). (r, t)) >>= λ _. write_fd sys 1 (c ∷ cs) >>= check_shown sys) t in
            LeavesNone sys pty after.0 after.1
      by_outcome (returned a) t k never ends =
          (checked (sys.write t.calls 1 (c ∷ cs))).run _
            (shown_on sys pty no_input apart t (c ∷ cs) k)
      by_outcome (exited n) t k never ends = absurd (ends n refl)
      by_outcome crashed t k never ends = ((c ∷ cs) ∷ [], ground arith, k)
      by_outcome unfinished t k never ends = absurd (never refl)

  read_pty-Relays :
      ((count : Option ℕ) → Relays sys pty Unit (check_shown sys count))
      → Relays sys pty Unit (read_pty sys)
  unfolding read_pty ◌>>=◌
  read_pty-Relays checked = record {
    run = λ s h.
        show_output-Relays checked (sys.read s.calls s.master_pty) _
          (read_output sys pty no_input apart s h);
  }

  Relays-Interacts : Interacts sys (Relays sys pty)
  Relays-Interacts = record {
    on_exit = λ status. Keeps-Relays sys pty (record { run = λ s h. h });
    on_stdin = read_stdin-Relays;
    on_pty = read_pty-Relays;
    on_window = Keeps-Relays sys pty (
        modify-IsRelayed sys pty [] (λ s. record s { sig_winch = false }) (λ _. refl) (λ _. refl)
          (λ _. refl));
  }

  log_session-Relays :
      (fuel turns : ℕ)
      → OpensIn (IsApart pty) sys
      → Relays sys pty Unit (log_session sys fuel turns)
  log_session-Relays fuel turns elsewhere =
      on_log_session sys fuel (Relays-Closed sys pty) Relays-Interacts
        (Relays-Ends sys pty fuel elsewhere) (Keeps-Relays sys pty (record { run = λ s h. h }))
        turns

-- The session is transparent. After any number of turns, and however the program ends, the blocks
-- that were read from the pty and are not empty are the ones that were handed to `write` on the
-- terminal, in the same order, and the blocks read from the user are those handed to `write` on the
-- pty. Only where the behaviour is undefined, the last block read from the pty may not have been
-- shown. The terminal, the pty, the log file and the user's input are different descriptors, `open`
-- gives neither the terminal nor the pty, and all that was read before was written.
pub log_session-received :
    (sys : System) (fuel turns : ℕ) (s : Session)
    → OpensIn (IsApart s.master_pty) sys
    → IsApart 0 s.master_pty
    → IsApart s.master_pty s.log_file
    → (s.log_file == 0) ≡ false
    → nonempty (received sys s.master_pty s.calls) ≡ blocks_to 1 s.calls
    → received sys 0 s.calls ≡ blocks_to s.master_pty s.calls
    → let (r, t) = log_session sys fuel turns s in
      (left : List Bytes) × (length left ≤ 1)
      × (r ≢ crashed → left ≡ [])
      × (nonempty (received sys s.master_pty t.calls) ≡ left ++ blocks_to 1 t.calls)
      × (received sys 0 t.calls ≡ blocks_to s.master_pty t.calls)
log_session-received sys fuel turns s elsewhere (apart, no_input) log no_log output input =
    by_outcome (log_session sys fuel turns s).0 (log_session sys fuel turns s).1 (
      (log_session-Relays sys s.master_pty no_input apart fuel turns elsewhere).run s (record {
        pty_is = refl;
        log_apart = log;
        log_no_input = no_log;
        output = output;
        input = input;
      }))
  where
    by_outcome :
        (r : Outcome (Unit {0})) (t : Session)
        → LeavesNone sys s.master_pty r t
        → (left : List Bytes) × (length left ≤ 1)
          × (r ≢ crashed → left ≡ [])
          × (nonempty (received sys s.master_pty t.calls) ≡ left ++ blocks_to 1 t.calls)
          × (received sys 0 t.calls ≡ blocks_to s.master_pty t.calls)
    by_outcome (returned a) t h = ([], ground arith, λ e. refl, h.output, h.input)
    by_outcome (exited n) t h = ([], ground arith, λ e. refl, h.output, h.input)
    by_outcome crashed t (left, few, h) = (left, few, λ e. absurd (e refl), h.output, h.input)
    by_outcome unfinished t h = ([], ground arith, λ e. refl, h.output, h.input)
