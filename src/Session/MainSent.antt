-- ===== src/Session/MainSent.antt =====
-- What the program shows on the terminal, from its start on, was handed to `write2syslog`.
use mathlib.Core.List.{Sublist, nil-sublist}
use rootsh.Base.{
  ℕ, ◌≡◌, refl, ◌∙◌, true, false, Option, List, [], ◌∷◌, ◌==◌, reverse, Bool-cases, inl, inr,
}
use rootsh.Text.{Bytes}
use rootsh.Syslog.Writer.{Options, Entry, initial, written}
use rootsh.Syslog.Calls.{write_calls}
use rootsh.Session.Calls.{Call}
use rootsh.Session.State.{Session}
use rootsh.Session.Rules.{Leads, Leads-bind}
use rootsh.Session.Logging.Output.{syslog_options}
use rootsh.Session.Usage.{Build}
use rootsh.Session.StartUp.{Machine}
use rootsh.Session.Main.{run_session, main}
use rootsh.Session.Closed.{is_write}
use rootsh.Session.Blocks.{blocks_to, blocks_to-other}
use rootsh.Session.Elsewhere.{OpensElsewhere, MasterElsewhere}
use rootsh.Session.Launch.{Launches, start_up-Completes, parse_options-Completes}
use rootsh.Session.Runs.{run_session-kept}
use rootsh.Session.Sent.{IsSent, entries_in}
use rootsh.Session.SentRuns.{IsOff-Runs, Sent-Runs}

-- Before the options are read: nothing was shown or handed on.
record Fresh (s : Session) : Type 0 where
  nothing : blocks_to 1 s.calls ≡ []
  log_elsewhere : (s.log_file == 1) ≡ false
  pty_elsewhere : (s.master_pty == 1) ≡ false
  unused : s.writer ≡ initial

Fresh-made :
    (c : Call) (s : Session)
    → is_write c ≡ false
    → Fresh s
    → Fresh (record s { calls = c ∷ s.calls })
Fresh-made c s q h = record {
  nothing = rw (blocks_to-other 1 c s.calls q) h.nothing;
  log_elsewhere = h.log_elsewhere;
  pty_elsewhere = h.pty_elsewhere;
  unused = h.unused;
}

Fresh-Launches : Launches Fresh
Fresh-Launches = record {
  on_message = λ text s h. Fresh-made _ s refl h;
  on_output = λ text s h. Fresh-made _ s refl h;
  on_changed = λ f log pty writer calls. record {
    run = λ s h. record {
      nothing = rw (calls s) h.nothing;
      log_elsewhere = rw (log s) h.log_elsewhere;
      pty_elsewhere = rw (pty s) h.pty_elsewhere;
      unused = writer s ∙ h.unused;
    };
  };
}

-- Where syslog is on, what was shown was handed to `write2syslog`, and what that sent has reached
-- syslog.
abbrev pub IsTold : Session → Type 0
IsTold t =
    t.settings.logtosyslog ≡ true
    → (texts : List Bytes) × (entries : List Entry) × Sublist (blocks_to 1 t.calls) texts
      × (write_calls (syslog_options t) initial (reverse texts) ≡ written t.writer entries)
      × Sublist (reverse entries) (entries_in t.calls)

Fresh-IsTold : (s : Session) → Fresh s → IsTold s
unfolding write_calls
Fresh-IsTold s h on = ([], [], rw h.nothing (nil-sublist _), rw h.unused refl, nil-sublist _)

Sent-IsTold : (o : Options) (t : Session) → IsSent o initial [] t → IsTold t
Sent-IsTold o t h on = (h.texts, h.entries, h.among, rw h.options_are h.replayed, h.sent)

Fresh-IsSent :
    (s : Session) → s.settings.logtosyslog ≡ true → Fresh s → IsSent (syslog_options s) initial [] s
Fresh-IsSent s on h = record {
  syslog_on = on;
  options_are = refl;
  log_elsewhere = h.log_elsewhere;
  pty_elsewhere = h.pty_elsewhere;
  texts = [];
  entries = [];
  replayed = unfold write_calls in rw h.unused refl;
  sent = nil-sublist _;
  among = rw h.nothing (nil-sublist _);
}

module _ (build : Build) (m : Machine) (fuel turns : ℕ) (elsewhere : OpensElsewhere m.system)
    (pty : MasterElsewhere m.terminals) where
  run_session-IsTold :
      (commands : Option Bytes) → Leads Fresh (run_session build m fuel turns commands) IsTold
  run_session-IsTold commands = record {
    run = λ s h. elim (Bool-cases s.settings.logtosyslog) [
      | inl on ↦ Sent-IsTold (syslog_options s) _ (
          (run_session-kept build m fuel turns
              (Sent-Runs m fuel turns elsewhere pty (syslog_options s) initial) commands).run
            s (Fresh-IsSent s on h))
      | inr off ↦ λ on.
          let still =
            (run_session-kept build m fuel turns (IsOff-Runs m fuel turns elsewhere pty)
                commands).run
              s off in
          cc (on, still)
    ];
  }

  main-Tells : Leads Fresh (main build m fuel turns) IsTold
  unfolding main
  main-Tells =
      Leads-bind (start_up-Completes Fresh-Launches build m).kept
        (λ _.
          Leads-bind (parse_options-Completes Fresh-Launches build m).kept run_session-IsTold
            Fresh-IsTold)
        Fresh-IsTold

-- The program as a whole, from `main` on: where it logs to syslog in the end, the blocks written to
-- the terminal are, in their order, among the texts that `write2syslog` was called on; and what
-- those calls send, from its first variables on and with the options of the settings, is in its order
-- among the calls of `syslog`, with the variables now being those they leave. This holds after any
-- number of turns and however the program ends, in either process of the fork. The lists have the
-- last one first. Nothing was shown and nothing handed to `write2syslog` before the start, the
-- variables for the log file and the pty do not hold the terminal's descriptor, and neither `open`
-- nor the opening of a pty gives that one.
pub main-syslog :
    (build : Build) (m : Machine) (fuel turns : ℕ) (s : Session)
    → OpensElsewhere m.system
    → MasterElsewhere m.terminals
    → (s.log_file == 1) ≡ false
    → (s.master_pty == 1) ≡ false
    → blocks_to 1 s.calls ≡ []
    → s.writer ≡ initial
    → (main build m fuel turns s).1.settings.logtosyslog ≡ true
    → let t = (main build m fuel turns s).1 in
      (texts : List Bytes) × (entries : List Entry) × Sublist (blocks_to 1 t.calls) texts
      × (write_calls (syslog_options t) initial (reverse texts) ≡ written t.writer entries)
      × Sublist (reverse entries) (entries_in t.calls)
main-syslog build m fuel turns s elsewhere pty log master silent unused =
    (main-Tells build m fuel turns elsewhere pty).run s
      (record { nothing = silent; log_elsewhere = log; pty_elsewhere = master; unused = unused })
