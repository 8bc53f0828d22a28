-- ===== src/Session/MainRefuses.antt =====
-- Without a destination for the log, `main` starts nothing.
use mathlib.Core.Path.{subst}
use rootsh.Base.{ℕ, ◌≡◌, ◌≢◌, refl, ◌∙◌, Bool, true, false, ◌&&◌, Option, none}
use rootsh.Text.{Bytes}
use rootsh.Session.State.{Session, Outcome, returned, exited, crashed, unfinished, ◌>>=◌}
use rootsh.Session.Rules.{Ensures, Ensures-bind, Gives, Gives-bind}
use rootsh.Session.Usage.{Build, version}
use rootsh.Session.Options.{Parsed, parsed, asked_help, asked_version, read_options}
use rootsh.Session.OptionsLaws.{has_no_logfile, has_no_syslog, read_options-Obeys}
use rootsh.Session.Launch.{
  Launches, EndsIn, read_options-kept, version-Completes, start_up-Completes,
}
use rootsh.Session.StartUp.{Machine, after_options, parse_options}
use rootsh.Session.Main.{run_session, main}
use rootsh.Session.Unlogged.{starts, Off, Refused, run_session-Refuses}

-- `version` does not return.
version_never : {A : Type 0} (build : Build) → Gives {A = A} (λ a. ⊥) (version build)
unfolding version
version_never build = Gives-bind _ (λ shell. Gives-bind _ (λ _. Gives-bind _ (λ name.
    Gives-bind _ (λ _. Gives-bind _ (λ file. Gives-bind _ (λ _.
      Gives-bind _
        (λ syslog. Gives-bind _ (λ _. Gives-bind _ (λ _. record { run = λ s a e. cc })))))))))

-- Before the options.
module _ (n : ℕ) where
  record Unstarted (s : Session) : Type 0 where
    unstarted : starts s.calls ≡ n

  Unstarted-Launches : Launches Unstarted
  Unstarted-Launches = record {
    on_message = λ text s h. record { unstarted = h.unstarted };
    on_output = λ text s h. record { unstarted = h.unstarted };
    on_changed = λ f log pty writer calls. record {
      run = λ s h. record { unstarted = rw (calls s) h.unstarted };
    };
  }

  Unstarted-early :
      (r : Outcome (Unit {0}))
      → ((b : Unit {0}) → r ≢ returned b)
      → (t : Session) → Unstarted t
      → Refused n r t
  Unstarted-early r never t h = (h.unstarted, never tt)

  module _ (build : Build) (m : Machine) (fuel turns : ℕ) where
    early-Refused :
        (r : Outcome (Option Bytes)) (t : Session)
        → ((commands : Option Bytes) → r ≢ returned commands)
        → Unstarted t
        → let next = (λ (s : Session). (r, t)) >>= run_session build m fuel turns in
          Refused n (next t).0 (next t).1
    unfolding ◌>>=◌
    early-Refused (returned commands) t never h = absurd (never commands refl)
    early-Refused (exited status) t never h = (h.unstarted, λ e. cc)
    early-Refused crashed t never h = (h.unstarted, λ e. cc)
    early-Refused unfinished t never h = (h.unstarted, λ e. cc)

    after_options-Refused :
        (r : Parsed) (s : Session)
        → EndsIn Unstarted-Launches r
        → ((commands : Option Bytes) (t : Session) → r ≡ parsed commands t → Off n t)
        → let next = after_options build r >>= run_session build m fuel turns in
          Refused n (next s).0 (next s).1
    unfolding ◌>>=◌ after_options
    after_options-Refused (parsed commands t) s h off =
        (run_session-Refuses n build m fuel turns commands).run t (off commands t refl)
    after_options-Refused (asked_help t) s h off =
        early-Refused (after_options build (asked_help t) s).0
          (after_options build (asked_help t) s).1 (λ commands e. cc)
          (record { unstarted = h.unstarted })
    after_options-Refused (asked_version t) s h off =
        early-Refused (version build t).0 (version build t).1
          (λ commands e. (version_never build).run t commands e)
          ((version-Completes Unstarted-Launches build).kept.run t h)

    parsed-Off :
        (s : Session)
        → has_no_logfile m.choices ≡ true
        → has_no_syslog m.choices ≡ true
        → EndsIn Unstarted-Launches (read_options m.choices m.rest none s)
        → (commands : Option Bytes) (t : Session)
        → read_options m.choices m.rest none s ≡ parsed commands t
        → Off n t
    parsed-Off s x y kept commands t e =
        let obeys = read_options-Obeys m.choices m.rest none commands s t e in
        let ends : Unstarted t = subst (EndsIn Unstarted-Launches) e kept in
        record {
          no_file = obeys.file ∙ rw x (and_false s.settings.logtofile);
          no_syslog = obeys.syslog ∙ rw y (and_false s.settings.logtosyslog);
          unstarted = ends.unstarted;
        }
      where
        and_false : (b : Bool) → (b && false) ≡ false
        and_false true = refl
        and_false false = refl

    parse_options-Refused :
        has_no_logfile m.choices ≡ true
        → has_no_syslog m.choices ≡ true
        → Ensures Unstarted (parse_options build m >>= run_session build m fuel turns) (Refused n)
    unfolding ◌>>=◌ parse_options
    parse_options-Refused x y = record {
      run = λ s h.
          let kept = read_options-kept Unstarted-Launches m.choices m.rest none s h in
          after_options-Refused (read_options m.choices m.rest none s) s kept
            (parsed-Off s x y kept);
    }

-- With `-x` and `-y` on the command line, before a command, `main` opens no log file, makes no process
-- and executes no program, and it does not return: neither shell nor session goes unlogged. This is
-- so whatever the configuration, the accounts and the environment are.
pub main-refuses :
    (build : Build) (m : Machine) (fuel turns : ℕ) (s : Session)
    → has_no_logfile m.choices ≡ true
    → has_no_syslog m.choices ≡ true
    → (starts (main build m fuel turns s).1.calls ≡ starts s.calls)
      × ((main build m fuel turns s).0 ≢ returned tt)
unfolding main
main-refuses build m fuel turns s x y =
    (Ensures-bind (Unstarted-early n) ((start_up-Completes (Unstarted-Launches n) build m).kept)
        (λ _. parse_options-Refused n build m fuel turns x y)).run
      s (record { unstarted = refl })
  where
    n : ℕ
    n = starts s.calls
