-- ===== src/Session/Unlogged.antt =====
-- Without a destination for the log, the part of `main` behind the options starts nothing.
use rootsh.Base.{
  ℕ, suc, ◌≡◌, ◌≢◌, refl, Bool, true, false, not, ◌&&◌, Option, none, some, List, [], ◌∷◌,
  if◌then◌else◌, arith,
}
use rootsh.Text.{Bytes, codes}
use rootsh.Session.Calls.{Call, System, execute, fork_process, open_append, print_error}
use rootsh.Session.State.{
  Session, Outcome, returned, exited, crashed, unfinished, Action, pure, modify, call, ◌>>=◌, ◌>>◌,
}
use rootsh.Session.Rules.{Ensures, Ensures-bind, Keeps, Keeps-gets}
use rootsh.Session.Logging.Begin.{begin_destinations, beginlogging}
use rootsh.Session.Logging.BegunLaws.{acting_user-kept}
use rootsh.Session.Environment.{Environ}
use rootsh.Session.Usage.{Build}
use rootsh.Session.StartUp.{Machine, fail, make_session_id, stands_alone}
use rootsh.Session.Main.{after_begin, after_shell, after_mode, after_name, run_session}
use rootsh.Session.Prepares.{
  Prepares, setupusername-Completes, setupusermode-Completes, setupshell-Completes,
}

-- The log files opened, the processes made, and the programs executed.
abbrev pub starts : List Call → ℕ
starts [] = 0
starts (open_append name ∷ calls) = suc (starts calls)
starts (fork_process ∷ calls) = suc (starts calls)
starts (execute path arguments ∷ calls) = suc (starts calls)
starts (other ∷ calls) = starts calls

module _ (n : ℕ) where
  -- No destination, and `n` starts.
  pub record Off (s : Session) : Type 0 where
    pub no_file : s.settings.logtofile ≡ false
    pub no_syslog : s.settings.logtosyslog ≡ false
    pub unstarted : starts s.calls ≡ n

  Off-message :
      (text : Bytes) (s : Session) → Off s → Off (record s { calls = print_error text ∷ s.calls })
  Off-message text s h = record {
    no_file = h.no_file;
    no_syslog = h.no_syslog;
    unstarted = h.unstarted;
  }

  Off-modify :
      (f : Session → Session)
      → ((s : Session) → (f s).settings ≡ s.settings)
      → ((s : Session) → (f s).calls ≡ s.calls)
      → Keeps Off (modify f)
  Off-modify f settings calls = record {
    run = λ s h. record {
      no_file = rw (settings s) h.no_file;
      no_syslog = rw (settings s) h.no_syslog;
      unstarted = rw (calls s) h.unstarted;
    };
  }

  Off-Prepares : Prepares Off
  Off-Prepares = record {
    on_message = Off-message;
    on_login =
        (Off-modify (λ s. record s { use_login_shell = true; isa_login_shell = true }) (λ _. refl)
          (λ _. refl)).run;
    on_user = λ name. (Off-modify (λ s. record s { user_name = name }) (λ _. refl) (λ _. refl)).run;
    on_id = λ id. (Off-modify (λ s. record s { session_id = id }) (λ _. refl) (λ _. refl)).run;
    on_alone = λ b. (Off-modify (λ s. record s { standalone = b }) (λ _. refl) (λ _. refl)).run;
  }

  abbrev Declined : Outcome Bool → Session → Type 0
  Declined r t = Off t × ((b : Bool) → r ≡ returned b → b ≡ false)

  Declined-early :
      (r : Outcome Bool) → ((b : Bool) → r ≢ returned b) → (t : Session) → Off t → Declined r t
  Declined-early r never t h = (h, λ b e. absurd (never b e))

  beginlogging-Declined :
      (sys : System) (commands : Option Bytes) → Ensures Off (beginlogging sys commands) Declined
  unfolding beginlogging ◌>>=◌
  beginlogging-Declined sys commands = Ensures-bind Declined-early (acting_user-kept sys) (λ user.
      record {
        run = λ s h.
            by_switches user s.settings.logtofile s.settings.logtosyslog h.no_file h.no_syslog s h;
      })
    where
      by_switches :
          (user : Bytes) (file syslog : Bool)
          → file ≡ false
          → syslog ≡ false
          → (s : Session) → Off s
          → let m =
              if not file && not syslog
              then call (print_error (codes "you cannot switch off both file and syslog logging\n"))
                >> pure false
              else begin_destinations sys commands user file in
            Declined (m s).0 (m s).1
      by_switches user false false e d s h = (Off-message _ s h, λ b e. ground arith)
      by_switches user true syslog e d s h = cc
      by_switches user false true e d s h = cc

  -- Nothing is started, and `main` does not go on.
  abbrev pub Refused : Outcome (Unit {0}) → Session → Type 0
  Refused r t = (starts t.calls ≡ n) × (r ≢ returned tt)

  Refused-early :
      (r : Outcome (Unit {0}))
      → ((b : Unit {0}) → r ≢ returned b)
      → (t : Session) → Off t
      → Refused r t
  Refused-early r never t h = (h.unstarted, never tt)

  abbrev pub Refuses : Action (Unit {0}) → Type 0
  Refuses m = Ensures Off m Refused

  fail-Refuses : Refuses fail
  fail-Refuses = record { run = λ s h. (h.unstarted, λ e. cc) }

  module _ (build : Build) (m : Machine) (fuel turns : ℕ) (commands : Option Bytes) where
    begin-Refused :
        (shell : Bytes) (r : Outcome Bool) (t : Session)
        → Declined r t
        → let next = (λ (s : Session). (r, t)) >>= after_begin build m fuel turns shell commands in
          Refused (next t).0 (next t).1
    unfolding ◌>>=◌ after_begin
    begin-Refused shell (returned false) t (h, d) = (h.unstarted, λ e. cc)
    begin-Refused shell (returned true) t (h, d) = cc (d true refl)
    begin-Refused shell (exited status) t (h, d) = (h.unstarted, λ e. cc)
    begin-Refused shell crashed t (h, d) = (h.unstarted, λ e. cc)
    begin-Refused shell unfinished t (h, d) = (h.unstarted, λ e. cc)

    after_shell-Refuses :
        (found : Option Bytes × Environ) → Refuses (after_shell build m fuel turns commands found)
    unfolding after_shell ◌>>=◌
    after_shell-Refuses (none, env) = fail-Refuses
    after_shell-Refuses (some shell, env) = record {
      run = λ s h. begin-Refused shell _ _ ((beginlogging-Declined m.system commands).run s h);
    }

    after_mode-Refuses :
        (done : Bool × Environ) → Refuses (after_mode build m fuel turns commands done)
    unfolding after_mode
    after_mode-Refuses (false, env) = fail-Refuses
    after_mode-Refuses (true, env) =
        Ensures-bind Refused-early ((setupshell-Completes Off-Prepares m.accounts env).kept)
          after_shell-Refuses

    after_name-Refuses :
        (env : Environ) (name : Option Bytes)
        → Refuses (after_name build m fuel turns commands env name)
    unfolding after_name
    after_name-Refuses env none = fail-Refuses
    after_name-Refuses env (some name) =
        Ensures-bind Refused-early (record { run = Off-Prepares.on_user name })
          (λ _.
            Ensures-bind Refused-early ((setupusermode-Completes Off-Prepares m.accounts env).kept)
              after_mode-Refuses)

    pub run_session-Refuses : Refuses (run_session build m fuel turns commands)
    unfolding run_session
    run_session-Refuses =
        Ensures-bind Refused-early
          (Off-modify (λ s. record s { session_id = make_session_id m.system.pid s.prog_name })
            (λ _. refl) (λ _. refl))
          (λ _. Ensures-bind Refused-early (Keeps-gets _) (λ env.
            Ensures-bind Refused-early (record { run = Off-Prepares.on_alone (stands_alone env) })
              (λ _.
                Ensures-bind Refused-early ((setupusername-Completes Off-Prepares m.accounts).kept)
                  (after_name-Refuses env))))
