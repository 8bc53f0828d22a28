-- ===== src/Session/SentRuns.antt =====
-- `main` behind the options shows nothing that was not handed to `write2syslog`, where syslog is on.
use rootsh.Base.{ℕ, ◌≡◌, refl, ap, ◌∙◌, true, false, [], ◌==◌}
use rootsh.Syslog.Writer.{Options, Writer}
use rootsh.Session.State.{Session, modify}
use rootsh.Session.Rules.{Keeps}
use rootsh.Session.StartUp.{Machine}
use rootsh.Session.Elsewhere.{OpensElsewhere, NotTerminal, MasterElsewhere, Elsewhere}
use rootsh.Session.StartsElsewhere.{Starts-kept}
use rootsh.Session.WritesElsewhere.{Forks-kept}
use rootsh.Session.Extends.{Extends, Extends-Closed}
use rootsh.Session.Prepares.{Prepares}
use rootsh.Session.Runs.{Runs}
use rootsh.Session.Settled.{Identity}
use rootsh.Session.SettledLoop.{log_session-identity}
use rootsh.Session.Sent.{IsSent, modify-IsSent, made-IsSent}
use rootsh.Session.SentLoop.{Sent-Closed, log_session-Sent}

-- With syslog off.
abbrev pub IsOff : Session → Type 0
IsOff s = s.settings.logtosyslog ≡ false

IsOff-Extends : Extends IsOff
IsOff-Extends = record {
  on_made = λ c s h. h;
  on_writer = λ w s h. h;
  on_named = λ name s h. h;
  on_resized = λ s h. h;
}

module _ (m : Machine) (fuel turns : ℕ) (elsewhere : OpensElsewhere m.system)
    (pty : MasterElsewhere m.terminals) where
  pub IsOff-Runs : Runs m fuel turns (Elsewhere NotTerminal) IsOff
  IsOff-Runs =
      let closed = Extends-Closed IsOff-Extends m.system in
      record {
        prepares = record {
          on_message = λ text s h. h;
          on_login = λ s h. h;
          on_user = λ name s h. h;
          on_id = λ id s h. h;
          on_alone = λ b s h. h;
        };
        closed = closed;
        starts =
            Starts-kept m.system closed elsewhere (λ n q. record { run = λ s h. h })
              (λ st. record { run = λ s h. h });
        forks = Forks-kept m.system closed m.terminals pty (λ master q. record { run = λ s h. h });
        on_modes = λ modes. record { run = λ s h. h };
        on_session = record {
          run = λ s h.
              ap (λ (i : Identity). i.settings.logtosyslog)
                (log_session-identity m.system fuel turns s)
              ∙ h;
        };
      }

  -- With syslog on.
  module _ (o : Options) (w₀ : Writer) where
    Sent-log :
        (n : ℕ)
        → (n == 1) ≡ false
        → Keeps (IsSent o w₀ []) (modify (λ s. record s { log_file = n }))
    Sent-log n q = record {
      run = λ s h. record {
        syslog_on = h.syslog_on;
        options_are = h.options_are;
        log_elsewhere = q;
        pty_elsewhere = h.pty_elsewhere;
        texts = h.texts;
        entries = h.entries;
        replayed = h.replayed;
        sent = h.sent;
        among = h.among;
      };
    }

    Sent-master :
        (master : ℕ)
        → (master == 1) ≡ false
        → Keeps (IsSent o w₀ []) (modify (λ s. record s { master_pty = master }))
    Sent-master master q = record {
      run = λ s h. record {
        syslog_on = h.syslog_on;
        options_are = h.options_are;
        log_elsewhere = h.log_elsewhere;
        pty_elsewhere = q;
        texts = h.texts;
        entries = h.entries;
        replayed = h.replayed;
        sent = h.sent;
        among = h.among;
      };
    }

    Sent-changed :
        (f : Session → Session)
        → ((s : Session) → (f s).settings ≡ s.settings)
        → ((s : Session) → (f s).log_file ≡ s.log_file)
        → ((s : Session) → (f s).master_pty ≡ s.master_pty)
        → ((s : Session) → (f s).writer ≡ s.writer)
        → ((s : Session) → (f s).calls ≡ s.calls)
        → Keeps (IsSent o w₀ []) (modify f)
    Sent-changed = modify-IsSent o w₀ []

    Sent-Prepares : Prepares (IsSent o w₀ [])
    Sent-Prepares = record {
      on_message = λ text s h. made-IsSent o w₀ [] _ s refl h;
      on_login =
          (Sent-changed (λ s. record s { use_login_shell = true; isa_login_shell = true })
            (λ _. refl) (λ _. refl) (λ _. refl) (λ _. refl) (λ _. refl)).run;
      on_user = λ name.
          (Sent-changed (λ s. record s { user_name = name }) (λ _. refl) (λ _. refl) (λ _. refl)
            (λ _. refl) (λ _. refl)).run;
      on_id = λ id.
          (Sent-changed (λ s. record s { session_id = id }) (λ _. refl) (λ _. refl) (λ _. refl)
            (λ _. refl) (λ _. refl)).run;
      on_alone = λ b.
          (Sent-changed (λ s. record s { standalone = b }) (λ _. refl) (λ _. refl) (λ _. refl)
            (λ _. refl) (λ _. refl)).run;
    }

    pub Sent-Runs : Runs m fuel turns (Elsewhere NotTerminal) (IsSent o w₀ [])
    Sent-Runs =
        let closed = Sent-Closed o w₀ m.system in
        record {
          prepares = Sent-Prepares;
          closed = closed;
          starts = Starts-kept m.system closed elsewhere Sent-log (λ st.
              Sent-changed (λ s. record s { log_inode = st.inode; log_dev = st.device }) (λ _. refl)
                (λ _. refl) (λ _. refl) (λ _. refl) (λ _. refl));
          forks = Forks-kept m.system closed m.terminals pty Sent-master;
          on_modes = λ modes.
              Sent-changed (λ s. record s { term_params = modes }) (λ _. refl) (λ _. refl)
                (λ _. refl) (λ _. refl) (λ _. refl);
          on_session = log_session-Sent o w₀ m.system fuel turns elsewhere;
        }
