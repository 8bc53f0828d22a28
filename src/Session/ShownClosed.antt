-- ===== src/Session/ShownClosed.antt =====
-- The actions that show nothing but what is in the log are a closed class.
use rootsh.Base.{ℕ, ◌≡◌, refl, ◌∙◌, []}
use rootsh.Session.Calls.{System}
use rootsh.Session.State.{Session, Action, modify}
use rootsh.Session.Rules.{Keeps, Keeps-bind, Keeps-gets, Keeps-pure}
use rootsh.Session.Closed.{Closed, quiet_write}
use rootsh.Session.Shown.{
  IsLogged, perform-IsLogged, write_log-IsLogged, weaken-IsLogged, send_syslog-IsLogged,
}

module _ (fd : ℕ) where
  abbrev pub Safe : Session → Type 0
  Safe = IsLogged fd []

  abbrev pub KeepsSafe : (A : Type 0) → Action A → Type 0
  KeepsSafe A m = Keeps {A = A} Safe m

  -- A change of other variables than those that the predicate reads.
  pub modify-Safe :
      (f : Session → Session)
      → ((s : Session) → (f s).settings ≡ s.settings)
      → ((s : Session) → (f s).log_file ≡ s.log_file)
      → ((s : Session) → (f s).master_pty ≡ s.master_pty)
      → ((s : Session) → (f s).calls ≡ s.calls)
      → Keeps Safe (modify f)
  modify-Safe f settings log pty calls = record {
    run = λ s h. record {
      file_on = rw (settings s) h.file_on;
      log_is = log s ∙ h.log_is;
      log_elsewhere = h.log_elsewhere;
      pty_elsewhere = rw (pty s) h.pty_elsewhere;
      among = rw (calls s) h.among;
      always = rw (calls s) h.always;
    };
  }

  pub Safe-Closed : (sys : System) → Closed sys KeepsSafe
  Safe-Closed sys = record {
    on_pure = Keeps-pure;
    on_crash = record { run = λ s h. h };
    on_gets = Keeps-gets;
    on_bind = Keeps-bind;
    on_perform = λ c result q. perform-IsLogged fd [] c result (quiet_write c q);
    on_name = λ name.
        modify-Safe (λ s. record s { log_file_name = name }) (λ _. refl) (λ _. refl) (λ _. refl)
          (λ _. refl);
    on_log = λ text. record {
      run = λ s h. weaken-IsLogged fd text _ ((write_log-IsLogged fd text sys).run s h);
    };
    on_syslog = send_syslog-IsLogged fd [];
  }
