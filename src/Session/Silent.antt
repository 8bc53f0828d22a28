-- ===== src/Session/Silent.antt =====
-- The actions that write nothing to the terminal are a closed class, and `beginlogging` is in it.
use rootsh.Base.{ℕ, ◌≡◌, refl, true, false, Option, some, List, [], ◌∷◌, ◌==◌}
use rootsh.Text.{Bytes}
use rootsh.Syslog.Writer.{Written, written, failed, write2syslog}
use rootsh.Session.Calls.{Call, System}
use rootsh.Session.State.{Session, perform, modify, ◌>>=◌}
use rootsh.Session.Rules.{Keeps, Keeps-bind, Keeps-gets, Keeps-pure}
use rootsh.Session.Logging.Output.{syslog_options, after_write, send_syslog, write_log}
use rootsh.Session.Logging.Begin.{beginlogging}
use rootsh.Session.Closed.{Closed, is_write, quiet_write}
use rootsh.Session.Closed.Begin.{on_beginlogging}
use rootsh.Session.Extends.{KeepsAll}
use rootsh.Session.Blocks.{blocks_to, blocks_to-other, blocks_to-push_entries}
use rootsh.Session.Elsewhere.{OpensElsewhere}
use rootsh.Session.StartsElsewhere.{Starts-kept}
use rootsh.Session.Prepares.{Prepares}
use rootsh.Session.Launch.{Launches}

-- Nothing was written to the terminal, and neither the log file nor the pty is the terminal.
pub record Silent (s : Session) : Type 0 where
  pub nothing : blocks_to 1 s.calls ≡ []
  pub log_elsewhere : (s.log_file == 1) ≡ false
  pub pty_elsewhere : (s.master_pty == 1) ≡ false

Silent-made :
    (c : Call) (s : Session)
    → is_write c ≡ false
    → Silent s
    → Silent (record s { calls = c ∷ s.calls })
Silent-made c s q h = record {
  nothing = rw (blocks_to-other 1 c s.calls q) h.nothing;
  log_elsewhere = h.log_elsewhere;
  pty_elsewhere = h.pty_elsewhere;
}

pub Silent-modify :
    (f : Session → Session)
    → ((s : Session) → (f s).log_file ≡ s.log_file)
    → ((s : Session) → (f s).master_pty ≡ s.master_pty)
    → ((s : Session) → (f s).calls ≡ s.calls)
    → Keeps Silent (modify f)
Silent-modify f log pty calls = record {
  run = λ s h. record {
    nothing = rw (calls s) h.nothing;
    log_elsewhere = rw (log s) h.log_elsewhere;
    pty_elsewhere = rw (pty s) h.pty_elsewhere;
  };
}

pub Silent-perform :
    {A : Type 0} (c : Call) (result : List Call → A)
    → is_write c ≡ false
    → Keeps Silent (perform c result)
Silent-perform c result q = record { run = λ s h. Silent-made c s q h }

send_syslog-Silent : (text : Bytes) → Keeps Silent (send_syslog text)
unfolding send_syslog after_write
send_syslog-Silent text = record {
  run = λ s h. by_result s (write2syslog (syslog_options s) s.writer (some text)) h;
}
  where
    by_result : (s : Session) (r : Written) → Silent s → Silent (after_write s r).1
    by_result s (written w entries) h = record {
      nothing = rw (blocks_to-push_entries 1 entries s.calls) h.nothing;
      log_elsewhere = h.log_elsewhere;
      pty_elsewhere = h.pty_elsewhere;
    }
    by_result s failed h = h

write_log-Silent : (sys : System) (text : Bytes) → Keeps Silent (write_log sys text)
unfolding ◌>>=◌
write_log-Silent sys text = record {
  run = λ s h. record {
    nothing = rw (h.log_elsewhere) h.nothing;
    log_elsewhere = h.log_elsewhere;
    pty_elsewhere = h.pty_elsewhere;
  };
}

pub Silent-Closed : (sys : System) → Closed sys (KeepsAll Silent)
Silent-Closed sys = record {
  on_pure = Keeps-pure;
  on_crash = record { run = λ s h. h };
  on_gets = Keeps-gets;
  on_bind = Keeps-bind;
  on_perform = λ c result q. Silent-perform c result (quiet_write c q);
  on_name = λ name.
      Silent-modify (λ s. record s { log_file_name = name }) (λ _. refl) (λ _. refl) (λ _. refl);
  on_log = write_log-Silent sys;
  on_syslog = send_syslog-Silent;
}

Silent-log : (n : ℕ) → (n == 1) ≡ false → Keeps Silent (modify (λ s. record s { log_file = n }))
Silent-log n q = record {
  run = λ s h. record { nothing = h.nothing; log_elsewhere = q; pty_elsewhere = h.pty_elsewhere };
}

module _ (sys : System) (elsewhere : OpensElsewhere sys) where
  pub beginlogging-Silent : (commands : Option Bytes) → Keeps Silent (beginlogging sys commands)
  beginlogging-Silent commands =
      on_beginlogging sys (Silent-Closed sys)
        (Starts-kept sys (Silent-Closed sys) elsewhere Silent-log (λ st.
          Silent-modify (λ s. record s { log_inode = st.inode; log_dev = st.device }) (λ _. refl)
            (λ _. refl) (λ _. refl)))
        commands

pub Silent-Prepares : Prepares Silent
Silent-Prepares = record {
  on_message = λ text s h. Silent-made _ s refl h;
  on_login =
      (Silent-modify (λ s. record s { use_login_shell = true; isa_login_shell = true }) (λ _. refl)
        (λ _. refl) (λ _. refl)).run;
  on_user = λ name.
      (Silent-modify (λ s. record s { user_name = name }) (λ _. refl) (λ _. refl) (λ _. refl)).run;
  on_id = λ id.
      (Silent-modify (λ s. record s { session_id = id }) (λ _. refl) (λ _. refl) (λ _. refl)).run;
  on_alone = λ b.
      (Silent-modify (λ s. record s { standalone = b }) (λ _. refl) (λ _. refl) (λ _. refl)).run;
}

pub Silent-Launches : Launches Silent
Silent-Launches = record {
  on_message = λ text s h. Silent-made _ s refl h;
  on_output = λ text s h. Silent-made _ s refl h;
  on_changed = λ f log pty writer calls. Silent-modify f log pty calls;
}
