-- ===== src/Session/SentLoop.antt =====
-- The loop of `logSession` shows nothing that was not handed to `write2syslog`, up to and with its
-- end.
use rootsh.Base.{ℕ, ◌≡◌, ◌≢◌, refl, Bool, true, false, Option, some, [], ◌∷◌}
use rootsh.Text.{Bytes}
use rootsh.Syslog.Writer.{Writer, Options}
use rootsh.Session.Calls.{System}
use rootsh.Session.State.{Session, Outcome, returned, exited, crashed, unfinished, when, ◌>>=◌}
use rootsh.Session.Rules.{
  Keeps, Keeps-bind, Keeps-gets, Keeps-pure, Leads-bind, Ensures, Ensures-bind, Ensures-then,
}
use rootsh.Session.Logging.Output.{dologging, write_log, send_syslog}
use rootsh.Session.Loop.{check_shown, show_output, log_session}
use rootsh.Session.Closed.{Closed, quiet_write, on_when, on_send_file}
use rootsh.Session.Closed.Loop.{on_log_session}
use rootsh.Session.Extends.{KeepsAll}
use rootsh.Session.Elsewhere.{OpensElsewhere, NotTerminal}
use rootsh.Session.WritesElsewhere.{Writes, Writes-Ends, Writes-Interacts}
use rootsh.Session.Sent.{
  IsSent, modify-IsSent, perform-IsSent, write_to-IsSent, Handed, send_syslog-Handed, weaken-Handed,
  shown-IsSent,
}

module _ (o : Options) (w₀ : Writer) (sys : System) where
  abbrev pub Sent : Session → Type 0
  Sent = IsSent o w₀ []

  Sent-Writes : Writes sys NotTerminal Sent
  Sent-Writes = record {
    on_elsewhere = λ to q block result. write_to-IsSent o w₀ [] to block result q;
    on_changed = modify-IsSent o w₀ [];
    on_log = λ s h. perform-IsSent o w₀ [] _ _ refl;
  }

  write_log-Sent : (text : Bytes) → Keeps Sent (write_log sys text)
  unfolding ◌>>=◌
  write_log-Sent text = record {
    run = λ s h.
        (write_to-IsSent o w₀ [] s.log_file text (λ calls. sys.write calls s.log_file text)
            h.log_elsewhere).run
          s h;
  }

  send_syslog-Sent : (text : Bytes) → Keeps Sent (send_syslog text)
  send_syslog-Sent text = record {
    run = λ s h. weaken-Handed o w₀ text _ _ ((send_syslog-Handed o w₀ text).run s h);
  }

  pub Sent-Closed : Closed sys (KeepsAll Sent)
  Sent-Closed = record {
    on_pure = Keeps-pure;
    on_crash = record { run = λ s h. h };
    on_gets = Keeps-gets;
    on_bind = Keeps-bind;
    on_perform = λ c result q. perform-IsSent o w₀ [] c result (quiet_write c q);
    on_name = λ name.
        modify-IsSent o w₀ [] (λ s. record s { log_file_name = name }) (λ _. refl) (λ _. refl)
          (λ _. refl) (λ _. refl) (λ _. refl);
    on_log = write_log-Sent;
    on_syslog = send_syslog-Sent;
  }

  unreturned-Handed :
      (text : Bytes) (r : Outcome (Unit {0}))
      → ((b : Unit {0}) → r ≢ returned b)
      → (t : Session) → Sent t
      → Handed o w₀ text r t
  unreturned-Handed text (returned b) never t h = absurd (never b refl)
  unreturned-Handed text (exited n) never t h = h
  unreturned-Handed text crashed never t h = h
  unreturned-Handed text unfinished never t h = h

  syslogged-Handed :
      (text : Bytes) (on : Bool)
      → on ≡ true
      → Ensures Sent (when on (send_syslog text)) (Handed o w₀ text)
  syslogged-Handed text true e = send_syslog-Handed o w₀ text
  syslogged-Handed text false e = cc

  -- Whether the file was written or not, the text goes to `write2syslog`.
  dologging-Handed : (text : Bytes) → Ensures Sent (dologging sys text) (Handed o w₀ text)
  unfolding dologging ◌>>=◌
  dologging-Handed text = record {
    run = λ s h.
        (Ensures-bind (unreturned-Handed text)
            (on_when sys Sent-Closed s.settings.logtofile (on_send_file sys Sent-Closed text))
            (λ _. record {
              run = λ t k. (syslogged-Handed text t.settings.logtosyslog k.syslog_on).run t k;
            })).run
          s h;
  }

  show_output-Sent :
      (c : ℕ) (cs : Bytes)
      → ((count : Option ℕ) → Keeps Sent (check_shown sys count))
      → Keeps Sent (show_output sys (some (c ∷ cs)))
  unfolding show_output
  show_output-Sent c cs checked = record {
    run =
        (Ensures-then (Handed o w₀ (c ∷ cs)) (λ r q never t. weaken-Handed o w₀ (c ∷ cs) r t)
          (dologging-Handed (c ∷ cs))
          (λ a. record {
            run =
                (Leads-bind
                  (record {
                    run = shown-IsSent o w₀ (c ∷ cs) (λ calls. sys.write calls 1 (c ∷ cs));
                  })
                  checked (λ t h. h)).run;
          })).run;
  }

  pub log_session-Sent :
      (fuel turns : ℕ) → OpensElsewhere sys → Keeps Sent (log_session sys fuel turns)
  log_session-Sent fuel turns elsewhere =
      on_log_session sys fuel Sent-Closed
        (Writes-Interacts sys Sent-Closed Sent-Writes (λ n. perform-IsSent o w₀ [] _ _ refl)
          (λ s h. h.pty_elsewhere) show_output-Sent)
        (Writes-Ends sys Sent-Closed elsewhere Sent-Writes fuel) (record { run = λ s h. h }) turns
