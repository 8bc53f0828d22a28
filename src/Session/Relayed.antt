-- ===== src/Session/Relayed.antt =====
-- What the shell puts out is shown, and what the user types is passed on: every block that is read
-- is written.
use rootsh.Base.{
  ℕ, ◌≡◌, refl, ◌∙◌, ◌==◌, if◌then◌else◌, false, Option, none, some, List, [], ◌∷◌, ◌++◌,
}
use rootsh.Text.{Bytes}
use rootsh.Syslog.Writer.{Entry, Written, written, failed, write2syslog}
use rootsh.Session.Calls.{Call, write_to, read_from, System}
use rootsh.Session.State.{Session, modify, perform, push_entries, ◌>>=◌}
use rootsh.Session.Rules.{Keeps, Keeps-bind, Keeps-gets, Keeps-pure}
use rootsh.Session.Logging.Output.{after_write, send_syslog, syslog_options, write_log}
use rootsh.Session.Closed.{Closed, is_transfer, quiet_write}
use rootsh.Session.Extends.{KeepsAll}
use rootsh.Session.Blocks.{blocks_to, blocks_to-other, blocks_to-push_entries}

abbrev pub given : Option Bytes → List Bytes
given none = []
given (some block) = block ∷ []

-- The blocks that were read from a descriptor, the last one first.
abbrev pub received : System → ℕ → List Call → List Bytes
received sys fd [] = []
received sys fd (read_from n ∷ calls) =
    if n == fd then given (sys.read calls n) ++ received sys fd calls else received sys fd calls
received sys fd (other ∷ calls) = received sys fd calls

-- Those that are not empty: an empty one says that there is nothing more.
abbrev pub nonempty : List Bytes → List Bytes
nonempty [] = []
nonempty ([] ∷ blocks) = nonempty blocks
nonempty ((c ∷ cs) ∷ blocks) = (c ∷ cs) ∷ nonempty blocks

received-other :
    (sys : System) (fd : ℕ) (c : Call) (calls : List Call)
    → is_transfer c ≡ false
    → received sys fd (c ∷ calls) ≡ received sys fd calls
received-other sys fd (read_from n) calls q = cc
received-other sys fd other calls q = refl

received-push_entries :
    (sys : System) (fd : ℕ) (es : List Entry) (calls : List Call)
    → received sys fd (push_entries es calls) ≡ received sys fd calls
received-push_entries sys fd [] calls = refl
received-push_entries sys fd (e ∷ es) calls = received-push_entries sys fd es _

-- Neither the terminal nor the pty.
abbrev pub IsApart : ℕ → ℕ → Type 0
IsApart pty n = ((n == 1) ≡ false) × ((n == pty) ≡ false)

-- All blocks read from the pty but those of `left` were written to the terminal, and all blocks read
-- from the user were written to the pty, each in their order.
pub record IsRelayed (sys : System) (pty : ℕ) (left : List Bytes) (s : Session) : Type 0 where
  pub pty_is : s.master_pty ≡ pty
  pub log_apart : IsApart pty s.log_file
  pub log_no_input : (s.log_file == 0) ≡ false
  pub output : nonempty (received sys pty s.calls) ≡ left ++ blocks_to 1 s.calls
  pub input : received sys 0 s.calls ≡ blocks_to pty s.calls

module _ (sys : System) (pty : ℕ) (left : List Bytes) where
  abbrev Relayed : Session → Type 0
  Relayed = IsRelayed sys pty left

  -- A call that changes none of the four lists.
  made-IsRelayed :
      (c : Call) (s : Session)
      → received sys pty (c ∷ s.calls) ≡ received sys pty s.calls
      → received sys 0 (c ∷ s.calls) ≡ received sys 0 s.calls
      → blocks_to 1 (c ∷ s.calls) ≡ blocks_to 1 s.calls
      → blocks_to pty (c ∷ s.calls) ≡ blocks_to pty s.calls
      → Relayed s
      → Relayed (record s { calls = c ∷ s.calls })
  made-IsRelayed c s from_pty from_user to_user to_pty h = record {
    pty_is = h.pty_is;
    log_apart = h.log_apart;
    log_no_input = h.log_no_input;
    output = rw (from_pty, to_user) h.output;
    input = rw (from_user, to_pty) h.input;
  }

  pub modify-IsRelayed :
      (f : Session → Session)
      → ((s : Session) → (f s).log_file ≡ s.log_file)
      → ((s : Session) → (f s).master_pty ≡ s.master_pty)
      → ((s : Session) → (f s).calls ≡ s.calls)
      → Keeps Relayed (modify f)
  modify-IsRelayed f log master calls = record {
    run = λ s h. record {
      pty_is = master s ∙ h.pty_is;
      log_apart = rw (log s) h.log_apart;
      log_no_input = rw (log s) h.log_no_input;
      output = rw (calls s) h.output;
      input = rw (calls s) h.input;
    };
  }

  perform-IsRelayed :
      {A : Type 0} (c : Call) (result : List Call → A)
      → is_transfer c ≡ false
      → Keeps Relayed (perform c result)
  perform-IsRelayed c result q = record {
    run = λ s h.
        made-IsRelayed c s (received-other sys pty c s.calls q) (received-other sys 0 c s.calls q)
          (blocks_to-other 1 c s.calls (quiet_write c q))
          (blocks_to-other pty c s.calls (quiet_write c q)) h;
  }

  pub write_to-IsRelayed :
      {A : Type 0} (n : ℕ) (block : Bytes) (result : List Call → A)
      → IsApart pty n
      → Keeps Relayed (perform (write_to n block) result)
  write_to-IsRelayed n block result q = record {
    run = λ s h. made-IsRelayed (write_to n block) s refl refl (rw (q.0) refl) (rw (q.1) refl) h;
  }

  -- Reading from elsewhere.
  pub read_from-IsRelayed :
      {A : Type 0} (n : ℕ) (result : List Call → A)
      → (n == 0) ≡ false
      → (n == pty) ≡ false
      → Keeps Relayed (perform (read_from n) result)
  read_from-IsRelayed n result q r = record {
    run = λ s h. made-IsRelayed (read_from n) s (rw r refl) (rw q refl) refl refl h;
  }

  send_syslog-IsRelayed : (text : Bytes) → Keeps Relayed (send_syslog text)
  unfolding send_syslog after_write
  send_syslog-IsRelayed text = record {
    run = λ s h. by_result s (write2syslog (syslog_options s) s.writer (some text)) h;
  }
    where
      by_result : (s : Session) (r : Written) → Relayed s → Relayed (after_write s r).1
      by_result s (written w es) h = record {
        pty_is = h.pty_is;
        log_apart = h.log_apart;
        log_no_input = h.log_no_input;
        output =
            rw (received-push_entries sys pty es s.calls, blocks_to-push_entries 1 es s.calls)
              h.output;
        input =
            rw (received-push_entries sys 0 es s.calls, blocks_to-push_entries pty es s.calls)
              h.input;
      }
      by_result s failed h = h

  write_log-IsRelayed : (text : Bytes) → Keeps Relayed (write_log sys text)
  unfolding ◌>>=◌
  write_log-IsRelayed text = record {
    run = λ s h.
        (write_to-IsRelayed s.log_file text (λ calls. sys.write calls s.log_file text)
            h.log_apart).run
          s h;
  }

  pub Relayed-Closed : Closed sys (KeepsAll Relayed)
  Relayed-Closed = record {
    on_pure = Keeps-pure;
    on_crash = record { run = λ s h. h };
    on_gets = Keeps-gets;
    on_bind = Keeps-bind;
    on_perform = perform-IsRelayed;
    on_name = λ name.
        modify-IsRelayed (λ s. record s { log_file_name = name }) (λ _. refl) (λ _. refl)
          (λ _. refl);
    on_log = write_log-IsRelayed;
    on_syslog = send_syslog-IsRelayed;
  }
