-- ===== src/Session/Shown.antt =====
-- What the terminal has shown stands in the log.
use mathlib.Core.List.{Sublist, sublist_of_cons-sublist}
use mathlib.Core.List.Sublist
use rootsh.Base.{
  ℕ, ◌≡◌, refl, ◌==◌, true, false, Option, none, some, List, [], ◌∷◌, ◌++◌, arith, Bool-cases, inl,
  inr, ==_iff,
}
use rootsh.Text.{Bytes, codes}
use rootsh.Syslog.Writer.{Entry, Written, written, failed, write2syslog}
use rootsh.Session.Calls.{Call, write_to, to_syslog, System, print_error}
use rootsh.Session.State.{Session, gets, perform, call, when, unit, push_entries, ◌>>=◌}
use rootsh.Session.Closed.{is_write}
use rootsh.Session.Blocks.{blocks_to, blocks_to-other, blocks_to-push_entries}
use rootsh.Session.Rules.{Leads, Keeps, Leads-bind, Keeps-bind, Keeps-when, Keeps-gets, Keeps-pure}
use rootsh.Session.Logging.Output.{
  after_write, send_syslog, write_log, send_file, dologging, syslog_options,
}

-- After each call that was made, the blocks shown on the terminal are among those written to the
-- log file `fd`, in their order.
abbrev pub LogsFirst : ℕ → List Call → Type 0
LogsFirst fd [] = Unit
LogsFirst fd (c ∷ calls) =
    Sublist (blocks_to 1 (c ∷ calls)) (blocks_to fd (c ∷ calls)) × LogsFirst fd calls

sublist-append_left : (next xs ys : List Bytes) → Sublist (next ++ xs) ys → Sublist xs ys
sublist-append_left [] xs ys h = h
sublist-append_left (block ∷ next) xs ys h =
    sublist-append_left next xs ys (sublist_of_cons-sublist h)

-- The blocks shown on the terminal, with `next` in front, are among those written to the log file
-- `fd`, in their order.
pub record IsLogged (fd : ℕ) (next : List Bytes) (s : Session) : Type 0 where
  pub file_on : s.settings.logtofile ≡ true
  pub log_is : s.log_file ≡ fd
  pub log_elsewhere : (fd == 1) ≡ false
  pub pty_elsewhere : (s.master_pty == 1) ≡ false
  pub among : Sublist (next ++ blocks_to 1 s.calls) (blocks_to fd s.calls)
  pub always : LogsFirst fd s.calls

LogsFirst-push_entries :
    (fd : ℕ) (es : List Entry) (calls : List Call)
    → Sublist (blocks_to 1 calls) (blocks_to fd calls)
    → LogsFirst fd calls
    → LogsFirst fd (push_entries es calls)
LogsFirst-push_entries fd [] calls now h = h
LogsFirst-push_entries fd (e ∷ es) calls now h =
    LogsFirst-push_entries fd es (to_syslog e ∷ calls) now (now, h)

module _ (fd : ℕ) (next : List Bytes) where
  -- A call that writes nothing.
  pub perform-IsLogged :
      {A : Type 0} (c : Call) (result : List Call → A)
      → is_write c ≡ false
      → Keeps (IsLogged fd next) (perform c result)
  perform-IsLogged c result q = record {
    run = λ s h. record {
      file_on = h.file_on;
      log_is = h.log_is;
      log_elsewhere = h.log_elsewhere;
      pty_elsewhere = h.pty_elsewhere;
      among = rw (blocks_to-other 1 c s.calls q, blocks_to-other fd c s.calls q) h.among;
      always = (
        rw (blocks_to-other 1 c s.calls q, blocks_to-other fd c s.calls q)
            (sublist-append_left next _ _ h.among),
        h.always,
      );
    };
  }

  -- A block written elsewhere than to the terminal.
  pub write_to-IsLogged :
      {A : Type 0} (n : ℕ) (block : Bytes) (result : List Call → A)
      → (n == 1) ≡ false
      → Keeps (IsLogged fd next) (perform (write_to n block) result)
  write_to-IsLogged n block result q = record {
    run = λ s h.
        let among' = added n block s.calls q h.among in
        record {
          file_on = h.file_on;
          log_is = h.log_is;
          log_elsewhere = h.log_elsewhere;
          pty_elsewhere = h.pty_elsewhere;
          among = among';
          always = (sublist-append_left next _ _ among', h.always);
        };
  }
    where
      added :
          (n : ℕ) (block : Bytes) (calls : List Call)
          → (n == 1) ≡ false
          → Sublist (next ++ blocks_to 1 calls) (blocks_to fd calls)
          → Sublist
              (next ++ blocks_to 1 (write_to n block ∷ calls))
              (blocks_to fd (write_to n block ∷ calls))
      added n block calls q among = elim (Bool-cases (n == fd)) [
        | inl here ↦ rw (q, here) (Sublist.cons block among)
        | inr there ↦ rw (q, there) among
      ]

  after_write-IsLogged :
      (s : Session) (r : Written) → IsLogged fd next s → IsLogged fd next (after_write s r).1
  unfolding after_write
  after_write-IsLogged s (written w entries) h = record {
    file_on = h.file_on;
    log_is = h.log_is;
    log_elsewhere = h.log_elsewhere;
    pty_elsewhere = h.pty_elsewhere;
    among =
        rw (blocks_to-push_entries 1 entries s.calls, blocks_to-push_entries fd entries s.calls)
          h.among;
    always =
        LogsFirst-push_entries fd entries s.calls (sublist-append_left next _ _ h.among) h.always;
  }
  after_write-IsLogged s failed h = h

  pub send_syslog-IsLogged : (msgbuf : Bytes) → Keeps (IsLogged fd next) (send_syslog msgbuf)
  unfolding send_syslog
  send_syslog-IsLogged msgbuf = record {
    run = λ s h. after_write-IsLogged s (write2syslog (syslog_options s) s.writer (some msgbuf)) h;
  }

  -- Whatever `print_error` and its like are called on, nothing is written.
  call-IsLogged : (c : Call) → is_write c ≡ false → Keeps (IsLogged fd next) (call c)
  call-IsLogged c = perform-IsLogged c (λ _. tt)

-- A block that goes to the log may be shown next.
module _ (fd : ℕ) (block : Bytes) where
  logged_next :
      (log : ℕ) (calls : List Call)
      → log ≡ fd
      → (fd == 1) ≡ false
      → Sublist (blocks_to 1 calls) (blocks_to fd calls)
      → Sublist
          (block ∷ blocks_to 1 (write_to log block ∷ calls))
          (blocks_to fd (write_to log block ∷ calls))
  logged_next log calls is elsewhere among =
      rw (is, elsewhere, (==_iff fd fd).1 refl) (Sublist.cons-cons block among)

  shown_next :
      (calls : List Call)
      → (fd == 1) ≡ false
      → Sublist (block ∷ blocks_to 1 calls) (blocks_to fd calls)
      → Sublist (blocks_to 1 (write_to 1 block ∷ calls)) (blocks_to fd (write_to 1 block ∷ calls))
  shown_next calls elsewhere among = let other : (1 == fd) ≡ false = ground arith in rw other among

  pub write_log-IsLogged :
      (sys : System) → Leads (IsLogged fd []) (write_log sys block) (IsLogged fd (block ∷ []))
  unfolding ◌>>=◌
  write_log-IsLogged sys = record {
    run = λ s h.
        let among' = logged_next s.log_file s.calls h.log_is h.log_elsewhere h.among in
        record {
          file_on = h.file_on;
          log_is = h.log_is;
          log_elsewhere = h.log_elsewhere;
          pty_elsewhere = h.pty_elsewhere;
          among = among';
          always = (sublist_of_cons-sublist among', h.always);
        };
  }

  pub weaken-IsLogged : (s : Session) → IsLogged fd (block ∷ []) s → IsLogged fd [] s
  weaken-IsLogged s h = record {
    file_on = h.file_on;
    log_is = h.log_is;
    log_elsewhere = h.log_elsewhere;
    pty_elsewhere = h.pty_elsewhere;
    among = sublist_of_cons-sublist h.among;
    always = h.always;
  }

  send_file-IsLogged :
      (sys : System) → Leads (IsLogged fd []) (send_file sys block) (IsLogged fd (block ∷ []))
  unfolding send_file
  send_file-IsLogged sys = Leads-bind (write_log-IsLogged sys) reported (λ t h. h)
    where
      reported :
          (count : Option ℕ)
          → Keeps (IsLogged fd (block ∷ [])) (elim count [
            | none ↦ call (print_error (codes "Error writing to logfile"))
            | some _ ↦ unit
          ])
      reported none = call-IsLogged fd (block ∷ []) _ refl
      reported (some n) = Keeps-pure tt

  -- `dologging` writes the whole block to the file first.
  pub dologging-IsLogged :
      (sys : System) → Leads (IsLogged fd []) (dologging sys block) (IsLogged fd (block ∷ []))
  unfolding dologging ◌>>=◌
  dologging-IsLogged sys = record {
    run = λ s h.
        simp h.file_on ((Leads-bind (send_file-IsLogged sys) (λ _. syslogged) (λ t k. k)).run s h);
  }
    where
      syslogged :
          Keeps
            (IsLogged fd (block ∷ []))
            (gets (λ s. s.settings.logtosyslog) >>= λ b. when b (send_syslog block))
      syslogged =
          Keeps-bind (Keeps-gets _) (λ b. Keeps-when b (send_syslog-IsLogged fd (block ∷ []) block))

  -- What was logged is shown.
  pub shown-IsLogged :
      {A : Type 0} (result : List Call → A)
      → Leads (IsLogged fd (block ∷ [])) (perform (write_to 1 block) result) (IsLogged fd [])
  shown-IsLogged result = record {
    run = λ s h.
        let among' = shown_next s.calls h.log_elsewhere h.among in
        record {
          file_on = h.file_on;
          log_is = h.log_is;
          log_elsewhere = h.log_elsewhere;
          pty_elsewhere = h.pty_elsewhere;
          among = among';
          always = (among', h.always);
        };
  }
