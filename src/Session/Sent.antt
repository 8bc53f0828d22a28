-- ===== src/Session/Sent.antt =====
-- What the terminal has shown was handed to `write2syslog`.
use mathlib.Core.List.{Sublist, sublist_of_cons-sublist, append_assoc, append-nil, reverse-append}
use mathlib.Core.List.Sublist
use rootsh.Base.{ℕ, ◌≡◌, refl, ◌==◌, true, false, some, List, [], ◌∷◌, ◌++◌, reverse}
use rootsh.Text.{Bytes}
use rootsh.Syslog.Writer.{Writer, Options, Entry, Written, written, failed, write2syslog}
use rootsh.Syslog.Calls.{write_calls}
use rootsh.Syslog.Appended.{write_calls-snoc}
use rootsh.Session.Calls.{Call, write_to, to_syslog}
use rootsh.Session.State.{
  Session, Outcome, returned, exited, crashed, unfinished, modify, perform, push_entries,
}
use rootsh.Session.Closed.{is_write}
use rootsh.Session.Rules.{Keeps, Ensures}
use rootsh.Session.Logging.Output.{after_write, send_syslog, syslog_options}
use rootsh.Session.Blocks.{blocks_to, blocks_to-other, blocks_to-push_entries}

-- The calls of `syslog`, the last one first.
abbrev pub entries_in : List Call → List Entry
entries_in [] = []
entries_in (to_syslog e ∷ calls) = e ∷ entries_in calls
entries_in (other ∷ calls) = entries_in calls

entries_in-grows :
    (c : Call) (es : List Entry) (calls : List Call)
    → Sublist es (entries_in calls)
    → Sublist es (entries_in (c ∷ calls))
entries_in-grows (to_syslog e) es calls h = Sublist.cons e h
entries_in-grows other es calls h = h

entries_in-push_entries :
    (es old : List Entry) (calls : List Call)
    → Sublist (reverse old) (entries_in calls)
    → Sublist (reverse (old ++ es)) (entries_in (push_entries es calls))
entries_in-push_entries [] old calls h = rw append-nil h
entries_in-push_entries (e ∷ es) old calls h =
    let one : Sublist (reverse (old ++ e ∷ [])) (e ∷ entries_in calls) =
      rw (reverse-append old (e ∷ [])) (Sublist.cons-cons e h) in
    rw append_assoc at (entries_in-push_entries es (old ++ e ∷ []) (to_syslog e ∷ calls) one)

-- The blocks shown on the terminal, with `next` in front, are in their order among `texts`, which
-- `write2syslog` was called on, the last one first, from its variables `w₀` on; and what it sent
-- for them is in its order among the calls of `syslog`.
pub record IsSent (o : Options) (w₀ : Writer) (next : List Bytes) (s : Session) : Type 0 where
  pub syslog_on : s.settings.logtosyslog ≡ true
  pub options_are : syslog_options s ≡ o
  pub log_elsewhere : (s.log_file == 1) ≡ false
  pub pty_elsewhere : (s.master_pty == 1) ≡ false
  pub texts : List Bytes
  pub entries : List Entry
  pub replayed : write_calls o w₀ (reverse texts) ≡ written s.writer entries
  pub sent : Sublist (reverse entries) (entries_in s.calls)
  pub among : Sublist (next ++ blocks_to 1 s.calls) texts

module _ (o : Options) (w₀ : Writer) where
  module _ (next : List Bytes) where
    -- A call that shows nothing.
    pub made-IsSent :
        (c : Call) (s : Session)
        → blocks_to 1 (c ∷ s.calls) ≡ blocks_to 1 s.calls
        → IsSent o w₀ next s
        → IsSent o w₀ next (record s { calls = c ∷ s.calls })
    made-IsSent c s same h = record {
      syslog_on = h.syslog_on;
      options_are = h.options_are;
      log_elsewhere = h.log_elsewhere;
      pty_elsewhere = h.pty_elsewhere;
      texts = h.texts;
      entries = h.entries;
      replayed = h.replayed;
      sent = entries_in-grows c (reverse h.entries) s.calls h.sent;
      among = rw same h.among;
    }

    -- A change of other variables.
    pub modify-IsSent :
        (f : Session → Session)
        → ((s : Session) → (f s).settings ≡ s.settings)
        → ((s : Session) → (f s).log_file ≡ s.log_file)
        → ((s : Session) → (f s).master_pty ≡ s.master_pty)
        → ((s : Session) → (f s).writer ≡ s.writer)
        → ((s : Session) → (f s).calls ≡ s.calls)
        → Keeps (IsSent o w₀ next) (modify f)
    modify-IsSent f settings log pty writer calls = record {
      run = λ s h. record {
        syslog_on = rw (settings s) h.syslog_on;
        options_are = rw (settings s) h.options_are;
        log_elsewhere = rw (log s) h.log_elsewhere;
        pty_elsewhere = rw (pty s) h.pty_elsewhere;
        texts = h.texts;
        entries = h.entries;
        replayed = rw (writer s) h.replayed;
        sent = rw (calls s) h.sent;
        among = rw (calls s) h.among;
      };
    }

    pub perform-IsSent :
        {A : Type 0} (c : Call) (result : List Call → A)
        → is_write c ≡ false
        → Keeps (IsSent o w₀ next) (perform c result)
    perform-IsSent c result q = record {
      run = λ s h. made-IsSent c s (blocks_to-other 1 c s.calls q) h;
    }

    -- A block written elsewhere than to the terminal.
    pub write_to-IsSent :
        {A : Type 0} (n : ℕ) (block : Bytes) (result : List Call → A)
        → (n == 1) ≡ false
        → Keeps (IsSent o w₀ next) (perform (write_to n block) result)
    write_to-IsSent n block result q = record {
      run = λ s h. made-IsSent (write_to n block) s (rw q refl) h;
    }

  -- A text that `write2syslog` was called on and returned from may be shown next.
  module _ (text : Bytes) where
    abbrev pub Handed : Outcome (Unit {0}) → Session → Type 0
    Handed (returned a) t = IsSent o w₀ (text ∷ []) t
    Handed other t = IsSent o w₀ [] t

    after_write-IsSent :
        (s : Session) (r : Written)
        → write2syslog (syslog_options s) s.writer (some text) ≡ r
        → IsSent o w₀ [] s
        → Handed (after_write s r).0 (after_write s r).1
    unfolding after_write
    after_write-IsSent s (written w more) e h = record {
      syslog_on = h.syslog_on;
      options_are = h.options_are;
      log_elsewhere = h.log_elsewhere;
      pty_elsewhere = h.pty_elsewhere;
      texts = text ∷ h.texts;
      entries = h.entries ++ more;
      replayed =
          rw (reverse-append (text ∷ []) h.texts)
            (write_calls-snoc o w₀ (reverse h.texts) text h.replayed (rw h.options_are at e));
      sent = entries_in-push_entries more h.entries s.calls h.sent;
      among = rw (blocks_to-push_entries 1 more s.calls) (Sublist.cons-cons text h.among);
    }
    after_write-IsSent s failed e h = h

    pub send_syslog-Handed : Ensures (IsSent o w₀ []) (send_syslog text) Handed
    unfolding send_syslog
    send_syslog-Handed = record { run = λ s h. after_write-IsSent s _ refl h }

    weaken-IsSent : (s : Session) → IsSent o w₀ (text ∷ []) s → IsSent o w₀ [] s
    weaken-IsSent s h = record {
      syslog_on = h.syslog_on;
      options_are = h.options_are;
      log_elsewhere = h.log_elsewhere;
      pty_elsewhere = h.pty_elsewhere;
      texts = h.texts;
      entries = h.entries;
      replayed = h.replayed;
      sent = h.sent;
      among = sublist_of_cons-sublist h.among;
    }

    pub weaken-Handed : (r : Outcome (Unit {0})) (s : Session) → Handed r s → IsSent o w₀ [] s
    weaken-Handed (returned a) s h = weaken-IsSent s h
    weaken-Handed (exited n) s h = h
    weaken-Handed crashed s h = h
    weaken-Handed unfinished s h = h

    -- What was handed to `write2syslog` is shown.
    pub shown-IsSent :
        {A : Type 0} (result : List Call → A) (s : Session)
        → IsSent o w₀ (text ∷ []) s
        → IsSent o w₀ [] (perform (write_to 1 text) result s).1
    shown-IsSent result s h = record {
      syslog_on = h.syslog_on;
      options_are = h.options_are;
      log_elsewhere = h.log_elsewhere;
      pty_elsewhere = h.pty_elsewhere;
      texts = h.texts;
      entries = h.entries;
      replayed = h.replayed;
      sent = h.sent;
      among = h.among;
    }
