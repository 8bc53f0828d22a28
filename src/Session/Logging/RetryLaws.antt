-- ===== src/Session/Logging/RetryLaws.antt =====
-- How often `forceopen` tries to open the file.
use rootsh.Base.{
  ℕ, zero, suc, ◌+◌, ◌≤◌, ◌≡◌, refl, Bool, true, false, Option, none, some, List, [], ◌∷◌, ◌==◌,
  if◌then◌else◌, arith,
}
use rootsh.Text.{Bytes, codes}
use rootsh.Syslog.Writer.{Entry, Written, written, failed, write2syslog}
use rootsh.Session.Calls.{Call, open_file, to_syslog, print_error, System, Errno, eexist, eisdir}
use rootsh.Session.State.{Session, Action, pure, call, push_entries, unit, ◌>>=◌}
use rootsh.Session.Rules.{Leads, Keeps, Leads-bind, Keeps-bind, Keeps-gets, Keeps-pure, Keeps-when}
use rootsh.Session.Logging.Output.{
  syslog_options, after_write, send_syslog, send_file, dologging, clear_path, retry, try_open,
  forceopen, open_recovery,
}

-- How often a file was opened for the recovery.
abbrev pub opens : List Call → ℕ
opens [] = 0
opens (open_file path ∷ calls) = suc (opens calls)
opens (other ∷ calls) = opens calls

abbrev Opened : ℕ → Session → Type 0
Opened n s = opens s.calls ≤ n

opens-push_entries :
    (es : List Entry) (calls : List Call) → opens (push_entries es calls) ≡ opens calls
opens-push_entries [] calls = refl
opens-push_entries (e ∷ es) calls = opens-push_entries es (to_syslog e ∷ calls)

module _ (n : ℕ) where
  send_syslog-Opened : (text : Bytes) → Keeps (Opened n) (send_syslog text)
  unfolding send_syslog after_write
  send_syslog-Opened text = record {
    run = λ s h. by_result s (write2syslog (syslog_options s) s.writer (some text)) h;
  }
    where
      by_result : (s : Session) (r : Written) → Opened n s → Opened n (after_write s r).1
      by_result s (written w entries) h = omega (arith, h, opens-push_entries entries s.calls)
      by_result s failed h = h

  send_file-Opened : (sys : System) (text : Bytes) → Keeps (Opened n) (send_file sys text)
  unfolding send_file
  send_file-Opened sys text =
      Keeps-bind (Keeps-bind (Keeps-gets _) (λ fd. record { run = λ s h. h })) reported
    where
      reported :
          (count : Option ℕ)
          → Keeps (Opened n) (elim count [
            | none ↦ call (print_error (codes "Error writing to logfile"))
            | some _ ↦ unit
          ])
      reported none = record { run = λ s h. h }
      reported (some m) = Keeps-pure tt

  dologging-Opened : (sys : System) (text : Bytes) → Keeps (Opened n) (dologging sys text)
  unfolding dologging
  dologging-Opened sys text = Keeps-bind (Keeps-gets _) (λ file.
      Keeps-bind (Keeps-when file (send_file-Opened sys text))
        (λ _. Keeps-bind (Keeps-gets _) (λ syslog. Keeps-when syslog (send_syslog-Opened text))))

  clear_path-Opened : (path : Bytes) (errno : Errno) → Keeps (Opened n) (clear_path path errno)
  unfolding clear_path
  clear_path-Opened path eexist = Keeps-bind (record { run = λ s h. h }) (λ _. Keeps-pure _)
  clear_path-Opened path eisdir = Keeps-bind (record { run = λ s h. h }) (λ _. Keeps-pure _)
  clear_path-Opened path Errno.eintr = Keeps-pure _
  clear_path-Opened path (Errno.other m) = Keeps-pure _

Leads-if :
    {A : Type 0} {P Q : Session → Type 0} {m k : Action A} (b : Bool)
    → Leads P m Q
    → Leads P k Q
    → Leads P (if b then m else k) Q
Leads-if true h l = h
Leads-if false h l = l

module _ (sys : System) (path : Bytes) where
  -- `left` more tries may follow.
  retry-Opened :
      (n left : ℕ) (again : Action (Option ℕ)) (r : Option ℕ)
      → Leads (Opened n) again (Opened (n + left))
      → Leads (Opened n) (retry sys path left again r) (Opened (n + left))
  unfolding retry
  retry-Opened n left again (some fd) k = record { run = λ s h. omega (arith, h) }
  retry-Opened n left again none k =
      Leads-if {m = pure none} (left == 0) (record { run = weaken })
        (Leads-bind (Keeps-gets _)
          (λ errno.
            Leads-bind (clear_path-Opened n path errno)
              (λ msgbuf. Leads-bind (dologging-Opened n sys msgbuf) (λ _. k) weaken) weaken)
          weaken)
    where
      weaken : (t : Session) → Opened n t → Opened (n + left) t
      weaken t h = omega (arith, h)

  try_open-Opened : (n left : ℕ) → Leads (Opened n) (try_open sys path left) (Opened (n + left))
  unfolding try_open
  try_open-Opened n zero = record { run = λ s h. omega (arith, h) }
  try_open-Opened n (suc left) =
      let opening : Leads (Opened n) (open_recovery sys path) (Opened (suc n)) = record {
        run = λ s h. omega (arith, h);
      } in
      let tried : Leads (Opened n)
          (open_recovery sys path >>= retry sys path left (try_open sys path left))
          (Opened (suc n + left)) =
        Leads-bind opening
          (λ r. retry-Opened (suc n) left (try_open sys path left) r (try_open-Opened (suc n) left))
          (λ t h. omega (arith, h)) in
      record { run = λ s h. omega (arith, tried.run s h) }

  -- `forceopen` calls `open` three times at most.
  pub forceopen-opens : (s : Session) → opens (forceopen sys path s).1.calls ≤ opens s.calls + 3
  unfolding forceopen
  forceopen-opens s = (try_open-Opened (opens s.calls) 3).run s (omega arith)
