-- ===== src/Session/FinishLaws.antt =====
-- The status with which `finish` ends the program.
use rootsh.Base.{ℕ, ◌≡◌, ◌≢◌, ◌⊎◌, inl, inr, refl, ap, Option, none, some, ◌∷◌, arith}
use rootsh.Session.Calls.{wait_child, close_fd, System, Status}
use rootsh.Session.State.{
  Session, Outcome, returned, exited, crashed, unfinished, Action, exit, pure, gets, perform, call,
  ◌>>=◌, ◌>>◌,
}
use rootsh.Session.Logging.End.{endlogging}
use rootsh.Session.Loop.{child_message, report_child, restore_tty, finish}
use rootsh.Session.Closed.{Closed}
use rootsh.Session.Closed.End.{on_endlogging}
use rootsh.Session.Closed.Loop.{on_restore_tty, on_report_child}
use rootsh.Session.Proceeds.{Proceeds, proceeding, Proceeds-Closed, signal_handlers-Proceed}
use rootsh.Session.Rules.{Gives, Gives-bind}
use rootsh.Session.Settled.{
  Identity, identity, Settles, Settles-Closed, Settles-perform, Settles-gets,
}
use rootsh.Session.SettledLoop.{Copies, Settles-Ends}

-- The exit status that the child's status asks for: its own, or 1.
abbrev pub child_code : Option Status → ℕ
child_code none = 1
child_code (some (Status.exited status)) = status
child_code (some (Status.signaled signal)) = 1
child_code (some Status.unknown) = 1

child_message-code :
    (s : Session) (status : Status) → (child_message s status).1 ≡ child_code (some status)
unfolding child_message
child_message-code s (Status.exited status) = refl
child_message-code s (Status.signaled signal) = refl
child_message-code s Status.unknown = refl

asked-code :
    (status : Status) (s : Session) (code : ℕ)
    → ((gets (λ t. (child_message t status).1) >>= λ c. pure c) s).0 ≡ returned code
    → code ≡ child_code (some status)
unfolding ◌>>=◌
asked-code status s code h =
    let same : (child_message s status).1 ≡ code = ground (arith, h) in
    rw same at (child_message-code s status)

report_child-Gives :
    (sys : System) (status : Option Status)
    → Gives (λ code. code ≡ child_code status) (report_child sys status)
unfolding report_child
report_child-Gives sys none = Gives-bind _ (λ errno.
    Gives-bind _ (λ text. Gives-bind _ (λ _. record { run = λ s code h. ground (arith, h) })))
report_child-Gives sys (some status) =
    Gives-bind _
      (λ line. Gives-bind _ (λ text. Gives-bind _ (λ _. record { run = asked-code status })))

record ExitsWith (i : Identity) (code : ℕ) (m : Action (Unit {0})) : Type 0 where
  run : (s : Session) → identity s ≡ i → ((m s).0 ≡ exited code) ⊎ ((m s).0 ≡ crashed)

ExitsWith-bind :
    {i : Identity} {code : ℕ} {A : Type 0} {m : Action A} {f : A → Action (Unit {0})}
    (V : A → Type 0)
    → Settles i Unit A m
    → Proceeds A m
    → Gives V m
    → ((a : A) → V a → ExitsWith i code (f a))
    → ExitsWith i code (m >>= f)
unfolding ◌>>=◌
ExitsWith-bind {i} {code} {A} {m} {f} V settles proceeds gives next = record {
  run = λ s h.
      by_outcome (m s).0 (m s).1 (settles.stays s h) (settles.ends tt s h) (proceeds.run s)
        (gives.run s);
}
  where
    by_outcome :
        (r : Outcome A) (t : Session)
        → identity t ≡ i
        → r ≢ unfinished
        → ((status : ℕ) → r ≢ exited status)
        → ((a : A) → r ≡ returned a → V a)
        → let after = (((λ (u : Session). (r, t)) >>= f) t).0 in
          (after ≡ exited code) ⊎ (after ≡ crashed)
    by_outcome (returned a) t h u e v = (next a (v a refl)).run t h
    by_outcome (exited n) t h u e v = absurd (e n refl)
    by_outcome crashed t h u e v = inr refl
    by_outcome unfinished t h u e v = absurd (u refl)

-- Nothing is asked of the value.
Gives-any : {A : Type 0} (m : Action A) → Gives (λ (a : A). Unit) m
Gives-any m = record { run = λ s a h. tt }

abbrev behind_restore : System → ℕ → Action (Unit {0})
behind_restore sys fuel = do
  status ← perform wait_child sys.wait
  code ← report_child sys status
  endlogging sys fuel
  pty ← gets (λ s. s.master_pty)
  call (close_fd pty)
  exit code

module _ (sys : System) (fuel : ℕ) (i : Identity) (enough : Copies sys fuel i) where
  settled : Closed sys (Settles i Unit)
  settled = Settles-Closed i Unit sys

  -- The part behind `wait`.
  after_wait :
      (status : Option Status)
      → ExitsWith i (child_code status) (
          report_child sys status >>= λ code. endlogging sys fuel >>= λ _.
          gets (λ s. s.master_pty) >>= λ pty. call (close_fd pty) >>= λ _. exit code)
  after_wait status =
      ExitsWith-bind (λ code. code ≡ child_code status) (on_report_child sys settled status)
        (on_report_child sys (Proceeds-Closed sys) status) (report_child-Gives sys status)
        (λ code same.
          ExitsWith-bind _
            (on_endlogging sys settled fuel (Settles-Ends i sys fuel Unit (λ _. enough)))
            (on_endlogging sys (Proceeds-Closed sys) fuel (signal_handlers-Proceed sys fuel))
            (Gives-any _)
            (λ _ _.
              ExitsWith-bind _ (Settles-gets i Unit _) (proceeding _ _) (Gives-any _) (λ pty _.
                ExitsWith-bind _ (Settles-perform i Unit _ _) (proceeding _ _) (Gives-any _)
                  (λ _ _. record { run = λ s h. inl (ap exited same) }))))

  finished :
      (s : Session)
      → identity s ≡ i
      → let child = sys.wait (restore_tty sys s).1.calls in
        ((finish sys fuel s).0 ≡ exited (child_code child)) ⊎ ((finish sys fuel s).0 ≡ crashed)
  unfolding finish ◌>>=◌
  finished s h =
      by_outcome (restore_tty sys s).0 (restore_tty sys s).1
        ((on_restore_tty sys settled).stays s h) ((on_restore_tty sys settled).ends tt s h)
        ((on_restore_tty sys (Proceeds-Closed sys)).run s)
    where
      by_outcome :
          (r : Outcome (Unit {0})) (t : Session)
          → identity t ≡ i
          → r ≢ unfinished
          → ((status : ℕ) → r ≢ exited status)
          → let after = (((λ (u : Session). (r, t)) >>= λ _. behind_restore sys fuel) t).0 in
            (after ≡ exited (child_code (sys.wait t.calls))) ⊎ (after ≡ crashed)
      by_outcome (returned a) t h u e =
          (after_wait (sys.wait t.calls)).run (record t { calls = wait_child ∷ t.calls }) h
      by_outcome (exited n) t h u e = absurd (e n refl)
      by_outcome crashed t h u e = inr refl
      by_outcome unfinished t h u e = absurd (u refl)

-- `finish` ends the program with the exit status of the child, and with 1 if a signal ended it or
-- `wait` failed, unless the behaviour is undefined before. The copying loop has fuel for more turns
-- than its reads of the log give bytes.
pub finish-exited :
    (sys : System) (fuel : ℕ) (s : Session)
    → Copies sys fuel (identity s)
    → let child = sys.wait (restore_tty sys s).1.calls in
      ((finish sys fuel s).0 ≡ exited (child_code child)) ⊎ ((finish sys fuel s).0 ≡ crashed)
finish-exited sys fuel s enough = finished sys fuel (identity s) enough s refl
