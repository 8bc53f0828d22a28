-- ===== src/Session/Liveness.antt =====
-- A session comes to its end once a signal of the shell's end has come.
use rootsh.Base.{
  ℕ, zero, suc, ◌+◌, ◌≤◌, ◌<◌, ◌≡◌, ◌≢◌, refl, true, not, List, [], ◌∷◌, leb, Bool-cases, inl, inr,
  arith, ◌∙◌,
}
use rootsh.Text.{codes}
use rootsh.Session.Calls.{
  Call, wait_ready, System, Signal, sigint, sigquit, sigchld, sigwinch, unexpected,
}
use rootsh.Session.State.{Session, Outcome, returned, exited, crashed, unfinished, Action, ◌>>=◌}
use rootsh.Session.Loop.{
  signal_handler, handle_all, setup_signal_handlers, session_turn, session_loop, log_session,
}
use rootsh.Session.Closed.{Closed, on_if, on_when}
use rootsh.Session.Closed.Loop.{on_turn, on_session_turn, on_fail_with}
use rootsh.Session.Closed.End.{Ends}
use rootsh.Session.Extends.{Extends, KeepsAll, recovery-kept, Extends-Closed, Extends-Interacts}
use rootsh.Session.Ending.{ends_session, session_turn-Leaves}
use rootsh.Session.Settled.{
  Identity, identity, Settles, Settles-gets, Settles-modify, Settles-perform, Settles-Closed,
  Settles-Interacts,
}
use rootsh.Session.SettledLoop.{Copies, Settles-Ends}

-- How often the session has waited for something to do.
abbrev pub waits : List Call → ℕ
waits [] = 0
waits (wait_ready ∷ calls) = suc (waits calls)
waits (other ∷ calls) = waits calls

waits-cons : (c : Call) (calls : List Call) → waits calls ≤ waits (c ∷ calls)
waits-cons wait_ready calls = omega arith
waits-cons other calls = omega arith

abbrev Waited : ℕ → Session → Type 0
Waited n s = n ≤ waits s.calls

Waited-Extends : (n : ℕ) → Extends (Waited n)
Waited-Extends n = record {
  on_made = λ c s h. omega (arith, h, waits-cons c s.calls);
  on_writer = λ w s h. h;
  on_named = λ name s h. h;
  on_resized = λ s h. h;
}

-- The program has ended.
abbrev pub HasEnded : Outcome (Unit {0}) → Type 0
HasEnded (returned a) = ⊥
HasEnded (exited status) = Unit
HasEnded crashed = Unit
HasEnded unfinished = ⊥

-- After so many waits a signal has come that ends the session.
abbrev pub SignalsAfter : System → ℕ → Type 0
SignalsAfter sys n = (calls : List Call) → n ≤ waits calls → ends_session (sys.signals calls) ≡ true

signal_handler-waits :
    (signal : Signal) (s : Session) → waits (signal_handler signal s).calls ≡ waits s.calls
unfolding signal_handler
signal_handler-waits sigint s = refl
signal_handler-waits sigquit s = refl
signal_handler-waits sigchld s = refl
signal_handler-waits sigwinch s = refl
signal_handler-waits (unexpected n) s = refl

handle_all-waits :
    (signals : List Signal) (s : Session) → waits (handle_all signals s).calls ≡ waits s.calls
unfolding handle_all
handle_all-waits [] s = refl
handle_all-waits (signal ∷ later) s =
    handle_all-waits later (signal_handler signal s) ∙ signal_handler-waits signal s

module _ (sys : System) (fuel : ℕ) where
  Waited-Ends : (n : ℕ) → Ends sys fuel (KeepsAll (Waited n))
  unfolding setup_signal_handlers
  Waited-Ends n = record {
    on_recovered = recovery-kept (Waited-Extends n) sys fuel;
    on_handled = λ signals. record { run = λ s h. omega (arith, h, handle_all-waits signals s) };
    on_set_up = record { run = λ s h. h };
    on_cleared = record { run = λ s h. h };
  }

  -- A turn waits.
  session_turn-Waited :
      (n : ℕ) (s : Session) → Waited n s → Waited (suc n) (session_turn sys fuel s).1
  unfolding session_turn ◌>>=◌
  session_turn-Waited n s h =
      (on_turn sys fuel (Extends-Closed (Waited-Extends (suc n)) sys)
          (Extends-Interacts (Waited-Extends (suc n)) sys) (Waited-Ends (suc n))
          (sys.pselect s.calls)).run
        (record s { calls = wait_ready ∷ s.calls }) (omega (arith, h))

  module _ (i : Identity) (enough : Copies sys fuel i) where
    settled : Settles i Unit Unit (session_turn sys fuel)
    settled =
        on_session_turn sys fuel (Settles-Closed i Unit sys) (Settles-Interacts i Unit sys)
          (Settles-Ends i sys fuel Unit (λ _. enough))

    session_loop-HasEnded :
        (n turns : ℕ) (s : Session)
        → SignalsAfter sys n
        → identity s ≡ i
        → 0 < turns
        → n < waits s.calls + turns
        → HasEnded (session_loop sys fuel turns s).0
    unfolding session_loop ◌>>=◌
    session_loop-HasEnded n zero s later h some_turn more = absurd (omega arith)
    session_loop-HasEnded n (suc turns) s later h some_turn more =
        by_outcome (session_turn sys fuel s).0 refl (λ few.
          session_loop-HasEnded n turns (session_turn sys fuel s).1 later (settled.stays s h)
            (omega (arith, few))
            (omega (arith, session_turn-Waited (waits s.calls) s (omega arith))))
      where
        not_yet :
            (a : Unit {0}) → (session_turn sys fuel s).0 ≡ returned a → suc (waits s.calls) < n
        not_yet a e = elim (Bool-cases (leb n (suc (waits s.calls)))) [
          | inl now ↦
              absurd
                (session_turn-Leaves sys fuel s a (later (wait_ready ∷ s.calls) (ground arith)) e)
          | inr before ↦ ground arith
        ]

        by_outcome :
            (r : Outcome (Unit {0}))
            → (session_turn sys fuel s).0 ≡ r
            → (suc (waits s.calls) < n
                → HasEnded (session_loop sys fuel turns (session_turn sys fuel s).1).0)
            → HasEnded
                (((λ (u : Session). (r, (session_turn sys fuel s).1)) >>= λ _.
                    session_loop sys fuel turns)
                  s).0
        by_outcome (returned a) e next = next (not_yet a e)
        by_outcome (exited status) e next = tt
        by_outcome crashed e next = tt
        by_outcome unfinished e next = settled.ends tt s h e

-- From every state with the identity the action comes to the program's end.
record Stops (i : Identity) (m : Action (Unit {0})) : Type 0 where
  run : (s : Session) → identity s ≡ i → HasEnded (m s).0

Stops-bind :
    {i : Identity} {A : Type 0} {m : Action A} {f : A → Action (Unit {0})}
    → Settles i Unit A m
    → ((a : A) → Stops i (f a))
    → Stops i (m >>= f)
unfolding ◌>>=◌
Stops-bind {i} {A} {m} {f} first next = record {
  run = λ s h. by_outcome (m s).0 (m s).1 (first.stays s h) (first.ends tt s h);
}
  where
    by_outcome :
        (r : Outcome A) (t : Session)
        → identity t ≡ i
        → r ≢ unfinished
        → HasEnded (((λ (u : Session). (r, t)) >>= f) t).0
    by_outcome (returned a) t h e = (next a).run t h
    by_outcome (exited status) t h e = tt
    by_outcome crashed t h e = tt
    by_outcome unfinished t h e = e refl

-- Where one of the signals SIGINT, SIGQUIT and SIGCHLD has come after `n` waits, `logSession` ends
-- the program within `n + 1` turns, and no earlier limit is met: reading from the log file ends, and
-- the copying loop has fuel for more turns than its reads give bytes.
pub log_session-HasEnded :
    (sys : System) (fuel n turns : ℕ) (s : Session)
    → Copies sys fuel (identity s)
    → SignalsAfter sys n
    → n < turns
    → HasEnded (log_session sys fuel turns s).0
unfolding log_session setup_signal_handlers
log_session-HasEnded sys fuel n turns s enough later more =
    (Stops-bind (Settles-gets i Unit (λ t. t.term_params)) (λ modes.
        Stops-bind (on_if sys closed sys.isatty (Settles-perform i Unit _ _) (closed.on_pure true))
          (λ changed.
            Stops-bind
              (on_when sys closed (not changed) (
                on_fail_with sys closed (Settles-Interacts i Unit sys)
                  (codes "tcsetattr on stdin: ")))
              (λ _. Stops-bind (Settles-modify i Unit setup_signal_handlers (λ t. refl)) (λ _.
                record {
                  run = λ t h.
                      session_loop-HasEnded sys fuel i enough n turns t later h
                        (omega (arith, more)) (omega (arith, more));
                }))))).run
      s refl
  where
    i : Identity
    i = identity s

    closed : Closed sys (Settles i Unit)
    closed = Settles-Closed i Unit sys
