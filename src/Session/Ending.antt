-- ===== src/Session/Ending.antt =====
-- A session ends when its shell does.
use rootsh.Base.{ℕ, ◌≡◌, ◌≢◌, refl, Bool, true, false, ◌||◌, List, [], ◌∷◌, arith}
use rootsh.Session.Calls.{
  wait_ready, System, Ready, Signal, sigint, sigquit, sigchld, sigwinch, unexpected,
}
use rootsh.Session.State.{
  Session, Outcome, returned, exited, crashed, unfinished, Action, ◌>>=◌, modify,
}
use rootsh.Session.Rules.{Keeps, Keeps-bind, Keeps-gets}
use rootsh.Session.Loop.{
  signal_handler, handle_all, handle_signals, handle_ready, handle_window, handle_end, finish,
  session_turn,
}
use rootsh.Session.Closed.Loop.{on_handle_ready, on_handle_window}
use rootsh.Session.Extends.{Extends, Extends-Closed, Extends-Interacts}

-- A signal that ends the session.
abbrev pub ends_session : List Signal → Bool
ends_session [] = false
ends_session (sigint ∷ later) = true
ends_session (sigquit ∷ later) = true
ends_session (sigchld ∷ later) = true
ends_session (other ∷ later) = ends_session later

abbrev HasEnd : Session → Type 0
HasEnd s = (s.sig_int || s.sig_quit || s.sig_chld) ≡ true

HasEnd-Extends : Extends HasEnd
HasEnd-Extends = record {
  on_made = λ c s h. h;
  on_writer = λ w s h. h;
  on_named = λ name s h. h;
  on_resized = λ s h. h;
}

signal_handler-HasEnd :
    (signal : Signal) (s : Session) → HasEnd s → HasEnd (signal_handler signal s)
unfolding signal_handler
signal_handler-HasEnd sigint s h = refl
signal_handler-HasEnd sigquit s h = ground arith
signal_handler-HasEnd sigchld s h = ground arith
signal_handler-HasEnd sigwinch s h = h
signal_handler-HasEnd (unexpected n) s h = h

handle_all-HasEnd : (signals : List Signal) (s : Session) → HasEnd s → HasEnd (handle_all signals s)
unfolding handle_all
handle_all-HasEnd [] s h = h
handle_all-HasEnd (signal ∷ later) s h =
    handle_all-HasEnd later (signal_handler signal s) (signal_handler-HasEnd signal s h)

-- The flag of one of the signals is set.
handle_all-ended :
    (signals : List Signal) (s : Session)
    → ends_session signals ≡ true
    → HasEnd (handle_all signals s)
unfolding handle_all signal_handler
handle_all-ended [] s h = cc
handle_all-ended (sigint ∷ later) s h = handle_all-HasEnd later _ refl
handle_all-ended (sigquit ∷ later) s h = handle_all-HasEnd later _ (ground arith)
handle_all-ended (sigchld ∷ later) s h = handle_all-HasEnd later _ (ground arith)
handle_all-ended (sigwinch ∷ later) s h = handle_all-ended later _ h
handle_all-ended (unexpected n ∷ later) s h = handle_all-ended later _ h

-- From a state with `P` the action does not return.
pub record Leaves {A : Type 0} (P : Session → Type 0) (m : Action A) : Type 0 where
  pub run : (s : Session) → P s → (a : A) → (m s).0 ≢ returned a

module _ {P : Session → Type 0} {A B : Type 0} {m : Action A} {f : A → Action B} where
  Leaves-bind : Keeps P m → ((a : A) → Leaves P (f a)) → Leaves P (m >>= f)
  unfolding ◌>>=◌
  Leaves-bind first next = record { run = λ s h. by_outcome (m s).0 (m s).1 (first.run s h) }
    where
      by_outcome :
          (r : Outcome A) (t : Session)
          → P t
          → (b : B) → (((λ (u : Session). (r, t)) >>= f) t).0 ≢ returned b
      by_outcome (returned a) t h b e = (next a).run t h b e
      by_outcome (exited n) t h b e = cc
      by_outcome crashed t h b e = cc
      by_outcome unfinished t h b e = cc

Leaves-bind_left :
    {P : Session → Type 0} {A B : Type 0} {m : Action A} (f : A → Action B)
    → Leaves P m
    → Leaves P (m >>= f)
unfolding ◌>>=◌
Leaves-bind_left {A} {B} {m} f first = record {
  run = λ s h. by_outcome (m s).0 (m s).1 (first.run s h);
}
  where
    by_outcome :
        (r : Outcome A) (t : Session)
        → ((a : A) → r ≢ returned a)
        → (b : B) → (((λ (u : Session). (r, t)) >>= f) t).0 ≢ returned b
    by_outcome (returned a) t h b e = h a refl
    by_outcome (exited n) t h b e = cc
    by_outcome crashed t h b e = cc
    by_outcome unfinished t h b e = cc

abbrev Always : Session → Type 0
Always s = Unit

always : {A : Type 0} (m : Action A) → Keeps Always m
always m = record { run = λ s h. tt }

finish-Leaves : (sys : System) (fuel : ℕ) → Leaves Always (finish sys fuel)
unfolding finish
finish-Leaves sys fuel = Leaves-bind (always _) (λ _. Leaves-bind (always _) (λ _.
    Leaves-bind (always _) (λ code. Leaves-bind (always _) (λ _.
      Leaves-bind (always _)
        (λ pty. Leaves-bind (always _) (λ _. record { run = λ s h a e. cc }))))))

module _ (sys : System) (fuel : ℕ) where
  handle_end-Leaves : Leaves HasEnd (handle_end sys fuel)
  unfolding handle_end ◌>>=◌
  handle_end-Leaves = record {
    run = λ s h a. simp h (
        (Leaves-bind_left
            (λ _. modify (λ s'. record s' { sig_int = false; sig_quit = false; sig_chld = false }))
            (finish-Leaves sys fuel)).run
          s tt a);
  }

  handle_signals-HasEnd : Keeps HasEnd (handle_signals sys)
  handle_signals-HasEnd =
      Keeps-bind (Keeps-gets _) (λ signals. record { run = handle_all-HasEnd signals })

  interaction-Leaves :
      (state : Ready)
      → Leaves HasEnd (
          handle_ready sys state >>= λ _. handle_signals sys >>= λ _.
          handle_window sys >>= λ _. handle_signals sys >>= λ _. handle_end sys fuel)
  interaction-Leaves state =
      let closed = Extends-Closed HasEnd-Extends sys in
      let interacts = Extends-Interacts HasEnd-Extends sys in
      Leaves-bind (on_handle_ready sys closed interacts state) (λ _.
        Leaves-bind handle_signals-HasEnd (λ _.
          Leaves-bind (on_handle_window sys closed interacts)
            (λ _. Leaves-bind handle_signals-HasEnd (λ _. handle_end-Leaves))))

  -- A turn in which such a signal has come does not return.
  pub session_turn-Leaves :
      (s : Session) (a : Unit {0})
      → ends_session (sys.signals (wait_ready ∷ s.calls)) ≡ true
      → (session_turn sys fuel s).0 ≢ returned a
  unfolding session_turn ◌>>=◌
  session_turn-Leaves s a h =
      (interaction-Leaves (sys.pselect s.calls)).run _
        (handle_all-ended (sys.signals (wait_ready ∷ s.calls))
          (record s { calls = wait_ready ∷ s.calls }) h)
        a
