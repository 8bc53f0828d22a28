-- ===== src/Session/WritesElsewhere.antt =====
-- A predicate that writing elsewhere than to the terminal does not take away is kept by `recoverfile`
-- and `forkpty`, by the session's end, and by all of its loop but what shows the shell's output.
use rootsh.Base.{ℕ, ◌≡◌, refl, ◌==◌, true, false, Option, none, some, List, [], ◌∷◌, arith, length}
use rootsh.Text.{Bytes}
use rootsh.Session.Calls.{
  Call, System, write_to, open_master, Signal, sigint, sigquit, sigchld, sigwinch, unexpected,
}
use rootsh.Session.State.{Session, returned, modify, perform, ◌>>=◌}
use rootsh.Session.Rules.{Keeps, Keeps-bind, Keeps-bind_value}
use rootsh.Session.Logging.Output.{recover_into, forceopen, copy_loop, read_log, recoverfile}
use rootsh.Session.Loop.{
  read_fd, signal_handler, handle_all, setup_signal_handlers, pass_input, check_passed, show_output,
  check_shown,
}
use rootsh.Session.Pty.{Terminals}
use rootsh.Session.Closed.{Closed}
use rootsh.Session.Closed.Recovery.{on_try_open, on_copy_loop, on_recover_into}
use rootsh.Session.Closed.Pty.{Forks}
use rootsh.Session.Closed.End.{Ends}
use rootsh.Session.Closed.Loop.{Interacts, interacting}
use rootsh.Session.Extends.{KeepsAll}
use rootsh.Session.Elsewhere.{OpensIn, NotTerminal, MasterElsewhere, Elsewhere, try_open-Elsewhere}

-- Writing to the descriptors of which `V` holds, and reading the log file.
pub record Writes (sys : System) (V : ℕ → Type 0) (P : Session → Type 0) : Type 0 where
  pub on_elsewhere :
      (to : ℕ)
      → V to
      → (block : Bytes) (result : List Call → Option ℕ)
      → Keeps P (perform (write_to to block) result)
  pub on_log : (s : Session) → P s → Keeps P (read_log sys s.log_file)
  pub on_changed :
      (f : Session → Session)
      → ((s : Session) → (f s).settings ≡ s.settings)
      → ((s : Session) → (f s).log_file ≡ s.log_file)
      → ((s : Session) → (f s).master_pty ≡ s.master_pty)
      → ((s : Session) → (f s).writer ≡ s.writer)
      → ((s : Session) → (f s).calls ≡ s.calls)
      → Keeps P (modify f)

module _ {P : Session → Type 0} (sys : System) (k : Closed sys (KeepsAll P)) where
  module _ {V : ℕ → Type 0} (elsewhere : OpensIn V sys) (w : Writes sys V P) where
    recover_into-kept :
        (fuel from : ℕ) (r : Option ℕ)
        → Keeps P (read_log sys from)
        → Elsewhere V r
        → Keeps P (recover_into sys fuel from r)
    recover_into-kept fuel from r read q = on_recover_into sys k fuel from r copied
      where
        copied : (to : ℕ) → r ≡ some to → Keeps P (copy_loop sys fuel from to)
        copied to e =
            on_copy_loop sys k to (w.on_elsewhere to (rw e at q)) (record { run = λ s h. h }) fuel
              from read

    pub recoverfile-kept :
        (fuel from : ℕ) (path : Bytes)
        → Keeps P (read_log sys from)
        → Keeps P (recoverfile sys fuel from path)
    unfolding recoverfile forceopen
    recoverfile-kept fuel from path read =
        Keeps-bind_value (Elsewhere V) (on_try_open sys k path 3)
          (λ s r. try_open-Elsewhere sys elsewhere path 3 s r)
          (λ r q. recover_into-kept fuel from r read q)

    signal_handler-kept : (signal : Signal) (s : Session) → P s → P (signal_handler signal s)
    unfolding signal_handler
    signal_handler-kept sigint =
        (w.on_changed (λ t. record t { sig_int = true }) (λ _. refl) (λ _. refl) (λ _. refl)
          (λ _. refl) (λ _. refl)).run
    signal_handler-kept sigquit =
        (w.on_changed (λ t. record t { sig_quit = true }) (λ _. refl) (λ _. refl) (λ _. refl)
          (λ _. refl) (λ _. refl)).run
    signal_handler-kept sigchld =
        (w.on_changed (λ t. record t { sig_chld = true }) (λ _. refl) (λ _. refl) (λ _. refl)
          (λ _. refl) (λ _. refl)).run
    signal_handler-kept sigwinch =
        (w.on_changed (λ t. record t { sig_winch = true }) (λ _. refl) (λ _. refl) (λ _. refl)
          (λ _. refl) (λ _. refl)).run
    signal_handler-kept (unexpected n) = (k.on_perform _ (λ _. tt) refl).run

    handle_all-kept : (signals : List Signal) (s : Session) → P s → P (handle_all signals s)
    unfolding handle_all
    handle_all-kept [] s h = h
    handle_all-kept (signal ∷ later) s h =
        handle_all-kept later (signal_handler signal s) (signal_handler-kept signal s h)

    pub Writes-Ends : (fuel : ℕ) → Ends sys fuel (KeepsAll P)
    unfolding setup_signal_handlers ◌>>=◌
    Writes-Ends fuel = record {
      on_recovered = λ name rest. record {
        run = λ s h.
            (Keeps-bind (recoverfile-kept fuel s.log_file name (w.on_log s h))
                (rest s.log_file)).run
              s h;
      };
      on_handled = λ signals. record { run = handle_all-kept signals };
      on_set_up =
          w.on_changed setup_signal_handlers (λ _. refl) (λ _. refl) (λ _. refl) (λ _. refl)
            (λ _. refl);
      on_cleared =
          w.on_changed (λ s. record s { sig_int = false; sig_quit = false; sig_chld = false })
            (λ _. refl) (λ _. refl) (λ _. refl) (λ _. refl) (λ _. refl);
    }

  -- The bytes of the user go to the pty.
  pass_input-kept :
      {V : ℕ → Type 0}
      → Writes sys V P
      → ((s : Session) → P s → V s.master_pty)
      → (buf : Bytes) → ((count : Option ℕ) → Keeps P (check_passed sys (length buf) count))
      → Keeps P (pass_input sys (some buf))
  unfolding pass_input ◌>>=◌
  pass_input-kept w on_pty buf checked = record {
    run = λ s h.
        (Keeps-bind
            (w.on_elsewhere s.master_pty (on_pty s h) buf
              (λ calls. sys.write calls s.master_pty buf))
            checked).run
          s h;
  }

  pub Writes-Interacts :
      {V : ℕ → Type 0}
      → Writes sys V P
      → ((fd : ℕ) → Keeps P (read_fd sys fd))
      → ((s : Session) → P s → V s.master_pty)
      → ((c : ℕ) (cs : Bytes)
          → ((count : Option ℕ) → Keeps P (check_shown sys count))
          → Keeps P (show_output sys (some (c ∷ cs))))
      → Interacts sys (KeepsAll P)
  Writes-Interacts w reads on_pty shown = interacting sys k (record {
    on_read = reads;
    on_exit = λ status. record { run = λ s h. h };
    on_passed = pass_input-kept w on_pty;
    on_shown = shown;
    on_window =
        w.on_changed (λ s. record s { sig_winch = false }) (λ _. refl) (λ _. refl) (λ _. refl)
          (λ _. refl) (λ _. refl);
  })

  pub Forks-kept :
      (pt : Terminals)
      → MasterElsewhere pt
      → ((master : ℕ)
          → (master == 1) ≡ false
          → Keeps P (modify (λ s. record s { master_pty = master })))
      → Forks pt (Elsewhere NotTerminal) (KeepsAll P)
  Forks-kept pt elsewhere stored = record {
    on_opened = Keeps-bind_value (Elsewhere NotTerminal) (k.on_perform _ _ refl) value;
    on_stored = stored;
  }
    where
      value :
          (s : Session) (r : Option ℕ)
          → (perform open_master pt.master s).0 ≡ returned r
          → Elsewhere NotTerminal r
      value s none e = tt
      value s (some n) e = elsewhere s.calls n (ground arith)
