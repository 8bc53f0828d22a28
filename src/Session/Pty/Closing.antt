-- ===== src/Session/Pty/Closing.antt =====
-- How `forkpty` gives up, and how the child closes the log.
use rootsh.Base.{ℕ, ◌≡◌, refl, ap, sym, ◌∙◌, Bool, true, false, Option, [], ◌∷◌, ◌==◌}
use rootsh.Text.{Bytes}
use rootsh.Session.Calls.{print_error, close_fd, close_syslog}
use rootsh.Session.State.{Session, Action, call, gets, when, ◌>>=◌, ◌>>◌}
use rootsh.Session.Pty.{Terminals, Forked, give_up, close_log_handles}
use rootsh.Session.Pty.Sides.{
  Table, master_side, slave_side, remove, remove_first, remove_second, without_log,
}
use rootsh.Session.Pty.Descriptors.{Holds, Left, Leaves, Holds-quiet, Holds-close}

module _ (pt : Terminals) (before : Table) (log : ℕ) (to_file : Bool) where
  pub give_up_none :
      (what : Bytes) (base : Table) → Leaves pt before log to_file base base (give_up what [])
  unfolding give_up ◌>>=◌
  give_up_none what base = record {
    run = λ t h. (Holds-quiet pt before log to_file (print_error what) base t refl h).open_fds;
  }

  pub give_up_master :
      (what : Bytes) (master : ℕ) (base : Table)
      → Leaves pt before log to_file base
          ((master, master_side) ∷ base)
          (give_up what (master ∷ []))
  unfolding give_up ◌>>=◌
  give_up_master what master base = record {
    run = λ t h.
        (Holds-close pt before log to_file master ((master, master_side) ∷ base) _
          (Holds-quiet pt before log to_file (print_error what) _ t refl h)).open_fds
        ∙ remove_first master master_side base;
  }

  pub give_up_pair :
      (what : Bytes) (master slave : ℕ) (base : Table)
      → (slave == master) ≡ false
      → Leaves pt before log to_file base
          ((slave, slave_side) ∷ (master, master_side) ∷ base)
          (give_up what (master ∷ slave ∷ []))
  unfolding give_up ◌>>=◌
  give_up_pair what master slave base apart = record {
    run = λ t h.
        (Holds-close pt before log to_file slave _ _ (
          Holds-close pt before log to_file master _ _
            (Holds-quiet pt before log to_file (print_error what) _ t refl h))).open_fds
        ∙ ap (remove slave) (remove_second master slave _ _ base apart)
        ∙ remove_first slave slave_side base;
  }

  -- The log is closed in the child.
  abbrev end_syslog : Action (Unit {0})
  end_syslog = gets (λ s. s.settings.logtosyslog) >>= λ b. when b (call close_syslog)

  module _ {base fds : Table} (rest : Action (Option Forked)) where
    syslog_closed :
        (b : Bool) (t : Session)
        → Leaves pt before log to_file base fds rest
        → Holds pt before log to_file fds t
        → Left pt before log to_file base
            ((when b (call close_syslog) >> rest) t).0
            ((when b (call close_syslog) >> rest) t).1
    unfolding ◌>>=◌
    syslog_closed true t k h = k.run _ (Holds-quiet pt before log to_file close_syslog fds t refl h)
    syslog_closed false t k h = k.run t h

  module _ {base fds : Table} (rest : Action (Option Forked)) where
    file_closed :
        (b : Bool) (fd : ℕ) (t : Session)
        → b ≡ to_file
        → fd ≡ log
        → Leaves pt before log to_file base (without_log to_file log fds) rest
        → Holds pt before log to_file fds t
        → Left pt before log to_file base
            ((when b (call (close_fd fd)) >> end_syslog >> rest) t).0
            ((when b (call (close_fd fd)) >> end_syslog >> rest) t).1
    unfolding ◌>>=◌
    file_closed true fd t e l k h = syslog_closed rest t.settings.logtosyslog _ k (record {
      open_fds = rw (sym e, l, h.open_fds) refl;
      log_is = h.log_is;
      file_is = h.file_is;
    })
    file_closed false fd t e l k h =
        syslog_closed rest t.settings.logtosyslog t k
          (record { open_fds = rw (sym e) h.open_fds; log_is = h.log_is; file_is = h.file_is })

    pub Leaves-log :
        Leaves pt before log to_file base (without_log to_file log fds) rest
        → Leaves pt before log to_file base fds (close_log_handles >> rest)
    unfolding ◌>>=◌ close_log_handles
    Leaves-log k = record {
      run = λ t h. file_closed t.settings.logtofile t.log_file t h.file_is h.log_is k h;
    }
