-- ===== src/Session/Pty/Held.antt =====
-- Which descriptors `forkpty` leaves open, on each way out of it.
use rootsh.Base.{
  ℕ, zero, suc, ◌≤◌, ◌≡◌, refl, ap, ◌∙◌, Bool, true, false, Option, none, some, List, [], ◌∷◌, ◌==◌,
}
use rootsh.Text.{Bytes, codes}
use rootsh.Session.Modes.{Modes}
use rootsh.Session.Calls.{
  Call, close_fd, open_master, grant_pty, unlock_pty, fork_process, new_session, pty_name,
  push_module, set_modes, set_size, get_tty,
}
use rootsh.Session.State.{Session, Action, pure, perform, call, ◌>>=◌, ◌>>◌}
use rootsh.Session.Pty.{
  Terminals, Forked, give_up, become_standard, push_modules, with_slave, in_child, in_parent,
  after_fork, with_master, forkpty, wanted_name, return_pid,
}
use rootsh.Session.Pty.Sides.{
  Table, master_side, slave_side, remove, opened_as, duplicated, remove_second, without_log,
  duplicated-standard,
}
use rootsh.Session.Pty.Descriptors.{
  held, Holds, Left, Leaves, Holds-close, Leaves-quiet, Leaves-call, Leaves-duplicate, Leaves-close,
  Leaves-attempt, Leaves-master, Leaves-slave,
}
use rootsh.Session.Pty.Closing.{give_up_none, give_up_master, give_up_pair, Leaves-log}

-- The system gives out no descriptor that is open, and the standard ones are open: the slave's is
-- none of them, nor that of the log file, nor the master's.
pub record IsFresh (pt : Terminals) (log : ℕ) : Type 0 where
  pub above_standard : (calls : List Call) (fd : ℕ) → pt.slave calls ≡ some fd → 3 ≤ fd
  pub apart_log : (calls : List Call) (fd : ℕ) → pt.slave calls ≡ some fd → (fd == log) ≡ false
  pub apart_master :
      (calls earlier : List Call) (fd master : ℕ)
      → pt.slave calls ≡ some fd
      → pt.master earlier ≡ some master
      → (fd == master) ≡ false

-- The log file is another descriptor.
log_closed :
    (to_file : Bool) (slave log : ℕ) (base : Table)
    → (slave == log) ≡ false
    → without_log to_file log ((slave, slave_side) ∷ base)
      ≡ (slave, slave_side) ∷ without_log to_file log base
log_closed true slave log base apart = rw apart refl
log_closed false slave log base apart = refl

module _ (pt : Terminals) (before : Table) (log : ℕ) (to_file : Bool) where
  abbrev Steps : Table → Table → Action (Option Forked) → Type 0
  Steps base fds m = Leaves pt before log to_file base fds m

  become_standard-Leaves :
      (master slave : ℕ) (wanted : Bool) (name : Bytes) (base : Table)
      → (slave == master) ≡ false
      → (slave == log) ≡ false
      → 3 ≤ slave
      → Steps base
          ((slave, slave_side) ∷ (master, master_side) ∷ base)
          (become_standard master slave wanted name)
  unfolding become_standard ◌>>=◌
  become_standard-Leaves master slave wanted name base apart no_log above =
      Leaves-close pt before log to_file master _ _
        (remove_second master slave slave_side master_side base apart)
        (Leaves-log pt before log to_file _ (
          Leaves-duplicate pt before log to_file slave 0 _ (
            Leaves-duplicate pt before log to_file slave 1 _
              (Leaves-duplicate pt before log to_file slave 2 _ ended))))
    where
      ended :
          Steps base
            (duplicated slave 2 (
              duplicated slave 1
                (duplicated slave 0 (without_log to_file log ((slave, slave_side) ∷ base)))))
            (call (close_fd slave)
              >> pure {A = Option Forked}
                  (some (record { pid = 0; name = wanted_name wanted name })))
      ended = record {
        run = λ t h.
            (Holds-close pt before log to_file slave _ t h).open_fds
            ∙ ap
                (λ fds.
                  remove slave (duplicated slave 2 (duplicated slave 1 (duplicated slave 0 fds))))
                (log_closed to_file slave log base no_log)
            ∙ duplicated-standard slave _ above;
      }

  push_modules-Leaves :
      (master slave : ℕ) (modules : List Bytes) (base : Table) (next : Action (Option Forked))
      → (slave == master) ≡ false
      → Steps base ((slave, slave_side) ∷ (master, master_side) ∷ base) next
      → Steps base
          ((slave, slave_side) ∷ (master, master_side) ∷ base)
          (push_modules pt master slave modules next)
  unfolding push_modules
  push_modules-Leaves master slave [] base next apart k = k
  push_modules-Leaves master slave (m ∷ modules) base next apart k =
      Leaves-quiet pt before log to_file (push_module slave m) pt.pushed refl (λ done.
        Leaves-attempt pt before log to_file done _ _ _
          (give_up_pair pt before log to_file _ master slave base apart)
          (push_modules-Leaves master slave modules base next apart k))

  with_slave-Leaves :
      (modes : Modes) (wanted : Bool) (master : ℕ) (name : Bytes) (slave : Option ℕ) (base : Table)
      → ((fd : ℕ) → slave ≡ some fd → (fd == master) ≡ false)
      → ((fd : ℕ) → slave ≡ some fd → (fd == log) ≡ false)
      → ((fd : ℕ) → slave ≡ some fd → 3 ≤ fd)
      → Steps base
          (opened_as slave_side slave ((master, master_side) ∷ base))
          (with_slave pt modes wanted master name slave)
  unfolding with_slave
  with_slave-Leaves modes wanted master name none base apart no_log above =
      give_up_master pt before log to_file name master base
  with_slave-Leaves modes wanted master name (some slave) base apart no_log above =
      push_modules-Leaves master slave pt.modules base _ (apart slave refl) (
        Leaves-quiet pt before log to_file (set_modes slave modes) pt.modes_set refl (λ done.
          Leaves-attempt pt before log to_file done _ _ _ (failed _) (
            Leaves-quiet pt before log to_file (set_size slave) pt.size_set refl (λ sized.
              Leaves-attempt pt before log to_file sized _ _ _ (failed _) (
                become_standard-Leaves master slave wanted name base (apart slave refl)
                  (no_log slave refl) (above slave refl))))))
    where
      failed :
          (what : Bytes)
          → Steps base
              ((slave, slave_side) ∷ (master, master_side) ∷ base)
              (give_up what (master ∷ slave ∷ []))
      failed what = give_up_pair pt before log to_file what master slave base (apart slave refl)

  return_pid-Leaves :
      (master pid : ℕ) (name : Option Bytes) (base : Table)
      → Steps base ((master, master_side) ∷ base) (return_pid master (suc pid) name)
  unfolding ◌>>=◌
  return_pid-Leaves master pid name base = record { run = λ t h. h.open_fds }

  in_parent-Leaves :
      (wanted : Bool) (master pid : ℕ) (base : Table)
      → Steps base ((master, master_side) ∷ base) (in_parent pt wanted master (suc pid))
  unfolding in_parent
  in_parent-Leaves false master pid base = return_pid-Leaves master pid none base
  in_parent-Leaves true master pid base =
      Leaves-quiet pt before log to_file (pty_name master) pt.slave_name refl by_name
    where
      by_name :
          (name : Option Bytes)
          → Steps base ((master, master_side) ∷ base) (elim name [
            | none ↦ give_up (codes "ptsname") (master ∷ [])
            | some n ↦ return_pid master (suc pid) (some n)
          ])
      by_name none = give_up_master pt before log to_file _ master base
      by_name (some n) = return_pid-Leaves master pid (some n) base

  module _ (modes : Modes) (wanted : Bool) (fresh : IsFresh pt log) where
    -- A master that the system has given out.
    abbrev IsMaster : ℕ → Type 0
    IsMaster master = (earlier : List Call) × (pt.master earlier ≡ some master)

    in_child-Leaves :
        (master : ℕ) (name : Option Bytes) (base : Table)
        → IsMaster master
        → Steps base ((master, master_side) ∷ base) (in_child pt modes wanted master name)
    unfolding in_child
    in_child-Leaves master none base given = give_up_master pt before log to_file _ master base
    in_child-Leaves master (some name) base given =
        Leaves-slave pt before log to_file name _ (λ calls.
          with_slave-Leaves modes wanted master name (pt.slave calls) base
            (λ fd e. fresh.apart_master calls given.0 fd master e given.1) (fresh.apart_log calls)
            (fresh.above_standard calls))

    after_fork-Leaves :
        (master : ℕ) (pid : Option ℕ) (base : Table)
        → IsMaster master
        → Steps base ((master, master_side) ∷ base) (after_fork pt modes wanted master pid)
    unfolding after_fork
    after_fork-Leaves master none base given = give_up_master pt before log to_file _ master base
    after_fork-Leaves master (some zero) base given =
        Leaves-call pt before log to_file new_session _ refl (
          Leaves-quiet pt before log to_file (pty_name master) pt.slave_name refl
            (λ name. in_child-Leaves master name base given))
    after_fork-Leaves master (some (suc pid)) base given = in_parent-Leaves wanted master pid base

    with_master-Leaves :
        (master : Option ℕ) (base : Table)
        → ((fd : ℕ) → master ≡ some fd → IsMaster fd)
        → Steps base (opened_as master_side master base) (with_master pt modes wanted master)
    unfolding with_master
    with_master-Leaves none base given = give_up_none pt before log to_file _ base
    with_master-Leaves (some master) base given =
        Leaves-quiet pt before log to_file (grant_pty master) pt.granted refl (λ granted.
          Leaves-attempt pt before log to_file granted _ _ _ (failed _) (
            Leaves-quiet pt before log to_file (unlock_pty master) pt.unlocked refl (λ unlocked.
              Leaves-attempt pt before log to_file unlocked _ _ _ (failed _) (
                Leaves-quiet pt before log to_file fork_process pt.forked refl
                  (λ pid. after_fork-Leaves master pid base (given master refl))))))
      where
        failed :
            (what : Bytes) → Steps base ((master, master_side) ∷ base) (give_up what (master ∷ []))
        failed what = give_up_master pt before log to_file what master base

    opened-Leaves :
        (base : Table) (s : Session)
        → Holds pt before log to_file base s
        → Left pt before log to_file base
            ((perform open_master pt.master >>= with_master pt modes wanted) s).0
            ((perform open_master pt.master >>= with_master pt modes wanted) s).1
    opened-Leaves base s h =
        (Leaves-master pt before log to_file _
            (λ calls. with_master-Leaves (pt.master calls) base (λ fd e. (calls, e)))).run
          s h

-- `forkpty` with a place for the size given, and what is open after it: where it fails, in either
-- process, what was open before; in the parent the master besides, which is the one stored for the
-- session; in the child the slave, as the descriptors 0, 1 and 2, no other descriptor of the pair, and
-- what was open before but those three and, where there is one, the log file. The system gives out no
-- descriptor that is open: the slave's is not 0, 1 or 2, nor the master's, nor the log file's.
pub forkpty-Held :
    (pt : Terminals) (before : Table) (termp : Option Modes) (wanted : Bool) (s : Session)
    → IsFresh pt s.log_file
    → Left pt before s.log_file s.settings.logtofile
        (held pt before s.calls)
        (forkpty pt termp true wanted s).0
        (forkpty pt termp true wanted s).1
unfolding forkpty ◌>>=◌
forkpty-Held pt before none wanted s fresh =
    opened-Leaves pt before s.log_file s.settings.logtofile (pt.modes s.calls) wanted fresh _
      (record s { calls = get_tty ∷ s.calls })
      (record { open_fds = refl; log_is = refl; file_is = refl })
forkpty-Held pt before (some modes) wanted s fresh =
    opened-Leaves pt before s.log_file s.settings.logtofile modes wanted fresh _ s
      (record { open_fds = refl; log_is = refl; file_is = refl })
