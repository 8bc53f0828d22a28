-- ===== src/Session/Pty/Descriptors.antt =====
-- Which descriptors are open after some calls, and of which side of the pty pair, and rules for the
-- steps of `forkpty`.
use rootsh.Base.{ℕ, zero, suc, ◌≡◌, refl, ◌∙◌, Bool, true, false, Option, none, some, List, [], ◌∷◌}
use rootsh.Text.{Bytes}
use rootsh.Session.Calls.{Call, close_fd, open_master, open_file, duplicate}
use rootsh.Session.State.{
  Session, Outcome, returned, exited, crashed, unfinished, Action, perform, call, ◌>>=◌, ◌>>◌,
}
use rootsh.Session.Pty.{Terminals, Forked, give_up, attempt}
use rootsh.Session.Pty.Sides.{
  Table, master_side, slave_side, remove, opened_as, duplicated, standard, without_log,
}

-- The descriptors that are open after the calls, where `before` was open.
abbrev pub held : Terminals → Table → List Call → Table
held pt before [] = before
held pt before (open_master ∷ calls) =
    opened_as master_side (pt.master calls) (held pt before calls)
held pt before (open_file name ∷ calls) =
    opened_as slave_side (pt.slave calls) (held pt before calls)
held pt before (close_fd fd ∷ calls) = remove fd (held pt before calls)
held pt before (duplicate old new ∷ calls) = duplicated old new (held pt before calls)
held pt before (other ∷ calls) = held pt before calls

module _ (pt : Terminals) (before : Table) (log : ℕ) (to_file : Bool) where
  -- What is open between two steps.
  pub record Holds (fds : Table) (t : Session) : Type 0 where
    pub open_fds : held pt before t.calls ≡ fds
    pub log_is : t.log_file ≡ log
    pub file_is : t.settings.logtofile ≡ to_file

  -- After a failure all is closed that was opened; in the parent the master is open, and stored, and
  -- what was before; in the child the slave as 0, 1 and 2, and what was before but the log file.
  abbrev pub Left : Table → Outcome (Option Forked) → Session → Type 0
  Left base (returned none) t = held pt before t.calls ≡ base
  Left base (returned (some f)) t = elim f.pid [
    | zero ↦ held pt before t.calls ≡ standard (without_log to_file log base)
    | suc pid ↦ held pt before t.calls ≡ (t.master_pty, master_side) ∷ base
  ]
  Left base (exited status) t = ⊥
  Left base crashed t = ⊥
  Left base unfinished t = ⊥

  pub record Leaves (base fds : Table) (m : Action (Option Forked)) : Type 0 where
    pub run : (t : Session) → Holds fds t → Left base (m t).0 (m t).1

  abbrev pub is_quiet : Call → Bool
  is_quiet open_master = false
  is_quiet (open_file name) = false
  is_quiet (close_fd fd) = false
  is_quiet (duplicate old new) = false
  is_quiet other = true

  pub Holds-quiet :
      (c : Call) (fds : Table) (t : Session)
      → is_quiet c ≡ true
      → Holds fds t
      → Holds fds (record t { calls = c ∷ t.calls })
  Holds-quiet c fds t q h = record {
    open_fds = same c q ∙ h.open_fds;
    log_is = h.log_is;
    file_is = h.file_is;
  }
    where
      same : (d : Call) → is_quiet d ≡ true → held pt before (d ∷ t.calls) ≡ held pt before t.calls
      same open_master e = cc
      same (open_file name) e = cc
      same (close_fd fd) e = cc
      same (duplicate old new) e = cc
      same other e = refl

  pub Holds-close :
      (fd : ℕ) (fds : Table) (t : Session)
      → Holds fds t
      → Holds (remove fd fds) (record t { calls = close_fd fd ∷ t.calls })
  Holds-close fd fds t h = record {
    open_fds = rw h.open_fds refl;
    log_is = h.log_is;
    file_is = h.file_is;
  }

  pub Holds-duplicate :
      (old new : ℕ) (fds : Table) (t : Session)
      → Holds fds t
      → Holds (duplicated old new fds) (record t { calls = duplicate old new ∷ t.calls })
  Holds-duplicate old new fds t h = record {
    open_fds = rw h.open_fds refl;
    log_is = h.log_is;
    file_is = h.file_is;
  }

  module _ {base fds : Table} where
    pub Leaves-quiet :
        {A : Type 0} (c : Call) (result : List Call → A) {f : A → Action (Option Forked)}
        → is_quiet c ≡ true
        → ((a : A) → Leaves base fds (f a))
        → Leaves base fds (perform c result >>= f)
    unfolding ◌>>=◌
    Leaves-quiet c result q next = record {
      run = λ t h. (next (result t.calls)).run _ (Holds-quiet c fds t q h);
    }

    pub Leaves-close :
        (fd : ℕ) (left : Table) (next : Action (Option Forked))
        → remove fd fds ≡ left
        → Leaves base left next
        → Leaves base fds (call (close_fd fd) >> next)
    unfolding ◌>>=◌
    Leaves-close fd left next e k = record {
      run = λ t h.
          k.run _
            (record { open_fds = rw (h.open_fds, e) refl; log_is = h.log_is; file_is = h.file_is });
    }

    pub Leaves-duplicate :
        (old new : ℕ) (next : Action (Option Forked))
        → Leaves base (duplicated old new fds) next
        → Leaves base fds (call (duplicate old new) >> next)
    unfolding ◌>>=◌
    Leaves-duplicate old new next k = record {
      run = λ t h. k.run _ (Holds-duplicate old new fds t h);
    }

    pub Leaves-call :
        (c : Call) (next : Action (Option Forked))
        → is_quiet c ≡ true
        → Leaves base fds next
        → Leaves base fds (call c >> next)
    Leaves-call c next q k = Leaves-quiet c (λ _. tt) q (λ _. k)

    pub Leaves-master :
        (f : Option ℕ → Action (Option Forked))
        → ((calls : List Call)
            → Leaves base (opened_as master_side (pt.master calls) fds) (f (pt.master calls)))
        → Leaves base fds (perform open_master pt.master >>= f)
    unfolding ◌>>=◌
    Leaves-master f next = record {
      run = λ t h.
          (next t.calls).run _
            (record { open_fds = rw h.open_fds refl; log_is = h.log_is; file_is = h.file_is });
    }

    pub Leaves-slave :
        (name : Bytes) (f : Option ℕ → Action (Option Forked))
        → ((calls : List Call)
            → Leaves base (opened_as slave_side (pt.slave calls) fds) (f (pt.slave calls)))
        → Leaves base fds (perform (open_file name) pt.slave >>= f)
    unfolding ◌>>=◌
    Leaves-slave name f next = record {
      run = λ t h.
          (next t.calls).run _
            (record { open_fds = rw h.open_fds refl; log_is = h.log_is; file_is = h.file_is });
    }

    pub Leaves-attempt :
        (ok : Bool) (what : Bytes) (opened : List ℕ) (next : Action (Option Forked))
        → Leaves base fds (give_up what opened)
        → Leaves base fds next
        → Leaves base fds (attempt ok what opened next)
    unfolding attempt
    Leaves-attempt true what opened next failed k = k
    Leaves-attempt false what opened next failed k = failed
