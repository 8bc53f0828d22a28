-- ===== src/Session/Pty/Tests.antt =====
-- `forkpty` in the child, where all calls succeed.
use rootsh.Base.{true, false, some, [], ◌∷◌, arith}
use rootsh.Text.{codes}
use rootsh.Session.Pty.{Terminals, forkpty}
use rootsh.Session.Pty.Sides.{Table, outer}
use rootsh.Session.Pty.Descriptors.{held, Left}
use rootsh.Session.Pty.Held.{IsFresh, forkpty-Held}
use rootsh.Session.Tests.{cooked, opened_session}

abbrev child_terminals : Terminals
child_terminals = record {
  modes = λ calls. cooked;
  master = λ calls. some 6;
  granted = λ calls. true;
  unlocked = λ calls. true;
  forked = λ calls. some 0;
  slave_name = λ calls. some (codes "/dev/pts/3");
  slave = λ calls. some 7;
  modules = codes "ptem" ∷ codes "ldterm" ∷ [];
  pushed = λ calls. true;
  modes_set = λ calls. true;
  size_set = λ calls. true;
  master_device = codes "/dev/ptmx";
}

child_terminals-IsFresh : IsFresh child_terminals 5
child_terminals-IsFresh = record {
  above_standard = λ calls fd e. ground arith;
  apart_log = λ calls fd e. ground arith;
  apart_master = λ calls earlier fd master e f. ground arith;
}

-- The standard descriptors and the log file are open.
abbrev open_before : Table
open_before = (0, outer) ∷ (1, outer) ∷ (2, outer) ∷ (5, outer) ∷ []

forkpty-Held_example :
    Left child_terminals open_before 5 true
      (held child_terminals open_before opened_session.calls)
      (forkpty child_terminals (some cooked) true false opened_session).0
      (forkpty child_terminals (some cooked) true false opened_session).1
forkpty-Held_example =
    forkpty-Held child_terminals open_before (some cooked) false opened_session
      child_terminals-IsFresh
