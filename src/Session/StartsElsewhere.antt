-- ===== src/Session/StartsElsewhere.antt =====
-- A predicate that the opening of the log file does not take away is kept by `beginlogging`.
use rootsh.Base.{ℕ, ◌≡◌, refl, Bool, Option, none, some, arith}
use rootsh.Text.{Bytes}
use rootsh.Session.Calls.{System, Stat, open_append}
use rootsh.Session.State.{Session, Action, returned, perform, modify, ◌>>◌}
use rootsh.Session.Rules.{Keeps, Keeps-bind, Keeps-bind_value}
use rootsh.Session.Logging.Begin.{fail_file}
use rootsh.Session.Closed.{Closed}
use rootsh.Session.Closed.Begin.{Starts, on_fail_file}
use rootsh.Session.Extends.{KeepsAll}
use rootsh.Session.Elsewhere.{OpensIn, Elsewhere, opened-Elsewhere}

module _ {P : Session → Type 0} (sys : System) (k : Closed sys (KeepsAll P)) {V : ℕ → Type 0}
    (elsewhere : OpensIn V sys)
    (on_log : (n : ℕ) → V n → Keeps P (modify (λ s. record s { log_file = n }))) where
  opened_by :
      (r : Option ℕ) {rest : ℕ → Action Bool}
      → Elsewhere V r
      → ((fd : ℕ) → Keeps P (rest fd))
      → Keeps P
          (elim r [ none ↦ fail_file | some n ↦ modify (λ s. record s { log_file = n }) >> rest n ])
  opened_by none q next = on_fail_file sys k
  opened_by (some n) q next = Keeps-bind (on_log n q) (λ _. next n)

  value :
      (name : Bytes) (s : Session) (r : Option ℕ)
      → (perform (open_append name) (λ calls. sys.opened calls name) s).0 ≡ returned r
      → Elsewhere V r
  value name s r h =
      let is : sys.opened s.calls name ≡ r = ground arith in
      rw is at (opened-Elsewhere sys elsewhere s.calls name)

  pub Starts-kept :
      ((st : Stat) → Keeps P (modify (λ s. record s { log_inode = st.inode; log_dev = st.device })))
      → Starts sys (KeepsAll P)
  Starts-kept on_identity = record {
    on_opened = λ name next.
        Keeps-bind_value (Elsewhere V) (k.on_perform _ _ refl) (value name)
          (λ r q. opened_by r q next);
    on_identity = on_identity;
  }
