-- ===== src/Session/Elsewhere.antt =====
-- What is opened is not the terminal: `open`, `forceopen`, and the master of a pty.
use rootsh.Base.{
  ℕ, zero, suc, ◌≡◌, refl, ◌==◌, false, Option, none, some, List, arith, Bool-cases, inl, inr,
}
use rootsh.Text.{Bytes}
use rootsh.Session.Calls.{Call, System}
use rootsh.Session.State.{Session, returned, Action}
use rootsh.Session.Rules.{>>=-returned}
use rootsh.Session.Logging.Output.{retry, try_open, open_recovery}
use rootsh.Session.Pty.{Terminals}

-- `V` holds of every new descriptor.
abbrev pub OpensIn : (ℕ → Type 0) → System → Type 0
OpensIn V sys = (calls : List Call) (path : Bytes) (n : ℕ) → sys.opened calls path ≡ some n → V n

abbrev pub NotTerminal : ℕ → Type 0
NotTerminal n = (n == 1) ≡ false

-- A new descriptor is not the one of the terminal, which is open.
abbrev pub OpensElsewhere : System → Type 0
OpensElsewhere sys = OpensIn NotTerminal sys

-- The master of a new pty is not the terminal.
abbrev pub MasterElsewhere : Terminals → Type 0
MasterElsewhere pt = (calls : List Call) (n : ℕ) → pt.master calls ≡ some n → (n == 1) ≡ false

-- `V` holds of what is opened.
abbrev pub Elsewhere : (ℕ → Type 0) → Option ℕ → Type 0
Elsewhere V none = Unit
Elsewhere V (some n) = V n

module _ {V : ℕ → Type 0} (sys : System) (elsewhere : OpensIn V sys) where
  pub opened-Elsewhere : (calls : List Call) (path : Bytes) → Elsewhere V (sys.opened calls path)
  opened-Elsewhere calls path = by_result (sys.opened calls path) refl
    where
      by_result : (r : Option ℕ) → sys.opened calls path ≡ r → Elsewhere V r
      by_result none e = tt
      by_result (some n) e = elsewhere calls path n e

  retry-Elsewhere :
      (path : Bytes) (left : ℕ) (again : Action (Option ℕ)) (o r : Option ℕ) (s : Session)
      → ((t : Session) (q : Option ℕ) → (again t).0 ≡ returned q → Elsewhere V q)
      → Elsewhere V o
      → (retry sys path left again o s).0 ≡ returned r
      → Elsewhere V r
  unfolding retry
  retry-Elsewhere path left again o none s k e h = tt
  retry-Elsewhere path left again (some n) (some m) s k e h =
      let same : n ≡ m = ground arith in rw (← same) e
  retry-Elsewhere path left again none (some m) s k e h = elim (Bool-cases (left == 0)) [
    | inl last ↦ cc (rw last at h)
    | inr more ↦
        let (errno, _, h₁) = >>=-returned _ _ s (rw more at h) in
        let (msgbuf, _, h₂) = >>=-returned _ _ _ h₁ in
        let (_, _, h₃) = >>=-returned _ _ _ h₂ in k _ (some m) h₃
  ]

  pub try_open-Elsewhere :
      (path : Bytes) (left : ℕ) (s : Session) (r : Option ℕ)
      → (try_open sys path left s).0 ≡ returned r
      → Elsewhere V r
  unfolding try_open
  try_open-Elsewhere path zero s none h = tt
  try_open-Elsewhere path zero s (some n) h = cc
  try_open-Elsewhere path (suc left) s r h =
      let (o, opened, h₁) =
        >>=-returned (open_recovery sys path) (retry sys path left (try_open sys path left)) s h in
      let is : sys.opened s.calls path ≡ o = ground arith in
      retry-Elsewhere path left (try_open sys path left) o r _
        (λ t q. try_open-Elsewhere path left t q) (rw is at (opened-Elsewhere s.calls path)) h₁
