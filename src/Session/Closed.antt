-- ===== src/Session/Closed.antt =====
-- A class of actions that is closed under what the functions of rootsh.c are made of. A statement
-- on a whole session is proved for such a class once, and needs only its closure for another one.
use rootsh.Base.{
  ℕ, ◌-◌, ◌≡◌, refl, Bool, true, false, Option, none, some, List, ◌∷◌, ◌++◌, ltb, ◌==◌,
  if◌then◌else◌, length,
}
use rootsh.Text.{Bytes, codes}
use rootsh.Session.Calls.{Call, write_to, read_from, System, print_error}
use rootsh.Session.State.{
  Session, Action, pure, exit, crash, gets, modify, perform, call, when, unit, formatted, bufsiz,
  ◌>>=◌, ◌>>◌,
}
use rootsh.Session.Logging.Output.{send_syslog, write_log, send_file, dologging}
pub mod End
pub mod Recovery
pub mod Begin
pub mod Pty
pub mod Loop

abbrev pub is_write : Call → Bool
is_write (write_to n block) = true
is_write other = false

abbrev pub is_transfer : Call → Bool
is_transfer (write_to n block) = true
is_transfer (read_from n) = true
is_transfer other = false

pub quiet_write : (c : Call) → is_transfer c ≡ false → is_write c ≡ false
quiet_write (write_to n block) q = cc
quiet_write other q = refl

pub record Closed (sys : System) (K : (A : Type 0) → Action A → Type 0) : Type 1 where
  pub on_pure : {A : Type 0} (a : A) → K _ (pure a)
  pub on_crash : {A : Type 0} → K _ (crash {A = A})
  pub on_gets : {A : Type 0} (f : Session → A) → K _ (gets f)
  pub on_bind :
      {A B : Type 0} {m : Action A} {f : A → Action B}
      → K _ m
      → ((a : A) → K _ (f a))
      → K _ (m >>= f)
  pub on_perform :
      {A : Type 0} (c : Call) (result : List Call → A)
      → is_transfer c ≡ false
      → K _ (perform c result)
  pub on_name : (name : Bytes) → K _ (modify (λ s. record s { log_file_name = name }))
  pub on_log : (text : Bytes) → K _ (write_log sys text)
  pub on_syslog : (text : Bytes) → K _ (send_syslog text)

module _ {K : (A : Type 0) → Action A → Type 0} (sys : System) (k : Closed sys K) where
  pub on_call : (c : Call) → is_transfer c ≡ false → K _ (call c)
  on_call c q = k.on_perform c (λ _. tt) q

  pub on_when : {m : Action (Unit {0})} (b : Bool) → K _ m → K _ (when b m)
  on_when true h = h
  on_when false h = k.on_pure tt

  pub on_if : {A : Type 0} {m n : Action A} (b : Bool) → K _ m → K _ n → K _ (if b then m else n)
  on_if true h l = h
  on_if false h l = l

  pub on_formatted : (text : Bytes) → K _ (formatted text)
  on_formatted text =
      on_if (ltb (length text) (bufsiz - 1)) (k.on_pure _)
        (on_if {n = crash} (length text == bufsiz - 1) (k.on_pure _) k.on_crash)

  pub on_send_file : (text : Bytes) → K _ (send_file sys text)
  unfolding send_file
  on_send_file text = k.on_bind (k.on_log text) reported
    where
      reported :
          (count : Option ℕ)
          → K _ (elim count [
            | none ↦ call (print_error (codes "Error writing to logfile"))
            | some _ ↦ unit
          ])
      reported none = on_call _ refl
      reported (some n) = k.on_pure tt

  pub on_dologging : (text : Bytes) → K _ (dologging sys text)
  unfolding dologging
  on_dologging text = k.on_bind (k.on_gets _) (λ file.
      k.on_bind (on_when file (on_send_file text))
        (λ _. k.on_bind (k.on_gets _) (λ syslog. on_when syslog (k.on_syslog text))))
