-- ===== src/Session/State.antt =====
-- The static variables of rootsh.c with the calls made so far, and calls that may end the program.
use rootsh.Base.{
  ℕ, ◌-◌, Bool, true, false, Option, List, [], ◌∷◌, ◌++◌, ltb, ◌==◌, if◌then◌else◌, length, take,
}
use rootsh.Text.{Bytes}
use rootsh.Syslog.Writer.{Writer, Entry}
use rootsh.Config.File.{Settings}
use rootsh.Session.Modes.{Modes}
use rootsh.Session.Calls.{Call, to_syslog}

pub record Session : Type 0 where
  pub settings : Settings
  pub prog_name : Bytes
  pub session_id : Bytes
  pub log_file : ℕ
  pub log_inode : ℕ
  pub log_dev : ℕ
  pub log_file_name : Bytes
  pub user_log_file_name : Option Bytes
  pub user_log_file_dir : Option Bytes
  pub user_name : Bytes
  pub run_as_user : Option Bytes
  pub standalone : Bool
  pub use_login_shell : Bool
  pub isa_login_shell : Bool
  pub master_pty : ℕ
  pub term_params : Modes
  pub sig_winch : Bool
  pub sig_int : Bool
  pub sig_quit : Bool
  pub sig_chld : Bool
  pub writer : Writer
  pub calls : List Call

-- A function returns, or ends the program by `exit`, or its behaviour is undefined, or the fuel of
-- a loop ran out.
pub data Outcome (A : Type 0) : Type 0 where
  returned : A → Outcome A
  exited : ℕ → Outcome A
  crashed : Outcome A
  unfinished : Outcome A

abbrev pub Action : Type 0 → Type 0
Action A = Session → Outcome A × Session

module _ {A : Type 0} where
  abbrev pub pure : A → Action A
  pure a s = (returned a, s)

  abbrev pub exit : ℕ → Action A
  exit status s = (exited status, s)

  abbrev pub crash : Action A
  crash s = (crashed, s)

  abbrev pub out_of_fuel : Action A
  out_of_fuel s = (unfinished, s)

  abbrev pub gets : (Session → A) → Action A
  gets f s = (returned (f s), s)

  -- A call of the system, with the result that it has after the calls before it.
  abbrev pub perform : Call → (List Call → A) → Action A
  perform call result s = (returned (result s.calls), record s { calls = call ∷ s.calls })

abbrev pub modify : (Session → Session) → Action (Unit {0})
modify f s = (returned tt, f s)

-- Shut, so that the rules for a bind apply to what is written.
infixl 5 ◌>>=◌ ◌>>◌
unfoldable pub ◌>>=◌ : {A B : Type 0} → Action A → (A → Action B) → Action B
◌>>=◌ m f s =
    let (r, s') = m s in
    elim r [
      | returned a ↦ f a s'
      | exited status ↦ (exited status, s')
      | crashed ↦ (crashed, s')
      | unfinished ↦ (unfinished, s')
    ]

abbrev pub ◌>>◌ : {A B : Type 0} → Action A → Action B → Action B
m >> k = m >>= λ _. k

abbrev pub when : Bool → Action (Unit {0}) → Action (Unit {0})
when true m = m
when false m = pure tt

abbrev pub unit : Action (Unit {0})
unit = pure tt

abbrev pub call : Call → Action (Unit {0})
call c = perform c (λ _. tt)

-- The calls of syslog that `write2syslog` made.
abbrev pub push_entries : List Entry → List Call → List Call
push_entries [] calls = calls
push_entries (e ∷ es) calls = push_entries es (to_syslog e ∷ calls)

-- BUFSIZ of <stdio.h>
abbrev pub bufsiz : ℕ
bufsiz = 8192

-- `msglen = snprintf(msgbuf, sizeof(msgbuf) - 1, ...)` and the use of the first `msglen` bytes of
-- `msgbuf`: bytes behind the NUL that closes a cut text were not written by snprintf.
abbrev pub formatted : Bytes → Action Bytes
formatted text =
    if ltb (length text) (bufsiz - 1)
    then pure text
    else if length text == bufsiz - 1
    then pure (take (bufsiz - 2) text ++ 0 ∷ [])
    else crash
