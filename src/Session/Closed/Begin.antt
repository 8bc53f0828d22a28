-- ===== src/Session/Closed/Begin.antt =====
-- `beginlogging` is in every closed class that has the opening of the log file.
use rootsh.Base.{ℕ, refl, Bool, true, false, not, ◌&&◌, Option, none, some, ◌++◌}
use rootsh.Text.{Bytes, codes}
use rootsh.Session.Calls.{System, Stat, open_append}
use rootsh.Session.State.{Action, pure, crash, modify, perform, ◌>>=◌, ◌>>◌}
use rootsh.Session.Logging.Begin.{
  acting_user, fail_file, note_start, remember_identity, open_log_file, open_syslog_session,
  note_commands, begin_syslog, begin_destinations, beginlogging,
}
use rootsh.Session.Closed.{Closed, on_call, on_when, on_if, on_formatted, on_dologging}

module _ {K : (A : Type 0) → Action A → Type 0} (sys : System) (k : Closed sys K) where
  on_named_user :
      (name : Option Bytes) → K Bytes (elim name [ some user ↦ pure user | none ↦ crash ])
  on_named_user none = k.on_crash
  on_named_user (some user) = k.on_pure user

  on_acting_user : K _ (acting_user sys)
  on_acting_user = k.on_bind (k.on_gets _) by_option
    where
      by_option :
          (user : Option Bytes)
          → K Bytes (elim user [
            | some name ↦ pure name
            | none ↦ elim sys.login_name [ some name ↦ pure name | none ↦ crash ]
          ])
      by_option none = on_named_user sys.login_name
      by_option (some name) = k.on_pure name

  pub on_fail_file : K _ fail_file
  on_fail_file =
      k.on_bind (k.on_gets _) (λ name. k.on_bind (on_call sys k _ refl) (λ _. k.on_pure false))

  pub on_note_start : (now : ℕ) (user : Bytes) → K _ (note_start sys now user)
  unfolding note_start
  on_note_start now user =
      k.on_bind (k.on_gets _)
        (λ line. k.on_bind (on_formatted sys k line) (λ text. k.on_bind (k.on_log text) by_count))
    where
      by_count : (count : Option ℕ) → K _ (elim count [ none ↦ fail_file | some _ ↦ pure true ])
      by_count none = on_fail_file
      by_count (some n) = k.on_pure true

  on_note_commands : (commands : Option Bytes) → K _ (note_commands sys commands)
  unfolding note_commands
  on_note_commands none = k.on_pure tt
  on_note_commands (some commands) =
      k.on_bind (on_formatted sys k (codes "shell commands: " ++ (commands ++ codes "\n")))
        (λ text. on_dologging sys k text)

  pub on_begin_syslog :
      (commands : Option Bytes) (user : Bytes) → K _ (begin_syslog sys commands user)
  unfolding begin_syslog open_syslog_session
  on_begin_syslog commands user = k.on_bind (k.on_gets _) (λ syslog.
      k.on_bind
        (on_when sys k syslog (
          k.on_bind (k.on_gets _) (λ ident.
            k.on_bind (on_call sys k _ refl)
              (λ _. k.on_bind (k.on_gets _) (λ line. on_call sys k _ refl)))))
        (λ _. k.on_bind (on_note_commands commands) (λ _. k.on_pure true)))

-- The steps that set the variables of the log file.
pub record Starts (sys : System) (K : (A : Type 0) → Action A → Type 0) : Type 1 where
  pub on_opened :
      (name : Bytes) {rest : ℕ → Action Bool}
      → ((fd : ℕ) → K _ (rest fd))
      → K _ (
          perform (open_append name) (λ calls. sys.opened calls name) >>= λ fd. elim fd [
            | none ↦ fail_file
            | some n ↦ modify (λ s. record s { log_file = n }) >> rest n
          ])
  pub on_identity :
      (st : Stat) → K _ (modify (λ s. record s { log_inode = st.inode; log_dev = st.device }))

module _ {K : (A : Type 0) → Action A → Type 0} (sys : System) (k : Closed sys K)
    (b : Starts sys K) where
  on_remember_identity : (fd now : ℕ) (user : Bytes) → K _ (remember_identity sys fd now user)
  unfolding remember_identity
  on_remember_identity fd now user = k.on_bind (k.on_perform _ _ refl) by_found
    where
      by_found :
          (found : Option Stat)
          → K _ (elim found [
            | none ↦ fail_file
            | some st ↦
                modify (λ s. record s { log_inode = st.inode; log_dev = st.device })
                >> note_start sys now user
          ])
      by_found none = on_fail_file sys k
      by_found (some st) = k.on_bind (b.on_identity st) (λ _. on_note_start sys k now user)

  on_open_log_file : (user : Bytes) → K _ (open_log_file sys user)
  unfolding open_log_file
  on_open_log_file user = k.on_bind (k.on_gets _) (λ now. k.on_bind (k.on_gets _) (λ name.
      k.on_bind (k.on_name name) (λ _. b.on_opened name (λ fd. on_remember_identity fd now user))))

  on_begin_destinations :
      (commands : Option Bytes) (user : Bytes) (logtofile : Bool)
      → K _ (begin_destinations sys commands user logtofile)
  unfolding begin_destinations
  on_begin_destinations commands user false = on_begin_syslog sys k commands user
  on_begin_destinations commands user true = k.on_bind (on_open_log_file user) (λ opened.
      on_if sys k {n = pure false} opened (on_begin_syslog sys k commands user) (k.on_pure false))

  pub on_beginlogging : (commands : Option Bytes) → K _ (beginlogging sys commands)
  unfolding beginlogging
  on_beginlogging commands = k.on_bind (on_acting_user sys k) (λ user.
      k.on_bind (k.on_gets _) (λ file. k.on_bind (k.on_gets _) (λ syslog.
        on_if sys k (not file && not syslog)
          (k.on_bind (on_call sys k _ refl) (λ _. k.on_pure false))
          (on_begin_destinations commands user file))))
