-- ===== src/Session/Closed/End.antt =====
-- `endlogging` is in every closed class that has the recovery of the log file.
use rootsh.Base.{
  List, ℕ, ◌-◌, refl, Bool, true, false, not, ◌&&◌, Option, none, some, ◌++◌, ltb, length,
}
use rootsh.Text.{Bytes, codes}
use rootsh.Config.File.{max_path_len}
use rootsh.Session.Calls.{System, Stat, Signal}
use rootsh.Session.State.{Action, crash, gets, modify, ◌>>=◌}
use rootsh.Session.Logging.Output.{recoverfile}
use rootsh.Session.Logging.End.{
  remove_impostor, check_handle, compare_identity, missing_name, examine_name, examine,
  append_tampered, close_tampered, close_untouched, close_log, after_last_line, end_file,
  end_syslog, endlogging,
}
use rootsh.Session.Loop.{handle_all, setup_signal_handlers}
use rootsh.Session.Closed.{Closed, on_call, on_when, on_if, on_formatted, on_dologging}

-- The session's end, and the signals.
pub record Ends (sys : System) (fuel : ℕ) (K : (A : Type 0) → Action A → Type 0) : Type 1 where
  pub on_recovered :
      {B : Type 0} (name : Bytes) {rest : ℕ → Bool → Action B}
      → ((log : ℕ) (done : Bool) → K _ (rest log done))
      → K _ (gets (λ s. s.log_file) >>= λ log. recoverfile sys fuel log name >>= rest log)
  pub on_handled : (signals : List Signal) → K _ (modify (handle_all signals))
  pub on_set_up : K _ (modify setup_signal_handlers)
  pub on_cleared :
      K _ (modify (λ s. record s { sig_int = false; sig_quit = false; sig_chld = false }))

module _ {K : (A : Type 0) → Action A → Type 0} (sys : System) (k : Closed sys K) where
  on_compare_identity : (name : Bytes) (same : Bool) → K _ (compare_identity sys name same)
  unfolding compare_identity remove_impostor check_handle
  on_compare_identity name true =
      k.on_bind (k.on_bind (k.on_gets _) (λ _. k.on_perform _ _ refl)) handled
    where
      handled : (st : Option Stat) → K _ (check_handle st)
      handled none = k.on_pure _
      handled (some st) = k.on_pure _
  on_compare_identity name false =
      k.on_bind
        (k.on_bind (k.on_perform _ _ refl)
          (λ unlinked. on_when sys k (not unlinked) (on_call sys k _ refl)))
        (λ _. k.on_pure _)

  on_examine_name : (name : Bytes) (found : Option Stat) → K _ (examine_name sys name found)
  unfolding examine_name missing_name
  on_examine_name name none =
      k.on_bind (k.on_bind (k.on_gets _) (λ _. k.on_perform _ _ refl)) missing
    where
      missing : (st : Option Stat) → K _ (missing_name st)
      missing none = k.on_pure _
      missing (some st) = k.on_pure _
  on_examine_name name (some st) = k.on_bind (k.on_gets _) (λ same. on_compare_identity name same)

  on_examine : K _ (examine sys)
  unfolding examine
  on_examine =
      k.on_bind (k.on_gets _)
        (λ name. k.on_bind (k.on_perform _ _ refl) (λ found. on_examine_name name found))

  on_append_tampered : K _ append_tampered
  unfolding append_tampered
  on_append_tampered = k.on_bind (k.on_gets _) (λ name.
      on_if sys k {n = crash} (ltb (length (name ++ codes ".tampered")) (max_path_len - 9))
        (k.on_bind (k.on_name (name ++ codes ".tampered"))
          (λ _. k.on_pure (name ++ codes ".tampered")))
        k.on_crash)

module _ {K : (A : Type 0) → Action A → Type 0} (sys : System) (k : Closed sys K) (fuel : ℕ)
    (w : Ends sys fuel K) where
  on_close_log : (message : Option Bytes) → K _ (close_log sys fuel message)
  unfolding close_log close_tampered close_untouched
  on_close_log none = k.on_bind (k.on_gets _) (λ _.
      k.on_bind (on_call sys k _ refl) (λ _. k.on_bind (k.on_gets _) (λ _. on_call sys k _ refl)))
  on_close_log (some message) = k.on_bind (on_dologging sys k message) (λ _.
      k.on_bind (on_append_tampered sys k) (λ name.
        w.on_recovered name
          (λ log done. k.on_bind (on_dologging sys k _) (λ _. on_call sys k _ refl))))

  on_end_file : K _ (end_file sys fuel)
  unfolding end_file after_last_line
  on_end_file = k.on_bind (k.on_gets _) (λ now. k.on_bind (k.on_gets _) (λ line.
      k.on_bind (on_formatted sys k line) (λ text. k.on_bind (k.on_log text) written_line)))
    where
      written_line : (count : Option ℕ) → K _ (after_last_line sys fuel count)
      written_line none = k.on_bind (on_call sys k _ refl) (λ _. k.on_pure _)
      written_line (some n) =
          k.on_bind (on_examine sys k)
            (λ message. k.on_bind (on_close_log message) (λ _. k.on_pure _))

  pub on_endlogging : K _ (endlogging sys fuel)
  unfolding endlogging end_syslog
  on_endlogging = k.on_bind (k.on_gets _) (λ file.
      k.on_bind (on_if sys k file (on_end_file) (k.on_pure true)) (λ go_on.
        k.on_bind (k.on_gets _) (λ syslog. on_when sys k (go_on && syslog) (
          k.on_bind (k.on_syslog (codes "\r\n")) (λ _.
            k.on_bind (k.on_gets _)
              (λ _. k.on_bind (on_call sys k _ refl) (λ _. on_call sys k _ refl)))))))
