-- ===== src/Session/Closed/Pty.antt =====
-- `forkpty` and `execShell` are in every closed class that has the opening of a pty.
use rootsh.Base.{ℕ, zero, suc, ◌≡◌, refl, Bool, true, false, Option, none, some, List, [], ◌∷◌}
use rootsh.Text.{Bytes, codes}
use rootsh.Session.Modes.{Modes}
use rootsh.Session.Calls.{Call, System, open_master}
use rootsh.Session.State.{Action, exit, modify, perform, call, ◌>>=◌, ◌>>◌}
use rootsh.Session.Exec.{after_exec, run_call, exec_shell}
use rootsh.Session.Pty.{
  Terminals, Forked, close_all, give_up, attempt, close_log_handles, become_standard, push_modules,
  with_slave, in_child, in_parent, return_pid, after_fork, with_master, forkpty,
}
use rootsh.Session.Closed.{Closed, is_transfer, on_call, on_when}

-- The steps that open a pty and store its master, of which `V` holds.
pub record Forks (pt : Terminals) (V : Option ℕ → Type 0) (K : (A : Type 0) → Action A → Type 0)
    : Type 1 where
  pub on_opened :
      {B : Type 0} {rest : Option ℕ → Action B}
      → ((master : Option ℕ) → V master → K _ (rest master))
      → K _ (perform open_master pt.master >>= rest)
  pub on_stored :
      (master : ℕ) → V (some master) → K _ (modify (λ s. record s { master_pty = master }))

module _ {K : (A : Type 0) → Action A → Type 0} (sys : System) (k : Closed sys K) where
  then_call :
      {A : Type 0} (c : Call) (next : Action A)
      → is_transfer c ≡ false
      → K _ next
      → K _ (call c >> next)
  then_call c next q h = k.on_bind (on_call sys k c q) (λ _. h)

  on_close_all : (fds : List ℕ) → K _ (close_all fds)
  on_close_all [] = k.on_pure tt
  on_close_all (fd ∷ fds) = then_call _ _ refl (on_close_all fds)

  on_give_up : (what : Bytes) (fds : List ℕ) → K _ (give_up what fds)
  unfolding give_up
  on_give_up what fds =
      k.on_bind (k.on_bind (on_call sys k _ refl) (λ _. on_close_all fds)) (λ _. k.on_pure none)

  on_attempt :
      (what : Bytes) (fds : List ℕ) (ok : Bool) {next : Action (Option Forked)}
      → K _ next
      → K _ (attempt ok what fds next)
  unfolding attempt
  on_attempt what fds true h = h
  on_attempt what fds false h = on_give_up what fds

  on_close_log_handles : K _ close_log_handles
  unfolding close_log_handles
  on_close_log_handles = k.on_bind (k.on_gets _) (λ file. k.on_bind (k.on_gets _) (λ fd.
      k.on_bind (on_when sys k file (on_call sys k _ refl))
        (λ _. k.on_bind (k.on_gets _) (λ b. on_when sys k b (on_call sys k _ refl)))))

  on_become_standard :
      (master slave : ℕ) (wanted : Bool) (name : Bytes)
      → K _ (become_standard master slave wanted name)
  unfolding become_standard
  on_become_standard master slave wanted name = then_call _ _ refl (
      k.on_bind on_close_log_handles (λ _.
        then_call _ _ refl
          (then_call _ _ refl (then_call _ _ refl (then_call _ _ refl (k.on_pure _))))))

  on_push_modules :
      (pt : Terminals) (master slave : ℕ) (modules : List Bytes) (next : Action (Option Forked))
      → K _ next
      → K _ (push_modules pt master slave modules next)
  unfolding push_modules
  on_push_modules pt master slave [] next h = h
  on_push_modules pt master slave (m ∷ modules) next h =
      k.on_bind (k.on_perform _ _ refl)
        (λ done. on_attempt _ _ done (on_push_modules pt master slave modules next h))

  on_with_slave :
      (pt : Terminals) (modes : Modes) (wanted : Bool) (master : ℕ) (name : Bytes)
      (slave : Option ℕ)
      → K _ (with_slave pt modes wanted master name slave)
  unfolding with_slave
  on_with_slave pt modes wanted master name none = on_give_up _ (master ∷ [])
  on_with_slave pt modes wanted master name (some slave) =
      on_push_modules pt master slave pt.modules _ (
        k.on_bind (k.on_perform _ _ refl) (λ done. on_attempt _ _ done (
          k.on_bind (k.on_perform _ _ refl)
            (λ sized. on_attempt _ _ sized (on_become_standard master slave wanted name)))))

  on_in_child :
      (pt : Terminals) (modes : Modes) (wanted : Bool) (master : ℕ) (name : Option Bytes)
      → K _ (in_child pt modes wanted master name)
  unfolding in_child
  on_in_child pt modes wanted master none = on_give_up _ (master ∷ [])
  on_in_child pt modes wanted master (some name) =
      k.on_bind (k.on_perform _ _ refl) (on_with_slave pt modes wanted master name)

module _ {K : (A : Type 0) → Action A → Type 0} (sys : System) (k : Closed sys K) (pt : Terminals)
    {V : Option ℕ → Type 0} (w : Forks pt V K) where
  on_return_pid :
      (master pid : ℕ) (name : Option Bytes) → V (some master) → K _ (return_pid master pid name)
  on_return_pid master pid name q =
      k.on_bind (w.on_stored master q) (λ _. k.on_pure (some (record { pid = pid; name = name })))

  on_in_parent :
      (wanted : Bool) (master pid : ℕ) → V (some master) → K _ (in_parent pt wanted master pid)
  unfolding in_parent
  on_in_parent false master pid q = on_return_pid master pid none q
  on_in_parent true master pid q = k.on_bind (k.on_perform _ _ refl) by_name
    where
      by_name :
          (name : Option Bytes)
          → K _ (elim name [
            | none ↦ give_up (codes "ptsname") (master ∷ [])
            | some n ↦ return_pid master pid (some n)
          ])
      by_name none = on_give_up sys k _ (master ∷ [])
      by_name (some n) = on_return_pid master pid (some n) q

  on_after_fork :
      (modes : Modes) (wanted : Bool) (master : ℕ) (pid : Option ℕ)
      → V (some master)
      → K _ (after_fork pt modes wanted master pid)
  unfolding after_fork
  on_after_fork modes wanted master none q = on_give_up sys k _ (master ∷ [])
  on_after_fork modes wanted master (some zero) q =
      then_call sys k _ _ refl
        (k.on_bind (k.on_perform _ _ refl) (on_in_child sys k pt modes wanted master))
  on_after_fork modes wanted master (some (suc pid)) q = on_in_parent wanted master (suc pid) q

  on_with_master :
      (modes : Modes) (wanted : Bool) (master : Option ℕ)
      → V master
      → K _ (with_master pt modes wanted master)
  unfolding with_master
  on_with_master modes wanted none q = on_give_up sys k _ []
  on_with_master modes wanted (some master) q = k.on_bind (k.on_perform _ _ refl) (λ granted.
      on_attempt sys k _ _ granted (
        k.on_bind (k.on_perform _ _ refl) (λ unlocked.
          on_attempt sys k _ _ unlocked
            (k.on_bind (k.on_perform _ _ refl) (λ pid. on_after_fork modes wanted master pid q)))))

  pub on_forkpty : (modes : Modes) (wanted : Bool) → K _ (forkpty pt (some modes) true wanted)
  unfolding forkpty
  on_forkpty modes wanted = k.on_bind (k.on_pure modes) (λ m. w.on_opened (on_with_master m wanted))

module _ {K : (A : Type 0) → Action A → Type 0} (sys : System) (k : Closed sys K)
    (on_exit : K (Unit {0}) (exit 1)) where
  on_after_exec : (fails : Bool) → K _ (after_exec fails)
  unfolding after_exec
  on_after_exec true = k.on_bind (k.on_gets _) (λ name. then_call sys k _ _ refl on_exit)
  on_after_exec false = k.on_pure tt

  on_run_call : (fails : Bool) (found : Option (Bytes × List Bytes)) → K _ (run_call fails found)
  unfolding run_call
  on_run_call fails none = k.on_crash
  on_run_call fails (some (path, arguments)) = then_call sys k _ _ refl (on_after_exec fails)

  pub on_exec_shell :
      (sucmd : Bytes) (fails : Bool) (shell : Bytes) (commands : Option Bytes)
      → K _ (exec_shell sucmd fails shell commands)
  unfolding exec_shell
  on_exec_shell sucmd fails shell commands = k.on_bind (k.on_gets _) (on_run_call fails)
