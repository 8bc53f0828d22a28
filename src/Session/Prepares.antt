-- ===== src/Session/Prepares.antt =====
-- `setupusername`, `setupusermode` and `setupshell` keep a predicate that no message on stderr and
-- no change of the variables set there takes away, and no fuel runs out in them.
use rootsh.Base.{◌≢◌, refl, Bool, true, false, Option, none, some, ◌∷◌, ltb, if◌then◌else◌, length}
use rootsh.Text.{Bytes, codes}
use rootsh.Session.Calls.{print_error}
use rootsh.Session.State.{Session, Outcome, returned, exited, crashed, unfinished}
use rootsh.Session.Completes.{Completes, completes}
use rootsh.Session.Environment.{Environ, getenv}
use rootsh.Session.Setup.{
  Accounts, setupusername, effective_name, ask_terminal, owner_name, default_shell, is_listed,
  is_self, replace_shell, check_shell, entry_of_user, shell_of_user, setupshell, clean_environment,
  become_user, setupusermode,
}
use rootsh.Session.Main.{lifted, with_environment}

pub record Prepares (P : Session → Type 0) : Type 0 where
  pub on_message :
      (text : Bytes) (s : Session) → P s → P (record s { calls = print_error text ∷ s.calls })
  pub on_login :
      (s : Session) → P s → P (record s { use_login_shell = true; isa_login_shell = true })
  pub on_user : (name : Bytes) (s : Session) → P s → P (record s { user_name = name })
  pub on_id : (id : Bytes) (s : Session) → P s → P (record s { session_id = id })
  pub on_alone : (b : Bool) (s : Session) → P s → P (record s { standalone = b })

module _ {X : Type 0} (Q : X → Type 0) where
  by_if : (b : Bool) {x y : X} → Q x → Q y → Q (if b then x else y)
  by_if true h k = h
  by_if false h k = k

  by_option :
      {A : Type 0} (o : Option A) {x : X} {f : A → X}
      → Q x
      → ((a : A) → Q (f a))
      → Q (elim o [ none ↦ x | some a ↦ f a ])
  by_option none h k = h
  by_option (some a) h k = k a

with_environment-ends :
    {A : Type 0} (env : Environ) (r : Outcome A)
    → r ≢ unfinished
    → with_environment env r ≢ unfinished
with_environment-ends env (returned a) h e = cc
with_environment-ends env (exited n) h e = cc
with_environment-ends env crashed h e = cc
with_environment-ends env unfinished h e = h refl

module _ {P : Session → Type 0} (p : Prepares P) (acc : Accounts) where
  -- The predicate holds, and no fuel ran out.
  abbrev Asked : Outcome (Option Bytes) × Session → Type 0
  Asked (r, s) = P s × (r ≢ unfinished)

  abbrev Done : (A : Type 0) → Outcome A × Environ × Session → Type 0
  Done A (r, env, s) = P s × (r ≢ unfinished)

  owner_name-kept : (entry : Option (Option Bytes)) (s : Session) → P s → Asked (owner_name entry s)
  unfolding owner_name
  owner_name-kept none s h = (h, λ e. cc)
  owner_name-kept (some none) s h = (p.on_message _ s h, λ e. cc)
  owner_name-kept (some (some name)) s h = (h, λ e. cc)

  ask_terminal-kept : (s : Session) → P s → Asked (ask_terminal acc s)
  unfolding ask_terminal
  ask_terminal-kept s h =
      by_if Asked acc.has_terminal
        (by_option Asked acc.terminal_owner (h, λ e. cc)
          (λ uid. owner_name-kept (acc.entry_name uid) s h))
        (p.on_message _ s h, λ e. cc)

  effective_name-kept :
      (entry : Option (Option Bytes)) (s : Session) → P s → Asked (effective_name acc entry s)
  unfolding effective_name
  effective_name-kept none s h = (h, λ e. cc)
  effective_name-kept (some none) s h = ask_terminal-kept s h
  effective_name-kept (some (some name)) s h = (h, λ e. cc)

  pub setupusername-Completes : Completes P (setupusername acc)
  unfolding setupusername
  setupusername-Completes = completes _ (effective_name-kept (acc.entry_name acc.effective_uid))

  lifted-Completes :
      {A : Type 0} (m : Environ → Session → Outcome A × Environ × Session) (env : Environ)
      → ((s : Session) → P s → Done A (m env s))
      → Completes P (lifted m env)
  lifted-Completes m env run =
      completes _ (λ s h. ((run s h).0, with_environment-ends _ _ (run s h).1))

  replace_shell-kept :
      (shell : Option Bytes) (env : Environ) (s : Session)
      → P s
      → Done (Option Bytes) (replace_shell shell env s)
  unfolding replace_shell
  replace_shell-kept none env s h = (h, λ e. cc)
  replace_shell-kept (some shell) env s h = (p.on_login s h, λ e. cc)

  check_shell-kept :
      (shell : Bytes) (env : Environ) (s : Session)
      → P s
      → Done (Option Bytes) (check_shell acc shell env s)
  unfolding check_shell
  check_shell-kept shell env s h =
      by_if (Done (Option Bytes)) (is_listed shell acc.shells)
        (by_if (Done (Option Bytes)) (is_self s.prog_name shell)
          (replace_shell-kept (default_shell s) env s h) (h, λ e. cc))
        (p.on_message _ s h, λ e. cc)

  entry_of_user-kept :
      (entry : Option (Option Bytes)) (env : Environ) (s : Session)
      → P s
      → Done (Option Bytes) (entry_of_user acc entry env s)
  unfolding entry_of_user
  entry_of_user-kept none env s h = (h, λ e. cc)
  entry_of_user-kept (some none) env s h = (p.on_message _ s h, λ e. cc)
  entry_of_user-kept (some (some shell)) env s h = check_shell-kept shell env s h

  shell_of_user-kept :
      (shell : Option Bytes) (env : Environ) (s : Session)
      → P s
      → Done (Option Bytes) (shell_of_user acc shell env s)
  unfolding shell_of_user
  shell_of_user-kept (some shell) env s h = check_shell-kept shell env s h
  shell_of_user-kept none env s h = entry_of_user-kept (acc.entry_shell s.user_name) env s h

  pub setupshell-Completes : (env : Environ) → Completes P (lifted (setupshell acc) env)
  unfolding setupshell
  setupshell-Completes env =
      lifted-Completes (setupshell acc) env
        (shell_of_user-kept (getenv env.entries (codes "SHELL")) env)

  become_user-kept :
      (user : Bytes) (env : Environ) (s : Session) → P s → Done Bool (become_user acc user env s)
  unfolding become_user
  become_user-kept user env s h =
      by_if (Done Bool) (ltb 64 (length user)) (p.on_message _ s h, λ e. cc)
        (by_option (Done Bool) (acc.entry_shell user) (p.on_message _ s h, λ e. cc)
          (λ entry.
            by_option (Done Bool) (clean_environment env) (h, λ e. cc) (λ cleaned. (h, λ e. cc))))

  pub setupusermode-Completes : (env : Environ) → Completes P (lifted (setupusermode acc) env)
  unfolding setupusermode
  setupusermode-Completes env = lifted-Completes (setupusermode acc) env (λ s h.
      by_option (Done Bool) s.run_as_user (h, λ e. cc) (λ name. become_user-kept name env s h))
