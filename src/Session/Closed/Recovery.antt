-- ===== src/Session/Closed/Recovery.antt =====
-- `forceopen` is in every closed class, and `recoverfile` where writing to the new file is.
use rootsh.Base.{ℕ, ◌≡◌, zero, suc, refl, List, [], ◌∷◌, length, Option, none, some, ◌==◌}
use rootsh.Text.{Bytes}
use rootsh.Session.Calls.{Call, System, write_to, Errno, eexist, eisdir}
use rootsh.Session.State.{Action, pure, perform, out_of_fuel}
use rootsh.Session.Logging.Output.{
  clear_path, retry, try_open, check_count, copy_block, copy_loop, recover_into, forceopen,
  read_log, recoverfile,
}
use rootsh.Session.Closed.{Closed, on_call, on_if, on_dologging}

module _ {K : (A : Type 0) → Action A → Type 0} (sys : System) (k : Closed sys K)
    (path : Bytes) where
  on_clear_path : (errno : Errno) → K _ (clear_path path errno)
  unfolding clear_path
  on_clear_path eexist = k.on_bind (on_call sys k _ refl) (λ _. k.on_pure _)
  on_clear_path eisdir = k.on_bind (on_call sys k _ refl) (λ _. k.on_pure _)
  on_clear_path Errno.eintr = k.on_pure _
  on_clear_path (Errno.other n) = k.on_pure _

  on_retry :
      (left : ℕ) (again : Action (Option ℕ)) (r : Option ℕ)
      → K _ again
      → K _ (retry sys path left again r)
  unfolding retry
  on_retry left again (some n) h = k.on_pure (some n)
  on_retry left again none h = on_if sys k {m = pure none} (left == 0) (k.on_pure none) (
      k.on_bind (k.on_gets _) (λ errno.
        k.on_bind (on_clear_path errno) (λ msgbuf. k.on_bind (on_dologging sys k msgbuf) (λ _. h))))

  pub on_try_open : (left : ℕ) → K _ (try_open sys path left)
  unfolding try_open
  on_try_open zero = k.on_pure none
  on_try_open (suc left) =
      k.on_bind (k.on_perform _ _ refl)
        (λ r. on_retry left (try_open sys path left) r (on_try_open left))

module _ {K : (A : Type 0) → Action A → Type 0} (sys : System) (k : Closed sys K) where
  on_check_count : (size : ℕ) (count : Option ℕ) → K _ (check_count size count)
  unfolding check_count
  on_check_count size none = on_call sys k _ refl
  on_check_count size (some n) = on_if sys k (n == size) (k.on_pure tt) (on_call sys k _ refl)

  module _ (to : ℕ)
      (on_write : (block : Bytes) (result : List Call → Option ℕ)
        → K _ (perform (write_to to block) result)) where
    on_copy_block :
        (again : Action (Unit {0})) (block : Option Bytes)
        → K _ again
        → K _ (copy_block sys to again block)
    unfolding copy_block
    on_copy_block again none h = k.on_pure tt
    on_copy_block again (some []) h = k.on_pure tt
    on_copy_block again (some (c ∷ cs)) h =
        k.on_bind (on_write (c ∷ cs) _)
          (λ count. k.on_bind (on_check_count (suc (length cs)) count) (λ _. h))

    pub on_copy_loop :
        K _ (out_of_fuel {A = Unit {0}})
        → (fuel from : ℕ) → K _ (read_log sys from)
        → K _ (copy_loop sys fuel from to)
    unfolding copy_loop
    on_copy_loop out zero from read = out
    on_copy_loop out (suc fuel) from read = k.on_bind read (λ block.
        on_copy_block (copy_loop sys fuel from to) block (on_copy_loop out fuel from read))

  -- On the descriptor that `forceopen` gave.
  pub on_recover_into :
      (fuel from : ℕ) (r : Option ℕ)
      → ((to : ℕ) → r ≡ some to → K _ (copy_loop sys fuel from to))
      → K _ (recover_into sys fuel from r)
  unfolding recover_into
  on_recover_into fuel from none h = k.on_pure _
  on_recover_into fuel from (some to) h =
      k.on_bind (on_call sys k _ refl)
        (λ _. k.on_bind (h to refl) (λ _. k.on_bind (on_call sys k _ refl) (λ _. k.on_pure _)))

  -- Where reading, writing and running out of fuel are in the class at all.
  pub on_recoverfile :
      ((from : ℕ) → K _ (read_log sys from))
      → ((to : ℕ) (block : Bytes) (result : List Call → Option ℕ)
          → K _ (perform (write_to to block) result))
      → K _ (out_of_fuel {A = Unit {0}})
      → (fuel from : ℕ) (path : Bytes) → K _ (recoverfile sys fuel from path)
  unfolding recoverfile forceopen
  on_recoverfile reads writes out fuel from path = k.on_bind (on_try_open sys k path 3) (λ r.
      on_recover_into fuel from r (λ to _. on_copy_loop to (writes to) out fuel from (reads from)))
