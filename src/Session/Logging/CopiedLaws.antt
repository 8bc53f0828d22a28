-- ===== src/Session/Logging/CopiedLaws.antt =====
-- What `recoverfile` writes, and how often `forceopen` tries.
use mathlib.Core.List.{append_assoc}
use rootsh.Base.{
  ℕ, zero, suc, ◌≡◌, refl, Option, none, some, List, [], ◌∷◌, ◌++◌, ◌==◌, if◌then◌else◌, length,
  Bool-cases, ==_iff, inl, inr,
}
use rootsh.Text.{Bytes}
use rootsh.Session.Calls.{Call, print_error, read_from, write_to, System}
use rootsh.Session.State.{Session, Action, ◌>>=◌, ◌>>◌}
use rootsh.Session.Logging.Output.{check_count, copy_block, copy_loop}
use rootsh.Session.Blocks.{blocks_to}

abbrev pub block_of : Option Bytes → List Bytes
block_of none = []
block_of (some []) = []
block_of (some (c ∷ cs)) = (c ∷ cs) ∷ []

-- The blocks that were read from a descriptor, the last one first.
abbrev pub blocks_read : System → ℕ → List Call → List Bytes
blocks_read sys fd [] = []
blocks_read sys fd (read_from n ∷ calls) =
    if n == fd
    then block_of (sys.read calls fd) ++ blocks_read sys fd calls
    else blocks_read sys fd calls
blocks_read sys fd (other ∷ calls) = blocks_read sys fd calls

-- Between two histories the same blocks were read from one descriptor and written to the other.
pub record Copied (sys : System) (from to : ℕ) (before after : List Call) : Type 0 where
  pub blocks : List Bytes
  pub were_read : blocks_read sys from after ≡ blocks ++ blocks_read sys from before
  pub were_written : blocks_to to after ≡ blocks ++ blocks_to to before

module _ (sys : System) (from to : ℕ) where
  Copied-trans :
      {a b c : List Call} → Copied sys from to a b → Copied sys from to b c → Copied sys from to a c
  Copied-trans {a} p q = record {
    blocks = q.blocks ++ p.blocks;
    were_read =
        rw (append_assoc q.blocks p.blocks (blocks_read sys from a), ← p.were_read) (q.were_read);
    were_written =
        rw (append_assoc q.blocks p.blocks (blocks_to to a), ← p.were_written) (q.were_written);
  }

  Copied-refl : (a : List Call) → Copied sys from to a a
  Copied-refl a = record { blocks = []; were_read = refl; were_written = refl }

  Copied-print_error : (text : Bytes) (a : List Call) → Copied sys from to a (print_error text ∷ a)
  Copied-print_error text a = record { blocks = []; were_read = refl; were_written = refl }

  -- A read that gives nothing.
  Copied-nothing :
      (a : List Call) → block_of (sys.read a from) ≡ [] → Copied sys from to a (read_from from ∷ a)
  Copied-nothing a e = record {
    blocks = [];
    were_read = rw ((==_iff from from).1 refl, e) refl;
    were_written = refl;
  }

  Copied-block :
      (a : List Call) (c : ℕ) (cs : Bytes)
      → sys.read a from ≡ some (c ∷ cs)
      → Copied sys from to a (write_to to (c ∷ cs) ∷ read_from from ∷ a)
  Copied-block a c cs e = record {
    blocks = (c ∷ cs) ∷ [];
    were_read = rw ((==_iff from from).1 refl, e) refl;
    were_written = rw ((==_iff to to).1 refl) refl;
  }

  after_count :
      (size : ℕ) (count : Option ℕ) (again : Action (Unit {0})) (t : Session)
      → ((u : Session) → Copied sys from to u.calls (again u).1.calls)
      → Copied sys from to t.calls ((check_count size count >> again) t).1.calls
  unfolding check_count ◌>>=◌
  after_count size none again t k = Copied-trans (Copied-print_error _ t.calls) (k _)
  after_count size (some n) again t k = elim (Bool-cases (n == size)) [
    | inl whole ↦ simp whole (k t)
    | inr short ↦ simp short (Copied-trans (Copied-print_error _ t.calls) (k _))
  ]

  after_read :
      (again : Action (Unit {0})) (block : Option Bytes) (s : Session)
      → sys.read s.calls from ≡ block
      → ((u : Session) → Copied sys from to u.calls (again u).1.calls)
      → Copied sys from to s.calls
          (copy_block sys to again block (record s { calls = read_from from ∷ s.calls })).1.calls
  unfolding copy_block ◌>>=◌
  after_read again none s e k = Copied-nothing s.calls (rw e refl)
  after_read again (some []) s e k = Copied-nothing s.calls (rw e refl)
  after_read again (some (c ∷ cs)) s e k =
      Copied-trans (Copied-block s.calls c cs e)
        (after_count (suc (length cs)) (sys.write (read_from from ∷ s.calls) to (c ∷ cs)) again _ k)

  -- At whatever turn the copying loop stops, the blocks that it has read from the log are those that
  -- it has handed to `write` on the new file, in their order; also where a write fails.
  pub copy_loop-Copied :
      (fuel : ℕ) (s : Session) → Copied sys from to s.calls (copy_loop sys fuel from to s).1.calls
  unfolding copy_loop ◌>>=◌
  copy_loop-Copied zero s = Copied-refl s.calls
  copy_loop-Copied (suc fuel) s =
      after_read (copy_loop sys fuel from to) (sys.read s.calls from) s refl (copy_loop-Copied fuel)
