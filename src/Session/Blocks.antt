-- ===== src/Session/Blocks.antt =====
-- The blocks written to a descriptor.
use rootsh.Base.{ℕ, ◌≡◌, refl, ◌==◌, if◌then◌else◌, false, List, [], ◌∷◌, Bool-cases, inl, inr}
use rootsh.Text.{Bytes}
use rootsh.Syslog.Writer.{Entry}
use rootsh.Session.Calls.{Call, write_to}
use rootsh.Session.State.{push_entries}
use rootsh.Session.Closed.{is_write}

-- The blocks written to a file descriptor, the last one first.
abbrev pub blocks_to : ℕ → List Call → List Bytes
blocks_to fd [] = []
blocks_to fd (write_to n block ∷ calls) =
    if n == fd then block ∷ blocks_to fd calls else blocks_to fd calls
blocks_to fd (other ∷ calls) = blocks_to fd calls

pub blocks_to-other :
    (fd : ℕ) (c : Call) (calls : List Call)
    → is_write c ≡ false
    → blocks_to fd (c ∷ calls) ≡ blocks_to fd calls
blocks_to-other fd (write_to n block) calls h = cc
blocks_to-other fd other calls h = refl

pub blocks_to-push_entries :
    (fd : ℕ) (es : List Entry) (calls : List Call)
    → blocks_to fd (push_entries es calls) ≡ blocks_to fd calls
blocks_to-push_entries fd [] calls = refl
blocks_to-push_entries fd (e ∷ es) calls = blocks_to-push_entries fd es _

-- Nothing shown, nothing shown before.
pub blocks_to-tail :
    (c : Call) (calls : List Call) → blocks_to 1 (c ∷ calls) ≡ [] → blocks_to 1 calls ≡ []
blocks_to-tail (write_to n block) calls h = elim (Bool-cases (n == 1)) [
  | inl shown ↦ cc (rw shown at h)
  | inr other ↦ rw other at h
]
blocks_to-tail other calls h = h
