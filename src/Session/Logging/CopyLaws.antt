-- ===== src/Session/Logging/CopyLaws.antt =====
-- The copying loop of `recoverfile` ends.
use rootsh.Base.{
  ℕ, zero, suc, ◌+◌, ◌≤◌, ◌<◌, ◌≡◌, refl, ◌∙◌, ◌⊎◌, inl, inr, Option, none, some, List, [], ◌∷◌,
  ◌==◌, if◌then◌else◌, length, Bool-cases, ==_iff, leb, arith,
}
use rootsh.Text.{Bytes}
use rootsh.Session.Calls.{Call, read_from, System}
use rootsh.Session.State.{Session, Action, returned, ◌>>=◌, ◌>>◌}
use rootsh.Session.Logging.Output.{check_count, copy_block, copy_loop}

-- How often a descriptor was read from.
abbrev pub reads : ℕ → List Call → ℕ
reads fd [] = 0
reads fd (read_from n ∷ calls) = if n == fd then suc (reads fd calls) else reads fd calls
reads fd (other ∷ calls) = reads fd calls

-- After so many reads the descriptor gives no bytes any more: end of file, or an error.
abbrev pub EndsAfter : System → ℕ → ℕ → Type 0
EndsAfter sys fd n =
    (calls : List Call)
    → n ≤ reads fd calls
    → (sys.read calls fd ≡ none) ⊎ (sys.read calls fd ≡ some [])

reads-read_from :
    (fd : ℕ) (calls : List Call) → reads fd (read_from fd ∷ calls) ≡ suc (reads fd calls)
reads-read_from fd calls = rw ((==_iff fd fd).1 refl) refl

-- Where a read gave bytes, there were fewer reads.
EndsAfter-more :
    (sys : System) (fd n : ℕ) (calls : List Call) (c : ℕ) (cs : Bytes)
    → EndsAfter sys fd n
    → sys.read calls fd ≡ some (c ∷ cs)
    → reads fd calls < n
EndsAfter-more sys fd n calls c cs ends e = elim (Bool-cases (leb n (reads fd calls))) [
  | inl late ↦ elim (ends calls (ground arith)) [ inl failed ↦ cc | inr ended ↦ cc ]
  | inr early ↦ ground arith
]

module _ (sys : System) (from to : ℕ) where
  after_count :
      (size : ℕ) (count : Option ℕ) (again : Action (Unit {0})) (t : Session)
      → ((u : Session) → reads from u.calls ≡ reads from t.calls → (again u).0 ≡ returned tt)
      → ((check_count size count >> again) t).0 ≡ returned tt
  unfolding check_count ◌>>=◌
  after_count size none again t k = k _ refl
  after_count size (some n) again t k = elim (Bool-cases (n == size)) [
    | inl whole ↦ simp whole (k _ refl)
    | inr short ↦ simp short (k _ refl)
  ]

  copy_block-returned :
      (n : ℕ) (again : Action (Unit {0})) (block : Option Bytes) (s : Session)
      → EndsAfter sys from n
      → sys.read s.calls from ≡ block
      → ((u : Session)
          → reads from u.calls ≡ suc (reads from s.calls)
          → reads from s.calls < n
          → (again u).0 ≡ returned tt)
      → (copy_block sys to again block (record s { calls = read_from from ∷ s.calls })).0
        ≡ returned tt
  unfolding copy_block ◌>>=◌
  copy_block-returned n again none s ends e k = refl
  copy_block-returned n again (some []) s ends e k = refl
  copy_block-returned n again (some (c ∷ cs)) s ends e k =
      after_count (suc (length cs)) (sys.write (read_from from ∷ s.calls) to (c ∷ cs)) again _
        (λ u same.
          k u (same ∙ reads-read_from from s.calls) (EndsAfter-more sys from n s.calls c cs ends e))

  -- Where reading from the log ends after `n` reads, fuel for the reads that are left and one more
  -- is enough: the copying loop returns, whatever the writes do.
  pub copy_loop-returned :
      (n fuel : ℕ) (s : Session)
      → EndsAfter sys from n
      → 0 < fuel
      → n < reads from s.calls + fuel
      → (copy_loop sys fuel from to s).0 ≡ returned tt
  unfolding copy_loop ◌>>=◌
  copy_loop-returned n zero s ends some_fuel enough = absurd (omega arith)
  copy_loop-returned n (suc fuel) s ends some_fuel enough =
      copy_block-returned n (copy_loop sys fuel from to) (sys.read s.calls from) s ends refl
        (λ u once more.
          copy_loop-returned n fuel u ends (omega (arith, once, more, enough))
            (omega (arith, once, more, enough)))
