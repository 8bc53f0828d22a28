-- ===== src/Config/TrimLaws.antt =====
-- What `trimWhitespace` returns, for each shape of its argument.
use mathlib.Core.List.{reverse-append, reverse-reverse}
use rootsh.Base.{
  ℕ, ◌≤◌, ◌≡◌, refl, ap, ◌∙◌, Bool, false, some, [], ◌∷◌, ◌++◌, reverse, drop_while, All,
  All-append, drop_while-append_All, length, length-append, arith,
}
use rootsh.Text.{Bytes}
use rootsh.Config.Trim.{is_whitespace, skip_front, skip_back, copy_between, trim_whitespace}

abbrev pub AllBlank : Bytes → Type 0
AllBlank s = All is_whitespace s

All-reverse : (p : ℕ → Bool) (s : Bytes) → All p s → All p (reverse s)
All-reverse p [] h = tt
All-reverse p (c ∷ s) h =
    rw (reverse-append (c ∷ []) s)
      (All-append p (reverse s) (c ∷ []) (All-reverse p s h.1) (h.0, tt))

-- The core of a string: its first and its last byte are no whitespace.
pub record IsCore (s : Bytes) : Type 0 where
  pub first : ℕ
  pub rest : Bytes
  pub front : Bytes
  pub last : ℕ
  pub begins : s ≡ first ∷ rest
  pub ends : s ≡ front ++ last ∷ []
  pub first_kept : is_whitespace first ≡ false
  pub last_kept : is_whitespace last ≡ false

reverse-core :
    (core front : Bytes) (last : ℕ)
    → core ≡ front ++ last ∷ []
    → reverse core ≡ last ∷ reverse front
reverse-core core front last e = rw e (reverse-append front (last ∷ []))

drop_while-core :
    (core : Bytes) → IsCore core → drop_while is_whitespace (reverse core) ≡ reverse core
drop_while-core core c = rw (reverse-core core c.front c.last c.ends) (rw c.last_kept refl)

skip_back-append :
    (core trail : Bytes) → IsCore core → AllBlank trail → skip_back (core ++ trail) ≡ core
unfolding skip_back
skip_back-append core trail c h =
    rw
      (
        reverse-append core trail,
        drop_while-append_All is_whitespace (reverse trail) (reverse core)
            (All-reverse is_whitespace trail h),
        drop_while-core core c,
      )
      (reverse-reverse core)

skip_front-append :
    (lead : Bytes) (x : ℕ) (y : ℕ) (r : Bytes)
    → AllBlank lead
    → is_whitespace x ≡ false
    → skip_front (lead ++ x ∷ y ∷ r) ≡ x ∷ y ∷ r
unfolding skip_front
skip_front-append [] x y r h e = rw e
skip_front-append (b ∷ []) x y r h e = rw h.0 (skip_front-append [] x y r tt e)
skip_front-append (b ∷ c ∷ lead) x y r h e = rw h.0 (skip_front-append (c ∷ lead) x y r h.1 e)

skip_front-last : (lead : Bytes) (c : ℕ) → AllBlank lead → skip_front (lead ++ c ∷ []) ≡ c ∷ []
unfolding skip_front
skip_front-last [] c h = refl
skip_front-last (b ∷ []) c h = rw h.0
skip_front-last (b ∷ d ∷ lead) c h = rw h.0 (skip_front-last (d ∷ lead) c h.1)

trim-nonempty :
    (lead : Bytes) (x : ℕ) (r : Bytes)
    → trim_whitespace (lead ++ x ∷ r) ≡ some (copy_between (skip_front (lead ++ x ∷ r)))
unfolding trim_whitespace
trim-nonempty [] x r = refl
trim-nonempty (b ∷ lead) x r = refl

trim-skip_back :
    (lead s r : Bytes) (x : ℕ)
    → AllBlank lead
    → s ≡ x ∷ r
    → is_whitespace x ≡ false
    → 2 ≤ length s
    → trim_whitespace (lead ++ s) ≡ some (skip_back s)
unfolding copy_between
trim-skip_back lead [] r x h e w l = absurd (omega arith)
trim-skip_back lead (a ∷ []) r x h e w l = absurd (omega arith)
trim-skip_back lead (a ∷ b ∷ s) r x h e w l =
    let head : a ≡ x = cc in
    let same : is_whitespace a ≡ false = rw head w in
    trim-nonempty lead a (b ∷ s)
    ∙ ap (λ t. some (copy_between t)) (skip_front-append lead a b s h same)

-- A string whose first and last bytes besides surrounding whitespace are `core` is trimmed to
-- `core`, if `core` and the whitespace behind it have two bytes or more.
pub trim_whitespace-core :
    (lead core trail : Bytes)
    → AllBlank lead
    → IsCore core
    → AllBlank trail
    → 2 ≤ length (core ++ trail)
    → trim_whitespace (lead ++ (core ++ trail)) ≡ some core
trim_whitespace-core lead core trail h c k l =
    trim-skip_back lead (core ++ trail) (c.rest ++ trail) c.first h (ap (λ t. t ++ trail) c.begins)
      c.first_kept l
    ∙ ap some (skip_back-append core trail c k)

-- A string that is whitespace up to its last byte is trimmed to the empty string, whatever the last
-- byte is: also where that byte is no whitespace.
pub trim_whitespace-last_byte :
    (lead : Bytes) (c : ℕ) → AllBlank lead → trim_whitespace (lead ++ c ∷ []) ≡ some []
unfolding copy_between
trim_whitespace-last_byte lead c h =
    trim-nonempty lead c [] ∙ ap (λ t. some (copy_between t)) (skip_front-last lead c h)

length-reverse : (s : Bytes) → length (reverse s) ≡ length s
length-reverse [] = refl
length-reverse (c ∷ s) = omega (
  arith,
  ap length (reverse-append (c ∷ []) s),
  length-append (reverse s) (c ∷ []),
  length-reverse s,
)

length-drop_while-le : (p : ℕ → Bool) (s : Bytes) → length (drop_while p s) ≤ length s
length-drop_while-le p [] = omega arith
length-drop_while-le p (c ∷ s) = ground (arith, length-drop_while-le p s)

length-skip_front-le : (s : Bytes) → length (skip_front s) ≤ length s
unfolding skip_front
length-skip_front-le [] = omega arith
length-skip_front-le (c ∷ []) = omega arith
length-skip_front-le (c ∷ d ∷ r) = ground (arith, length-skip_front-le (d ∷ r))

length-copy_between-le : (s : Bytes) → length (copy_between s) ≤ length s
unfolding copy_between
length-copy_between-le (c ∷ d ∷ r) = omega (
  arith,
  length-reverse (drop_while is_whitespace (reverse (c ∷ d ∷ r))),
  length-drop_while-le is_whitespace (reverse (c ∷ d ∷ r)),
  length-reverse (c ∷ d ∷ r),
)
length-copy_between-le [] = omega arith
length-copy_between-le (c ∷ []) = omega arith

-- Trimming does not lengthen a string.
pub length-trim_whitespace-le :
    (s : Bytes) {t : Bytes} → trim_whitespace s ≡ some t → length t ≤ length s
unfolding trim_whitespace
length-trim_whitespace-le [] h = cc
length-trim_whitespace-le (c ∷ s) {t} h =
    ground (arith, length-copy_between-le (skip_front (c ∷ s)), length-skip_front-le (c ∷ s))
