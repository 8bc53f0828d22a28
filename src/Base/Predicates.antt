-- ===== src/Base/Predicates.antt =====
-- A Boolean test that holds of every element of a list.
use mathlib.Core.Path.{◌≡◌, refl}
use mathlib.Core.List.{List, [], ◌∷◌, ◌++◌}
use mathlib.Core.Bool.{Bool, true}
use rootsh.Base.Lists.{drop_while}

module _ {ℓ} {A : Type ℓ} where
  -- Computes to a product, which the tactics read and build.
  abbrev pub All : (A → Bool) → List A → Type 0
  All p [] = Unit
  All p (x ∷ xs) = (p x ≡ true) × All p xs

  pub All-append : (p : A → Bool) (xs ys : List A) → All p xs → All p ys → All p (xs ++ ys)
  All-append p [] ys hx hy = hy
  All-append p (x ∷ xs) ys hx hy = (hx.0, All-append p xs ys hx.1 hy)

  pub All-append_left : (p : A → Bool) (xs ys : List A) → All p (xs ++ ys) → All p xs
  All-append_left p [] ys h = tt
  All-append_left p (x ∷ xs) ys h = (h.0, All-append_left p xs ys h.1)

  pub All-append_right : (p : A → Bool) (xs ys : List A) → All p (xs ++ ys) → All p ys
  All-append_right p [] ys h = h
  All-append_right p (x ∷ xs) ys h = All-append_right p xs ys h.1

  pub drop_while-append_All :
      (p : A → Bool) (xs ys : List A) → All p xs → drop_while p (xs ++ ys) ≡ drop_while p ys
  drop_while-append_All p [] ys h = refl
  drop_while-append_All p (x ∷ xs) ys h = rw h.0 (drop_while-append_All p xs ys h.1)
