-- ===== src/Basename/Laws.antt =====
-- What `basename` returns, by the shape of the path.
use mathlib.Core.List.{append-nil}
use rootsh.Base.{
  ℕ, ◌≡◌, refl, ap, ◌∙◌, Bool, true, false, not, some, [], ◌∷◌, ◌++◌, ◌==◌, All, arith,
}
use rootsh.Text.{Bytes}
use rootsh.Basename.{
  slash_found, walk, cut_slashes, last_element, without_slashes, basename_of_copy, basename,
}

abbrev pub is_slash : ℕ → Bool
is_slash c = c == b'/'

abbrev pub is_name_byte : ℕ → Bool
is_name_byte c = not (c == b'/')

walk-append : (seen xs ys : Bytes) → walk seen (xs ++ ys) ≡ walk (walk seen xs) ys
unfolding walk
walk-append seen [] ys = refl
walk-append seen (x ∷ xs) ys = walk-append (x ∷ seen) xs ys

walk-cons :
    (c : ℕ) (seen path : Bytes) → (d : ℕ) × (rest : Bytes) × (walk (c ∷ seen) path ≡ d ∷ rest)
unfolding walk
walk-cons c seen [] = (c, seen, refl)
walk-cons c seen (x ∷ path) = walk-cons x (c ∷ seen) path

cut_slash :
    (s c : ℕ) (seen : Bytes)
    → is_slash s ≡ true
    → cut_slashes (s ∷ c ∷ seen) ≡ cut_slashes (c ∷ seen)
unfolding cut_slashes
cut_slash s c seen h = rw h

keep_byte :
    (c d : ℕ) (seen : Bytes) → is_name_byte c ≡ true → cut_slashes (c ∷ d ∷ seen) ≡ c ∷ d ∷ seen
unfolding cut_slashes
keep_byte c d seen h = let no : (c == b'/') ≡ false = ground arith in rw no

step_back :
    (x c : ℕ) (seen behind : Bytes)
    → is_name_byte x ≡ true
    → last_element behind (x ∷ c ∷ seen) ≡ last_element (x ∷ behind) (c ∷ seen)
unfolding last_element
step_back x c seen behind h = let no : (x == b'/') ≡ false = ground arith in rw no

-- Slashes at the end are cut.
cut_slashes-walk :
    (c : ℕ) (seen slashes : Bytes)
    → All is_slash slashes
    → cut_slashes (walk (c ∷ seen) slashes) ≡ cut_slashes (c ∷ seen)
unfolding walk
cut_slashes-walk c seen [] h = refl
cut_slashes-walk c seen (s ∷ slashes) h =
    cut_slashes-walk s (c ∷ seen) slashes h.1 ∙ cut_slash s c seen h.0

-- A name at the end is kept.
cut_slashes-name :
    (c d : ℕ) (seen name : Bytes)
    → is_name_byte c ≡ true
    → All is_name_byte name
    → cut_slashes (walk (c ∷ d ∷ seen) name) ≡ walk (c ∷ d ∷ seen) name
unfolding walk
cut_slashes-name c d seen [] e h = keep_byte c d seen e
cut_slashes-name c d seen (x ∷ name) e h = cut_slashes-name x c (d ∷ seen) name h.0 h.1

-- The way back over a name.
last_element-name :
    (c : ℕ) (seen name behind : Bytes)
    → All is_name_byte name
    → last_element behind (walk (c ∷ seen) name) ≡ last_element (name ++ behind) (c ∷ seen)
unfolding walk
last_element-name c seen [] behind h = refl
last_element-name c seen (x ∷ name) behind h =
    last_element-name x (c ∷ seen) name behind h.1 ∙ step_back x c seen (name ++ behind) h.0

-- The slashes behind a name are cut, where more than a slash stands before it.
cut_slashes-path :
    (d c : ℕ) (seen name slashes : Bytes)
    → is_name_byte c ≡ true
    → All is_name_byte name
    → All is_slash slashes
    → cut_slashes (walk (d ∷ seen) (c ∷ name ++ slashes)) ≡ walk (d ∷ seen) (c ∷ name)
unfolding walk
cut_slashes-path d c seen name slashes hc hn hs =
    let (e, rest, last) = walk-cons c (d ∷ seen) name in by_parts e rest last
  where
    by_parts :
        (e : ℕ) (rest : Bytes)
        → walk (c ∷ d ∷ seen) name ≡ e ∷ rest
        → cut_slashes (walk (d ∷ seen) (c ∷ name ++ slashes)) ≡ walk (d ∷ seen) (c ∷ name)
    by_parts e rest last =
        let kept : cut_slashes (e ∷ rest) ≡ e ∷ rest =
          rw last at (cut_slashes-name c d seen name hc hn) in
        rw (walk-append (c ∷ d ∷ seen) name slashes, last)
          (cut_slashes-walk e rest slashes hs ∙ kept)

without_slashes-walk :
    (c d : ℕ) (seen name : Bytes)
    → without_slashes (walk (c ∷ d ∷ seen) name) ≡ last_element [] (walk (c ∷ d ∷ seen) name)
unfolding without_slashes walk
without_slashes-walk c d seen [] = refl
without_slashes-walk c d seen (x ∷ name) = without_slashes-walk x c (d ∷ seen) name

slash_found-append : (dir rest : Bytes) (c : ℕ) → slash_found (dir ++ b'/' ∷ c ∷ rest) ≡ true
unfolding slash_found
slash_found-append [] rest c = refl
slash_found-append (d ∷ []) rest c = ground arith
slash_found-append (d ∷ e ∷ dir) rest c = rw (slash_found-append (e ∷ dir) rest c) (ground arith)

stop_at_slash : (behind seen : Bytes) (d : ℕ) → last_element behind (b'/' ∷ d ∷ seen) ≡ behind
unfolding last_element
stop_at_slash behind seen d = refl

basename_of_copy-slash :
    (path seen : Bytes)
    → slash_found path ≡ true
    → walk [] path ≡ seen
    → basename_of_copy path ≡ without_slashes (cut_slashes seen)
unfolding basename_of_copy
basename_of_copy-slash path seen found walked = rw (found, walked)

-- A name with a directory before it, and any slashes behind it.
copy-element :
    (d c : ℕ) (dir name slashes : Bytes)
    → is_name_byte c ≡ true
    → All is_name_byte name
    → All is_slash slashes
    → basename_of_copy (d ∷ dir ++ (b'/' ∷ c ∷ name ++ slashes)) ≡ c ∷ name
unfolding walk
copy-element d c dir name slashes hc hn hs =
    let (e, rest, front) = walk-cons d [] dir in by_parts e rest front
  where
    by_parts :
        (e : ℕ) (rest : Bytes)
        → walk (d ∷ []) dir ≡ e ∷ rest
        → basename_of_copy (d ∷ dir ++ (b'/' ∷ c ∷ name ++ slashes)) ≡ c ∷ name
    by_parts e rest front =
        let walked : walk (d ∷ []) (dir ++ (b'/' ∷ c ∷ name ++ slashes))
            ≡ walk (b'/' ∷ e ∷ rest) (c ∷ name ++ slashes) =
          walk-append (d ∷ []) dir (b'/' ∷ c ∷ name ++ slashes)
          ∙ ap (λ seen. walk (b'/' ∷ seen) (c ∷ name ++ slashes)) front in
        basename_of_copy-slash _ _ (slash_found-append (d ∷ dir) (name ++ slashes) c) walked
        ∙ ap without_slashes (cut_slashes-path b'/' c (e ∷ rest) name slashes hc hn hs)
        ∙ without_slashes-walk c b'/' (e ∷ rest) name
        ∙ last_element-name b'/' (e ∷ rest) (c ∷ name) [] (hc, hn)
        ∙ stop_at_slash (c ∷ name ++ []) rest e
        ∙ append-nil (c ∷ name)

-- The last element of a path with a directory before it, whatever slashes stand behind it.
pub basename-element :
    (d c : ℕ) (dir name slashes : Bytes)
    → is_name_byte c ≡ true
    → All is_name_byte name
    → All is_slash slashes
    → basename (some (d ∷ dir ++ (b'/' ∷ c ∷ name ++ slashes))) ≡ c ∷ name
unfolding basename
basename-element d c [] name slashes hc hn hs = copy-element d c [] name slashes hc hn hs
basename-element d c (e ∷ dir) name slashes hc hn hs =
    copy-element d c (e ∷ dir) name slashes hc hn hs

slash_found-name :
    (c : ℕ) (name : Bytes)
    → is_name_byte c ≡ true
    → All is_name_byte name
    → slash_found (c ∷ name ++ b'/' ∷ []) ≡ false
unfolding slash_found
slash_found-name c [] hc hn = ground arith
slash_found-name c (d ∷ name) hc hn = rw (slash_found-name d name hn.0 hn.1) (ground arith)

first_of_path : (behind : Bytes) (c : ℕ) → last_element behind (c ∷ []) ≡ c ∷ behind
unfolding last_element
first_of_path behind c = refl

-- The element of a path right under the root comes back with its slash, so that it is no name.
pub basename-under_root :
    (c : ℕ) (name : Bytes)
    → is_name_byte c ≡ true
    → All is_name_byte name
    → basename (some (b'/' ∷ c ∷ name)) ≡ b'/' ∷ c ∷ name
unfolding basename walk
basename-under_root c name hc hn =
    basename_of_copy-slash (b'/' ∷ c ∷ name) _ (slash_found-append [] name c) refl
    ∙ ap without_slashes (cut_slashes-name c b'/' [] name hc hn)
    ∙ without_slashes-walk c b'/' [] name
    ∙ last_element-name b'/' [] (c ∷ name) [] (hc, hn)
    ∙ first_of_path (c ∷ name ++ []) b'/'
    ∙ ap (λ path. b'/' ∷ path) (append-nil (c ∷ name))

-- A slash at the end of a path with no other slash stays, though it is not part of the name.
pub basename-trailing_slash :
    (c : ℕ) (name : Bytes)
    → is_name_byte c ≡ true
    → All is_name_byte name
    → basename (some (c ∷ name ++ b'/' ∷ [])) ≡ c ∷ name ++ b'/' ∷ []
unfolding basename basename_of_copy
basename-trailing_slash c [] hc hn = rw (slash_found-name c [] hc hn)
basename-trailing_slash c (d ∷ name) hc hn = rw (slash_found-name c (d ∷ name) hc hn)
