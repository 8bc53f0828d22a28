-- ===== src/Config/Trim.antt =====
-- `isWhitespace` and `trimWhitespace`. The two pointers are a suffix of the string: `begin` is where
-- it starts, `end` its last byte. `malloc` does not fail.
use rootsh.Base.{
  ℕ, Bool, ◌||◌, Option, none, some, [], ◌∷◌, reverse, ◌==◌, if◌then◌else◌, drop_while,
}
use rootsh.Text.{Bytes}

unfoldable pub is_whitespace : ℕ → Bool
is_whitespace c =
    c == b' ' || c == b'\n' || c == b'\r' || c == b'\t' || c == 0x0c || c == 0x0b || c == 0

-- `while(isWhitespace(*begin) && begin != end) ++begin;`
unfoldable pub skip_front : Bytes → Bytes
unfolding is_whitespace
skip_front [] = []
skip_front (c ∷ []) = c ∷ []
skip_front (c ∷ d ∷ r) = if is_whitespace c then skip_front (d ∷ r) else c ∷ d ∷ r

-- `while(isWhitespace(*end)) --end;` and the copy of what lies between the pointers.
unfoldable pub skip_back : Bytes → Bytes
unfolding is_whitespace
skip_back s = reverse (drop_while is_whitespace (reverse s))

-- Behind the first loop: `begin == end` returns the empty string.
unfoldable pub copy_between : Bytes → Bytes
unfolding skip_back
copy_between (c ∷ d ∷ r) = skip_back (c ∷ d ∷ r)
copy_between _ = []

-- `none` is the null pointer.
unfoldable pub trim_whitespace : Bytes → Option Bytes
unfolding skip_front copy_between
trim_whitespace [] = none
trim_whitespace (c ∷ cs) = some (copy_between (skip_front (c ∷ cs)))
