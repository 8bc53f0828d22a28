-- ===== src/Basename.antt =====
-- src/basename.c: the last element of a path. `strdup` does not fail.
use rootsh.Base.{ℕ, Bool, true, false, ◌||◌, Option, none, some, List, [], ◌∷◌, ◌==◌, if◌then◌else◌}
use rootsh.Text.{Bytes, codes}
pub mod Laws
mod Tests

-- `while(*(ptr + 1) != '\0')`: a slash before the last byte.
unfoldable pub slash_found : Bytes → Bool
slash_found [] = false
slash_found (c ∷ []) = false
slash_found (c ∷ d ∷ path) = c == b'/' || slash_found (d ∷ path)

-- The bytes from `ptr` back to `newpath`, behind the loop above: the last byte of the path first.
unfoldable pub walk : Bytes → Bytes → Bytes
walk seen [] = seen
walk seen (c ∷ path) = walk (c ∷ seen) path

-- `while ((*ptr == '/') && (ptr > newpath))`
unfoldable pub cut_slashes : Bytes → Bytes
cut_slashes [] = []
cut_slashes (c ∷ []) = c ∷ []
cut_slashes (c ∷ d ∷ seen) =
    let rest = cut_slashes (d ∷ seen) in if c == b'/' then rest else c ∷ d ∷ seen

-- `while (ptr > newpath)`, with the bytes behind `ptr`; the first byte of the path is not looked at.
unfoldable pub last_element : Bytes → Bytes → Bytes
last_element behind [] = behind
last_element behind (c ∷ []) = c ∷ behind
last_element behind (c ∷ d ∷ seen) =
    let rest = last_element (c ∷ behind) (d ∷ seen) in if c == b'/' then behind else rest

-- `if ((ptr == newpath) && (*ptr == '/'))`, and the rest.
unfoldable pub without_slashes : Bytes → Bytes
unfolding last_element
without_slashes (c ∷ []) = if c == b'/' then c ∷ [] else last_element [] (c ∷ [])
without_slashes seen = last_element [] seen

unfoldable pub basename_of_copy : Bytes → Bytes
unfolding slash_found walk cut_slashes without_slashes
basename_of_copy path =
    if slash_found path then without_slashes (cut_slashes (walk [] path)) else path

-- `none` is the null pointer.
unfoldable pub basename : Option Bytes → Bytes
unfolding basename_of_copy
basename none = codes "."
basename (some []) = codes "."
basename (some (c ∷ [])) = if c == b'/' then codes "/" else basename_of_copy (c ∷ [])
basename (some (c ∷ d ∷ path)) = basename_of_copy (c ∷ d ∷ path)
