-- ===== src/Text/Copy.antt =====
-- `strncpy` into a buffer whose bytes are known.
use rootsh.Base.{
  ℕ, zero, suc, ◌-◌, ◌≡◌, Option, none, some, ◌∷◌, [], ◌++◌, leb, le→leb, if◌then◌else◌, length,
  take, drop, arith,
}
use rootsh.Text.Search.{Bytes}

zeros : ℕ → Bytes
zeros zero = []
zeros (suc n) = 0 ∷ zeros n

-- `strncpy(buffer, source, n)` on a buffer of known bytes: `n` bytes are
-- written, padded with NULs, and the rest stays. `none`: it writes past the buffer.
unfoldable pub strncpy : Bytes → Bytes → ℕ → Option Bytes
unfolding zeros
strncpy buffer source n =
    if leb n (length buffer)
    then some (take n source ++ (zeros (n - length source) ++ drop n buffer))
    else none

-- A copy of no bytes leaves the buffer.
pub strncpy_zero : (buffer source : Bytes) → strncpy buffer source 0 ≡ some buffer
unfolding strncpy
strncpy_zero buffer source =
    let none_left : 0 - length source ≡ 0 = omega arith in
    rw (le→leb 0 (length buffer) (omega arith), none_left)
