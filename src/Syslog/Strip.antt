-- ===== src/Syslog/Strip.antt =====
-- `stripesc`: the state machine that drops escape sequences, and the copy back into its argument.
use Prim.Native.Nat.{bit_and}
use rootsh.Base.{
  ℕ, zero, suc, ◌+◌, ◌-◌, ◌^◌, Bool, ◌&&◌, ◌||◌, Option, none, some, [], ◌∷◌, ◌++◌, ltb, leb, ◌==◌,
  if◌then◌else◌, length,
}
use rootsh.Text.{Bytes, strncpy}

-- `vtstate`
pub data VtState : Type 0 where
  normal esc csi dcs dcs_string osc osc_string drop_one dec_set : VtState

-- The state and what was appended to `cleanBuffer`.
abbrev pub Stripped : Type 0
Stripped = VtState × Bytes

-- `(chr & 0x6F) < 0x20`
unfoldable pub is_control : ℕ → Bool
is_control chr = ltb (bit_and chr 0x6F) 0x20

-- `switch (chr)` for a control character.
unfoldable pub strip_control : VtState → ℕ → Stripped
strip_control vtstate chr =
    if chr == 0x07
    then elim vtstate [ osc_string ↦ (normal, []) | other ↦ (other, chr ∷ []) ]
    else if chr == 0x08 || chr == 0x09 || chr == 0x0A || chr == 0x0B || chr == 0x0C || chr == 0x0D
    then (vtstate, chr ∷ [])
    else (vtstate, [])

-- The characters after ESC that take one more character with them.
abbrev takes_one : ℕ → Bool
takes_one chr =
    chr == b'#' || chr == b' ' || chr == b'(' || chr == b')' || chr == b'*' || chr == b'+'

abbrev is_final : ℕ → Bool
is_final chr = leb 0x40 chr && leb chr 0x7E

-- `switch (vtstate)` for any other character.
unfoldable pub strip_text : VtState → ℕ → Stripped
strip_text normal chr = (normal, chr ∷ [])
strip_text esc chr = (if takes_one chr then drop_one else normal, [])
strip_text csi chr = (if is_final chr then normal else csi, [])
strip_text dcs chr = (if is_final chr then dcs_string else dcs, [])
strip_text osc chr = (if is_final chr then osc_string else osc, [])
strip_text dec_set chr = (if chr == 0x68 then normal else dec_set, [])
strip_text dcs_string chr = (dcs_string, [])
strip_text osc_string chr = (osc_string, [])
strip_text drop_one chr = (drop_one, [])

-- `switch (chr)`
unfoldable pub strip_switch : VtState → ℕ → Stripped
unfolding is_control strip_control strip_text
strip_switch vtstate chr =
    if chr == 0x18 || chr == 0x1A
    then (normal, [])
    else if chr == 0x1B
    then (esc, [])
    else if chr == 0x9B
    then (csi, [])
    else if chr == 0x90 || chr == 0x9E || chr == 0x9F
    then (dcs, [])
    else if chr == 0x9D
    then (osc, [])
    else if is_control chr
    then strip_control vtstate chr
    else strip_text vtstate chr

-- The body of the loop for a character from 1 to 255.
unfoldable pub strip_byte : VtState → ℕ → Stripped
unfolding strip_switch
strip_byte drop_one chr = (normal, [])
strip_byte esc chr =
    if leb 0x40 chr && leb chr 0x5F then strip_switch normal (chr + 0x40) else strip_switch esc chr
strip_byte vtstate chr = strip_switch vtstate chr

-- What the loop leaves: `buflen` is -1 (`none`) where `buflen-- > 0` has failed.
pub record Loop : Type 0 where
  pub vtstate : VtState
  pub clean : Bytes
  pub buflen : Option ℕ

-- `while ((chr = *escBufferPtr++) && (buflen-- > 0))`. The end of the list is the NUL, where
-- `buflen` is not counted down.
unfoldable pub strip_loop : VtState → Bytes → ℕ → Bytes → Loop
unfolding strip_byte
strip_loop vtstate clean buflen [] = record {
  vtstate = vtstate;
  clean = clean;
  buflen = some buflen;
}
strip_loop vtstate clean zero (chr ∷ rest) = record {
  vtstate = vtstate;
  clean = clean;
  buflen = none;
}
strip_loop vtstate clean (suc buflen) (chr ∷ rest) =
    let (vtstate', out) = strip_byte vtstate chr in strip_loop vtstate' (clean ++ out) buflen rest

-- `(size_t) buflen`
abbrev size_of : Option ℕ → ℕ
size_of none = 2 ^ 64 - 1
size_of (some n) = n

-- `stripesc(escBuffer)`: the state of the machine after it, and the buffer's bytes.
unfoldable pub stripesc : VtState → Bytes → VtState × Option Bytes
unfolding strip_loop strncpy
stripesc vtstate buffer =
    let end = strip_loop vtstate [] (length buffer) buffer in
    (end.vtstate, strncpy (buffer ++ 0 ∷ []) end.clean (size_of end.buflen))
