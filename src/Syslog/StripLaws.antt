-- ===== src/Syslog/StripLaws.antt =====
-- The escape filter: what reaches `cleanBuffer`, and what comes back to the caller.
use rootsh.Base.{
  ℕ, ◌+◌, ◌≡◌, refl, Bool, true, false, ◌&&◌, ◌||◌, some, [], ◌∷◌, ◌++◌, ltb, leb, length, All,
  All-append, arith, Bool-cases, inl, inr, holds_below, holds_below_at,
}
use rootsh.Text.{Bytes, strncpy_zero}
use rootsh.Syslog.Filtered.{filtered, strip_loop-filtered}
use rootsh.Syslog.Strip.{
  VtState, normal, esc, osc_string, drop_one, is_control, strip_control, strip_text, strip_switch,
  strip_byte, strip_loop, stripesc,
}

-- `stripesc` gives its argument back unchanged, from every state of the machine: the loop counts
-- `buflen` down to 0, so that `strncpy` copies nothing of the filtered text.
pub stripesc-unchanged :
    (vtstate : VtState) (buffer : Bytes) → (stripesc vtstate buffer).1 ≡ some (buffer ++ 0 ∷ [])
unfolding stripesc
stripesc-unchanged vtstate buffer = rw (strip_loop-filtered, strncpy_zero)

-- A byte of the input.
abbrev pub is_byte : ℕ → Bool
is_byte c = ltb c 0x100

-- The bytes from BEL to CR, those from the space to DEL, and those from 0xA0 on: no control
-- character of ECMA-48 but BEL, BS, TAB, LF, VT, FF and CR.
abbrev pub is_safe : ℕ → Bool
is_safe c = leb 0x07 c && leb c 0x0D || leb 0x20 c && leb c 0x7F || leb 0xA0 c && leb c 0xFF

text_table : holds_below (λ c. is_control c || is_safe c) 0x100 ≡ true
unfolding holds_below is_control
text_table = refl

text-is_safe : (c : ℕ) → is_byte c ≡ true → is_control c ≡ false → is_safe c ≡ true
text-is_safe c byte text =
    let found = holds_below_at _ 0x100 c (ground arith) text_table in ground (arith, found, text)

strip_switch-is_safe :
    (vtstate : VtState) (c : ℕ) → is_byte c ≡ true → All is_safe (strip_switch vtstate c).1
unfolding strip_switch strip_control strip_text
strip_switch-is_safe normal c byte = ground (arith, text-is_safe c byte)
strip_switch-is_safe osc_string c byte = ground arith
strip_switch-is_safe _ c byte = ground arith

strip_byte-is_safe :
    (vtstate : VtState) (c : ℕ) → is_byte c ≡ true → All is_safe (strip_byte vtstate c).1
unfolding strip_byte
strip_byte-is_safe drop_one c byte = tt
strip_byte-is_safe esc c byte = elim (Bool-cases (leb 0x40 c && leb c 0x5F)) [
  | inl second ↦ rw second (strip_switch-is_safe normal (c + 0x40) (ground arith))
  | inr other ↦ rw other (strip_switch-is_safe esc c byte)
]
strip_byte-is_safe other c byte = strip_switch-is_safe other c byte

filtered-is_safe :
    (vtstate : VtState) (s : Bytes) → All is_byte s → All is_safe (filtered vtstate s).1
unfolding filtered
filtered-is_safe vtstate [] bytes = tt
filtered-is_safe vtstate (c ∷ s) bytes =
    All-append is_safe (strip_byte vtstate c).1 (filtered (strip_byte vtstate c).0 s).1
      (strip_byte-is_safe vtstate c bytes.0) (filtered-is_safe (strip_byte vtstate c).0 s bytes.1)

-- Whatever the state and the bytes of the input, `cleanBuffer` holds no byte below 0x20 but BEL, BS,
-- TAB, LF, VT, FF and CR, and none from 0x80 to 0x9F, and the loop has counted `buflen` down to 0.
-- DEL, 0x7F, goes through.
pub strip_loop-is_safe :
    (vtstate : VtState) (s : Bytes)
    → All is_byte s
    → let end = strip_loop vtstate [] (length s) s in All is_safe end.clean × (end.buflen ≡ some 0)
strip_loop-is_safe vtstate s bytes = rw strip_loop-filtered (filtered-is_safe vtstate s bytes, refl)
