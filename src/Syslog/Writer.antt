-- ===== src/Syslog/Writer.antt =====
-- `write2syslog`: the buffered output is cut into lines at every CR. Its static variables are a
-- record that is passed on. `malloc` and `realloc` do not fail.
use Prim.Native.Nat.{bit_or}
use rootsh.Base.{
  ℕ, zero, suc, ◌+◌, Bool, true, false, ◌&&◌, Option, none, some, List, [], ◌∷◌, ◌++◌, ◌==◌,
  if◌then◌else◌, length, take, drop, drop_while,
}
use rootsh.Text.{Bytes, codes, c_string, memchr, padded}
use rootsh.Syslog.Strip.{VtState, normal, stripesc}

-- `rptr` with the `rptrLength` bytes behind it (`none` is the null pointer), `rflag == 1`,
-- `linecnt`, and the state of the escape filter.
pub record Writer : Type 0 where
  pub rptr : Option Bytes
  pub rflag : Bool
  pub linecnt : ℕ
  pub vtstate : VtState

abbrev pub initial : Writer
initial = record { rptr = none; rflag = false; linecnt = 0; vtstate = normal }

-- The arguments of a call besides the bytes.
pub record Options : Type 0 where
  pub use_linecnt : Bool
  pub facility : ℕ
  pub priority : ℕ

-- A call of syslog(3), its text formatted.
pub record Entry : Type 0 where
  pub level : ℕ
  pub text : Bytes

-- The calls of `syslog`, with the count of lines.
unfoldable pub log_line : Options → Writer → Bytes → Writer × Entry
log_line o w text =
    let level = bit_or o.facility o.priority in
    let next = w.linecnt + 1 in
    if o.use_linecnt
    then (
      record w { linecnt = if next == 101 then 0 else next },
      record { level = level; text = padded 3 w.linecnt ++ (codes ": " ++ text) },
    )
    else (w, record { level = level; text = text })

-- From the copy of the line into `eptr` to its `free`. `stripesc` and `%s` stop at the first NUL.
-- `none`: `stripesc` wrote past the buffer.
unfoldable pub send_line : Options → Writer → Bytes → Option (Writer × Entry)
unfolding log_line
send_line o w line =
    let (vtstate, buffer) = stripesc w.vtstate (c_string line) in
    elim buffer [
      | none ↦ none
      | some text ↦ some (log_line o (record w { rflag = true; vtstate = vtstate }) (c_string text))
    ]

-- Where the search goes on behind a CR, or that `lptr` is null, with `tptr`.
pub data Next : Type 0 where
  stop : Bytes → Next
  search : Bytes → Next

-- The branches at the end of the loop's body, on what is behind the CR.
unfoldable pub after_cr : Bytes → Next
after_cr [] = stop []
after_cr (c ∷ []) = if c == b'\n' then stop (c ∷ []) else search (c ∷ [])
after_cr (c ∷ d ∷ r) = if c == b'\n' then search (d ∷ r) else search (c ∷ d ∷ r)

-- The loop has ended with the lines sent and the bytes from `tptr` on.
pub data Scan : Type 0 where
  finished : Writer → List Entry → Bytes → Scan
  corrupted : Scan
  out_of_fuel : Scan

-- The rest of a turn of the loop once its line is sent.
unfoldable pub follow :
    (Writer → List Entry → Bytes → Scan) → List Entry → Option (Writer × Entry) → Next → Scan
follow again sent none next = corrupted
follow again sent (some (w, e)) (stop t) = finished w (sent ++ e ∷ []) t
follow again sent (some (w, e)) (search t) = again w (sent ++ e ∷ []) t

-- `while ((lptr != NULL) && (tptr < (rptr + rptrLength)))` with the search in front of it: every
-- turn takes a CR at least from the bytes at `tptr`.
unfoldable pub scan : ℕ → Options → Writer → List Entry → Bytes → Scan
unfolding follow
scan zero o w sent t = out_of_fuel
scan (suc fuel) o w sent t = elim (memchr t b'\r') [
  | none ↦ finished w sent t
  | some n ↦ follow (scan fuel o) sent (send_line o w (take n t)) (after_cr (drop (suc n) t))
]

pub data Written : Type 0 where
  written : Writer → List Entry → Written
  failed : Written

-- What is kept for the next call: `none` where nothing is left.
unfoldable pub keep : Bytes → Option Bytes
keep [] = none
keep (c ∷ cs) = some (c ∷ cs)

-- Behind the loop: empty lines are skipped, and the rest is kept.
unfoldable pub keep_rest : Scan → Written
unfolding keep
keep_rest (finished w sent t) =
    written (record w { rptr = keep (drop_while (λ c. c == b'\n') t) }) sent
keep_rest corrupted = failed
keep_rest out_of_fuel = failed

-- `rptr` with the new bytes behind what it held.
unfoldable pub joined : Option Bytes → Bytes → Bytes
joined none optr = optr
joined (some rest) optr = rest ++ optr

-- A newline behind the CR of the last call is skipped.
unfoldable pub skip_newline : Bool → Bytes → Bytes
skip_newline rflag [] = []
skip_newline rflag (c ∷ cs) = if rflag && c == b'\n' then cs else c ∷ cs

unfoldable pub write2syslog : Options → Writer → Option Bytes → Written
unfolding keep_rest joined skip_newline
write2syslog o w none = written w []
write2syslog o w (some []) = written w []
write2syslog o w (some (c ∷ cs)) =
    let buffer = joined w.rptr (skip_newline w.rflag (c ∷ cs)) in
    keep_rest (scan (length buffer + 1) o (record w { rflag = false }) [] buffer)
