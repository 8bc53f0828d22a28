-- ===== src/Syslog/Filtered.antt =====
-- The escape filter without its buffer.
use mathlib.Core.List.{append_assoc, append-nil}
use rootsh.Base.{◌≡◌, some, [], ◌∷◌, ◌++◌, length}
use rootsh.Text.{Bytes}
use rootsh.Syslog.Strip.{VtState, strip_byte, Stripped, strip_loop}

-- The machine without its buffer: the last state, and all that is appended.
unfoldable pub filtered : VtState → Bytes → Stripped
filtered vtstate [] = (vtstate, [])
filtered vtstate (c ∷ s) =
    let (vtstate', out) = strip_byte vtstate c in
    let (last, later) = filtered vtstate' s in (last, out ++ later)

pub strip_loop-filtered :
    (vtstate : VtState) (clean s : Bytes)
    → strip_loop vtstate clean (length s) s ≡ record {
      vtstate = (filtered vtstate s).0;
      clean = clean ++ (filtered vtstate s).1;
      buflen = some 0;
    }
unfolding strip_loop filtered
strip_loop-filtered vtstate clean [] = rw append-nil
strip_loop-filtered vtstate clean (c ∷ s) =
    rw (← append_assoc)
      (strip_loop-filtered (strip_byte vtstate c).0 (clean ++ (strip_byte vtstate c).1) s)
