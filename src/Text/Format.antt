-- ===== src/Text/Format.antt =====
-- The conversions `%d` and `%0Nd` of printf for numbers from 0 on.
use rootsh.Base.{ℕ, zero, suc, ◌+◌, ◌-◌, ◌/◌, ◌%◌, List, [], ◌∷◌, ltb, if◌then◌else◌, length}

-- The decimal digits in front of `done`; a number has no more digits than one more than itself.
digits_onto : ℕ → ℕ → List ℕ → List ℕ
digits_onto zero n done = done
digits_onto (suc fuel) n done =
    let rest = digits_onto fuel (n / 10) ((b'0' + n % 10) ∷ done) in
    if ltb n 10 then (b'0' + n) ∷ done else rest

unfoldable pub decimal : ℕ → List ℕ
unfolding digits_onto
decimal n = digits_onto (suc n) n []

zeros_onto : ℕ → List ℕ → List ℕ
zeros_onto zero s = s
zeros_onto (suc n) s = b'0' ∷ zeros_onto n s

-- `%0Nd`
unfoldable pub padded : ℕ → ℕ → List ℕ
unfolding decimal zeros_onto
padded width n = let s = decimal n in zeros_onto (width - length s) s
