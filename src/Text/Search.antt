-- ===== src/Text/Search.antt =====
-- Comparing, searching and copying bytes: strcmp, strcasecmp, memchr and index, strncpy.
use Prim.Native.Char.{code}
use Prim.Native.String.{String}
use rootsh.Base.{
  ℕ, suc, ◌+◌, ◌≤◌, ◌<◌, ◌≡◌, ◌↔◌, inl, inr, refl, ap, Bool, true, false, not, ◌&&◌, Option, none,
  some, List, [], ◌∷◌, ◌++◌, map, arith, leb, ◌==◌, if◌then◌else◌, length, take, drop, All,
  Bool-cases, Option-cases,
}

abbrev pub Bytes : Type 0
Bytes = List ℕ

-- The bytes of a literal; every literal here is ASCII.
abbrev pub codes : String → Bytes
codes String.[] = []
codes (String.◌∷◌ c s) = code c ∷ codes s

-- `strcmp(s, t) == 0`: byte for byte up to the closing NUL of both.
unfoldable pub equal : Bytes → Bytes → Bool
equal [] [] = true
equal [] (d ∷ t) = false
equal (c ∷ s) [] = false
equal (c ∷ s) (d ∷ t) = if c == d then equal s t else false

pub equal_iff : (s t : Bytes) → (equal s t ≡ true) ↔ (s ≡ t)
unfolding equal
equal_iff [] t = ground arith
equal_iff (c ∷ s) [] = ground arith
equal_iff (c ∷ s) (d ∷ t) = ground (arith, equal_iff s t)

abbrev to_lower : ℕ → ℕ
to_lower c = if leb b'A' c && leb c b'Z' then c + 32 else c

-- `strcasecmp(a, b) == 0`
unfoldable pub equal_caseless : Bytes → Bytes → Bool
unfolding equal
equal_caseless a b = equal (map to_lower a) (map to_lower b)

-- The bytes before the first NUL: what a buffer holds as a C string.
unfoldable pub c_string : Bytes → Bytes
c_string [] = []
c_string (c ∷ cs) = if c == 0 then [] else c ∷ c_string cs

abbrev pub is_other : ℕ → ℕ → Bool
is_other c d = not (c == d)

-- No NUL: the bytes are a C string.
abbrev pub IsText : Bytes → Type 0
IsText s = All (is_other 0) s

pub c_string-IsText : (s : Bytes) → IsText (c_string s)
unfolding c_string
c_string-IsText [] = tt
c_string-IsText (c ∷ s) = ground (arith, c_string-IsText s)

pub c_string_eq : (s : Bytes) → IsText s → c_string s ≡ s
unfolding c_string
c_string_eq [] h = refl
c_string_eq (c ∷ s) h = ground (arith, c_string_eq s h.1)

pub length-c_string-le : (s : Bytes) → length (c_string s) ≤ length s
unfolding c_string
length-c_string-le [] = omega arith
length-c_string-le (c ∷ s) = ground (arith, length-c_string-le s)

-- `memchr(buf, c, n) - buf` or `index(s, c) - s`; `none` is the null pointer.
unfoldable pub memchr : Bytes → ℕ → Option ℕ
memchr [] c = none
memchr (b ∷ bs) c =
    if b == c then some 0 else elim (memchr bs c) [ none ↦ none | some n ↦ some (suc n) ]

-- What `memchr` found: the byte, with none of its kind in front.
pub record Found (bs : Bytes) (c n : ℕ) : Type 0 where
  pub in_range : n < length bs
  pub splits : bs ≡ take n bs ++ (c ∷ drop (suc n) bs)
  pub first : All (is_other c) (take n bs)

Found-cons :
    (b : ℕ) (bs : Bytes) (c n : ℕ) → (b == c) ≡ false → Found bs c n → Found (b ∷ bs) c (suc n)
Found-cons b bs c n e f = record {
  in_range = omega (arith, f.in_range);
  splits = ap (◌∷◌ b) f.splits;
  first = (ground arith, f.first);
}

pub memchr-Found : (bs : Bytes) (c : ℕ) {n : ℕ} → memchr bs c ≡ some n → Found bs c n
unfolding memchr
memchr-Found [] c h = cc
memchr-Found (b ∷ bs) c {n} h = elim (Bool-cases (b == c)) [
  | inl e ↦
      let here : n ≡ 0 = ground arith in
      let same : b ≡ c = ground arith in
      rw here (record { in_range = omega arith; splits = ap (λ x. x ∷ bs) same; first = tt })
  | inr e ↦ elim (Option-cases (memchr bs c)) [
    | inl no_more ↦ cc (rw (e, no_more) at h)
    | inr (m, at_m) ↦
        let there : n ≡ suc m = ground arith in
        rw there (Found-cons b bs c m e (memchr-Found bs c at_m))
  ]
]

pub memchr-none : (bs : Bytes) (c : ℕ) → memchr bs c ≡ none → All (is_other c) bs
unfolding memchr
memchr-none [] c h = tt
memchr-none (b ∷ bs) c h = ground (arith, memchr-none bs c)

pub memchr-append :
    (xs ys : Bytes) (c : ℕ) → All (is_other c) xs → memchr (xs ++ (c ∷ ys)) c ≡ some (length xs)
unfolding memchr
memchr-append [] ys c h = ground arith
memchr-append (x ∷ xs) ys c h = ground (arith, memchr-append xs ys c h.1)

pub memchr-absent : (bs : Bytes) (c : ℕ) → All (is_other c) bs → memchr bs c ≡ none
unfolding memchr
memchr-absent [] c h = refl
memchr-absent (b ∷ bs) c h = ground (arith, memchr-absent bs c h.1)
