-- ===== src/Config/SplitLaws.antt =====
-- What `splitConfigLine` returns: the round trip, the sizes of the results, the crash.
use rootsh.Base.{
  ℕ, suc, ◌-◌, ◌≤◌, ◌<◌, ◌≡◌, ◌⊎◌, ◌↔◌, inl, inr, refl, ◌∙◌, Bool, true, Option, none, some, [],
  ◌∷◌, ◌++◌, All, All-append, length, take, drop, length-append, length-take, take_all,
  take-append_left, arith, Bool-cases, Option-cases, lt→leb_false,
}
use rootsh.Text.{Bytes, is_other, memchr, memchr-append}
use rootsh.Config.Trim.{is_whitespace, trim_whitespace}
use rootsh.Config.TrimLaws.{AllBlank, IsCore, trim_whitespace-core, length-trim_whitespace-le}
use rootsh.Config.Split.{crashed, split, is_config_line, copy_trimmed, split_at, split_config_line}

drop-append_cons : (xs ys : Bytes) (c : ℕ) → drop (suc (length xs)) (xs ++ c ∷ ys) ≡ ys
drop-append_cons [] ys c = refl
drop-append_cons (x ∷ xs) ys c = drop-append_cons xs ys c

-- The length that `strlen(line) - actualKeyLength - 1` computes.
value_length-append : (xs ys : Bytes) (c : ℕ) → length (xs ++ c ∷ ys) - length xs - 1 ≡ length ys
value_length-append xs ys c = omega (arith, length-append xs (c ∷ ys))

module _ (key_part value_part : Bytes) (key_length value_length : ℕ)
    (fits_key : length key_part < key_length) (fits_value : length value_part < value_length) where
  split_at-equals :
      split_at (key_part ++ b'=' ∷ value_part) key_length value_length (length key_part)
      ≡ copy_trimmed (trim_whitespace key_part) (trim_whitespace value_part)
  unfolding split_at
  split_at-equals = rw (
    lt→leb_false key_length (length key_part) fits_key,
    value_length-append key_part value_part b'=',
    lt→leb_false value_length (length value_part) fits_value,
    take-append_left key_part (b'=' ∷ value_part),
    drop-append_cons key_part value_part b'=',
    take_all (length value_part) value_part (omega arith),
  )

  -- The line `key_part=value_part`, with no `=` in `key_part`, is split at that `=` if it is a
  -- configuration line and both parts fit.
  split_config_line-equals :
      All (is_other b'=') key_part
      → is_config_line (key_part ++ b'=' ∷ value_part) ≡ true
      → split_config_line (key_part ++ b'=' ∷ value_part) key_length value_length
        ≡ copy_trimmed (trim_whitespace key_part) (trim_whitespace value_part)
  unfolding split_config_line
  split_config_line-equals free config =
      rw (config, memchr-append key_part value_part b'=' free) split_at-equals

-- The first byte of the line is no `#`.
abbrev pub is_no_comment : Bytes → Bool
is_no_comment [] = true
is_no_comment (c ∷ _) = is_other b'#' c

pub is_config_line-equals :
    (k v : Bytes)
    → All (is_other b'=') k
    → is_no_comment k ≡ true
    → is_config_line (k ++ b'=' ∷ v) ≡ true
unfolding is_config_line
is_config_line-equals [] v free h = rw (memchr-append [] v b'=' tt)
is_config_line-equals (c ∷ k) v free h = ground (arith, memchr-append (c ∷ k) v b'=' free)

no_equals-blank : (s : Bytes) → AllBlank s → All (is_other b'=') s
unfolding is_whitespace
no_equals-blank [] h = tt
no_equals-blank (c ∷ s) h = (ground arith, no_equals-blank s h.1)

-- An assignment with whitespace around its key and its value gives exactly the two. The key has no
-- `=`, the line does not begin with `#`, the parts fit their buffers, and the key and the value
-- have two bytes or more together with the whitespace behind them.
pub split_config_line-assignment :
    (a key b c value d : Bytes) (key_length value_length : ℕ)
    → AllBlank a
    → AllBlank b
    → AllBlank c
    → AllBlank d
    → IsCore key
    → IsCore value
    → All (is_other b'=') key
    → is_no_comment (a ++ (key ++ b)) ≡ true
    → 2 ≤ length (key ++ b)
    → 2 ≤ length (value ++ d)
    → length (a ++ (key ++ b)) < key_length
    → length (c ++ (value ++ d)) < value_length
    → split_config_line ((a ++ (key ++ b)) ++ b'=' ∷ (c ++ (value ++ d))) key_length value_length
      ≡ split key value
unfolding copy_trimmed
split_config_line-assignment a key b c value d kl vl ha hb hc hd hk hv free start lk lv fk fv =
    let free_part : All (is_other b'=') (a ++ (key ++ b)) =
      All-append _ a (key ++ b) (no_equals-blank a ha)
        (All-append _ key b free (no_equals-blank b hb)) in
    split_config_line-equals (a ++ (key ++ b)) (c ++ (value ++ d)) kl vl fk fv free_part
      (is_config_line-equals (a ++ (key ++ b)) (c ++ (value ++ d)) free_part start)
    ∙ rw (trim_whitespace-core a key b ha hk hb lk, trim_whitespace-core c value d hc hv hd lv)

copy_trimmed-crashed :
    (k v : Bytes)
    → (copy_trimmed (trim_whitespace k) (trim_whitespace v) ≡ crashed) ↔ ((k ≡ []) ⊎ (v ≡ []))
unfolding copy_trimmed trim_whitespace
copy_trimmed-crashed [] v = (λ _. inl refl, λ _. refl)
copy_trimmed-crashed (c ∷ k) [] = (λ _. inr refl, λ _. refl)
copy_trimmed-crashed (c ∷ k) (d ∷ v) = ground arith

-- An assignment that fits its buffers crashes exactly when nothing at all stands on one side of
-- its first `=`.
pub split_config_line-crashed :
    (key_part value_part : Bytes) (key_length value_length : ℕ)
    → All (is_other b'=') key_part
    → is_no_comment key_part ≡ true
    → length key_part < key_length
    → length value_part < value_length
    → (split_config_line (key_part ++ b'=' ∷ value_part) key_length value_length ≡ crashed)
      ↔ ((key_part ≡ []) ⊎ (value_part ≡ []))
split_config_line-crashed k v kl vl free start fk fv =
    rw (split_config_line-equals k v kl vl fk fv free (is_config_line-equals k v free start))
      (copy_trimmed-crashed k v)

copy_trimmed-inversion :
    (k v : Option Bytes) {key value : Bytes}
    → copy_trimmed k v ≡ split key value
    → (k ≡ some key) × (v ≡ some value)
unfolding copy_trimmed
copy_trimmed-inversion none v h = cc
copy_trimmed-inversion (some k) none h = cc
copy_trimmed-inversion (some k) (some v) h = ground arith

copy_trimmed-length-le :
    (k v : Bytes) {key value : Bytes}
    → copy_trimmed (trim_whitespace k) (trim_whitespace v) ≡ split key value
    → (length key ≤ length k) × (length value ≤ length v)
copy_trimmed-length-le k v h =
    let (e, f) = copy_trimmed-inversion (trim_whitespace k) (trim_whitespace v) h in
    (length-trim_whitespace-le k e, length-trim_whitespace-le v f)

split_at-fits :
    (line : Bytes) (key_length value_length n : ℕ) {key value : Bytes}
    → split_at line key_length value_length n ≡ split key value
    → (length key < key_length) × (length value < value_length)
unfolding split_at
split_at-fits line kl vl n {key} {value} h = ground (
  arith,
  copy_trimmed-length-le (take n line) (take (length line - n - 1) (drop (suc n) line)) {key = key}
      {value = value},
  length-take n line,
  length-take (length line - n - 1) (drop (suc n) line),
)

-- What is copied into the buffers fits them with the closing NUL, whatever the line is.
pub split_config_line-fits :
    (line : Bytes) (key_length value_length : ℕ) {key value : Bytes}
    → split_config_line line key_length value_length ≡ split key value
    → (length key < key_length) × (length value < value_length)
unfolding split_config_line
split_config_line-fits line kl vl {key} {value} h = elim (Bool-cases (is_config_line line)) [
  | inl config ↦ elim (Option-cases (memchr line b'=')) [
    | inl no_equals ↦ cc (rw (config, no_equals) at h)
    | inr (n, at_n) ↦ split_at-fits line kl vl n (rw (config, at_n) at h)
  ]
  | inr other ↦ cc (rw other at h)
]
