-- ===== src/Config/Split.antt =====
-- `isConfigLine`, `splitConfigLine` and `parseBool`. `malloc` does not fail.
use rootsh.Base.{
  ℕ, suc, ◌-◌, Bool, true, false, not, Option, none, some, [], ◌∷◌, leb, ◌==◌, if◌then◌else◌,
  length, take, drop,
}
use rootsh.Text.{Bytes, codes, memchr, equal_caseless}
use rootsh.Config.Trim.{trim_whitespace}

-- The line is the C string that `fgets` or a caller gives.
unfoldable pub is_config_line : Bytes → Bool
is_config_line [] = false
is_config_line (c ∷ cs) =
    if c == b'#' then false else elim (memchr (c ∷ cs) b'=') [ none ↦ false | some _ ↦ true ]

-- `crashed`: `strcpy` reads through the null pointer that `trimWhitespace` returned.
pub data SplitResult : Type 0 where
  refused : SplitResult
  crashed : SplitResult
  split : Bytes → Bytes → SplitResult

-- `strcpy(key, trimmedKey)`, then the same for the value.
unfoldable pub copy_trimmed : Option Bytes → Option Bytes → SplitResult
copy_trimmed none value = crashed
copy_trimmed (some key) none = crashed
copy_trimmed (some key) (some value) = split key value

-- From the length checks on, with `equals - line`.
unfoldable pub split_at : Bytes → ℕ → ℕ → ℕ → SplitResult
unfolding copy_trimmed
split_at line key_length value_length actual_key_length =
    let actual_value_length = length line - actual_key_length - 1 in
    if leb key_length actual_key_length
    then refused
    else if leb value_length actual_value_length
    then refused
    else copy_trimmed (trim_whitespace (take actual_key_length line))
        (trim_whitespace (take actual_value_length (drop (suc actual_key_length) line)))

unfoldable pub split_config_line : Bytes → ℕ → ℕ → SplitResult
unfolding is_config_line split_at
split_config_line line key_length value_length =
    if not (is_config_line line) then refused else elim (memchr line b'=') [
      | none ↦ refused
      | some equals ↦ split_at line key_length value_length equals
    ]

unfoldable pub parse_bool : Option Bytes → Bool
parse_bool none = false
parse_bool (some text) = if equal_caseless (codes "true") text then true else false
