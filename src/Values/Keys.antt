-- ===== src/Values/Keys.antt =====
-- src/storage/normalize.rs: years and text keys; src/storage/search_text.rs: `glob_escape`. A text
-- key is built by walking the characters with the flag `last_space`.
use Prim.Native.Char.{code}
use Prim.Native.String.{◌++◌, count}
use base_search.Prelude.{
  ℕ, ◌+◌, ◌-◌, ◌*◌, String, Bool, true, false, ◌&&◌, ◌||◌, not, Option, none, some, if◌then◌else◌,
  ◌==◌, nat_eq,
}
use base_search.Prelude.Texts.{Unicode, is_digit, trimmed, keep_chars, is_empty}

-- `str::parse` for a text of digits: `value` is what the digits before gave.
unfoldable pub decimal_value : ℕ → String → ℕ
decimal_value value String.[] = value
decimal_value value (String.◌∷◌ c s) = decimal_value (value * 10 + (code c - 48)) s

unfoldable pub parse_year : String → Option ℕ
parse_year value =
    let digits : String = keep_chars is_digit value in
    if count digits == 4 then some (decimal_value 0 digits) else none

-- The rest of a text key: `started` says that the key is not empty, `last_space` that it ends in
-- a space.
unfoldable pub text_key_rest : Unicode → Bool → Bool → String → String
text_key_rest u started last_space String.[] = String.[]
text_key_rest u started last_space (String.◌∷◌ c s) =
    let spaced = text_key_rest u started true s in
    let skipped = text_key_rest u started last_space s in
    let letters = u.lower c in
    let lettered = letters ++ text_key_rest u (started || not (is_empty letters)) false s in
    if u.white (code c)
    then if started && not last_space then " " ++ spaced else skipped
    else lettered

unfoldable pub normalize_text_key : Unicode → String → String
normalize_text_key u value = text_key_rest u false false (trimmed u value)

-- One character of a pattern of `GLOB`, so that it stands for itself.
unfoldable pub is_glob_special : ℕ → Bool
is_glob_special c = (c == 42) || ((c == 63) || ((c == 91) || (c == 93)))

unfoldable pub glob_escape : String → String
glob_escape String.[] = String.[]
glob_escape (String.◌∷◌ c s) =
    let rest = glob_escape s in
    if is_glob_special (code c) then "[" ++ String.◌∷◌ c ("]" ++ rest) else String.◌∷◌ c rest
