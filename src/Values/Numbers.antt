-- ===== src/Values/Numbers.antt =====
-- src/storage/normalize.rs: the number parser. A text that is walked by index is the list of its
-- code points; `str::parse::<f64>` and `is_finite` are the parameter `read_float`, which gives no
-- number for a text that it refuses or that is not finite.
use mathlib.Core.List.{reverse}
use mathlib.Core.Option
use base_search.Prelude.{
  ℕ, String, Bool, true, false, ◌&&◌, ◌||◌, not, Option, none, some, List, [], ◌∷◌, ◌++◌,
  if◌then◌else◌, ◌==◌, nat_eq, ltb, length, any, all, count_if, keep, map,
}
use base_search.Prelude.Texts.{Unicode, is_digit, trimmed, codes}

pub data NumberStyle : Type 0 where
  prefer_decimal prefer_grouped : NumberStyle

abbrev pub is_sign : ℕ → Bool
is_sign c = (c == 43) || (c == 45)

abbrev pub is_dot_or_comma : ℕ → Bool
is_dot_or_comma c = (c == 46) || (c == 44)

-- ' ', U+00A0, U+202F, U+2009, ''' and U+2019.
abbrev pub is_digit_group_separator : ℕ → Bool
is_digit_group_separator c =
    (c == 32) || ((c == 0xa0) || ((c == 0x202f) || ((c == 0x2009) || ((c == 39) || (c == 0x2019)))))

-- `strip_prefix(['+', '-'])`, or the text as it is.
abbrev pub unsigned_part : List ℕ → List ℕ
unsigned_part [] = []
unsigned_part (c ∷ cs) = if is_sign c then cs else c ∷ cs

-- What stands before the first code point that passes a test, and the rest with it.
unfoldable pub break_at : (ℕ → Bool) → List ℕ → List ℕ × List ℕ
break_at p [] = ([], [])
break_at p (c ∷ cs) = let r = break_at p cs in if p c then ([], c ∷ cs) else (c ∷ r.0, r.1)

-- What stands before the last code point that passes a test, and what follows it; `none` if there
-- is no such code point.
unfoldable pub break_last : (ℕ → Bool) → List ℕ → Option (List ℕ × List ℕ)
break_last p [] = none
break_last p (c ∷ cs) = elim (break_last p cs) [
  | some (before, after) ↦ some (c ∷ before, after)
  | none ↦ if p c then some ([], cs) else none
]

unfoldable pub valid_numeric_affix : List ℕ → Bool
valid_numeric_affix cs =
    not (
      any (λ c. is_digit c || (is_dot_or_comma c || (is_sign c || ((c == 39) || (c == 0x2019)))))
        cs)

abbrev is_core_char : ℕ → Bool
is_core_char c = is_digit c || (is_dot_or_comma c || is_digit_group_separator c)

-- The code points of the core: only the first may be a sign.
abbrev pub valid_core : List ℕ → Bool
valid_core [] = true
valid_core (c ∷ cs) = (is_core_char c || is_sign c) && all is_core_char cs

-- Of the text before the first digit, read from its end: what precedes the number, and what of it
-- belongs to the number: a separator, with a sign before it or not, or a sign.
abbrev pub signed_lead : ℕ → List ℕ → List ℕ × List ℕ
signed_lead c [] = ([], c ∷ [])
signed_lead c (s ∷ more) = if is_sign s then (more, s ∷ c ∷ []) else (s ∷ more, c ∷ [])

abbrev pub lead : List ℕ → List ℕ × List ℕ
lead [] = ([], [])
lead (c ∷ more) =
    if is_dot_or_comma c
    then signed_lead c more
    else if is_sign c
    then (more, c ∷ [])
    else (c ∷ more, [])

unfoldable pub numeric_core : List ℕ → Option (List ℕ)
unfolding break_at valid_numeric_affix
numeric_core value =
    let front = break_at is_digit value in
    let back = break_at is_digit (reverse front.1) in
    let start = lead (reverse front.0) in
    let core : List ℕ = start.1 ++ reverse back.1 in
    if any is_digit value
    then if valid_numeric_affix start.0 && (valid_numeric_affix back.0 && valid_core core)
      then some core
      else none
    else none

-- A first group of thousands has one to three digits and no leading zero.
abbrev pub first_group_impossible : List ℕ → Bool
first_group_impossible [] = true
first_group_impossible (c ∷ cs) = ltb 2 (length cs) || (c == 48)

unfoldable pub single_separator_decimal : List ℕ → ℕ → Bool → NumberStyle → Option ℕ
single_separator_decimal value sep has_group_spaces style =
    elim (break_last (λ c. c == sep) value) [
      | none ↦ none
      | some (before, rest) ↦
          if count_if is_digit rest == 0
          then none
          else if not (count_if is_digit rest == 3)
          then some sep
          else if has_group_spaces || first_group_impossible (keep is_digit before)
          then some sep
          else elim style [
            | NumberStyle.prefer_decimal ↦ some sep
            | NumberStyle.prefer_grouped ↦ none
          ]
    ]

-- `rfind`, 0 if there is none.
abbrev last_index : ℕ → List ℕ → ℕ
last_index c cs = elim (break_last (λ d. d == c) cs) [
  | none ↦ 0
  | some (before, rest) ↦ length before
]

-- Which separator is the decimal one, by how many dots and commas there are.
unfoldable pub decimal_separator : List ℕ → NumberStyle → Option ℕ
decimal_separator unsigned style =
    let grouped : Bool = any is_digit_group_separator unsigned in
    let dots : ℕ = count_if (λ c. c == 46) unsigned in
    let commas : ℕ = count_if (λ c. c == 44) unsigned in
    if dots == 0
    then if commas == 1 then single_separator_decimal unsigned 44 grouped style else none
    else if commas == 0
    then if dots == 1 then single_separator_decimal unsigned 46 grouped style else none
    else if ltb (last_index 44 unsigned) (last_index 46 unsigned)
    then some 46
    else some 44

abbrev pub onto_first : ℕ → List (List ℕ) → List (List ℕ)
onto_first c [] = (c ∷ []) ∷ []
onto_first c (group ∷ groups) = (c ∷ group) ∷ groups

abbrev pub is_empty_list : List ℕ → Bool
is_empty_list [] = true
is_empty_list (c ∷ cs) = false

-- `[_]::concat`.
abbrev pub concat : List (List ℕ) → List ℕ
concat [] = []
concat (group ∷ groups) = group ++ concat groups

unfoldable pub split_groups : List ℕ → List (List ℕ)
split_groups [] = [] ∷ []
split_groups (c ∷ cs) =
    let rest = split_groups cs in
    if is_dot_or_comma c || is_digit_group_separator c then [] ∷ rest else onto_first c rest

abbrev pub is_group_of_three : List ℕ → Bool
is_group_of_three group = all is_digit group && (length group == 3)

abbrev pub grouped_digits : List (List ℕ) → Option (List ℕ)
grouped_digits [] = none
grouped_digits (first ∷ []) = none
grouped_digits (first ∷ second ∷ rest) =
    if is_empty_list first
      || (ltb 3 (length first)
          || (not (all is_digit first) || not (all is_group_of_three (second ∷ rest))))
    then none
    else some (first ++ (second ++ concat rest))

unfoldable pub normalize_grouped_integer : List ℕ → Bool → Option (List ℕ)
normalize_grouped_integer value allow_empty =
    if is_empty_list value
    then if allow_empty then some [] else none
    else if all is_digit value
    then some value
    else grouped_digits (split_groups value)

-- The sign of the core, the digits before the separator and, after a dot, those behind it.
abbrev pub sign_of : List ℕ → List ℕ
sign_of [] = []
sign_of (c ∷ cs) = if is_sign c then c ∷ [] else []

-- A number without a decimal separator, and one that is split at it.
unfoldable pub whole_number : List ℕ → Option (List ℕ)
whole_number core =
    Option.map (λ digits. sign_of core ++ digits)
      (normalize_grouped_integer (unsigned_part core) false)

unfoldable pub split_number : List ℕ → ℕ → Option (List ℕ × List ℕ) → Option (List ℕ)
split_number core sep none = none
split_number core sep (some (integer, fraction)) =
    if not (count_if (λ c. c == sep) (unsigned_part core) == 1)
      || (is_empty_list fraction || not (all is_digit fraction))
    then none
    else Option.map (λ digits. sign_of core ++ (digits ++ 46 ∷ fraction))
        (normalize_grouped_integer integer true)

unfoldable pub normalized_number : List ℕ → NumberStyle → Option (List ℕ)
normalized_number core style = elim (decimal_separator (unsigned_part core) style) [
  | none ↦ whole_number core
  | some sep ↦ split_number core sep (break_last (λ c. c == sep) (unsigned_part core))
]

-- The text that is handed to the float parser for a value that is not in scientific notation.
unfoldable pub localized_text : List ℕ → NumberStyle → Option (List ℕ)
localized_text value style = elim (numeric_core value) [
  | none ↦ none
  | some core ↦ normalized_number core style
]

abbrev pub is_exponent : ℕ → Bool
is_exponent c = (c == 101) || (c == 69)

-- The mantissa holds digits and at most one separator.
unfoldable pub valid_mantissa : Bool → List ℕ → Bool
valid_mantissa seen_sep [] = true
valid_mantissa seen_sep (c ∷ cs) =
    let same = valid_mantissa seen_sep cs in
    let seen = valid_mantissa true cs in
    if is_digit c then same else if is_dot_or_comma c && not seen_sep then seen else false

-- `replace(',', ".")`.
abbrev pub with_dots : List ℕ → List ℕ
with_dots = map (λ c. if c == 44 then 46 else c)

abbrev valid_exponent : List ℕ → Bool
valid_exponent cs = not (is_empty_list (unsigned_part cs)) && all is_digit (unsigned_part cs)

-- The text that `parse_scientific` hands to the float parser.
unfoldable pub scientific_text : List ℕ → Option (List ℕ)
scientific_text value =
    let parts = break_at is_exponent value in
    let body : List ℕ = unsigned_part parts.0 in
    elim parts.1 [
      | [] ↦ none
      | marker ∷ exponent ↦
          if valid_exponent exponent && (any is_digit body && valid_mantissa false body)
          then some (with_dots value)
          else none
    ]

abbrev starts_with_digit : List ℕ → Bool
starts_with_digit [] = false
starts_with_digit (c ∷ cs) = is_digit c

-- `digit_before` says that a digit stands before the rest of the text.
unfoldable pub failed_scientific : Bool → List ℕ → Bool
failed_scientific digit_before [] = false
failed_scientific digit_before (c ∷ cs) =
    let rest = failed_scientific (is_digit c) cs in
    (is_exponent c && (digit_before || starts_with_digit (unsigned_part cs))) || rest

module _ {ℓ} {F : Type ℓ} (u : Unicode) (read_float : List ℕ → Option F) where
  unfoldable pub parse_scientific : List ℕ → Option F
  parse_scientific value = elim (scientific_text value) [ none ↦ none | some t ↦ read_float t ]

  unfoldable pub parse_localized : List ℕ → NumberStyle → Option F
  parse_localized value style = elim (localized_text value style) [
    | none ↦ none
    | some t ↦ read_float t
  ]

  unfoldable pub parse_codes : List ℕ → NumberStyle → Option F
  parse_codes value style = if is_empty_list value then none else elim (parse_scientific value) [
    | some number ↦ some number
    | none ↦ if failed_scientific false value then none else parse_localized value style
  ]

  unfoldable pub parse_number_styled : String → NumberStyle → Option F
  parse_number_styled value style = parse_codes (codes (trimmed u value)) style
