-- ===== src/Values/Dates.antt =====
-- src/storage/normalize.rs: the month of a date and the year in a text. A text is the list of its
-- code points, for `extract_year` that of its bytes.
use mathlib.Core.List.{List, [], ◌∷◌}
use base_search.Prelude.{
  ℕ, ◌+◌, ◌-◌, ◌*◌, ◌/◌, ◌%◌, String, Bool, false, ◌&&◌, ◌||◌, not, Option, none, some,
  if◌then◌else◌, ◌==◌, nat_eq, leb, length, all,
}
use base_search.Prelude.Texts.{Unicode, is_digit, trimmed, codes}
use base_search.Values.Numbers.{break_at, is_empty_list}

-- `str::split` at the code points that pass a test: the first part and those behind it.
unfoldable pub split_on : (ℕ → Bool) → List ℕ → List ℕ × List (List ℕ)
split_on p [] = ([], [])
split_on p (c ∷ cs) = let r = split_on p cs in if p c then ([], r.0 ∷ r.1) else (c ∷ r.0, r.1)

abbrev pub value_from : ℕ → List ℕ → ℕ
value_from value [] = value
value_from value (c ∷ cs) = value_from (value * 10 + (c - 48)) cs

abbrev pub without_plus : List ℕ → List ℕ
without_plus [] = []
without_plus (c ∷ cs) = if c == 43 then cs else c ∷ cs

-- `str::parse::<u32>` for at most four characters, which cannot overflow.
unfoldable pub parse_u32 : List ℕ → Option ℕ
parse_u32 cs =
    let digits : List ℕ = without_plus cs in
    if not (is_empty_list digits) && all is_digit digits then some (value_from 0 digits) else none

abbrev pub digit : ℕ → ℕ
digit n = 48 + n % 10

-- `{y:04}-{m:02}` for a year of four digits and a month of two.
abbrev pub month_text : ℕ → ℕ → List ℕ
month_text y m =
    digit (y / 1000)
    ∷ digit (y / 100)
    ∷ digit (y / 10)
    ∷ digit y
    ∷ 45
    ∷ digit (m / 10)
    ∷ digit m
    ∷ []

-- One order of the parts: the day is a number, the month one from 1 to 12, the year a number.
unfoldable pub month_of_parts : Option ℕ → Option ℕ → Option ℕ → Option (List ℕ)
month_of_parts (some y) (some m) (some d) =
    if leb 1 m && leb m 12 then some (month_text y m) else none
month_of_parts y m d = none

abbrev pub first_some : Option (List ℕ) → List ℕ → List ℕ
first_some none other = other
first_some (some found) other = found

abbrev pub is_day_first : List ℕ → List ℕ → List ℕ → Bool
is_day_first a b c = leb (length a) 2 && (leb (length b) 2 && (length c == 4))

abbrev pub is_year_first : List ℕ → List ℕ → List ℕ → Bool
is_year_first a b c = (length a == 4) && (leb (length b) 2 && leb (length c) 2)

unfoldable pub month_of_three : List ℕ → List ℕ → List ℕ → List ℕ
month_of_three a b c =
    let day_first : Option (List ℕ) = month_of_parts (parse_u32 c) (parse_u32 b) (parse_u32 a) in
    let month_first : Option (List ℕ) = month_of_parts (parse_u32 c) (parse_u32 a) (parse_u32 b) in
    let year_first : Option (List ℕ) = month_of_parts (parse_u32 a) (parse_u32 b) (parse_u32 c) in
    if is_day_first a b c
    then first_some day_first (first_some month_first [])
    else if is_year_first a b c
    then first_some year_first []
    else []

abbrev pub month_of_split : List ℕ → List (List ℕ) → List ℕ
month_of_split a (b ∷ c ∷ []) = month_of_three a b c
month_of_split a other = []

abbrev pub is_date_separator : ℕ → Bool
is_date_separator c = (c == 46) || ((c == 47) || (c == 45))

unfoldable pub month_key : Unicode → String → List ℕ
month_key u value =
    let date = (break_at (λ c. (c == 32) || (c == 84)) (codes (trimmed u value))).0 in
    let parts = split_on is_date_separator date in month_of_split parts.0 parts.1

abbrev pub is_century : ℕ → ℕ → Bool
is_century a b = ((a == 49) && (b == 57)) || ((a == 50) && (b == 48))

abbrev pub followed_by_digit : List ℕ → Bool
followed_by_digit [] = false
followed_by_digit (c ∷ cs) = is_digit c

-- The first window of four bytes that is a year from 1900 to 2099 and no part of a longer number;
-- `before_digit` says that a digit stands before the rest.
unfoldable pub extract_year : Bool → List ℕ → Option ℕ
extract_year before_digit (a ∷ b ∷ c ∷ d ∷ rest) =
    let later = extract_year (is_digit a) (b ∷ c ∷ d ∷ rest) in
    if is_century a b
      && (is_digit c && (is_digit d && (not before_digit && not (followed_by_digit rest))))
    then some (value_from 0 (a ∷ b ∷ c ∷ d ∷ []))
    else later
extract_year before_digit other = none
