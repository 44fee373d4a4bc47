-- ===== src/Values/Examples.antt =====
-- Tests of the number and date readers, and the theorems at concrete inputs.
use base_search.Prelude.{
  ℕ, ◌≡◌, refl, ◌⊎◌, ◌≤◌, ◌<◌, String, true, Option, none, some, List, [], ◌==◌, nat_eq,
}
use base_search.Prelude.Texts
use base_search.Prelude.Texts.{Unicode, codes}
use base_search.Values.Numbers
use base_search.Values.Numbers.{NumberStyle, prefer_decimal, prefer_grouped, localized_text}
use base_search.Values.Countries
use base_search.Values.Countries.{country_of}
use base_search.Values.Dates
use base_search.Values.Dates.{month_text, month_key}
use base_search.Values.Digits.{digits}
use base_search.Values.Reading.{localized_text-digits}
use base_search.Values.DateBounds.{month_key_lem}

abbrev plain_unicode : Unicode
plain_unicode = record {
  white = λ c. c == 32;
  alphanumeric = λ c. true;
  lower = λ c. String.◌∷◌ c String.[];
  upper = λ c. String.◌∷◌ c String.[];
  lowercase = λ s. s;
}

localized : NumberStyle → String → Option (List ℕ)
unfolding Numbers.localized_text Numbers.numeric_core Numbers.break_at Numbers.break_last
    Numbers.valid_numeric_affix Numbers.normalized_number Numbers.decimal_separator
    Numbers.single_separator_decimal Numbers.split_groups Numbers.normalize_grouped_integer
    Numbers.whole_number Numbers.split_number
localized style s = localized_text (codes s) style

-- "1.250" is ambiguous, and the style decides.
localized_ambiguous :
    (localized prefer_decimal "$ 1.250" ≡ some (codes "1.250"))
    × (localized prefer_grouped "$ 1.250" ≡ some (codes "1250"))
unfolding localized
localized_ambiguous = (refl, refl)

localized_grouped : localized prefer_decimal "-1.234.567,89 UAH" ≡ some (codes "-1234567.89")
unfolding localized
localized_grouped = refl

localized_refused : localized prefer_decimal "12,34,567" ≡ none
unfolding localized
localized_refused = refl

localized_text-digits_example : digits (codes "-1234567.89") ≡ digits (codes "-1.234.567,89 UAH")
unfolding localized
localized_text-digits_example =
    localized_text-digits (codes "-1.234.567,89 UAH") (codes "-1234567.89") prefer_decimal
      localized_grouped

month_key_test : month_key plain_unicode " 7.03.2024 10:00" ≡ codes "2024-03"
unfolding Dates.month_key Dates.split_on Dates.parse_u32 Dates.month_of_parts Dates.month_of_three
    Numbers.break_at Texts.trim Texts.trim_start Texts.trim_end
month_key_test = refl

month_key_lem_example :
    (month_key plain_unicode "7.03.2024" ≡ [])
    ⊎ ((y : ℕ) × (m : ℕ) × (month_key plain_unicode "7.03.2024" ≡ month_text y m)
        × (y < 10000)
        × (1 ≤ m)
        × (m ≤ 12))
month_key_lem_example = month_key_lem plain_unicode "7.03.2024"

country_of_test : country_of "УГОРЩИНА" ≡ "HU"
unfolding Countries.country_of Countries.no_country Countries.code_of Countries.country_codes
    Texts.one_of
country_of_test = refl
