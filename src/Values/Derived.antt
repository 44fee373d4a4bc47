-- ===== src/Values/Derived.antt =====
-- src/storage/derived.rs: the columns that are computed once, when a row is imported.
use base_search.Prelude.{
  ℕ, String, Bool, true, false, ◌&&◌, Option, none, some, List, [], ◌∷◌, keep, if◌then◌else◌, ◌==◌,
  string_eq,
}
use base_search.Prelude.Texts.{Unicode, codes}
use base_search.Values.Numbers.{NumberStyle, prefer_decimal, prefer_grouped, parse_number_styled}
use base_search.Values.Countries.{clean_label_value, normalize_country_key}
use base_search.Values.Dates.{month_key}

pub data Derivation : Type 0 where
  number : NumberStyle → Derivation
  label country month : Derivation

pub record DerivedColumn : Type 0 where
  pub name : String
  pub sql_type : String
  pub source : String
  pub derivation : Derivation

abbrev num : String → String → DerivedColumn
num name source = record {
  name = name;
  sql_type = "REAL";
  source = source;
  derivation = number prefer_decimal;
}

abbrev num_grouped : String → String → DerivedColumn
num_grouped name source = record {
  name = name;
  sql_type = "REAL";
  source = source;
  derivation = number prefer_grouped;
}

abbrev label_column : String → String → DerivedColumn
label_column name source = record {
  name = name;
  sql_type = "TEXT";
  source = source;
  derivation = label;
}

abbrev country_column : String → String → DerivedColumn
country_column name source = record {
  name = name;
  sql_type = "TEXT";
  source = source;
  derivation = country;
}

abbrev month_column : DerivedColumn
month_column = record {
  name = "month";
  sql_type = "TEXT";
  source = "declaration_date";
  derivation = month;
}

unfoldable pub derived : List DerivedColumn
derived =
    num_grouped "value_num" "currency_control_value"
    ∷ num "net_kg_num" "net_kg"
    ∷ num "gross_kg_num" "gross_kg"
    ∷ num_grouped "quantity_num" "quantity"
    ∷ num "rfv_num" "rfv_usd_kg"
    ∷ num "rmv_net_num" "rmv_net_usd_kg"
    ∷ num "rmv_extra_num" "rmv_usd_extra_unit"
    ∷ num "rmv_gross_num" "rmv_gross_usd_kg"
    ∷ num "min_base_num" "min_base_usd_kg"
    ∷ label_column "sender_label" "sender"
    ∷ label_column "recipient_label" "recipient"
    ∷ label_column "edrpou_label" "edrpou"
    ∷ label_column "trademark_label" "trademark"
    ∷ country_column "origin_key" "origin_country"
    ∷ country_column "dispatch_key" "dispatch_country"
    ∷ country_column "trade_key" "trade_country"
    ∷ month_column
    ∷ []

-- `std::mem::discriminant` of two derivations.
abbrev same_derivation : Derivation → Derivation → Bool
same_derivation (number a) (number b) = true
same_derivation label label = true
same_derivation country country = true
same_derivation month month = true
same_derivation a b = false

unfoldable pub is_derived_from : String → Derivation → DerivedColumn → Bool
is_derived_from source derivation column =
    (column.source == source) && same_derivation column.derivation derivation

abbrev pub name_of_first : List DerivedColumn → Option String
name_of_first [] = none
name_of_first (column ∷ rest) = some column.name

unfoldable pub derived_name_for : String → Derivation → Option String
unfolding derived
derived_name_for source derivation =
    name_of_first (keep (is_derived_from source derivation) derived)

unfoldable pub num_column_for : String → Option String
num_column_for source = derived_name_for source (number prefer_decimal)

unfoldable pub label_column_for : String → Option String
label_column_for source = derived_name_for source label

unfoldable pub key_column_for : String → Option String
key_column_for source = derived_name_for source country

unfoldable pub month_column_for : String → Option String
month_column_for source = derived_name_for source month

abbrev style_in : Derivation → Option NumberStyle → Option NumberStyle
style_in (number style) rest = some style
style_in derivation rest = rest

abbrev first_style : String → List DerivedColumn → Option NumberStyle
first_style source [] = none
first_style source (column ∷ rest) =
    if column.source == source
    then style_in column.derivation (first_style source rest)
    else first_style source rest

unfoldable pub number_style_for : String → Option NumberStyle
unfolding derived
number_style_for source = first_style source derived

-- A stored value of a derived column.
pub data Stored {ℓ} (F : Type ℓ) : Type ℓ where
  real : F → Stored F
  text : List ℕ → Stored F
  null : Stored F

abbrev real_or_null {ℓ} : {F : Type ℓ} → Option F → Stored F
real_or_null none = null
real_or_null (some n) = real n

unfoldable pub compute {ℓ} :
    {F : Type ℓ} → Unicode → (List ℕ → Option F) → Derivation → String → Stored F
compute u read_float (number style) value =
    real_or_null (parse_number_styled u read_float value style)
compute u read_float label value = text (codes (clean_label_value u value))
compute u read_float country value = text (codes (normalize_country_key u value))
compute u read_float month value = text (month_key u value)
