-- ===== src/Plan/Examples.antt =====
-- Tests of the filter plan, and its theorem at a concrete search.
use base_search.Prelude.{
  ℕ, ◌+◌, ◌≡◌, refl, String, true, ◌||◌, ◌&&◌, Option, none, List, [], ◌∷◌, ◌==◌, nat_eq, leb,
  length, ok,
}
use base_search.Prelude.Texts
use base_search.Prelude.Texts.{Unicode}
use base_search.Values.Keys
use base_search.Values.Countries
use base_search.Values.Derived
use base_search.Search.Schema
use base_search.Search.Clauses
use base_search.Search.Resolve
use base_search.Search.Terms
use base_search.Plan.Sources
use base_search.Plan.Filters
use base_search.Plan.Build
use base_search.Search.Clauses.{text_value, integer_value}
use base_search.Search.Counting
use base_search.Plan.Filters.{Filters, Query}
use base_search.Plan.Build.{FilterPlan, build_filter_plan}
use base_search.Plan.Placeholders.{build_filter_plan-placeholders}

abbrev letters : Unicode
letters = record {
  white = λ c. c == 32;
  alphanumeric = λ c. (leb 48 c && leb c 57) || ((leb 65 c && leb c 90) || (leb 97 c && leb c 122));
  lower = λ c. String.◌∷◌ c String.[];
  upper = λ c. String.◌∷◌ c String.[];
  lowercase = λ s. s;
}

abbrev no_float : List ℕ → Option ℕ
no_float cs = none

abbrev search : Query
search = record {
  text = "8504";
  filters = record {
    year = "2024";
    product_code = " 84";
    trademark = "";
    description = "";
    sender = "";
    recipient = "";
    edrpou = "";
    trade_country = "CN";
    dispatch_country = "";
    origin_country = "";
  };
  advanced = none;
}

abbrev planned : FilterPlan ℕ
planned = record {
  joins = "";
  where_sql =
      " WHERE (r.year = ? OR (r.year IS NULL AND CAST(SUBSTR(r.month, 1, 4) AS INTEGER) = ?)) AND (r.product_code GLOB ? OR text_key(r.edrpou) = text_key(?)) AND r.product_code GLOB ? AND r.trade_key = ? AND r.dup_first_file IS NULL";
  params =
      integer_value 2024
      ∷ integer_value 2024
      ∷ text_value "8504*"
      ∷ text_value "8504"
      ∷ text_value "84*"
      ∷ text_value "CN"
      ∷ [];
  payload_alias = "r";
}

-- A number of four digits is searched as a product code and as a company code, without the index.
code_plan_test : build_filter_plan letters no_float none [] search true 7 ≡ ok planned
unfolding Build.build_filter_plan Build.advanced_clauses Build.filter_clauses Filters.fts_clauses
    Filters.match_expr Filters.text_code_prefix Filters.year_clauses Filters.code_prefix_clauses
    Filters.product_code_clauses Filters.key_clauses Filters.country_clauses
    Filters.contains_clauses Sources.semantic_index Sources.column_for_semantic Sources.add_sources
    Sources.sources_for Sources.coalesce_text Sources.text_of Sources.country_of_source
    Sources.month_of_source Sources.text_expr Sources.country_key_expr Sources.month_expr
    Terms.product_code_search_prefix Terms.chapter Keys.decimal_value Keys.parse_year
    Keys.glob_escape Keys.is_glob_special Texts.trim Texts.trim_end Texts.trim_start
    Texts.has_prefix Texts.keep_chars Texts.flat_map Texts.join Clauses.around Resolve.column_sql
    Schema.semantic_columns Derived.derived Derived.is_derived_from Derived.derived_name_for
    Derived.key_column_for Derived.month_column_for Countries.normalize_country_key
    Countries.upper_key Countries.country_of Countries.no_country Countries.country_codes
    Countries.code_of Texts.one_of
code_plan_test = refl

build_filter_plan-placeholders_example :
    Counting.placeholders planned.joins + Counting.placeholders planned.where_sql
    ≡ length planned.params
build_filter_plan-placeholders_example =
    build_filter_plan-placeholders letters no_float none [] tt tt search true 7 planned
      code_plan_test
