-- ===== src/Search/Examples.antt =====
-- Tests of the query expressions and their SQL, and the theorems at concrete inputs.
use base_search.Prelude.{
  ℕ, ◌≡◌, refl, ◌↔◌, String, true, false, ◌&&◌, ◌||◌, Option, none, some, List, [], ◌∷◌, All, ◌==◌,
  nat_eq, leb, length, ok, err,
}
use base_search.Prelude.Texts
use base_search.Prelude.Texts.{Unicode}
use base_search.Values.Keys
use base_search.Shapes.Columns.{
  ColumnRole, SemanticField, source_json, schema_column, SourceColumn, SourceSchemaField,
}
use base_search.Search.Expr
use base_search.Search.Expr.{
  expr_is_empty, LogicOp, column, source_field, equals, is_any_of, range, one_value, value_list,
  value_range, QueryCondition, QueryExpr, group, condition, none_left, child,
}
use base_search.Search.Fields
use base_search.Search.Fields.{text, source_column_field_info}
use base_search.Search.Resolve.{not_valid, SearchFieldSql, search_field_sql}
use base_search.Search.Resolve
use base_search.Search.Clauses
use base_search.Search.Clauses.{validate_condition_operator, SqlValue, text_value, integer_value}
use base_search.Search.Compile
use base_search.Search.Compile.{compile_query_expr, compile_condition}
use base_search.Search.Counting
use base_search.Search.Schema
use base_search.Search.Placeholders.{compile_query_expr-placeholders}
use base_search.Search.Emptiness.{compile_query_expr-none_iff}
use base_search.Search.Operators.{has_op, IsOffered, field_catalog_for_context-IsOffered}
use base_search.Search.Offers.{exact_field-accepted, source_column_field_info-refused}
use base_search.Search.Catalog.{field_catalog_for_context, exact_field}

-- ASCII letters and digits, without a change of case.
abbrev ascii : Unicode
ascii = record {
  white = λ c. c == 32;
  alphanumeric = λ c. (leb 48 c && leb c 57) || (leb 97 c && leb c 122);
  lower = λ c. String.◌∷◌ c String.[];
  upper = λ c. String.◌∷◌ c String.[];
  lowercase = λ s. s;
}

-- A float parser that knows one number.
abbrev read_seven : List ℕ → Option ℕ
read_seven cs = some 7

abbrev brand : SourceSchemaField
brand = record {
  field_id = "f1";
  schema_id = 12;
  source_index = 0;
  raw_header = "Brand";
  header = "Brand";
  normalized_header = "brand";
  role = ColumnRole.text;
  semantic = none;
  storage = source_json;
}

abbrev registered : List (String × SourceSchemaField)
registered = ("f1", brand) ∷ []

abbrev in_2024 : QueryCondition
in_2024 = record { field = column "year"; op = equals; value = one_value " 2024"; negated = false }

abbrev of_brand : QueryCondition
of_brand = record {
  field = source_field "f1";
  op = is_any_of;
  value = value_list ("a" ∷ " " ∷ "b" ∷ []);
  negated = true;
}

abbrev both : QueryExpr
both = group LogicOp.and false (
    child (condition in_2024)
      (child (group LogicOp.or true none_left) (child (condition of_brand) none_left)))

abbrev both_sql : String
both_sql =
    "((p.year = ?) AND (NOT ((text_key(CASE WHEN p.schema_id = 12 THEN extra_value(p.extra, ?) END) = text_key(?) OR text_key(CASE WHEN p.schema_id = 12 THEN extra_value(p.extra, ?) END) = text_key(?)))))"

abbrev both_params : List (SqlValue ℕ)
both_params =
    integer_value 2024
    ∷ text_value "Brand"
    ∷ text_value "a"
    ∷ text_value "Brand"
    ∷ text_value "b"
    ∷ []

both_compiled :
    compile_query_expr ascii read_seven none "p" registered both ≡ ok (some (both_sql, both_params))
unfolding Compile.compile_query_expr Compile.compile_condition Compile.operator_clause
    Compile.equal_clauses Compile.joined Compile.negate_if Compile.wrapped Compile.group_clause
    Clauses.compile_equal_clause Clauses.equal_clause Clauses.year_value Clauses.required
    Clauses.field_params Clauses.around Clauses.validate_condition_operator Clauses.is_allowed
    Resolve.search_field_sql Resolve.stored_field_sql Resolve.year_field_sql Resolve.guarded
    Resolve.column_sql Resolve.extra_sql Resolve.source_json_number_style
    Fields.field_kind_for_source_schema_field Fields.kind_by Fields.kind_by_storage
    Fields.field_kind_for_role Expr.condition_is_empty Keys.parse_year Keys.decimal_value Texts.trim
    Texts.trim_start Texts.trim_end Texts.keep_chars Texts.join Texts.decimal Texts.decimal_fuel
    Texts.digit_text
both_compiled = refl

compile_query_expr-placeholders_example : Counting.placeholders both_sql ≡ length both_params
unfolding Counting.placeholders Texts.occurrences
compile_query_expr-placeholders_example =
    compile_query_expr-placeholders ascii read_seven none "p" registered refl (tt, tt) both both_sql
      both_params both_compiled

compile_query_expr-none_iff_example :
    (compile_query_expr ascii read_seven none "p" registered both ≡ ok none)
    ↔ (expr_is_empty ascii both ≡ true)
compile_query_expr-none_iff_example =
    compile_query_expr-none_iff ascii read_seven none "p" registered both

field_catalog_for_context-IsOffered_example :
    All IsOffered (field_catalog_for_context ascii none ("Brand" ∷ []))
field_catalog_for_context-IsOffered_example =
    field_catalog_for_context-IsOffered ascii none ("Brand" ∷ [])

exact_field-accepted_example :
    (r : SearchFieldSql) × (search_field_sql ascii none "p" registered (exact_field brand).source
      ≡ ok r)
    × ((validate_condition_operator r.kind range ≡ ok tt)
        ↔ (has_op range (exact_field brand).operators ≡ true))
exact_field-accepted_example = exact_field-accepted ascii none "p" registered brand range refl

-- A column of the profile that holds descriptions, to which the meaning "value" was given.
abbrev priced : SourceColumn
priced = record {
  id = "description";
  header = "Description";
  source_index = 3;
  role = ColumnRole.text;
  semantic = some SemanticField.value;
  storage = schema_column "description";
}

abbrev priced_from_5 : QueryCondition
priced_from_5 = record {
  field = column "description";
  op = range;
  value = value_range (some "5") none;
  negated = false;
}

source_column_field_info-refused_example :
    (has_op range (source_column_field_info priced).operators ≡ true)
    × (compile_condition ascii read_seven none "p" registered priced_from_5
        ≡ err (not_valid range text))
unfolding Schema.result_columns Texts.one_of Fields.field_kind_for_column Fields.number_columns
    Fields.field_kind_for_semantic Fields.source_column_field_info Expr.condition_is_empty
    Texts.trim Texts.trim_start Texts.trim_end
source_column_field_info-refused_example =
    source_column_field_info-refused ascii none "p" registered read_seven priced "description"
      SemanticField.value priced_from_5 refl refl refl refl refl refl refl refl refl
