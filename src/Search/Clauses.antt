-- ===== src/Search/Clauses.antt =====
-- src/storage/search_sql.rs: the clause of one condition. A clause is the SQL text with the values
-- of its placeholders, in order. The parser of floats is a parameter.
use Prim.Native.String
use base_search.Prelude.{
  ℕ, String, Bool, true, false, Option, none, some, List, [], ◌∷◌, ◌++◌, if◌then◌else◌, Result, ok,
  err, ◌>>=◌,
}
use base_search.Prelude.Texts.{Unicode, trimmed, is_empty as is_empty_text}
use base_search.Values.Numbers.{NumberStyle, parse_number_styled}
use base_search.Values.Keys.{parse_year}
use base_search.Values.Countries.{normalize_country_key}
use base_search.Search.Expr.{ConditionOp, contains, equals, is_any_of, range, is_not_empty}
use base_search.Search.Fields.{FieldKind, text, code, country, number, date, year}
use base_search.Search.Resolve.{
  SearchError, needs_value, not_a_number, not_a_year, wrong_kind, not_valid, SearchFieldSql,
}

-- `rusqlite::types::Value`.
pub data SqlValue {ℓ} (F : Type ℓ) : Type ℓ where
  text_value : String → SqlValue F
  real_value : F → SqlValue F
  integer_value : ℕ → SqlValue F

abbrev pub Clause {ℓ} : Type ℓ → Type ℓ
Clause F = String × List (SqlValue F)

-- `text_1` followed by an expression and by `text_2`.
unfoldable pub around : String → String → String → String
around before e after = String.◌++◌ before (String.◌++◌ e after)

abbrev not_range : ConditionOp → Bool
not_range range = false
not_range op = true

-- The table of `validate_condition_operator`.
unfoldable pub is_allowed : FieldKind → ConditionOp → Bool
is_allowed kind equals = true
is_allowed kind ConditionOp.is_empty = true
is_allowed kind is_not_empty = true
is_allowed text op = not_range op
is_allowed code contains = false
is_allowed code op = not_range op
is_allowed country is_any_of = true
is_allowed country op = false
is_allowed number range = true
is_allowed number op = false
is_allowed date range = true
is_allowed date op = false
is_allowed year range = true
is_allowed year op = false

unfoldable pub validate_condition_operator : FieldKind → ConditionOp → Result (Unit {0}) SearchError
validate_condition_operator kind op = if is_allowed kind op then ok tt else err (not_valid op kind)

-- The trimmed value, if there is one that is not blank.
abbrev pub given : Unicode → Option String → Option String
given u none = none
given u (some s) = if is_empty_text (trimmed u s) then none else some (trimmed u s)

unfoldable pub required : Unicode → Option String → Result String SearchError
required u v = elim (given u v) [ none ↦ err needs_value | some s ↦ ok s ]

abbrev pub numeric_expr : SearchFieldSql → String
numeric_expr field = elim field.number_column [
  | some column ↦ column
  | none ↦ elim field.number_style [
    | NumberStyle.prefer_grouped ↦ around "num_value_grouped(" field.expr ")"
    | NumberStyle.prefer_decimal ↦ around "num_value(" field.expr ")"
  ]
]

abbrev pub country_clause : SearchFieldSql → String
country_clause field = elim field.country_column [
  | some column ↦ around "" column " = ?"
  | none ↦ around "country_key(" field.expr ") = ?"
]

unfoldable pub year_value : String → Result ℕ SearchError
year_value value = elim (parse_year value) [ none ↦ err not_a_year | some y ↦ ok y ]

module _ {ℓ} {F : Type ℓ} where
  unfoldable pub field_params : SearchFieldSql → List (SqlValue F)
  field_params field = elim field.extra_header [ none ↦ [] | some h ↦ text_value h ∷ [] ]

  -- A clause on the field with one more value.
  abbrev pub with_value : SearchFieldSql → String → SqlValue F → Clause F
  with_value field sql v = (sql, field_params field ++ v ∷ [])

module _ {ℓ} {F : Type ℓ} (u : Unicode) (read_float : List ℕ → Option F) where
  unfoldable pub number_predicate : SearchFieldSql → String → Result (String × F) SearchError
  number_predicate field value = elim (parse_number_styled u read_float value field.number_style) [
    | none ↦ err not_a_number
    | some n ↦ ok (numeric_expr field, n)
  ]

  unfoldable pub equal_clause : SearchFieldSql → FieldKind → String → Result (Clause F) SearchError
  equal_clause field text value =
      ok (with_value field (around "text_key(" field.expr ") = text_key(?)") (text_value value))
  equal_clause field code value =
      ok (with_value field (around "TRIM(COALESCE(" field.expr ", '')) = ?") (text_value value))
  equal_clause field date value =
      ok (with_value field (around "TRIM(COALESCE(" field.expr ", '')) = ?") (text_value value))
  equal_clause field country value =
      ok (with_value field (country_clause field) (text_value (normalize_country_key u value)))
  equal_clause field number value = number_predicate field value >>= λ (p : String × F).
      ok (with_value field (around "" p.0 " = ?") (real_value p.1))
  equal_clause field year value = year_value value >>= λ y.
      ok (with_value field (around "" field.expr " = ?") (integer_value y))

  unfoldable pub compile_equal_clause : SearchFieldSql → String → Result (Clause F) SearchError
  compile_equal_clause field value = equal_clause field field.kind value

  unfoldable pub range_bound :
      SearchFieldSql → FieldKind → String → String → Result (Clause F) SearchError
  range_bound field number cmp value = number_predicate field value >>= λ (p : String × F).
      ok (with_value field (around "" p.0 (around " " cmp " ?")) (real_value p.1))
  range_bound field year cmp value = year_value value >>= λ y.
      ok (with_value field (around "" field.expr (around " " cmp " ?")) (integer_value y))
  range_bound field date cmp value = ok (
      with_value field (around "TRIM(COALESCE(" field.expr (around ", '')) " cmp " ?"))
        (text_value value))
  range_bound field kind cmp value = err wrong_kind

  -- The bound on one side, if one is given.
  unfoldable pub compile_range_bound :
      SearchFieldSql → String → Option String → Result (List (Clause F)) SearchError
  compile_range_bound field cmp bound = elim (given u bound) [
    | none ↦ ok []
    | some value ↦ range_bound field field.kind cmp value >>= λ c. ok (c ∷ [])
  ]
