-- ===== src/Search/Compile.antt =====
-- src/storage/search_sql.rs: `compile_condition` and `compile_query_expr`: the SQL condition of a
-- query expression, none for an expression that is empty.
use base_search.Prelude.{
  ℕ, String, Bool, Option, none, some, List, [], ◌∷◌, ◌++◌, if◌then◌else◌, Result, ok, err, ◌>>=◌,
}
use base_search.Prelude.Texts.{Unicode, trimmed, is_empty as is_empty_text, join}
use base_search.Values.Keys.{normalize_text_key, glob_escape}
use base_search.Shapes.Columns.{TableShape, SourceSchemaField}
use base_search.Search.Expr.{
  LogicOp, ConditionOp, contains, equals, starts_with, is_any_of, range, is_not_empty,
  ConditionValue, value_range, single, values, QueryCondition, condition_is_empty, QueryExpr, group,
  condition, QueryExprs, none_left, child,
}
use base_search.Search.Fields.{FieldKind, text, code}
use base_search.Search.Resolve.{
  SearchError, needs_list, needs_range, no_boundary, wrong_kind, SearchFieldSql, search_field_sql,
}
use base_search.Search.Clauses.{
  SqlValue, text_value, Clause, around, validate_condition_operator, required, field_params,
  with_value, compile_equal_clause, compile_range_bound,
}

module _ {ℓ} {F : Type ℓ} where
  -- The texts joined, the values one after the other.
  abbrev pub texts : List (Clause F) → List String
  texts [] = []
  texts ((sql, params) ∷ clauses) = sql ∷ texts clauses

  abbrev pub all_params : List (Clause F) → List (SqlValue F)
  all_params [] = []
  all_params ((sql, params) ∷ clauses) = params ++ all_params clauses

  unfoldable pub joined : String → List (Clause F) → Clause F
  joined joiner clauses = (around "(" (join joiner (texts clauses)) ")", all_params clauses)

  unfoldable pub negate_if : Bool → Clause F → Clause F
  negate_if negated c = if negated then (around "NOT (" c.0 ")", c.1) else c

  abbrev pub joined_or_none : String → List (Clause F) → Option (Clause F)
  joined_or_none joiner [] = none
  joined_or_none joiner (c ∷ cs) = some (joined joiner (c ∷ cs))

  -- A group of one clause at least.
  unfoldable pub group_clause : LogicOp → Bool → List (Clause F) → Option (Clause F)
  group_clause op negated [] = none
  group_clause LogicOp.and negated (c ∷ cs) = some (negate_if negated (joined " AND " (c ∷ cs)))
  group_clause LogicOp.or negated (c ∷ cs) = some (negate_if negated (joined " OR " (c ∷ cs)))

  abbrev pub add_clause : Option (Clause F) → List (Clause F) → List (Clause F)
  add_clause none clauses = clauses
  add_clause (some c) clauses = c ∷ clauses

  -- `format!("({clause})")` round the clause or its negation.
  unfoldable pub wrapped : Bool → Option (Clause F) → Option (Clause F)
  wrapped negated none = none
  wrapped negated (some c) =
      let inner : Clause F = negate_if negated c in some (around "(" inner.0 ")", inner.1)

module _ {ℓ} {F : Type ℓ} (u : Unicode) (read_float : List ℕ → Option F) where
  -- The alternatives of "is any of": blank values are skipped.
  unfoldable pub equal_clauses : SearchFieldSql → List String → Result (List (Clause F)) SearchError
  equal_clauses field [] = ok []
  equal_clauses field (v ∷ vs) =
      if is_empty_text (trimmed u v)
      then equal_clauses field vs
      else compile_equal_clause u read_float field (trimmed u v) >>= λ c.
          equal_clauses field vs >>= λ cs. ok (c ∷ cs)

  unfoldable pub range_of_bounds : List (Clause F) → Result (Clause F) SearchError
  range_of_bounds [] = err no_boundary
  range_of_bounds (c ∷ cs) = ok (joined " AND " (c ∷ cs))

  unfoldable pub compile_range_clause :
      SearchFieldSql → ConditionValue → Result (Clause F) SearchError
  compile_range_clause field (value_range from to) =
      compile_range_bound u read_float field ">=" from >>= λ low.
      compile_range_bound u read_float field "<=" to >>= λ high. range_of_bounds (low ++ high)
  compile_range_clause field other = err needs_range

  unfoldable pub prefix_clause : SearchFieldSql → FieldKind → String → Result (Clause F) SearchError
  prefix_clause field code value = ok (
      with_value field (around "" field.expr " GLOB ?")
        (text_value (around "" (glob_escape value) "*")))
  prefix_clause field text value = ok (
      with_value field (around "text_key(" field.expr ") GLOB ?")
        (text_value (around "" (glob_escape (normalize_text_key u value)) "*")))
  prefix_clause field kind value = err wrong_kind

  unfoldable pub contains_clause : SearchFieldSql → String → Clause F
  contains_clause field value =
      with_value field (around "cyr_contains(" field.expr ", ?)") (text_value (u.lowercase value))

  -- The clause of an operator, before the negation.
  unfoldable pub operator_clause :
      SearchFieldSql → ConditionOp → ConditionValue → Result (Option (Clause F)) SearchError
  operator_clause field contains v =
      required u (single v) >>= λ s. ok (some (contains_clause field s))
  operator_clause field equals v =
      required u (single v) >>= λ s. compile_equal_clause u read_float field s >>= λ c. ok (some c)
  operator_clause field starts_with v =
      required u (single v) >>= λ s. prefix_clause field field.kind s >>= λ c. ok (some c)
  operator_clause field is_any_of v = elim (values v) [
    | none ↦ err needs_list
    | some vs ↦ equal_clauses field vs >>= λ cs. ok (joined_or_none " OR " cs)
  ]
  operator_clause field range v = compile_range_clause field v >>= λ c. ok (some c)
  operator_clause field ConditionOp.is_empty v =
      ok (some (around "TRIM(COALESCE(" field.expr ", '')) = ''", field_params field))
  operator_clause field is_not_empty v =
      ok (some (around "TRIM(COALESCE(" field.expr ", '')) <> ''", field_params field))

  module _ (shape : Option TableShape) (payload : String)
      (lookup : List (String × SourceSchemaField)) where
    unfoldable pub compile_condition : QueryCondition → Result (Option (Clause F)) SearchError
    compile_condition c =
        if condition_is_empty u c.op c.value
        then ok none
        else search_field_sql u shape payload lookup c.field >>= λ field.
            validate_condition_operator field.kind c.op >>= λ _.
            operator_clause field c.op c.value >>= λ clause. ok (wrapped c.negated clause)

    unfoldable mutual
      pub compile_query_expr : QueryExpr → Result (Option (Clause F)) SearchError
      compile_query_expr (group op negated children) =
          compile_children children >>= λ clauses. ok (group_clause op negated clauses)
      compile_query_expr (condition c) = compile_condition c

      pub compile_children : QueryExprs → Result (List (Clause F)) SearchError
      compile_children none_left = ok []
      compile_children (child e es) =
          compile_query_expr e >>= λ c. compile_children es >>= λ clauses. ok (add_clause c clauses)
