-- ===== src/Search/Placeholders.antt =====
-- src/storage/search_sql.rs: a compiled expression has as many placeholders as values.
use base_search.Prelude.{
  ℕ, ◌≡◌, refl, subst, String, Option, none, some, List, All, length, Result, ok, ◌>>=◌, Bool-cases,
  inl, inr, Ensures, Ensures-bind, Ensures-any, Ensures-if_ok,
}
use base_search.Prelude.Texts.{Unicode, occurrences}
use base_search.Shapes.Columns.{SourceSchemaField, TableShape}
use base_search.Search.Expr.{
  ConditionOp, contains, equals, starts_with, is_any_of, range, is_not_empty, ConditionValue,
  no_value, one_value, value_list, value_range, single, QueryCondition, condition_is_empty,
  QueryExpr, group, condition, QueryExprs, none_left, child,
}
use base_search.Search.Resolve.{SearchError, SearchFieldSql}
use base_search.Search.Clauses.{SqlValue, Clause, validate_condition_operator, required}
use base_search.Search.Compile.{
  contains_clause, operator_clause, compile_condition, compile_query_expr, compile_children,
  add_clause,
}
use base_search.Search.Counting.{placeholders, Plain}
use base_search.Search.Alignment.{IsAligned, PlainField, search_field_sql-IsAligned}
use base_search.Search.Bindings.{
  IfSome, IsBound, on_field-IsBound, bare-IsBound, wrapped-IsBound, group_clause-IsBound,
}
use base_search.Search.OperatorBindings.{
  compile_equal_clause-IsBound, compile_range_clause-IsBound, equal_clauses-IsBound,
  prefix_clause-IsBound, joined_or_none-IsBound,
}

module _ {ℓ} {F : Type ℓ} (u : Unicode) (read_float : List ℕ → Option F) where
  module _ (field : SearchFieldSql) (aligned : IsAligned field) where
    some_of :
        (r : Result (Clause F) SearchError)
        → Ensures IsBound r
        → Ensures (IfSome IsBound) (r >>= λ c. ok (some c))
    some_of r h = Ensures-bind IsBound (IfSome IsBound) r _ h λ c hc. hc

    with_required :
        (value : Option String) (f : String → Result (Option (Clause F)) SearchError)
        → ((s : String) → Ensures (IfSome IsBound) (f s))
        → Ensures (IfSome IsBound) (required u value >>= f)
    with_required value f h =
        Ensures-bind (λ _. Unit {0}) (IfSome IsBound) (required u value) f
          (Ensures-any (required u value)) λ s _. h s

    operator_clause-IsBound :
        (op : ConditionOp) (value : ConditionValue)
        → Ensures (IfSome IsBound) (operator_clause u read_float field op value)
    unfolding operator_clause contains_clause placeholders occurrences
    operator_clause-IsBound contains value =
        with_required (single value) _
          λ s. on_field-IsBound field aligned "cyr_contains(" ", ?)" _ refl refl
    operator_clause-IsBound equals value =
        with_required (single value) _
          λ s. some_of _ (compile_equal_clause-IsBound u read_float field aligned s)
    operator_clause-IsBound starts_with value =
        with_required (single value) _
          λ s. some_of _ (prefix_clause-IsBound u read_float field aligned field.kind s)
    operator_clause-IsBound is_any_of (value_list vs) =
        Ensures-bind (All IsBound) (IfSome IsBound) _ _
          (equal_clauses-IsBound u read_float field aligned vs)
          λ cs h. joined_or_none-IsBound u read_float field aligned cs h
    operator_clause-IsBound is_any_of no_value = tt
    operator_clause-IsBound is_any_of (one_value v) = tt
    operator_clause-IsBound is_any_of (value_range from to) = tt
    operator_clause-IsBound range value =
        some_of _ (compile_range_clause-IsBound u read_float field aligned value)
    operator_clause-IsBound ConditionOp.is_empty value =
        bare-IsBound field aligned F "TRIM(COALESCE(" ", '')) = ''" refl refl
    operator_clause-IsBound is_not_empty value =
        bare-IsBound field aligned F "TRIM(COALESCE(" ", '')) <> ''" refl refl

  module _ (shape : Option TableShape) (payload : String)
      (lookup : List (String × SourceSchemaField)) (plain : Plain payload)
      (stored : All PlainField lookup) where
    compile_condition-IsBound :
        (c : QueryCondition)
        → Ensures (IfSome IsBound) (compile_condition u read_float shape payload lookup c)
    unfolding compile_condition
    compile_condition-IsBound c = elim (Bool-cases (condition_is_empty u c.op c.value)) [
      | inl blank ↦ rw (blank, Ensures) tt
      | inr filled ↦
          rw (filled, Ensures)
            (Ensures-bind IsAligned (IfSome IsBound) _ _
              (Ensures-if_ok IsAligned _
                λ f e. search_field_sql-IsAligned payload plain u shape lookup c.field f stored e)
              λ f aligned.
                Ensures-bind (λ _. Unit {0}) (IfSome IsBound) _ _
                  (Ensures-any (validate_condition_operator f.kind c.op))
                  λ _ _.
                    Ensures-bind (IfSome IsBound) (IfSome IsBound) _ _
                      (operator_clause-IsBound f aligned c.op c.value)
                      λ clause h. wrapped-IsBound c.negated clause h)
    ]

    pub add_clause-IsBound :
        (c : Option (Clause F)) (clauses : List (Clause F))
        → IfSome IsBound c
        → All IsBound clauses
        → All IsBound (add_clause c clauses)
    add_clause-IsBound none clauses h hs = hs
    add_clause-IsBound (some c) clauses h hs = (h, hs)

    mutual
      unfolding compile_query_expr

      pub expr-IsBound :
          (e : QueryExpr)
          → Ensures (IfSome IsBound) (compile_query_expr u read_float shape payload lookup e)
      expr-IsBound (group op negated children) =
          Ensures-bind (All IsBound) (IfSome IsBound) _ _ (children-IsBound children)
            λ clauses h. group_clause-IsBound op negated clauses h
      expr-IsBound (condition c) = compile_condition-IsBound c

      children-IsBound :
          (es : QueryExprs)
          → Ensures (All IsBound) (compile_children u read_float shape payload lookup es)
      children-IsBound none_left = tt
      children-IsBound (child e es) =
          Ensures-bind (IfSome IsBound) (All IsBound) _ _ (expr-IsBound e) λ c h.
            Ensures-bind (All IsBound) (All IsBound) _ _ (children-IsBound es)
              λ clauses hs. add_clause-IsBound c clauses h hs

    -- If the expression compiles to a condition, its text has exactly as many placeholders as the
    -- condition has values to bind, for every expression, shape and set of registered fields, if
    -- the alias of the table and the names of the stored columns hold no '?'.
    pub compile_query_expr-placeholders :
        (e : QueryExpr) (sql : String) (params : List (SqlValue F))
        → compile_query_expr u read_float shape payload lookup e ≡ ok (some (sql, params))
        → placeholders sql ≡ length params
    compile_query_expr-placeholders e sql params h =
        subst (Ensures (IfSome IsBound)) h (expr-IsBound e)
