-- ===== src/Search/Emptiness.antt =====
-- src/storage/search_sql.rs: which expressions compile to no condition.
use base_search.Prelude.{
  ℕ, ◌≡◌, refl, subst, ◌↔◌, String, Bool, true, false, Option, none, some, List, [], ◌∷◌, all,
  Result, ok, err, ◌>>=◌, Bool-cases, inl, inr, Ensures, Ensures-bind, Ensures-any,
}
use base_search.Prelude.Texts.{Unicode, trimmed, is_empty as is_empty_text}
use base_search.Shapes.Columns.{SourceSchemaField, TableShape}
use base_search.Search.Expr.{
  ConditionOp, contains, equals, starts_with, is_any_of, range, is_not_empty, ConditionValue,
  no_value, one_value, value_list, value_range, single, QueryCondition, is_blank,
  condition_is_empty, expr_is_empty, group_is_empty, LogicOp, QueryExpr, group, condition,
  QueryExprs, none_left, child,
}
use base_search.Search.Resolve.{SearchFieldSql, search_field_sql}
use base_search.Search.Clauses.{Clause, validate_condition_operator, required, compile_equal_clause}
use base_search.Search.Compile.{
  equal_clauses, prefix_clause, compile_range_clause, operator_clause, wrapped, group_clause,
  compile_condition, compile_query_expr, compile_children, add_clause, joined_or_none,
}

abbrev IsSome {ℓ} : {A : Type ℓ} → Option A → Type 0
IsSome none = ⊥
IsSome (some a) = Unit

abbrev IsNonempty {ℓ} : {A : Type ℓ} → List A → Type 0
IsNonempty [] = ⊥
IsNonempty (x ∷ xs) = Unit

some_result {ℓ κ} :
    {A : Type ℓ} {E : Type κ} (r : Result A E) → Ensures IsSome (r >>= λ a. ok (some a))
some_result (ok a) = tt
some_result (err e) = tt

after_any {ℓ κ μ} :
    {A : Type ℓ} {B : Type μ} {E : Type κ} (r : Result A E) (f : A → Result (Option B) E)
    → ((a : A) → Ensures IsSome (f a))
    → Ensures IsSome (r >>= f)
after_any (ok a) f h = h a
after_any (err e) f h = tt

nonempty_joins {ℓ} :
    {F : Type ℓ} (cs : List (Clause F)) → IsNonempty cs → IsSome (joined_or_none " OR " cs)
nonempty_joins [] h = h
nonempty_joins (c ∷ cs) h = tt

module _ {ℓ} {F : Type ℓ} (u : Unicode) (read_float : List ℕ → Option F) where
  equal_clauses-IsNonempty :
      (field : SearchFieldSql) (vs : List String)
      → all (is_blank u) vs ≡ false
      → Ensures IsNonempty (equal_clauses u read_float field vs)
  unfolding equal_clauses
  equal_clauses-IsNonempty field [] h = absurd (cc)
  equal_clauses-IsNonempty field (v ∷ vs) h = elim (Bool-cases (is_empty_text (trimmed u v))) [
    | inl blank ↦ rw (blank, Ensures) (equal_clauses-IsNonempty field vs (rw blank at h))
    | inr filled ↦
        rw (filled, Ensures)
          (Ensures-bind (λ _. Unit {0}) IsNonempty
            (compile_equal_clause u read_float field (trimmed u v)) _ (Ensures-any _)
            λ c _.
              Ensures-bind (λ _. Unit {0}) IsNonempty (equal_clauses u read_float field vs) _
                (Ensures-any _) λ cs _. tt)
  ]

  -- A condition that is not empty has a clause, if it compiles.
  operator_clause-IsSome :
      (field : SearchFieldSql) (op : ConditionOp) (value : ConditionValue)
      → condition_is_empty u op value ≡ false
      → Ensures IsSome (operator_clause u read_float field op value)
  unfolding operator_clause condition_is_empty
  operator_clause-IsSome field contains value h = after_any (required u (single value)) _ λ s. tt
  operator_clause-IsSome field equals value h =
      after_any (required u (single value)) _
        λ s. some_result (compile_equal_clause u read_float field s)
  operator_clause-IsSome field starts_with value h =
      after_any (required u (single value)) _
        λ s. some_result (prefix_clause u read_float field field.kind s)
  operator_clause-IsSome field is_any_of (value_list vs) h =
      Ensures-bind IsNonempty IsSome (equal_clauses u read_float field vs) _
        (equal_clauses-IsNonempty field vs h) nonempty_joins
  operator_clause-IsSome field is_any_of no_value h = tt
  operator_clause-IsSome field is_any_of (one_value v) h = tt
  operator_clause-IsSome field is_any_of (value_range from to) h = tt
  operator_clause-IsSome field range value h =
      some_result (compile_range_clause u read_float field value)
  operator_clause-IsSome field ConditionOp.is_empty value h = tt
  operator_clause-IsSome field is_not_empty value h = tt

  wrapped-IsSome : (negated : Bool) (c : Option (Clause F)) → IsSome c → IsSome (wrapped negated c)
  unfolding wrapped
  wrapped-IsSome negated none h = h
  wrapped-IsSome negated (some c) h = tt

  group_clause-IsSome :
      (op : LogicOp) (negated : Bool) (cs : List (Clause F))
      → IsNonempty cs
      → IsSome (group_clause op negated cs)
  unfolding group_clause
  group_clause-IsSome op negated [] h = h
  group_clause-IsSome LogicOp.and negated (c ∷ cs) h = tt
  group_clause-IsSome LogicOp.or negated (c ∷ cs) h = tt

  add_some-IsNonempty :
      (c : Option (Clause F)) (cs : List (Clause F)) → IsSome c → IsNonempty (add_clause c cs)
  add_some-IsNonempty none cs h = absurd h
  add_some-IsNonempty (some c) cs h = tt

  add-IsNonempty :
      (c : Option (Clause F)) (cs : List (Clause F)) → IsNonempty cs → IsNonempty (add_clause c cs)
  add-IsNonempty none cs h = h
  add-IsNonempty (some c) cs h = tt

  module _ (shape : Option TableShape) (payload : String)
      (lookup : List (String × SourceSchemaField)) where
    compile_condition-IsSome :
        (c : QueryCondition)
        → condition_is_empty u c.op c.value ≡ false
        → Ensures IsSome (compile_condition u read_float shape payload lookup c)
    unfolding compile_condition
    compile_condition-IsSome c filled =
        rw (filled, Ensures)
          (after_any (search_field_sql u shape payload lookup c.field) _ λ f.
            after_any (validate_condition_operator f.kind c.op) _ λ _.
              Ensures-bind IsSome IsSome (operator_clause u read_float f c.op c.value) _
                (operator_clause-IsSome f c.op c.value filled)
                λ clause h. wrapped-IsSome c.negated clause h)

    mutual
      unfolding compile_query_expr expr_is_empty

      expr-IsSome :
          (e : QueryExpr)
          → expr_is_empty u e ≡ false
          → Ensures IsSome (compile_query_expr u read_float shape payload lookup e)
      expr-IsSome (group op negated children) h =
          Ensures-bind IsNonempty IsSome
            (compile_children u read_float shape payload lookup children) _
            (children-IsNonempty children h) λ cs hc. group_clause-IsSome op negated cs hc
      expr-IsSome (condition c) h = compile_condition-IsSome c h

      children-IsNonempty :
          (es : QueryExprs)
          → group_is_empty u es ≡ false
          → Ensures IsNonempty (compile_children u read_float shape payload lookup es)
      children-IsNonempty none_left h = absurd (cc)
      children-IsNonempty (child e es) h = elim (Bool-cases (expr_is_empty u e)) [
        | inl empty ↦
            Ensures-bind (λ _. Unit {0}) IsNonempty
              (compile_query_expr u read_float shape payload lookup e) _ (Ensures-any _)
              λ c _.
                Ensures-bind IsNonempty IsNonempty
                  (compile_children u read_float shape payload lookup es) _
                  (children-IsNonempty es (rw empty at h)) λ cs hc. add-IsNonempty c cs hc
        | inr filled ↦
            Ensures-bind IsSome IsNonempty (compile_query_expr u read_float shape payload lookup e)
              _ (expr-IsSome e filled)
              λ c hc.
                Ensures-bind (λ _. Unit {0}) IsNonempty
                  (compile_children u read_float shape payload lookup es) _ (Ensures-any _)
                  λ cs _. add_some-IsNonempty c cs hc
      ]

    mutual
      unfolding compile_query_expr expr_is_empty compile_condition group_clause

      empty_expr :
          (e : QueryExpr)
          → expr_is_empty u e ≡ true
          → compile_query_expr u read_float shape payload lookup e ≡ ok none
      empty_expr (group op negated children) h = rw (empty_children children h) refl
      empty_expr (condition c) h = rw h refl

      empty_children :
          (es : QueryExprs)
          → group_is_empty u es ≡ true
          → compile_children u read_float shape payload lookup es ≡ ok []
      empty_children none_left h = refl
      empty_children (child e es) h = elim (Bool-cases (expr_is_empty u e)) [
        | inl empty ↦ rw (empty_expr e empty, empty_children es (rw empty at h)) refl
        | inr filled ↦ absurd (let x : false ≡ true = rw filled at h in cc)
      ]

    -- An expression compiles without an error to no condition exactly when it is empty. So an
    -- expression that holds a filled condition either fails or restricts the search.
    pub compile_query_expr-none_iff :
        (e : QueryExpr)
        → (compile_query_expr u read_float shape payload lookup e ≡ ok none)
          ↔ (expr_is_empty u e ≡ true)
    compile_query_expr-none_iff e = (
      λ h. elim (Bool-cases (expr_is_empty u e)) [
        | inl empty ↦ empty
        | inr filled ↦ absurd (subst (Ensures IsSome) h (expr-IsSome e filled))
      ],
      empty_expr e,
    )
