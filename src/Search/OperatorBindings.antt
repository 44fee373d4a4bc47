-- ===== src/Search/OperatorBindings.antt =====
-- src/storage/search_sql.rs: the placeholders of the clauses of single operators.
use base_search.Prelude.{
  ℕ, ◌≡◌, refl, String, Option, List, [], ◌∷◌, ◌++◌, string_eq, All, All-append, ok, err, ◌>>=◌,
  arith, Bool-cases, Option-cases, inl, inr, Ensures, Ensures-bind,
}
use base_search.Prelude.Texts.{Unicode, occurrences, trimmed, is_empty as is_empty_text}
use base_search.Values.Numbers.{parse_number_styled}
use base_search.Search.Expr.{ConditionValue, no_value, one_value, value_list, value_range}
use base_search.Search.Fields.{FieldKind, text, code, country, number, date, year}
use base_search.Search.Resolve.{SearchFieldSql}
use base_search.Search.Clauses.{
  real_value, integer_value, Clause, around, given, with_value, number_predicate, year_value,
  equal_clause, compile_equal_clause, range_bound, compile_range_bound,
}
use base_search.Search.Compile.{
  joined_or_none, equal_clauses, range_of_bounds, compile_range_clause, prefix_clause,
}
use base_search.Search.Counting.{placeholders, placeholders-around, Plain}
use base_search.Search.Alignment.{header_count, IsAligned}
use base_search.Search.Bindings.{
  IfSome, IsBound, joined-IsBound, with_value-IsBound, on_field-IsBound, numeric_expr-placeholders,
  country_clause-placeholders,
}

module _ {ℓ} {F : Type ℓ} (u : Unicode) (read_float : List ℕ → Option F) (field : SearchFieldSql)
    (aligned : IsAligned field) where
  number_predicate-Ensures :
      (value : String)
      → Ensures
          (λ (p : String × F). placeholders p.0 ≡ header_count field.extra_header)
          (number_predicate u read_float field value)
  unfolding number_predicate
  number_predicate-Ensures value =
      elim (Option-cases (parse_number_styled u read_float value field.number_style)) [
        | inl e ↦ rw (e, Ensures) tt
        | inr (n, e) ↦ rw (e, Ensures) (numeric_expr-placeholders field aligned)
      ]

  -- A comparison with a number.
  number_clause-IsBound :
      (after value : String)
      → placeholders after ≡ 1
      → Ensures (IsBound {F = F}) (
          number_predicate u read_float field value >>= λ (p : String × F).
          ok (with_value field (around "" p.0 after) (real_value p.1)))
  unfolding placeholders occurrences
  number_clause-IsBound after value h =
      Ensures-bind (λ (p : String × F). placeholders p.0 ≡ header_count field.extra_header) IsBound
        (number_predicate u read_float field value) _ (number_predicate-Ensures value)
        λ (p : String × F) e.
          with_value-IsBound field aligned (around "" p.0 after) (real_value p.1)
            (omega (arith, e, placeholders-around "" p.0 after))

  year_clause-IsBound :
      (after value : String)
      → placeholders after ≡ 1
      → Ensures (IsBound {F = F}) (
          year_value value >>= λ y.
          ok (with_value field (around "" field.expr after) (integer_value y)))
  unfolding placeholders occurrences
  year_clause-IsBound after value h =
      elim (year_value value)
        as (λ r.
          Ensures (IsBound {F = F})
            (r >>= λ y. ok (with_value field (around "" field.expr after) (integer_value y)))) [
              | ok y ↦ on_field-IsBound field aligned "" after _ refl h
              | err e ↦ tt
            ]

  equal_clause-IsBound :
      (kind : FieldKind) (value : String)
      → Ensures IsBound (equal_clause u read_float field kind value)
  unfolding equal_clause placeholders occurrences
  equal_clause-IsBound text value =
      on_field-IsBound field aligned "text_key(" ") = text_key(?)" _ refl refl
  equal_clause-IsBound code value =
      on_field-IsBound field aligned "TRIM(COALESCE(" ", '')) = ?" _ refl refl
  equal_clause-IsBound date value =
      on_field-IsBound field aligned "TRIM(COALESCE(" ", '')) = ?" _ refl refl
  equal_clause-IsBound country value =
      with_value-IsBound field aligned _ _ (country_clause-placeholders field aligned)
  equal_clause-IsBound number value = number_clause-IsBound " = ?" value refl
  equal_clause-IsBound year value = year_clause-IsBound " = ?" value refl

  pub compile_equal_clause-IsBound :
      (value : String) → Ensures IsBound (compile_equal_clause u read_float field value)
  unfolding compile_equal_clause
  compile_equal_clause-IsBound value = equal_clause-IsBound field.kind value

  range_bound-IsBound :
      (kind : FieldKind) (cmp value : String)
      → Plain cmp
      → Ensures IsBound (range_bound u read_float field kind cmp value)
  unfolding range_bound placeholders occurrences
  range_bound-IsBound number cmp value h =
      number_clause-IsBound (around " " cmp " ?") value
        (omega (arith, h, placeholders-around " " cmp " ?"))
  range_bound-IsBound year cmp value h =
      year_clause-IsBound (around " " cmp " ?") value
        (omega (arith, h, placeholders-around " " cmp " ?"))
  range_bound-IsBound date cmp value h =
      on_field-IsBound field aligned "TRIM(COALESCE(" (around ", '')) " cmp " ?") _ refl
        (omega (arith, h, placeholders-around ", '')) " cmp " ?"))
  range_bound-IsBound text cmp value h = tt
  range_bound-IsBound code cmp value h = tt
  range_bound-IsBound country cmp value h = tt

  compile_range_bound-IsBound :
      (cmp : String) (bound : Option String)
      → Plain cmp
      → Ensures (All IsBound) (compile_range_bound u read_float field cmp bound)
  unfolding compile_range_bound
  compile_range_bound-IsBound cmp bound h = elim (Option-cases (given u bound)) [
    | inl e ↦ rw (e, Ensures) tt
    | inr (value, e) ↦
        rw (e, Ensures)
          (Ensures-bind IsBound (All IsBound) (range_bound u read_float field field.kind cmp value)
            (λ c. ok (c ∷ [])) (range_bound-IsBound field.kind cmp value h) λ c hc. (hc, tt))
  ]

  range_of_bounds-IsBound :
      (clauses : List (Clause F))
      → All IsBound clauses
      → Ensures IsBound (range_of_bounds u read_float clauses)
  unfolding range_of_bounds placeholders occurrences
  range_of_bounds-IsBound [] h = tt
  range_of_bounds-IsBound (c ∷ cs) h = joined-IsBound " AND " (c ∷ cs) refl h

  pub compile_range_clause-IsBound :
      (value : ConditionValue) → Ensures IsBound (compile_range_clause u read_float field value)
  unfolding compile_range_clause
  compile_range_clause-IsBound (value_range from to) =
      Ensures-bind (All IsBound) IsBound _ _
        (compile_range_bound-IsBound ">=" from (unfold placeholders occurrences in refl))
        λ low hl.
          Ensures-bind (All IsBound) IsBound _ _
            (compile_range_bound-IsBound "<=" to (unfold placeholders occurrences in refl))
            λ high hh. range_of_bounds-IsBound (low ++ high) (All-append IsBound low high hl hh)
  compile_range_clause-IsBound no_value = tt
  compile_range_clause-IsBound (one_value v) = tt
  compile_range_clause-IsBound (value_list vs) = tt

  pub equal_clauses-IsBound :
      (vs : List String) → Ensures (All IsBound) (equal_clauses u read_float field vs)
  unfolding equal_clauses
  equal_clauses-IsBound [] = tt
  equal_clauses-IsBound (v ∷ vs) = elim (Bool-cases (is_empty_text (trimmed u v))) [
    | inl blank ↦ rw (blank, Ensures) (equal_clauses-IsBound vs)
    | inr filled ↦
        rw (filled, Ensures)
          (Ensures-bind IsBound (All IsBound) _ _ (compile_equal_clause-IsBound (trimmed u v))
            λ c hc.
              Ensures-bind (All IsBound) (All IsBound) _ _ (equal_clauses-IsBound vs)
                λ cs hcs. (hc, hcs))
  ]

  pub prefix_clause-IsBound :
      (kind : FieldKind) (value : String)
      → Ensures IsBound (prefix_clause u read_float field kind value)
  unfolding prefix_clause placeholders occurrences
  prefix_clause-IsBound code value = on_field-IsBound field aligned "" " GLOB ?" _ refl refl
  prefix_clause-IsBound text value =
      on_field-IsBound field aligned "text_key(" ") GLOB ?" _ refl refl
  prefix_clause-IsBound country value = tt
  prefix_clause-IsBound number value = tt
  prefix_clause-IsBound date value = tt
  prefix_clause-IsBound year value = tt

  pub joined_or_none-IsBound :
      (clauses : List (Clause F))
      → All IsBound clauses
      → IfSome IsBound (joined_or_none " OR " clauses)
  joined_or_none-IsBound [] h = tt
  joined_or_none-IsBound (c ∷ cs) h =
      joined-IsBound " OR " (c ∷ cs) (unfold placeholders occurrences in refl) h
