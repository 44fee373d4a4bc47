-- ===== src/Search/Bindings.antt =====
-- src/storage/search_sql.rs: the placeholders of joined, negated and wrapped clauses.
use base_search.Prelude.{
  ◌+◌, ◌≡◌, refl, ◌∙◌, sym, subst, String, Bool, true, false, Option, none, some, List, [], ◌∷◌,
  ◌++◌, string_eq, All, length, length-append, arith, Option-cases, inl, inr,
}
use base_search.Prelude.Texts.{occurrences, join}
use base_search.Search.Expr.{LogicOp}
use base_search.Search.Resolve.{SearchFieldSql}
use base_search.Search.Clauses.{
  SqlValue, Clause, around, field_params, with_value, numeric_expr, country_clause,
}
use base_search.Search.Compile.{texts, all_params, joined, negate_if, group_clause, wrapped}
use base_search.Search.Counting.{placeholders, placeholders-around, placeholders-join, total, Plain}
use base_search.Search.Alignment.{header_count, Agrees, IsAligned}

abbrev pub IfSome {ℓ κ} : {A : Type ℓ} → (A → Type κ) → Option A → Type κ
IfSome P none = Unit
IfSome P (some a) = P a

module _ {ℓ} {F : Type ℓ} where
  abbrev pub IsBound : Clause F → Type 0
  IsBound c = placeholders c.0 ≡ length c.1

  pub total-texts :
      (clauses : List (Clause F))
      → All IsBound clauses
      → total (texts clauses) ≡ length (all_params clauses)
  total-texts [] h = refl
  total-texts ((sql, params) ∷ clauses) h =
      omega (arith, h.0, total-texts clauses h.1, length-append params (all_params clauses))

  pub joined-IsBound :
      (joiner : String) (clauses : List (Clause F))
      → Plain joiner
      → All IsBound clauses
      → IsBound (joined joiner clauses)
  unfolding joined placeholders occurrences
  joined-IsBound joiner clauses plain h = omega (
    arith,
    placeholders-around "(" (join joiner (texts clauses)) ")",
    placeholders-join joiner (texts clauses) plain,
    total-texts clauses h,
  )

  negate_if-IsBound : (negated : Bool) (c : Clause F) → IsBound c → IsBound (negate_if negated c)
  unfolding negate_if placeholders occurrences
  negate_if-IsBound true c h = omega (arith, placeholders-around "NOT (" c.0 ")")
  negate_if-IsBound false c h = h

  pub wrapped-IsBound :
      (negated : Bool) (c : Option (Clause F))
      → IfSome IsBound c
      → IfSome IsBound (wrapped negated c)
  unfolding wrapped placeholders occurrences
  wrapped-IsBound negated none h = tt
  wrapped-IsBound negated (some c) h =
      omega
        (arith, placeholders-around "(" (negate_if negated c).0 ")", negate_if-IsBound negated c h)

  pub group_clause-IsBound :
      (op : LogicOp) (negated : Bool) (clauses : List (Clause F))
      → All IsBound clauses
      → IfSome IsBound (group_clause op negated clauses)
  unfolding group_clause placeholders occurrences
  group_clause-IsBound op negated [] h = tt
  group_clause-IsBound LogicOp.and negated (c ∷ cs) h =
      negate_if-IsBound negated _ (joined-IsBound " AND " (c ∷ cs) refl h)
  group_clause-IsBound LogicOp.or negated (c ∷ cs) h =
      negate_if-IsBound negated _ (joined-IsBound " OR " (c ∷ cs) refl h)

  module _ (field : SearchFieldSql) (aligned : IsAligned field) where
    length-field_params :
        (v : SqlValue F)
        → length (field_params field ++ v ∷ []) ≡ header_count field.extra_header + 1
    unfolding field_params
    length-field_params v = elim (Option-cases field.extra_header) [
      | inl e ↦ rw e refl
      | inr (h, e) ↦ rw e refl
    ]

    pub with_value-IsBound :
        (sql : String) (v : SqlValue F)
        → placeholders sql ≡ header_count field.extra_header + 1
        → IsBound (with_value field sql v)
    with_value-IsBound sql v h = h ∙ sym (length-field_params v)

    -- A text before the field's expression, and one behind it with one placeholder.
    pub on_field-IsBound :
        (before after : String) (v : SqlValue F)
        → Plain before
        → placeholders after ≡ 1
        → IsBound (with_value field (around before field.expr after) v)
    on_field-IsBound before after v hb ha =
        with_value-IsBound _ v
          (omega (arith, placeholders-around before field.expr after, aligned.of_expr))

module _ (field : SearchFieldSql) (aligned : IsAligned field) where
  -- A text before the field's expression and one behind it, without a value of its own.
  pub bare-IsBound {ℓ} :
      (F : Type ℓ) (before after : String)
      → Plain before
      → Plain after
      → IsBound {F = F} (around before field.expr after, field_params field)
  unfolding field_params
  bare-IsBound F before after hb ha = elim (Option-cases field.extra_header) [
    | inl e ↦ rw e (
        omega (
          arith,
          placeholders-around before field.expr after,
          subst (λ o. placeholders field.expr ≡ header_count o) e aligned.of_expr,
        ))
    | inr (h, e) ↦ rw e (
        omega (
          arith,
          placeholders-around before field.expr after,
          subst (λ o. placeholders field.expr ≡ header_count o) e aligned.of_expr,
        ))
  ]

  pub numeric_expr-placeholders :
      placeholders (numeric_expr field) ≡ header_count field.extra_header
  unfolding placeholders occurrences
  numeric_expr-placeholders = elim (Option-cases field.number_column) [
    | inl e ↦
        rw (e, numeric_expr)
          (ground (
            arith,
            aligned.of_expr,
            placeholders-around "num_value_grouped(" field.expr ")",
            placeholders-around "num_value(" field.expr ")",
          ))
    | inr (c, e) ↦
        rw (e, numeric_expr)
          (subst (λ o. Agrees o (header_count field.extra_header)) e aligned.of_number)
  ]

  pub country_clause-placeholders :
      placeholders (country_clause field) ≡ header_count field.extra_header + 1
  unfolding placeholders occurrences
  country_clause-placeholders = elim (Option-cases field.country_column) [
    | inl e ↦
        rw (e, country_clause)
          (omega (arith, aligned.of_expr, placeholders-around "country_key(" field.expr ") = ?"))
    | inr (c, e) ↦
        rw (e, country_clause)
          (let a : placeholders c ≡ header_count field.extra_header =
              subst (λ o. Agrees o (header_count field.extra_header)) e aligned.of_country in
            omega (arith, placeholders-around "" c " = ?"))
  ]
