-- ===== src/Plan/Bindings.antt =====
-- src/storage/query_plan.rs: a plan binds one value to each of its placeholders.
use base_search.Prelude.{
  ℕ, zero, suc, ◌+◌, ◌≡◌, refl, String, Option, none, some, List, [], ◌∷◌, string_eq, All, length,
  arith, Bool-cases, inl, inr,
}
use base_search.Prelude.Texts.{Unicode, occurrences, occurrences-append, join, is_empty}
use base_search.Values.Keys.{parse_year}
use base_search.Shapes.Columns.{SemanticField, TableShape}
use base_search.Search.Schema.{search_columns}
use base_search.Search.Clauses.{SqlValue, Clause, around}
use base_search.Search.Resolve.{column_sql}
use base_search.Search.Terms.{search_text_expr_with_prefix}
use base_search.Search.Counting.{placeholders, placeholders-around, placeholders-join, total, Plain}
use base_search.Search.Alignment.{Agrees, column_sql-Plain}
use base_search.Search.Bindings.{IsBound}
use base_search.Plan.Sources.{columns_of, or_else, text_expr, country_key_expr, month_expr}
use base_search.Plan.SourceTexts.{
  PlainColumn, text_expr-Plain, country_key_expr-Plain, month_expr-Plain,
}
use base_search.Plan.Filters.{
  Query, searchable_payload_clause, tail_clause, repeat, fts_filter_clause, set_value,
  text_code_prefix, match_expr, tail_terms, column_or, text_values, fts_clauses, year_clause,
  year_clauses, code_prefix_clauses, product_code_clauses, key_clauses, country_clauses, clauses_if,
  contains_clauses,
}

searchable-Plain : Plain (searchable_payload_clause "tail_owner")
unfolding searchable_payload_clause around placeholders occurrences
searchable-Plain = refl

tail_clause-placeholders : placeholders tail_clause ≡ 1
unfolding around search_text_expr_with_prefix search_columns join placeholders occurrences
tail_clause-placeholders = refl

total-repeat : (n : ℕ) → total (repeat n tail_clause) ≡ n
unfolding repeat
total-repeat zero = refl
total-repeat (suc n) = omega (arith, total-repeat n, tail_clause-placeholders)

fts_filter_clause-placeholders : (n : ℕ) → placeholders (fts_filter_clause n) ≡ n + 2
unfolding fts_filter_clause placeholders occurrences
fts_filter_clause-placeholders n =
    let parts : List String =
      searchable_payload_clause "tail_owner" ∷ "tail_owner.id > ?" ∷ repeat n tail_clause in
    simp placeholders-around
      (omega (arith, placeholders-join " AND " parts refl, searchable-Plain, total-repeat n))

length-text_values {ℓ} :
    (F : Type ℓ) (ss : List String) → length (text_values {F = F} ss) ≡ length ss
length-text_values F [] = refl
length-text_values F (s ∷ ss) = omega (arith, length-text_values F ss)

clauses_if-All {ℓ κ} :
    {A : Type ℓ} {F : Type κ} (o : Option A) (f : A → List (Clause F))
    → ((a : A) → All IsBound (f a))
    → All IsBound (clauses_if o f)
clauses_if-All none f h = tt
clauses_if-All (some a) f h = h a

or_else-Plain : (o : Option String) (s : String) → Agrees o 0 → Plain s → Plain (or_else o s)
or_else-Plain none s ho hs = hs
or_else-Plain (some t) s ho hs = ho

module _ {ℓ} (F : Type ℓ) (u : Unicode) (alias : String) (shape : Option TableShape)
    (plain : Plain alias) (columns : All PlainColumn (columns_of shape)) where
  column_or-Plain :
      (field : SemanticField) (name : String)
      → Plain name
      → Plain (column_or alias shape field name)
  column_or-Plain field name h =
      or_else-Plain (text_expr alias shape field) (column_sql alias name)
        (text_expr-Plain alias plain shape columns field) (column_sql-Plain alias plain name h)

  pub fts_clauses-All :
      (watermark : ℕ) (q : Query) → All (IsBound {F = F}) (fts_clauses u alias shape watermark q)
  unfolding fts_clauses
  fts_clauses-All watermark q = elim (Bool-cases (is_empty (match_expr u shape q))) [
    | inl e ↦ rw e tt
    | inr e ↦ rw e (
      omega (
        arith,
        fts_filter_clause-placeholders
            (length (tail_terms u (text_code_prefix u shape q.text) q.text)),
        length-text_values F (tail_terms u (text_code_prefix u shape q.text) q.text),
      ),
      tt,
    )
  ]

  year_clause-IsBound :
      (month : Option String) (year : ℕ)
      → Agrees month 0
      → IsBound {F = F} (year_clause alias month year)
  unfolding around placeholders occurrences
  year_clause-IsBound none year h = simp occurrences-append (omega (arith, plain))
  year_clause-IsBound (some month) year h = simp occurrences-append (omega (arith, plain, h))

  pub year_clauses-All : (s : String) → All (IsBound {F = F}) (year_clauses u alias shape s)
  unfolding year_clauses
  year_clauses-All s = clauses_if-All (parse_year s) _ λ year. (
    year_clause-IsBound (month_expr alias shape SemanticField.date) year
        (month_expr-Plain alias plain shape columns SemanticField.date),
    tt,
  )

  pub code_prefix_clauses-All :
      (o : Option String) → All (IsBound {F = F}) (code_prefix_clauses u alias shape o)
  unfolding code_prefix_clauses around placeholders occurrences
  code_prefix_clauses-All none = tt
  code_prefix_clauses-All (some code) = (
    simp occurrences-append (
        omega (
          arith,
          column_or-Plain SemanticField.product_code "product_code" refl,
          column_or-Plain SemanticField.company_code "edrpou" refl,
        )),
    tt,
  )

  pub product_code_clauses-All :
      (s : String) → All (IsBound {F = F}) (product_code_clauses u alias shape s)
  unfolding product_code_clauses around placeholders occurrences
  product_code_clauses-All s = clauses_if-All (set_value u s) _ λ code. (
    simp occurrences-append
        (omega (arith, column_or-Plain SemanticField.product_code "product_code" refl)),
    tt,
  )

  pub key_clauses-All :
      (field : SemanticField) (name s : String)
      → Plain name
      → All (IsBound {F = F}) (key_clauses u alias shape field name s)
  unfolding key_clauses around placeholders occurrences
  key_clauses-All field name s h =
      clauses_if-All (set_value u s) _
        λ value. (simp occurrences-append (omega (arith, column_or-Plain field name h)), tt)

  pub country_clauses-All :
      (field : SemanticField) (name s : String)
      → Plain name
      → All (IsBound {F = F}) (country_clauses u alias shape field name s)
  unfolding country_clauses around placeholders occurrences
  country_clauses-All field name s h = clauses_if-All (set_value u s) _ λ value. (
    simp occurrences-append (
        omega (
          arith,
          or_else-Plain (country_key_expr alias shape field) (column_sql alias name)
              (country_key_expr-Plain alias plain shape columns field)
              (column_sql-Plain alias plain name h),
        )),
    tt,
  )

  contains_on-All :
      (o : Option String) (v : SqlValue F)
      → Agrees o 0
      → All (IsBound {F = F}) (clauses_if o λ e. (around "cyr_contains(" e ", ?)", v ∷ []) ∷ [])
  unfolding around placeholders occurrences
  contains_on-All none v h = tt
  contains_on-All (some e) v h = (simp occurrences-append (omega (arith, h)), tt)

  pub contains_clauses-All :
      (field : SemanticField) (s : String)
      → All (IsBound {F = F}) (contains_clauses u alias shape field s)
  unfolding contains_clauses
  contains_clauses-All field s = clauses_if-All (set_value u s) _ λ value.
      contains_on-All (text_expr alias shape field) _
        (text_expr-Plain alias plain shape columns field)
