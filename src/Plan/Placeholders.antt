-- ===== src/Plan/Placeholders.antt =====
-- src/storage/query_plan.rs: the values of a plan are those that its text asks for.
use base_search.Prelude.{
  ℕ, ◌+◌, ◌≡◌, refl, subst, String, Bool, true, false, Option, none, some, List, [], ◌∷◌, All,
  All-append, length, ok, Ensures, Ensures-bind, arith,
}
use base_search.Prelude.Texts.{Unicode, occurrences, occurrences-append, join}
use base_search.Shapes.Columns.{SemanticField, SourceSchemaField, TableShape}
use base_search.Search.Clauses.{Clause}
use base_search.Search.Compile.{texts}
use base_search.Search.Expr.{QueryExpr}
use base_search.Search.Counting.{placeholders, placeholders-join, total, Plain}
use base_search.Search.Alignment.{PlainField}
use base_search.Search.Bindings.{IfSome, IsBound, total-texts}
use base_search.Search.Placeholders.{expr-IsBound, add_clause-IsBound}
use base_search.Plan.Sources.{columns_of}
use base_search.Plan.SourceTexts.{PlainColumn}
use base_search.Plan.Filters.{Filters, Query, text_code_prefix}
use base_search.Plan.Bindings.{
  fts_clauses-All, year_clauses-All, code_prefix_clauses-All, product_code_clauses-All,
  key_clauses-All, country_clauses-All, contains_clauses-All,
}
use base_search.Plan.Build.{
  FilterPlan, payload_join, joins_of, alias_of, scope_clauses, where_text, filter_clauses,
  advanced_clauses, plan_of, build_filter_plan,
}

abbrev IsBoundPlan {ℓ} : {F : Type ℓ} → FilterPlan F → Type 0
IsBoundPlan plan = placeholders plan.joins + placeholders plan.where_sql ≡ length plan.params

joins_of-Plain : (unique_only : Bool) → Plain (joins_of unique_only)
unfolding payload_join placeholders occurrences
joins_of-Plain true = refl
joins_of-Plain false = refl

alias_of-Plain : (unique_only : Bool) → Plain (alias_of unique_only)
unfolding placeholders occurrences
alias_of-Plain true = refl
alias_of-Plain false = refl

where_text-placeholders : (ss : List String) → placeholders (where_text ss) ≡ total ss
unfolding placeholders occurrences
where_text-placeholders [] = refl
where_text-placeholders (s ∷ ss) = omega (
  arith,
  occurrences-append 63 " WHERE " (join " AND " (s ∷ ss)),
  placeholders-join " AND " (s ∷ ss) refl,
)

module _ {ℓ} {F : Type ℓ} (u : Unicode) (read_float : List ℕ → Option F) (shape : Option TableShape)
    (lookup : List (String × SourceSchemaField)) (columns : All PlainColumn (columns_of shape))
    (stored : All PlainField lookup) where
  filter_clauses-All :
      (alias : String) (watermark : ℕ) (q : Query)
      → Plain alias
      → All (IsBound {F = F}) (filter_clauses u read_float shape lookup alias watermark q)
  unfolding filter_clauses placeholders occurrences
  filter_clauses-All alias watermark q plain =
      let f : Filters = q.filters in
      let keys = key_clauses-All F u alias shape plain columns in
      let countries = country_clauses-All F u alias shape plain columns in
      let texts_of = contains_clauses-All F u alias shape plain columns in
      All-append IsBound _ _ (fts_clauses-All F u alias shape plain columns watermark q) (
        All-append IsBound _ _ (year_clauses-All F u alias shape plain columns f.year) (
          All-append IsBound _ _
            (code_prefix_clauses-All F u alias shape plain columns
              (text_code_prefix u shape q.text))
            (All-append IsBound _ _
              (product_code_clauses-All F u alias shape plain columns f.product_code)
              (All-append IsBound _ _ (keys SemanticField.company_code "edrpou" f.edrpou refl) (
                All-append IsBound _ _ (keys SemanticField.trademark "trademark" f.trademark refl) (
                  All-append IsBound _ _
                    (countries SemanticField.trade_country "trade_key" f.trade_country refl)
                    (All-append IsBound _ _
                      (countries SemanticField.dispatch_country "dispatch_key" f.dispatch_country
                        refl)
                      (All-append IsBound _ _
                        (countries SemanticField.origin_country "origin_key" f.origin_country refl)
                        (All-append IsBound _ _ (texts_of SemanticField.description f.description) (
                          All-append IsBound _ _ (texts_of SemanticField.sender f.sender)
                            (texts_of SemanticField.recipient f.recipient)))))))))))

  advanced_clauses-Ensures :
      (alias : String) (o : Option QueryExpr)
      → Plain alias
      → Ensures (All IsBound) (advanced_clauses u read_float shape lookup alias o)
  unfolding advanced_clauses
  advanced_clauses-Ensures alias none plain = tt
  advanced_clauses-Ensures alias (some e) plain =
      Ensures-bind (IfSome IsBound) (All IsBound) _ _
        (expr-IsBound u read_float shape alias lookup plain stored e)
        λ c h. add_clause-IsBound u read_float shape alias lookup plain stored c [] h tt

  scope_clauses-All : (unique_only : Bool) → All (IsBound {F = F}) (scope_clauses unique_only)
  unfolding placeholders occurrences
  scope_clauses-All true = (refl, tt)
  scope_clauses-All false = tt

  plan_of-IsBoundPlan :
      (unique_only : Bool) (clauses : List (Clause F))
      → All IsBound clauses
      → IsBoundPlan (plan_of u read_float shape lookup unique_only clauses)
  plan_of-IsBoundPlan unique_only clauses h = omega (
    arith,
    joins_of-Plain unique_only,
    where_text-placeholders (texts clauses),
    total-texts clauses h,
  )

  -- If a search is planned, the joins and the condition of the plan have together exactly as many
  -- placeholders as there are values to bind, for every search, shape and set of registered
  -- fields, if the headers and the stored names of the shape's columns and the stored names of the
  -- registered fields hold no '?'.
  pub build_filter_plan-placeholders :
      (q : Query) (unique_only : Bool) (watermark : ℕ) (plan : FilterPlan F)
      → build_filter_plan u read_float shape lookup q unique_only watermark ≡ ok plan
      → placeholders plan.joins + placeholders plan.where_sql ≡ length plan.params
  unfolding build_filter_plan
  build_filter_plan-placeholders q unique_only watermark plan h =
      let plain = alias_of-Plain unique_only in
      subst (Ensures IsBoundPlan) h (
        Ensures-bind (All IsBound) IsBoundPlan _ _
          (advanced_clauses-Ensures (alias_of unique_only) q.advanced plain)
          λ advanced bound. plan_of-IsBoundPlan unique_only _ (
            All-append IsBound _ _ (filter_clauses-All (alias_of unique_only) watermark q plain)
              (All-append IsBound advanced _ bound (scope_clauses-All unique_only))))
