-- ===== src/Plan/Filters.antt =====
-- src/storage/query_plan.rs, with `Filters` and `Query` of src/db_types.rs and the SQL texts of
-- src/storage/effective_rows.rs: the conditions of the single filters. A filter that is not set
-- gives no condition.
use base_search.Prelude.{
  ℕ, zero, suc, String, Bool, true, Option, none, some, List, [], ◌∷◌, length, any, if◌then◌else◌,
}
use base_search.Prelude.Texts.{Unicode, join, trimmed, is_empty}
use base_search.Values.Keys.{parse_year, glob_escape}
use base_search.Values.Countries.{normalize_country_key}
use base_search.Shapes.Columns.{SemanticField, TableShape}
use base_search.Search.Expr.{QueryExpr}
use base_search.Search.Clauses.{SqlValue, text_value, integer_value, Clause, around}
use base_search.Search.Resolve.{column_sql}
use base_search.Search.Terms.{
  search_text_expr_with_prefix, build_fts_query, fts_prefix_terms, plain_search_terms,
  product_code_search_prefix,
}
use base_search.Plan.Sources.{has_semantic, or_else, text_expr, country_key_expr, month_expr}

pub record Filters : Type 0 where
  pub year : String
  pub product_code : String
  pub trademark : String
  pub description : String
  pub sender : String
  pub recipient : String
  pub edrpou : String
  pub trade_country : String
  pub dispatch_country : String
  pub origin_country : String

pub record Query : Type 0 where
  pub text : String
  pub filters : Filters
  pub advanced : Option QueryExpr

unfoldable pub searchable_payload_clause : String → String
searchable_payload_clause alias = around alias ".canonical_id IS NULL AND (\n             " (
    around alias
      ".dup_first_file IS NULL OR NOT EXISTS (\n                 SELECT 1\n                 FROM records searchable_owner\n                 WHERE searchable_owner.row_hash = "
      (around alias ".row_hash\n                   AND searchable_owner.schema_id IS " (
        around alias
          ".schema_id\n                   AND searchable_owner.dup_first_file IS NULL\n                   AND searchable_owner.canonical_id IS NULL\n             )\n         )"
          "")))

abbrev pub tail_clause : String
tail_clause = around "cyr_contains(" (search_text_expr_with_prefix "tail_owner.") ", ?)"

unfoldable pub repeat : ℕ → String → List String
repeat zero s = []
repeat (suc n) s = s ∷ repeat n s

unfoldable pub fts_filter_clause : ℕ → String
fts_filter_clause tail_term_count =
    around
      "(r.row_hash IN (\n             SELECT fts_owner.row_hash\n             FROM records_fts\n             JOIN records fts_owner ON fts_owner.id = records_fts.rowid\n             WHERE records_fts MATCH ?\n         ) OR r.row_hash IN (\n             SELECT tail_owner.row_hash\n             FROM records tail_owner\n             WHERE "
      (join " AND " (
        searchable_payload_clause "tail_owner"
        ∷ "tail_owner.id > ?"
        ∷ repeat tail_term_count tail_clause))
      "\n         ))"

-- A trimmed value, if it is not empty.
abbrev pub set_value : Unicode → String → Option String
set_value u s = if is_empty (trimmed u s) then none else some (trimmed u s)

-- `has_product_code`.
abbrev pub has_product_code : Option TableShape → Bool
has_product_code none = true
has_product_code (some shape) = any (has_semantic SemanticField.product_code) shape.columns

unfoldable pub text_code_prefix : Unicode → Option TableShape → String → Option String
text_code_prefix u shape text =
    if has_product_code shape then product_code_search_prefix u text else none

-- Adding terms to the expression of the full-text search.
abbrev pub add_terms : String → Option String → String
add_terms match_expr none = match_expr
add_terms match_expr (some terms) =
    if is_empty match_expr then terms else around match_expr " " terms

abbrev pub terms_of_filter : Unicode → String → Option String
terms_of_filter u s = elim (set_value u s) [ none ↦ none | some v ↦ fts_prefix_terms u v ]

abbrev text_terms : Unicode → Option String → String → String
text_terms u none text = build_fts_query u text
text_terms u (some code) text = ""

unfoldable pub match_expr : Unicode → Option TableShape → Query → String
match_expr u shape q =
    let first : String = text_terms u (text_code_prefix u shape q.text) q.text in
    let add : String → String → String = λ expr s. add_terms expr (terms_of_filter u s) in
    add (add (add (add first q.filters.trademark) q.filters.description) q.filters.sender)
      q.filters.recipient

abbrev pub tail_terms : Unicode → Option String → String → List String
tail_terms u none text = plain_search_terms u text
tail_terms u (some code) text = []

-- The conditions of a value that is given.
abbrev pub clauses_if {ℓ κ} :
    {A : Type ℓ} {F : Type κ} → Option A → (A → List (Clause F)) → List (Clause F)
clauses_if none f = []
clauses_if (some a) f = f a

-- The column of a meaning, or the one of the profile.
abbrev pub column_or : String → Option TableShape → SemanticField → String → String
column_or alias shape field name = or_else (text_expr alias shape field) (column_sql alias name)

module _ {ℓ} {F : Type ℓ} where
  abbrev pub text_values : List String → List (SqlValue F)
  text_values [] = []
  text_values (s ∷ ss) = text_value s ∷ text_values ss

  abbrev pub glob_value : String → SqlValue F
  glob_value code = text_value (around "" (glob_escape code) "*")

  abbrev pub year_clause : String → Option String → ℕ → Clause F
  year_clause alias none year = (around "" alias ".year = ?", integer_value year ∷ [])
  year_clause alias (some month) year = (
    around "(" alias (
        around ".year = ? OR (" alias
          (around ".year IS NULL AND CAST(SUBSTR(" month ", 1, 4) AS INTEGER) = ?))")),
    integer_value year ∷ integer_value year ∷ [],
  )

module _ {ℓ} {F : Type ℓ} (u : Unicode) (alias : String) (shape : Option TableShape) where
  unfoldable pub fts_clauses : ℕ → Query → List (Clause F)
  fts_clauses watermark q =
      let expr : String = match_expr u shape q in
      let terms : List String = tail_terms u (text_code_prefix u shape q.text) q.text in
      if is_empty expr
      then []
      else (
        fts_filter_clause (length terms),
        text_value expr ∷ integer_value watermark ∷ text_values terms,
      )
        ∷ []

  unfoldable pub year_clauses : String → List (Clause F)
  year_clauses s =
      clauses_if (parse_year s)
        λ year. year_clause alias (month_expr alias shape SemanticField.date) year ∷ []

  unfoldable pub code_prefix_clauses : Option String → List (Clause F)
  code_prefix_clauses none = []
  code_prefix_clauses (some code) =
      (
        around "(" (column_or alias shape SemanticField.product_code "product_code") (
            around " GLOB ? OR text_key("
              (column_or alias shape SemanticField.company_code "edrpou") ") = text_key(?))"),
        glob_value code ∷ text_value code ∷ [],
      )
      ∷ []

  unfoldable pub product_code_clauses : String → List (Clause F)
  product_code_clauses s = clauses_if (set_value u s) λ code.
      (
        around "" (column_or alias shape SemanticField.product_code "product_code") " GLOB ?",
        glob_value code ∷ [],
      )
      ∷ []

  -- Equality of text keys, for company codes and trademarks.
  unfoldable pub key_clauses : SemanticField → String → String → List (Clause F)
  key_clauses field name s = clauses_if (set_value u s) λ value.
      (
        around "text_key(" (column_or alias shape field name) ") = text_key(?)",
        text_value value ∷ [],
      )
      ∷ []

  unfoldable pub country_clauses : SemanticField → String → String → List (Clause F)
  country_clauses field fallback s = clauses_if (set_value u s) λ value.
      (
        around "" (or_else (country_key_expr alias shape field) (column_sql alias fallback)) " = ?",
        text_value (normalize_country_key u value) ∷ [],
      )
      ∷ []

  unfoldable pub contains_clauses : SemanticField → String → List (Clause F)
  contains_clauses field s = clauses_if (set_value u s) λ value.
      clauses_if (text_expr alias shape field)
        λ e. (around "cyr_contains(" e ", ?)", text_value (u.lowercase value) ∷ []) ∷ []
