-- ===== src/Plan/Build.antt =====
-- src/storage/query_plan.rs: `build_filter_plan`, which puts the conditions of a search together.
-- `unique_only` reads the rows that are no duplicates.
use Prim.Native.String
use base_search.Prelude.{
  ℕ, String, Bool, true, false, Option, none, some, List, [], ◌∷◌, ◌++◌, Result, ok, ◌>>=◌,
}
use base_search.Prelude.Texts.{Unicode, join}
use base_search.Shapes.Columns.{SemanticField, SourceSchemaField, TableShape}
use base_search.Search.Clauses.{SqlValue, Clause}
use base_search.Search.Resolve.{SearchError}
use base_search.Search.Compile.{texts, all_params, compile_query_expr, add_clause}
use base_search.Search.Expr.{QueryExpr}
use base_search.Plan.Filters.{
  Filters, Query, text_code_prefix, fts_clauses, year_clauses, code_prefix_clauses,
  product_code_clauses, key_clauses, country_clauses, contains_clauses,
}

pub record FilterPlan {ℓ} (F : Type ℓ) : Type ℓ where
  pub joins : String
  pub where_sql : String
  pub params : List (SqlValue F)
  pub payload_alias : String

unfoldable pub payload_join : String
payload_join =
    " JOIN records p ON p.id = COALESCE(\n         r.canonical_id,\n         CASE\n             WHEN r.dup_first_file IS NULL THEN r.id\n             ELSE COALESCE(\n                 (\n                     SELECT legacy_owner.id\n                     FROM records legacy_owner\n                     WHERE legacy_owner.row_hash = r.row_hash\n                       AND legacy_owner.schema_id IS r.schema_id\n                       AND legacy_owner.dup_first_file IS NULL\n                       AND legacy_owner.canonical_id IS NULL\n                     ORDER BY legacy_owner.id\n                     LIMIT 1\n                 ),\n                 r.id\n             )\n         END\n     ) AND p.schema_id IS r.schema_id"

abbrev pub joins_of : Bool → String
joins_of true = ""
joins_of false = payload_join

abbrev pub alias_of : Bool → String
alias_of true = "r"
alias_of false = "p"

-- `canonical_scope_clause`, where duplicates are left out.
abbrev pub scope_clauses {ℓ} : {F : Type ℓ} → Bool → List (Clause F)
scope_clauses true = ("r.dup_first_file IS NULL", []) ∷ []
scope_clauses false = []

abbrev pub where_text : List String → String
where_text [] = ""
where_text (s ∷ ss) = String.◌++◌ " WHERE " (join " AND " (s ∷ ss))

module _ {ℓ} {F : Type ℓ} (u : Unicode) (read_float : List ℕ → Option F) (shape : Option TableShape)
    (lookup : List (String × SourceSchemaField)) where
  -- The conditions of the text and of the filters, in their order.
  unfoldable pub filter_clauses : String → ℕ → Query → List (Clause F)
  filter_clauses alias watermark q =
      let f : Filters = q.filters in
      fts_clauses u alias shape watermark q
      ++ (year_clauses u alias shape f.year
          ++ (code_prefix_clauses u alias shape (text_code_prefix u shape q.text)
              ++ (product_code_clauses u alias shape f.product_code
                  ++ (key_clauses u alias shape SemanticField.company_code "edrpou" f.edrpou
                      ++ (key_clauses u alias shape SemanticField.trademark "trademark" f.trademark
                          ++ (country_clauses u alias shape SemanticField.trade_country "trade_key"
                                f.trade_country
                              ++ (country_clauses u alias shape SemanticField.dispatch_country
                                    "dispatch_key" f.dispatch_country
                                  ++ (country_clauses u alias shape SemanticField.origin_country
                                        "origin_key" f.origin_country
                                      ++ (contains_clauses u alias shape SemanticField.description
                                            f.description
                                          ++ (contains_clauses u alias shape SemanticField.sender
                                                f.sender
                                              ++ contains_clauses u alias shape
                                                  SemanticField.recipient f.recipient))))))))))

  unfoldable pub advanced_clauses : String → Option QueryExpr → Result (List (Clause F)) SearchError
  advanced_clauses alias none = ok []
  advanced_clauses alias (some e) =
      compile_query_expr u read_float shape alias lookup e >>= λ c. ok (add_clause c [])

  abbrev pub plan_of : Bool → List (Clause F) → FilterPlan F
  plan_of unique_only clauses = record {
    joins = joins_of unique_only;
    where_sql = where_text (texts clauses);
    params = all_params clauses;
    payload_alias = alias_of unique_only;
  }

  unfoldable pub build_filter_plan : Query → Bool → ℕ → Result (FilterPlan F) SearchError
  build_filter_plan q unique_only watermark =
      advanced_clauses (alias_of unique_only) q.advanced >>= λ advanced. ok (
        plan_of unique_only (
          filter_clauses (alias_of unique_only) watermark q
          ++ (advanced ++ scope_clauses unique_only)))
