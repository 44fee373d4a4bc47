-- ===== src/Plan/Sources.antt =====
-- src/storage/analytics_columns.rs: the SQL expressions that read a meaning of the rows, whichever
-- columns carry it. A source is the storage of a column, with the header for a JSON value.
use Prim.Native.Char.{Char, code}
use base_search.Prelude.{
  ℕ, String, Bool, false, Option, none, some, List, [], ◌∷◌, ◌++◌, ◌==◌, nat_eq, string_eq, keep,
  any, map, if◌then◌else◌,
}
use base_search.Prelude.Texts.{flat_map, join}
use base_search.Values.Derived.{key_column_for, month_column_for}
use base_search.Shapes.Columns.{SemanticField, SourceColumn, TableShape, source_json, schema_column}
use base_search.Search.Schema.{semantic_columns}
use base_search.Search.Clauses.{around}
use base_search.Search.Resolve.{column_sql}

pub data Source : Type 0 where
  schema : String → Source
  extra : String → Source

abbrev pub source_eq : Source → Source → Bool
source_eq (schema a) (schema b) = a == b
source_eq (extra a) (extra b) = a == b
source_eq a b = false

-- The place of a meaning among the constructors, by which `==` compares two.
unfoldable pub semantic_index : SemanticField → ℕ
semantic_index SemanticField.date = 0
semantic_index SemanticField.declaration_number = 1
semantic_index SemanticField.company_code = 2
semantic_index SemanticField.sender = 3
semantic_index SemanticField.recipient = 4
semantic_index SemanticField.product_code = 5
semantic_index SemanticField.description = 6
semantic_index SemanticField.trademark = 7
semantic_index SemanticField.country = 8
semantic_index SemanticField.origin_country = 9
semantic_index SemanticField.dispatch_country = 10
semantic_index SemanticField.trade_country = 11
semantic_index SemanticField.quantity = 12
semantic_index SemanticField.net_weight = 13
semantic_index SemanticField.gross_weight = 14
semantic_index SemanticField.value = 15
semantic_index SemanticField.currency = 16
semantic_index SemanticField.weight_unit = 17

abbrev pub same_semantic : SemanticField → SemanticField → Bool
same_semantic a b = semantic_index a == semantic_index b

-- `column.semantic == Some(field)`.
abbrev pub has_semantic : SemanticField → SourceColumn → Bool
has_semantic field c = elim c.semantic [ none ↦ false | some s ↦ same_semantic s field ]

abbrev pub column_in : SemanticField → List (SemanticField × String) → Option String
column_in field [] = none
column_in field ((s, name) ∷ rest) =
    if same_semantic s field then some name else column_in field rest

unfoldable pub column_for_semantic : SemanticField → Option String
column_for_semantic field = column_in field semantic_columns

abbrev pub source_of : SourceColumn → Source
source_of c = elim c.storage [ source_json ↦ extra c.header | schema_column name ↦ schema name ]

-- The columns with the meaning, each source once.
unfoldable pub add_sources : List Source → List SourceColumn → List Source
add_sources sources [] = sources
add_sources sources (c ∷ cs) =
    add_sources
      (if any (source_eq (source_of c)) sources then sources else sources ++ source_of c ∷ []) cs

abbrev pub columns_of : Option TableShape → List SourceColumn
columns_of none = []
columns_of (some shape) = shape.columns

abbrev pub or_profile : Option String → List Source → List Source
or_profile (some name) [] = schema name ∷ []
or_profile none [] = []
or_profile other (s ∷ ss) = s ∷ ss

unfoldable pub sources_for : Option TableShape → SemanticField → List Source
sources_for shape field =
    or_profile (column_for_semantic field)
      (add_sources [] (keep (has_semantic field) (columns_of shape)))

abbrev pub doubled : Char → String
doubled c = if code c == 39 then "''" else String.◌∷◌ c String.[]

unfoldable pub escape : String → String
escape value = flat_map doubled value

abbrev pub nonblank : String → String
nonblank e = around "NULLIF(" e ", '')"

unfoldable pub coalesce_text : List String → Option String
coalesce_text [] = none
coalesce_text (e ∷ []) = some e
coalesce_text (e ∷ f ∷ es) =
    some (around "COALESCE(" (join ", " (map nonblank (e ∷ f ∷ es))) ", '')")

-- A value of the JSON text, by a header that is written into the expression.
unfoldable pub extra_text : String → String → String
extra_text alias header = around "extra_value(" alias (around ".extra, '" (escape header) "')")

abbrev pub or_else : Option String → String → String
or_else none other = other
or_else (some s) other = s

module _ (alias : String) where
  abbrev pub materialized : Option String → String → String → String
  materialized none function name = around function (column_sql alias name) ")"
  materialized (some column) function name = column_sql alias column

  unfoldable pub text_of : Source → String
  text_of (schema name) = column_sql alias name
  text_of (extra header) = extra_text alias header

  unfoldable pub country_of_source : Source → String
  country_of_source (schema name) = materialized (key_column_for name) "country_key(" name
  country_of_source (extra header) = around "country_key(" (extra_text alias header) ")"

  unfoldable pub month_of_source : Source → String
  month_of_source (schema name) = materialized (month_column_for name) "month_key(" name
  month_of_source (extra header) = around "month_key(" (extra_text alias header) ")"

  module _ (shape : Option TableShape) (field : SemanticField) where
    unfoldable pub text_expr : Option String
    text_expr = coalesce_text (map text_of (sources_for shape field))

    unfoldable pub country_key_expr : Option String
    country_key_expr = coalesce_text (map country_of_source (sources_for shape field))

    unfoldable pub month_expr : Option String
    month_expr = coalesce_text (map month_of_source (sources_for shape field))
