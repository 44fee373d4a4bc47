-- ===== src/Search/Resolve.antt =====
-- src/storage/search_sql.rs: the SQL expression, the kind and the parsing style of a field.
use Prim.Native.String.{◌++◌}
use base_search.Prelude.{
  ℕ, String, Bool, true, false, ◌&&◌, Option, none, some, List, [], ◌∷◌, any, if◌then◌else◌, ◌==◌,
  string_eq, Result, ok, err,
}
use base_search.Prelude.Dict.{get}
use base_search.Prelude.Texts.{Unicode, trimmed, is_empty, one_of, decimal, nocase, codes_eq}
use base_search.Shapes.Columns.{
  SemanticField, ColumnStorage, source_json, schema_column, SourceColumn, TableShape,
  SourceSchemaField,
}
use base_search.Values.Numbers.{NumberStyle, prefer_decimal, prefer_grouped}
use base_search.Values.Derived.{num_column_for, key_column_for, number_style_for}
use base_search.Search.Expr.{FieldRef, column, extra, source_field, field_id, field_eq, ConditionOp}
use base_search.Search.Schema.{result_columns}
use base_search.Search.Fields.{
  FieldKind, text, year, FieldInfo, field_kind_for_column, field_kind_for_source_schema_field,
}
use base_search.Search.Catalog.{nonempty_shape, field_catalog, field_catalog_for_context}

-- The messages of `invalid_search_input`.
pub data SearchError : Type 0 where
  unknown_field : String → SearchError
  empty_header needs_value not_a_number not_a_year : SearchError
  needs_list needs_range no_boundary wrong_kind : SearchError
  not_valid : ConditionOp → FieldKind → SearchError

pub record SearchFieldSql : Type 0 where
  pub expr : String
  pub extra_header : Option String
  pub kind : FieldKind
  pub number_column : Option String
  pub number_style : NumberStyle
  pub country_column : Option String

-- A read that sees only the rows of one schema.
unfoldable pub guarded : String → ℕ → String → String
guarded payload schema_id e =
    "CASE WHEN "
    ++ (payload ++ (".schema_id = " ++ (decimal schema_id ++ (" THEN " ++ (e ++ " END")))))

unfoldable pub column_sql : String → String → String
column_sql payload name = payload ++ ("." ++ name)

unfoldable pub extra_sql : String → String
extra_sql payload = "extra_value(" ++ (payload ++ ".extra, ?)")

abbrev pub map_text : (String → String) → Option String → Option String
map_text f none = none
map_text f (some s) = some (f s)

abbrev or_decimal : Option NumberStyle → NumberStyle
or_decimal none = prefer_decimal
or_decimal (some style) = style

abbrev pub is_grouped_semantic : Option SemanticField → Bool
is_grouped_semantic (some SemanticField.value) = true
is_grouped_semantic (some SemanticField.quantity) = true
is_grouped_semantic other = false

abbrev style_if : Bool → NumberStyle
style_if grouped = if grouped then prefer_grouped else prefer_decimal

unfoldable pub source_json_number_style : SourceSchemaField → NumberStyle
source_json_number_style f = style_if (is_grouped_semantic f.semantic)

-- A column of the shape that has the header, in any case of ASCII letters, and a grouped meaning.
abbrev gives_grouped : Unicode → String → SourceColumn → Bool
gives_grouped u header c =
    (nocase (trimmed u c.header) == nocase header) && is_grouped_semantic c.semantic

unfoldable pub extra_number_style : Unicode → String → Option TableShape → NumberStyle
extra_number_style u header none = prefer_decimal
extra_number_style u header (some shape) = style_if (any (gives_grouped u header) shape.columns)

abbrev kind_of_first : FieldRef → List FieldInfo → Option FieldKind
kind_of_first field [] = none
kind_of_first field (info ∷ rest) =
    if field_eq info.source field
    then some info.kind
    else if info.id == field_id field
    then some info.kind
    else kind_of_first field rest

unfoldable pub kind_for_field_ref : Unicode → FieldRef → Option TableShape → Option FieldKind
kind_for_field_ref u field shape = elim (nonempty_shape shape) [
  | none ↦ none
  | some s ↦ kind_of_first field (field_catalog_for_context u (some s) [])
]

abbrev last_kind : FieldKind → List FieldInfo → FieldKind
last_kind kind [] = kind
last_kind kind (info ∷ rest) = last_kind info.kind rest

unfoldable pub extra_kind : Unicode → String → Option TableShape → FieldKind
extra_kind u header shape = elim (kind_for_field_ref u (extra header) shape) [
  | some kind ↦ kind
  | none ↦ last_kind text (field_catalog u (trimmed u header ∷ []))
]

-- A field of a registered schema.
unfoldable pub stored_field_sql : String → SourceSchemaField → ColumnStorage → SearchFieldSql
stored_field_sql payload f (schema_column name) = record {
  expr = guarded payload f.schema_id (column_sql payload name);
  extra_header = none;
  kind = field_kind_for_source_schema_field f;
  number_column =
      map_text (λ c. guarded payload f.schema_id (column_sql payload c)) (num_column_for name);
  number_style = or_decimal (number_style_for name);
  country_column =
      map_text (λ c. guarded payload f.schema_id (column_sql payload c)) (key_column_for name);
}
stored_field_sql payload f source_json = record {
  expr = guarded payload f.schema_id (extra_sql payload);
  extra_header = some f.header;
  kind = field_kind_for_source_schema_field f;
  number_column = none;
  number_style = source_json_number_style f;
  country_column = none;
}

-- A column of the profile.
unfoldable pub column_field_sql : String → String → SearchFieldSql
column_field_sql payload name = record {
  expr = column_sql payload name;
  extra_header = none;
  kind = field_kind_for_column name;
  number_column = map_text (column_sql payload) (num_column_for name);
  number_style = or_decimal (number_style_for name);
  country_column = map_text (column_sql payload) (key_column_for name);
}

unfoldable pub year_field_sql : String → SearchFieldSql
year_field_sql payload = record {
  expr = column_sql payload "year";
  extra_header = none;
  kind = year;
  number_column = none;
  number_style = prefer_decimal;
  country_column = none;
}

-- A header in the JSON of a row.
unfoldable pub extra_field_sql : Unicode → Option TableShape → String → String → SearchFieldSql
extra_field_sql u shape payload header = record {
  expr = extra_sql payload;
  extra_header = some (trimmed u header);
  kind = extra_kind u header shape;
  number_column = none;
  number_style = extra_number_style u (trimmed u header) shape;
  country_column = none;
}

unfoldable pub search_field_sql :
    Unicode
    → Option TableShape
    → String
    → List (String × SourceSchemaField)
    → FieldRef
    → Result SearchFieldSql SearchError
search_field_sql u shape payload lookup (source_field id) = elim (get id lookup) [
  | none ↦ err (unknown_field id)
  | some f ↦ ok (stored_field_sql payload f f.storage)
]
search_field_sql u shape payload lookup (column name) =
    if name == "year"
    then ok (year_field_sql payload)
    else if one_of result_columns name
    then ok (column_field_sql payload name)
    else err (unknown_field name)
search_field_sql u shape payload lookup (extra header) =
    if is_empty (trimmed u header)
    then err empty_header
    else ok (extra_field_sql u shape payload header)
