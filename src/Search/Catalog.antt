-- ===== src/Search/Catalog.antt =====
-- src/search.rs: the catalogs of fields, for the built-in profile, for a table shape and for the
-- fields of registered schemas.
use Prim.Native.String
use base_search.Prelude.{
  String, Bool, true, false, Option, none, some, List, [], ◌∷◌, ◌++◌, map, any, if◌then◌else◌, ◌==◌,
  string_eq,
}
use base_search.Prelude.Texts.{Unicode, trimmed, is_empty}
use base_search.Shapes.Columns.{SourceColumn, TableShape, SourceSchemaField}
use base_search.Shapes.Headers.{stable_column_id}
use base_search.Shapes.Merging.{merge_column}
use base_search.Search.Expr.{FieldRef, column, extra, source_field, field_eq, field_id}
use base_search.Search.Schema.{result_columns, header_for}
use base_search.Search.Fields.{
  FieldKind, year, FieldInfo, field_kind_for_column, operators_for_kind, infer_extra_field_kind,
  field_info, source_column_field_info, field_kind_for_source_schema_field,
}

unfoldable pub profile_field : String → FieldInfo
profile_field name = field_info name (header_for name) (field_kind_for_column name)

unfoldable pub year_field : FieldInfo
year_field = field_info "year" "Year" year

unfoldable pub extra_field : Unicode → String → FieldInfo
extra_field u header =
    let kind : FieldKind = infer_extra_field_kind u header in
    record {
      id = String.◌++◌ "extra:" header;
      label = header;
      kind = kind;
      source = extra header;
      operators = operators_for_kind kind;
    }

unfoldable pub extra_fields : Unicode → List String → List FieldInfo
extra_fields u [] = []
extra_fields u (header ∷ headers) =
    let name : String = trimmed u header in
    if is_empty name then extra_fields u headers else extra_field u name ∷ extra_fields u headers

unfoldable pub result_field_catalog : Unicode → List String → List FieldInfo
result_field_catalog u extra_headers =
    map profile_field result_columns ++ extra_fields u extra_headers

unfoldable pub field_catalog : Unicode → List String → List FieldInfo
field_catalog u extra_headers = year_field ∷ result_field_catalog u extra_headers

-- Whether a field reads the column `source_file`.
abbrev pub is_source_file : FieldInfo → Bool
is_source_file info = field_eq info.source (column "source_file")

-- The field `source_file` is added where no field reads that column.
unfoldable pub with_source_file : List FieldInfo → List FieldInfo
with_source_file fields =
    if any is_source_file fields then fields else fields ++ profile_field "source_file" ∷ []

abbrev pub no_columns : TableShape → Bool
no_columns shape = elim shape.columns [ [] ↦ true | c ∷ cs ↦ false ]

unfoldable pub result_field_catalog_for_shape : Unicode → TableShape → List String → List FieldInfo
result_field_catalog_for_shape u shape extra_headers =
    if no_columns shape
    then result_field_catalog u extra_headers
    else with_source_file (map source_column_field_info shape.columns)

unfoldable pub field_catalog_for_shape : Unicode → TableShape → List String → List FieldInfo
field_catalog_for_shape u shape extra_headers =
    if no_columns shape
    then field_catalog u extra_headers
    else year_field ∷ result_field_catalog_for_shape u shape extra_headers

-- `shape.filter(|shape| !shape.columns.is_empty())`.
abbrev pub nonempty_shape : Option TableShape → Option TableShape
nonempty_shape none = none
nonempty_shape (some shape) = if no_columns shape then none else some shape

unfoldable pub field_catalog_for_context :
    Unicode → Option TableShape → List String → List FieldInfo
field_catalog_for_context u shape extra_headers = elim (nonempty_shape shape) [
  | some s ↦ field_catalog_for_shape u s extra_headers
  | none ↦ field_catalog u extra_headers
]

unfoldable pub result_field_catalog_for_context :
    Unicode → Option TableShape → List String → List FieldInfo
result_field_catalog_for_context u shape extra_headers = elim (nonempty_shape shape) [
  | some s ↦ result_field_catalog_for_shape u s extra_headers
  | none ↦ result_field_catalog u extra_headers
]

-- The physical fields of registered schemas, folded into one list of columns.
abbrev incoming : Unicode → SourceSchemaField → SourceColumn
incoming u f = record {
  id = stable_column_id u f.header f.source_index;
  header = f.header;
  source_index = f.source_index;
  role = f.role;
  semantic = f.semantic;
  storage = f.storage;
}

unfoldable pub fold_fields :
    Unicode → List SourceSchemaField → List SourceColumn → List SourceColumn
fold_fields u [] columns = columns
fold_fields u (f ∷ fs) columns = fold_fields u fs (merge_column (incoming u f) columns).0

-- The fields of older tables follow, unless their id is taken.
unfoldable pub add_legacy : List FieldInfo → List FieldInfo → List FieldInfo
add_legacy [] catalog = catalog
add_legacy (f ∷ fs) catalog = add_legacy fs (
    if any (λ (existing : FieldInfo). existing.id == f.id) catalog
    then catalog
    else catalog ++ f ∷ [])

unfoldable pub result_field_catalog_for_source_fields :
    Unicode → List SourceSchemaField → List FieldInfo → List FieldInfo
result_field_catalog_for_source_fields u fields legacy =
    with_source_file (add_legacy legacy (map source_column_field_info (fold_fields u fields [])))

unfoldable pub field_catalog_for_source_fields :
    Unicode → List SourceSchemaField → List FieldInfo → List FieldInfo
field_catalog_for_source_fields u fields legacy =
    year_field ∷ result_field_catalog_for_source_fields u fields legacy

abbrev pub exact_field : SourceSchemaField → FieldInfo
exact_field f =
    let kind : FieldKind = field_kind_for_source_schema_field f in
    record {
      id = f.field_id;
      label = f.header;
      kind = kind;
      source = source_field f.field_id;
      operators = operators_for_kind kind;
    }

unfoldable pub schema_exact_field_infos : List SourceSchemaField → List FieldInfo
schema_exact_field_infos fields = map exact_field fields ++ profile_field "source_file" ∷ []

abbrev label_in : FieldRef → List FieldInfo → String
label_in field [] = field_id field
label_in field (info ∷ rest) =
    if info.id == field_id field
    then info.label
    else if field_eq info.source field
    then info.label
    else label_in field rest

unfoldable pub field_label : FieldRef → List FieldInfo → String
field_label field catalog = label_in field catalog
