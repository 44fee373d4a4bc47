-- ===== src/Search/Fields.antt =====
-- src/search.rs: the fields that a search offers, their kinds, and the operators of a kind.
use Prim.Native.String.{◌++◌}
use base_search.Prelude.{
  String, ◌||◌, Option, none, some, List, [], ◌∷◌, if◌then◌else◌, ◌==◌, string_eq,
}
use base_search.Prelude.Texts.{Unicode, is_empty, one_of, contains_one}
use base_search.Shapes.Columns.{
  ColumnRole, SemanticField, ColumnStorage, source_json, schema_column, SourceColumn,
  SourceSchemaField,
}
use base_search.Search.Expr.{
  FieldRef, column, extra, ConditionOp, contains, equals, starts_with, is_any_of, range,
  is_not_empty,
}

pub data FieldKind : Type 0 where
  text code country number date year : FieldKind

pub record FieldInfo : Type 0 where
  pub id : String
  pub label : String
  pub kind : FieldKind
  pub source : FieldRef
  pub operators : List ConditionOp

unfoldable pub number_columns : List String
number_columns =
    "quantity" ∷ "gross_kg" ∷ "net_kg" ∷ "declaration_weight" ∷ "currency_control_value"
    ∷ "rfv_usd_kg" ∷ "unit_weight" ∷ "weight_difference" ∷ "rmv_net_usd_kg" ∷ "rmv_usd_extra_unit"
    ∷ "rmv_gross_usd_kg" ∷ "min_base_usd_kg" ∷ "min_base_difference" ∷ "preferential" ∷ "full_rate"
    ∷ []

unfoldable pub field_kind_for_column : String → FieldKind
unfolding number_columns
field_kind_for_column name =
    if name == "year"
    then year
    else if one_of ("product_code" ∷ "declaration_number" ∷ "edrpou" ∷ []) name
    then code
    else if one_of ("trade_country" ∷ "dispatch_country" ∷ "origin_country" ∷ []) name
    then country
    else if name == "declaration_date"
    then date
    else if one_of number_columns name
    then number
    else text

unfoldable pub operators_for_kind : FieldKind → List ConditionOp
operators_for_kind text =
    contains ∷ equals ∷ starts_with ∷ is_any_of ∷ ConditionOp.is_empty ∷ is_not_empty ∷ []
operators_for_kind code =
    starts_with ∷ equals ∷ is_any_of ∷ ConditionOp.is_empty ∷ is_not_empty ∷ []
operators_for_kind country = equals ∷ is_any_of ∷ ConditionOp.is_empty ∷ is_not_empty ∷ []
operators_for_kind number = equals ∷ range ∷ ConditionOp.is_empty ∷ is_not_empty ∷ []
operators_for_kind date = equals ∷ range ∷ ConditionOp.is_empty ∷ is_not_empty ∷ []
operators_for_kind year = equals ∷ range ∷ ConditionOp.is_empty ∷ is_not_empty ∷ []

unfoldable pub field_kind_for_semantic : SemanticField → FieldKind
field_kind_for_semantic SemanticField.date = date
field_kind_for_semantic SemanticField.declaration_number = code
field_kind_for_semantic SemanticField.company_code = code
field_kind_for_semantic SemanticField.product_code = code
field_kind_for_semantic SemanticField.currency = code
field_kind_for_semantic SemanticField.weight_unit = code
field_kind_for_semantic SemanticField.country = country
field_kind_for_semantic SemanticField.origin_country = country
field_kind_for_semantic SemanticField.dispatch_country = country
field_kind_for_semantic SemanticField.trade_country = country
field_kind_for_semantic SemanticField.quantity = number
field_kind_for_semantic SemanticField.net_weight = number
field_kind_for_semantic SemanticField.gross_weight = number
field_kind_for_semantic SemanticField.value = number
field_kind_for_semantic SemanticField.sender = text
field_kind_for_semantic SemanticField.recipient = text
field_kind_for_semantic SemanticField.description = text
field_kind_for_semantic SemanticField.trademark = text

unfoldable pub field_kind_for_role : ColumnRole → FieldKind
field_kind_for_role ColumnRole.text = text
field_kind_for_role ColumnRole.number = number
field_kind_for_role ColumnRole.money = number
field_kind_for_role ColumnRole.weight = number
field_kind_for_role ColumnRole.date = date
field_kind_for_role ColumnRole.year = year
field_kind_for_role ColumnRole.country = country
field_kind_for_role ColumnRole.code = code
field_kind_for_role ColumnRole.identifier = code

-- The kind of a column or of a field, by its meaning, its storage and its role.
unfoldable pub kind_by_storage : ColumnStorage → ColumnRole → FieldKind
kind_by_storage (schema_column name) role = field_kind_for_column name
kind_by_storage source_json role = field_kind_for_role role

unfoldable pub kind_by : Option SemanticField → ColumnStorage → ColumnRole → FieldKind
kind_by (some semantic) storage role = field_kind_for_semantic semantic
kind_by none storage role = kind_by_storage storage role

unfoldable pub field_kind_for_source_column : SourceColumn → FieldKind
field_kind_for_source_column c = kind_by c.semantic c.storage c.role

unfoldable pub field_kind_for_source_schema_field : SourceSchemaField → FieldKind
field_kind_for_source_schema_field f = kind_by f.semantic f.storage f.role

unfoldable pub infer_extra_field_kind : Unicode → String → FieldKind
infer_extra_field_kind u header =
    let lower : String = u.lowercase header in
    if (lower == "year") || contains_one ("year" ∷ "rik" ∷ "god" ∷ []) lower
    then year
    else if contains_one ("sum" ∷ "total" ∷ "suma" ∷ []) lower
    then number
    else if contains_one ("date" ∷ "дата" ∷ []) lower
    then date
    else if contains_one ("country" ∷ "кра" ∷ "стра" ∷ []) lower
    then country
    else if contains_one ("code" ∷ "код" ∷ "number" ∷ []) lower
    then code
    else if contains_one ("kg" ∷ "кг" ∷ "price" ∷ "value" ∷ "amount" ∷ "quantity" ∷ "qty" ∷ [])
        lower
    then number
    else text

unfoldable pub field_info : String → String → FieldKind → FieldInfo
field_info name label kind = record {
  id = name;
  label = if is_empty label then name else label;
  kind = kind;
  source = column name;
  operators = operators_for_kind kind;
}

-- `FieldRef` of a column: the profile's column, or the header in the row's JSON.
abbrev pub ref_of_storage : ColumnStorage → String → FieldRef
ref_of_storage (schema_column name) header = column name
ref_of_storage source_json header = extra header

unfoldable pub source_column_field_info : SourceColumn → FieldInfo
source_column_field_info c =
    let kind : FieldKind = field_kind_for_source_column c in
    record {
      id = "source:" ++ c.id;
      label = c.header;
      kind = kind;
      source = ref_of_storage c.storage c.header;
      operators = operators_for_kind kind;
    }
