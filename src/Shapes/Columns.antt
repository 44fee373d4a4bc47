-- ===== src/Shapes/Columns.antt =====
-- src/domain/table.rs: columns, their roles and meanings, and the values that a person may pin.
use Prim.Native.String.{count}
use base_search.Prelude.{
  ℕ, String, Bool, true, false, not, Option, List, Result, ok, err, leb, if◌then◌else◌, ◌==◌,
  string_eq,
}
use base_search.Prelude.Texts.{Unicode, trimmed, is_empty}

pub data ColumnRole : Type 0 where
  text number date year country code identifier money weight : ColumnRole

pub data SemanticField : Type 0 where
  date declaration_number company_code sender recipient product_code : SemanticField
  description trademark country origin_country dispatch_country : SemanticField
  trade_country quantity net_weight gross_weight value currency : SemanticField
  weight_unit : SemanticField

pub data ColumnStorage : Type 0 where
  source_json : ColumnStorage
  schema_column : String → ColumnStorage

pub record SourceColumn : Type 0 where
  pub id : String
  pub header : String
  pub source_index : ℕ
  pub role : ColumnRole
  pub semantic : Option SemanticField
  pub storage : ColumnStorage

pub record TableShape : Type 0 where
  pub columns : List SourceColumn

-- A row id of SQLite counts from 1.
pub record SourceSchemaField : Type 0 where
  pub field_id : String
  pub schema_id : ℕ
  pub source_index : ℕ
  pub raw_header : String
  pub header : String
  pub normalized_header : String
  pub role : ColumnRole
  pub semantic : Option SemanticField
  pub storage : ColumnStorage

abbrev pub storage_eq : ColumnStorage → ColumnStorage → Bool
storage_eq source_json source_json = true
storage_eq (schema_column a) (schema_column b) = a == b
storage_eq a b = false

abbrev pub max_fixed_value_chars : ℕ
max_fixed_value_chars = 32

unfoldable pub is_fixable : SemanticField → Bool
is_fixable SemanticField.currency = true
is_fixable SemanticField.weight_unit = true
is_fixable semantic = false

pub data FixedValueError : Type 0 where
  unsupported empty too_long : FixedValueError

unfoldable pub validate_fixed_value :
    Unicode → SemanticField → String → Result String FixedValueError
validate_fixed_value u semantic given =
    let pinned : String = trimmed u given in
    if not (is_fixable semantic)
    then err FixedValueError.unsupported
    else if is_empty pinned
    then err FixedValueError.empty
    else if leb (count pinned) max_fixed_value_chars
    then ok pinned
    else err FixedValueError.too_long
