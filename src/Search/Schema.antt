-- ===== src/Search/Schema.antt =====
-- src/schema.rs: the columns of the built-in profile, their headers and meanings.
use base_search.Prelude.{
  ℕ, String, Option, none, some, List, [], ◌∷◌, if◌then◌else◌, ◌==◌, string_eq, zero, suc,
}
use base_search.Shapes.Columns.{SemanticField}

-- `ColumnDef`: the header in a source file, and the name in the database.
pub record ColumnDef : Type 0 where
  pub header : String
  pub name : String

abbrev col : String → String → ColumnDef
col header name = record { header = header; name = name }

unfoldable pub columns : List ColumnDef
columns =
    col "Час оформлення" "clearance_time"
    ∷ col "Назва ПМО" "customs_office"
    ∷ col "Тип" "declaration_type"
    ∷ col "Номер МД" "declaration_number"
    ∷ col "Дата" "declaration_date"
    ∷ col "Відправник" "sender"
    ∷ col "ЕДРПОУ" "edrpou"
    ∷ col "Одержувач" "recipient"
    ∷ col "№" "item_number"
    ∷ col "Код товару" "product_code"
    ∷ col "Опис товару" "description"
    ∷ col "Кр.торг." "trade_country"
    ∷ col "Кр.відпр." "dispatch_country"
    ∷ col "Кр.пох." "origin_country"
    ∷ col "Умови пост." "delivery_terms"
    ∷ col "Місце пост" "delivery_place"
    ∷ col "К-ть" "quantity"
    ∷ col "Один.вим." "unit"
    ∷ col "Брутто, кг." "gross_kg"
    ∷ col "Нетто, кг." "net_kg"
    ∷ col "Вага по МД" "declaration_weight"
    ∷ col "ФВ вал.контр" "currency_control_value"
    ∷ col "Особ.перем." "movement_feature"
    ∷ col "43" "field_43"
    ∷ col "43_01" "field_43_01"
    ∷ col "РФВ Дол/кг." "rfv_usd_kg"
    ∷ col "Вага.один." "unit_weight"
    ∷ col "Вага різн." "weight_difference"
    ∷ col "Контракт" "contract"
    ∷ col "3001" "field_3001"
    ∷ col "3002" "field_3002"
    ∷ col "9610" "field_9610"
    ∷ col "Торг.марк." "trademark"
    ∷ col "РМВ Нетто Дол/кг." "rmv_net_usd_kg"
    ∷ col "РМВ Дол/дод.од." "rmv_usd_extra_unit"
    ∷ col "РМВ Брутто Дол/кг" "rmv_gross_usd_kg"
    ∷ col "Призн.Зед" "zed_purpose"
    ∷ col "Мін.База Дол/кг." "min_base_usd_kg"
    ∷ col "Різн.мін.база" "min_base_difference"
    ∷ col "пільгова" "preferential"
    ∷ col "повна" "full_rate"
    ∷ []

unfoldable pub result_columns : List String
result_columns =
    "clearance_time" ∷ "customs_office" ∷ "declaration_type" ∷ "declaration_number"
    ∷ "declaration_date" ∷ "sender" ∷ "edrpou" ∷ "recipient" ∷ "item_number" ∷ "product_code"
    ∷ "description" ∷ "trade_country" ∷ "dispatch_country" ∷ "origin_country" ∷ "delivery_terms"
    ∷ "delivery_place" ∷ "quantity" ∷ "unit" ∷ "gross_kg" ∷ "net_kg" ∷ "declaration_weight"
    ∷ "currency_control_value" ∷ "movement_feature" ∷ "field_43" ∷ "field_43_01" ∷ "rfv_usd_kg"
    ∷ "unit_weight" ∷ "weight_difference" ∷ "contract" ∷ "field_3001" ∷ "field_3002" ∷ "field_9610"
    ∷ "trademark" ∷ "rmv_net_usd_kg" ∷ "rmv_usd_extra_unit" ∷ "rmv_gross_usd_kg" ∷ "zed_purpose"
    ∷ "min_base_usd_kg" ∷ "min_base_difference" ∷ "preferential" ∷ "full_rate" ∷ "source_file" ∷ []

unfoldable pub search_columns : List String
search_columns =
    "description" ∷ "sender" ∷ "recipient" ∷ "trademark" ∷ "declaration_number" ∷ "product_code"
    ∷ "trade_country" ∷ "dispatch_country" ∷ "origin_country" ∷ "edrpou" ∷ "contract"
    ∷ "delivery_place" ∷ "customs_office" ∷ "zed_purpose" ∷ []

-- The meanings that columns of the profile carry.
unfoldable pub semantic_columns : List (SemanticField × String)
semantic_columns =
    (SemanticField.date, "declaration_date")
    ∷ (SemanticField.declaration_number, "declaration_number")
    ∷ (SemanticField.sender, "sender")
    ∷ (SemanticField.company_code, "edrpou")
    ∷ (SemanticField.recipient, "recipient")
    ∷ (SemanticField.product_code, "product_code")
    ∷ (SemanticField.description, "description")
    ∷ (SemanticField.trade_country, "trade_country")
    ∷ (SemanticField.dispatch_country, "dispatch_country")
    ∷ (SemanticField.origin_country, "origin_country")
    ∷ (SemanticField.quantity, "quantity")
    ∷ (SemanticField.gross_weight, "gross_kg")
    ∷ (SemanticField.net_weight, "net_kg")
    ∷ (SemanticField.value, "currency_control_value")
    ∷ (SemanticField.trademark, "trademark")
    ∷ []

abbrev position : ℕ → String → List ColumnDef → Option ℕ
position i name [] = none
position i name (c ∷ cs) = if c.name == name then some i else position (suc i) name cs

unfoldable pub col_index : String → Option ℕ
unfolding columns
col_index name = position zero name columns

abbrev semantic_in : String → List (SemanticField × String) → Option SemanticField
semantic_in name [] = none
semantic_in name ((semantic, column) ∷ rest) =
    if column == name then some semantic else semantic_in name rest

unfoldable pub semantic_for_column : String → Option SemanticField
unfolding semantic_columns
semantic_for_column name = semantic_in name semantic_columns

abbrev header_in : String → List ColumnDef → String
header_in name [] = ""
header_in name (c ∷ cs) = if c.name == name then c.header else header_in name cs

unfoldable pub header_for : String → String
unfolding columns
header_for name = if name == "source_file" then "File" else header_in name columns
