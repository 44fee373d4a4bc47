-- ===== src/Shapes/Headers.antt =====
-- src/domain/table.rs: the ids, roles and meanings that headers give to columns.
use Prim.Native.Char.{code}
use Prim.Native.String.{◌++◌}
use base_search.Prelude.{
  ℕ, suc, ◌+◌, String, Bool, true, false, ◌&&◌, ◌||◌, not, Option, none, some, List, [], ◌∷◌, keep,
  if◌then◌else◌, ◌==◌, nat_eq, string_eq,
}
use base_search.Prelude.Dict.{get, insert}
use base_search.Prelude.Texts.{
  Unicode, is_empty, trim_end, flat_map, join, decimal, contains_one, one_of,
}
use base_search.Shapes.Columns.{ColumnRole, SemanticField, SourceColumn, TableShape, source_json}

-- The parts of a text between the characters that pass a test.
unfoldable pub parts_at : (ℕ → Bool) → String → String × List String
parts_at p String.[] = (String.[], [])
parts_at p (String.◌∷◌ c s) =
    let r = parts_at p s in if p (code c) then (String.[], r.0 ∷ r.1) else (String.◌∷◌ c r.0, r.1)

-- `split_whitespace`.
unfoldable pub split_whitespace : Unicode → String → List String
split_whitespace u s =
    let r = parts_at u.white s in keep (λ (part : String). not (is_empty part)) (r.0 ∷ r.1)

unfoldable pub normalize_header_for_display : Unicode → String → ℕ → String
normalize_header_for_display u header source_index =
    let shown : String = join " " (split_whitespace u header) in
    if is_empty shown then "Column " ++ decimal (source_index + 1) else shown

-- The letters and digits of a text, runs of other characters as one '_'. `started` says that the
-- id is not empty, `last_sep` that it ends in '_'.
unfoldable pub id_rest : Unicode → Bool → Bool → String → String
id_rest u started last_sep String.[] = String.[]
id_rest u started last_sep (String.◌∷◌ c s) =
    let lettered = String.◌∷◌ c (id_rest u true false s) in
    let separated = "_" ++ id_rest u started true s in
    let skipped = id_rest u started last_sep s in
    if u.alphanumeric (code c)
    then lettered
    else if started && not last_sep
    then separated
    else skipped

unfoldable pub stable_column_id : Unicode → String → ℕ → String
stable_column_id u header source_index =
    let id : String = trim_end (λ c. c == 95) (id_rest u false false (flat_map u.lower header)) in
    if is_empty id then "column_" ++ decimal (source_index + 1) else id

unfoldable pub role_of_id : String → ColumnRole
role_of_id lower =
    if contains_one ("date" ∷ "дата" ∷ []) lower
    then ColumnRole.date
    else if (lower == "year") || contains_one ("рік" ∷ "год" ∷ []) lower
    then ColumnRole.year
    else if contains_one ("country" ∷ "краї" ∷ "стра" ∷ []) lower
    then ColumnRole.country
    else if contains_one ("code" ∷ "код" ∷ "sku" ∷ []) lower
    then ColumnRole.code
    else if contains_one ("id" ∷ "number" ∷ "номер" ∷ []) lower
    then ColumnRole.identifier
    else if contains_one ("price" ∷ "value" ∷ "amount" ∷ "варт" ∷ "сум" ∷ []) lower
    then ColumnRole.money
    else if contains_one ("weight" ∷ "вага" ∷ "kg" ∷ []) lower
    then ColumnRole.weight
    else if contains_one ("qty" ∷ "quantity" ∷ "кільк" ∷ []) lower
    then ColumnRole.number
    else ColumnRole.text

unfoldable pub infer_role : Unicode → String → ColumnRole
infer_role u header = role_of_id (stable_column_id u header 0)

-- The ids that have a meaning.
unfoldable pub semantic_ids : List (List String × SemanticField)
semantic_ids =
    (
      "date" ∷ "order_date" ∷ "document_date" ∷ "declaration_date" ∷ "clearance_date" ∷ [],
      SemanticField.date,
    )
    ∷ (
      "declaration" ∷ "declaration_no" ∷ "declaration_number" ∷ "declaration_id" ∷ "invoice"
          ∷ "invoice_no" ∷ "invoice_number" ∷ "document_no" ∷ "document_number" ∷ [],
      SemanticField.declaration_number,
    )
    ∷ (
      "sender" ∷ "sender_name" ∷ "supplier" ∷ "supplier_name" ∷ "exporter" ∷ "exporter_name"
          ∷ "shipper" ∷ "shipper_name" ∷ "seller" ∷ "seller_name" ∷ [],
      SemanticField.sender,
    )
    ∷ (
      "recipient" ∷ "recipient_name" ∷ "receiver" ∷ "receiver_name" ∷ "buyer" ∷ "buyer_name"
          ∷ "customer" ∷ "customer_name" ∷ "importer" ∷ "importer_name" ∷ "consignee"
          ∷ "consignee_name" ∷ [],
      SemanticField.recipient,
    )
    ∷ (
      "edrpou" ∷ "company_code" ∷ "company_id" ∷ "recipient_code" ∷ "recipient_id" ∷ "buyer_code"
          ∷ "buyer_id" ∷ "importer_code" ∷ "importer_id" ∷ [],
      SemanticField.company_code,
    )
    ∷ (
      "product_code" ∷ "goods_code" ∷ "commodity_code" ∷ "item_code" ∷ "sku" ∷ "hs_code" ∷ "hscode"
          ∷ "hs" ∷ "uktzed" ∷ "ukt_zed" ∷ "uktzed_code" ∷ "tnved" ∷ "tnved_code" ∷ [],
      SemanticField.product_code,
    )
    ∷ (
      "description" ∷ "product_description" ∷ "goods_description" ∷ "item_description"
          ∷ "commodity_description" ∷ "product_name" ∷ "goods_name" ∷ "item_name" ∷ [],
      SemanticField.description,
    )
    ∷ (
      "trademark" ∷ "trade_mark" ∷ "brand" ∷ "brand_name" ∷ "mark" ∷ "manufacturer_brand" ∷ [],
      SemanticField.trademark,
    )
    ∷ ("country" ∷ [], SemanticField.country)
    ∷ (
      "origin" ∷ "origin_country" ∷ "country_origin" ∷ "country_of_origin" ∷ [],
      SemanticField.origin_country,
    )
    ∷ (
      "dispatch_country" ∷ "country_dispatch" ∷ "country_of_dispatch" ∷ "ship_from"
          ∷ "shipping_country" ∷ "departure_country" ∷ "source_country" ∷ [],
      SemanticField.dispatch_country,
    )
    ∷ (
      "trade_country" ∷ "trading_country" ∷ "country_of_trade" ∷ "seller_country" ∷ [],
      SemanticField.trade_country,
    )
    ∷ ("quantity" ∷ "qty" ∷ "count" ∷ "units" ∷ "unit_count" ∷ [], SemanticField.quantity)
    ∷ (
      "net_kg" ∷ "net_weight" ∷ "net_weight_kg" ∷ "weight_net" ∷ "weight_net_kg" ∷ [],
      SemanticField.net_weight,
    )
    ∷ (
      "gross_kg" ∷ "gross_weight" ∷ "gross_weight_kg" ∷ "weight_gross" ∷ "weight_gross_kg" ∷ [],
      SemanticField.gross_weight,
    )
    ∷ (
      "value" ∷ "value_usd" ∷ "amount" ∷ "amount_usd" ∷ "total_value" ∷ "total_value_usd"
          ∷ "invoice_value" ∷ "invoice_value_usd" ∷ "customs_value" ∷ "customs_value_usd" ∷ [],
      SemanticField.value,
    )
    ∷ (
      "currency" ∷ "currency_code" ∷ "value_currency" ∷ "amount_currency" ∷ "ccy" ∷ "iso_currency"
          ∷ [],
      SemanticField.currency,
    )
    ∷ (
      "weight_unit" ∷ "net_weight_unit" ∷ "mass_unit" ∷ "weight_uom" ∷ "mass_uom" ∷ [],
      SemanticField.weight_unit,
    )
    ∷ []

unfoldable pub semantic_of_id : String → List (List String × SemanticField) → Option SemanticField
semantic_of_id id [] = none
semantic_of_id id ((ids, semantic) ∷ rest) =
    if one_of ids id then some semantic else semantic_of_id id rest

abbrev date_if_year : ColumnRole → Option SemanticField
date_if_year ColumnRole.year = some SemanticField.date
date_if_year role = none

unfoldable pub infer_semantic : String → ColumnRole → Option SemanticField
unfolding semantic_ids
infer_semantic id role = elim (semantic_of_id id semantic_ids) [
  | some semantic ↦ some semantic
  | none ↦ date_if_year role
]

abbrev count_of : Option ℕ → ℕ
count_of none = 0
count_of (some n) = n

abbrev suffixed : String → ℕ → String
suffixed base n = base ++ ("_" ++ decimal n)

abbrev column_of : Unicode → ℕ → String → String → SourceColumn
column_of u source_index id header = record {
  id = id;
  header = header;
  source_index = source_index;
  role = infer_role u header;
  semantic = infer_semantic id (infer_role u header);
  storage = source_json;
}

-- The column of a header, where `count` columns before it had the same id.
unfoldable pub header_column : Unicode → ℕ → String → String → ℕ → SourceColumn
header_column u source_index header base count =
    if count == 0
    then column_of u source_index base header
    else column_of u source_index (suffixed base (count + 1))
        (header ++ (" (" ++ (decimal (count + 1) ++ ")")))

unfoldable pub columns_from : Unicode → ℕ → List (String × ℕ) → List String → List SourceColumn
columns_from u source_index seen [] = []
columns_from u source_index seen (given ∷ headers) =
    let header : String = normalize_header_for_display u given source_index in
    let base : String = stable_column_id u header source_index in
    let count : ℕ = count_of (get base seen) in
    header_column u source_index header base count
    ∷ columns_from u (suc source_index) (insert base (count + 1) seen) headers

unfoldable pub from_headers : Unicode → List String → TableShape
from_headers u headers = record { columns = columns_from u 0 [] headers }

-- The pairs as a hash map: a later pair replaces an earlier one.
abbrev pub collected {ℓ} : {V : Type ℓ} → List (String × V) → List (String × V) → List (String × V)
collected [] m = m
collected ((k, v) ∷ rest) m = collected rest (insert k v m)

abbrev with_semantic : Option SemanticField → SourceColumn → SourceColumn
with_semantic none c = c
with_semantic (some semantic) c = record c { semantic = some semantic }

unfoldable pub set_semantics : List (String × SemanticField) → List SourceColumn → List SourceColumn
set_semantics m [] = []
set_semantics m (c ∷ cs) = with_semantic (get c.id m) c ∷ set_semantics m cs

unfoldable pub with_semantics : List (String × SemanticField) → TableShape → TableShape
with_semantics semantics shape = record {
  columns = set_semantics (collected semantics []) shape.columns;
}
