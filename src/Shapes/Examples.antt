-- ===== src/Shapes/Examples.antt =====
-- Tests of headers and merging, and the theorems at concrete inputs.
use base_search.Prelude.{
  ◌+◌, ◌≡◌, refl, String, ◌&&◌, ◌||◌, none, some, List, [], ◌∷◌, ◌==◌, nat_eq, leb, length, map,
}
use base_search.Prelude.Texts
use base_search.Prelude.Texts.{Unicode}
use base_search.Shapes.Columns.{ColumnRole, source_json, SourceColumn}
use base_search.Shapes.Headers
use base_search.Shapes.Headers.{from_headers}
use base_search.Shapes.Merging
use base_search.Shapes.Merging.{find_column, unique_column_id, merge_column, merge_columns}
use base_search.Shapes.FreshIds.{IsFirstFree, unique_column_id-IsFirstFree}
use base_search.Shapes.Merged.{HasDistinctIds, filled}
use base_search.Shapes.Landing.{merge_column_lem, merge_columns-repeats}

abbrev ascii : Unicode
ascii = record {
  white = λ c. c == 32;
  alphanumeric = λ c. (leb 48 c && leb c 57) || ((leb 65 c && leb c 90) || (leb 97 c && leb c 122));
  lower = λ c. String.◌∷◌ c String.[];
  upper = λ c. String.◌∷◌ c String.[];
  lowercase = λ s. s;
}

ids : List String → List String
unfolding Headers.from_headers Headers.columns_from Headers.header_column
    Headers.normalize_header_for_display Headers.split_whitespace Headers.parts_at
    Headers.stable_column_id Headers.id_rest Texts.flat_map Texts.trim_end Texts.join Texts.decimal
    Texts.decimal_fuel Texts.digit_text
ids headers = map (λ (c : SourceColumn). c.id) (from_headers ascii headers).columns

-- A repeated header gets a suffix, and an empty one its place.
ids_of_repeated :
    ids ("sku" ∷ "unit  price" ∷ "sku" ∷ "" ∷ []) ≡ "sku" ∷ "unit_price" ∷ "sku_2" ∷ "Column_4" ∷ []
unfolding ids
ids_of_repeated = refl

-- A suffix can collide with a header that looks like one: two columns share an id.
ids_collide : ids ("a" ∷ "a 2" ∷ "a" ∷ []) ≡ "a" ∷ "a_2" ∷ "a_2" ∷ []
unfolding ids
ids_collide = refl

abbrev plain : String → String → SourceColumn
plain id header = record {
  id = id;
  header = header;
  source_index = 0;
  role = ColumnRole.text;
  semantic = none;
  storage = source_json;
}

abbrev two_columns : List SourceColumn
two_columns = plain "value_usd" "Value USD" ∷ plain "value_usd_2" "value-usd" ∷ []

abbrev again : SourceColumn
again = plain "value_usd" "value usd"

unique_column_id_test : unique_column_id two_columns "value_usd" ≡ "value_usd_3"
unfolding Merging.unique_column_id Merging.next_free Merging.candidate Texts.decimal
    Texts.decimal_fuel Texts.digit_text
unique_column_id_test = refl

unique_column_id-IsFirstFree_example :
    IsFirstFree two_columns "value_usd" 2 2 (unique_column_id two_columns "value_usd")
unique_column_id-IsFirstFree_example = unique_column_id-IsFirstFree two_columns "value_usd"

merge_column_lem_example :
    HasDistinctIds (merge_column again two_columns).0
    × ((landed : SourceColumn) × (find_column
            (merge_column again two_columns).1
            (merge_column again two_columns).0
          ≡ some landed)
        × (landed.header ≡ "value usd")
        × (landed.storage ≡ source_json))
    × (find_column "value_usd" (merge_column again two_columns).0
        ≡ some (filled again (plain "value_usd" "Value USD")))
merge_column_lem_example =
    merge_column_lem again two_columns "value_usd" (plain "value_usd" "Value USD")
      (refl, (refl, tt)) refl

merge_columns-repeats_example : length (merge_columns (again ∷ again ∷ []) two_columns) ≡ 2 + 2
merge_columns-repeats_example =
    merge_columns-repeats again (plain "value_usd" "Value USD") two_columns refl refl
