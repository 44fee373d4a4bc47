-- ===== src/Shapes/Merging.antt =====
-- src/storage/table_shape.rs: merging the columns of a table into a shape.
use Prim.Native.String
use base_search.Prelude.{
  ℕ, zero, suc, String, Bool, ◌&&◌, Option, none, some, List, [], ◌∷◌, ◌++◌, any, length,
  if◌then◌else◌, ◌==◌, string_eq,
}
use base_search.Prelude.Texts.{decimal}
use base_search.Shapes.Columns.{SemanticField, SourceColumn, TableShape, storage_eq}

-- Whether a column has an id.
abbrev pub has_id : String → List SourceColumn → Bool
has_id id columns = any (λ (c : SourceColumn). c.id == id) columns

abbrev pub find_column : String → List SourceColumn → Option SourceColumn
find_column id [] = none
find_column id (c ∷ cs) = if c.id == id then some c else find_column id cs

abbrev pub semantic_or : Option SemanticField → Option SemanticField → Option SemanticField
semantic_or none other = other
semantic_or (some semantic) other = some semantic

-- The first column with the id takes a meaning if it has none.
abbrev pub fill_semantic : SourceColumn → List SourceColumn → List SourceColumn
fill_semantic incoming [] = []
fill_semantic incoming (c ∷ cs) =
    if c.id == incoming.id
    then record c { semantic = semantic_or c.semantic incoming.semantic } ∷ cs
    else c ∷ fill_semantic incoming cs

unfoldable pub candidate : String → ℕ → String
candidate base index = String.◌++◌ base (String.◌++◌ "_" (decimal index))

-- The loop; the fuel is the number of columns, and of one more candidate than columns one is free.
unfoldable pub next_free : ℕ → List SourceColumn → String → ℕ → String
next_free zero columns base index = candidate base index
next_free (suc fuel) columns base index =
    let later = next_free fuel columns base (suc index) in
    if has_id (candidate base index) columns then later else candidate base index

unfoldable pub unique_column_id : List SourceColumn → String → String
unique_column_id columns base = next_free (length columns) columns base 2

abbrev pub appended : SourceColumn → List SourceColumn → String → List SourceColumn × String
appended incoming columns id = (columns ++ record incoming { id = id } ∷ [], id)

abbrev pub same_column : SourceColumn → SourceColumn → Bool
same_column a b = storage_eq a.storage b.storage && (a.header == b.header)

unfoldable pub merge_column : SourceColumn → List SourceColumn → List SourceColumn × String
merge_column incoming columns = elim (find_column incoming.id columns) [
  | none ↦ (columns ++ incoming ∷ [], incoming.id)
  | some existing ↦
      let updated : List SourceColumn = fill_semantic incoming columns in
      if same_column existing incoming
      then (updated, incoming.id)
      else appended incoming updated (unique_column_id updated incoming.id)
]

unfoldable pub merge_columns : List SourceColumn → List SourceColumn → List SourceColumn
merge_columns [] columns = columns
merge_columns (incoming ∷ rest) columns = merge_columns rest (merge_column incoming columns).0

-- `merge`, with the stored shape given and the new one returned.
unfoldable pub merge : Option TableShape → TableShape → TableShape
merge none incoming = record { columns = merge_columns incoming.columns [] }
merge (some stored) incoming = record { columns = merge_columns incoming.columns stored.columns }
