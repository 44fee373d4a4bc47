-- ===== src/Search/Alignment.antt =====
-- src/storage/search_sql.rs: a field's SQL has one placeholder where the field is read by its
-- header, and none where it is a column.
use base_search.Prelude.{
  ℕ, ◌≡◌, refl, ◌∙◌, subst, String, Option, none, some, List, [], ◌∷◌, ◌==◌, string_eq, All, ok,
  ok_inj, err_ne_ok, arith, Bool-cases, Option-cases, inl, inr,
}
use base_search.Prelude.Dict.{get}
use base_search.Prelude.Texts.{Unicode, occurrences, occurrences-append, is_empty, trimmed, one_of}
use base_search.Values.Derived.{
  Derivation, derived_name_for, number, country, num_column_for, key_column_for,
}
use base_search.Values.Numbers.{prefer_decimal}
use base_search.Shapes.Columns.{
  ColumnStorage, source_json, schema_column, SourceSchemaField, TableShape,
}
use base_search.Search.Schema.{result_columns}
use base_search.Search.Expr.{FieldRef, column, extra, source_field}
use base_search.Search.Resolve.{
  SearchFieldSql, guarded, column_sql, extra_sql, map_text, stored_field_sql, column_field_sql,
  year_field_sql, extra_field_sql, search_field_sql,
}
use base_search.Search.Counting.{
  placeholders, Plain, decimal-Plain, derived_name_for-Plain, result_column-Plain,
}

abbrev pub header_count : Option String → ℕ
header_count none = 0
header_count (some h) = 1

abbrev pub Agrees : Option String → ℕ → Type 0
Agrees none n = Unit
Agrees (some sql) n = placeholders sql ≡ n

pub record IsAligned (f : SearchFieldSql) : Type 0 where
  pub of_expr : placeholders f.expr ≡ header_count f.extra_header
  pub of_number : Agrees f.number_column (header_count f.extra_header)
  pub of_country : Agrees f.country_column (header_count f.extra_header)

-- A stored field that is a column has a name without a placeholder.
abbrev pub PlainStorage : ColumnStorage → Type 0
PlainStorage source_json = Unit
PlainStorage (schema_column name) = Plain name

abbrev pub PlainField : String × SourceSchemaField → Type 0
PlainField (id, f) = PlainStorage f.storage

get-PlainField :
    (id : String) (lookup : List (String × SourceSchemaField)) (f : SourceSchemaField)
    → All PlainField lookup
    → get id lookup ≡ some f
    → PlainStorage f.storage
get-PlainField id [] f h e = ground arith
get-PlainField id ((j, g) ∷ rest) f h e = elim (Bool-cases (j == id)) [
  | inl found ↦
      subst
        (λ (o : Option SourceSchemaField). elim o [
          | none ↦ Unit {0}
          | some x ↦ PlainStorage x.storage
        ])
        (rw found at e) h.0
  | inr other ↦ get-PlainField id rest f h.1 (rw other at e)
]

module _ (payload : String) (plain : Plain payload) where
  pub column_sql-Plain : (name : String) → Plain name → Plain (column_sql payload name)
  unfolding column_sql placeholders occurrences
  column_sql-Plain name h = simp occurrences-append (omega (arith, plain, h))

  extra_sql-placeholders : placeholders (extra_sql payload) ≡ 1
  unfolding extra_sql placeholders occurrences
  extra_sql-placeholders = simp occurrences-append (omega (arith, plain))

  guarded-placeholders :
      (id : ℕ) (e : String) → placeholders (guarded payload id e) ≡ placeholders e
  unfolding guarded placeholders occurrences
  guarded-placeholders id e = simp occurrences-append (omega (arith, plain, decimal-Plain id))

  -- The materialized column of a name, if there is one.
  materialized-Agrees :
      (source : String) (d : Derivation)
      → Agrees (map_text (column_sql payload) (derived_name_for source d)) 0
  materialized-Agrees source d = elim (Option-cases (derived_name_for source d)) [
    | inl missing ↦ rw missing tt
    | inr (name, found) ↦
        rw found (column_sql-Plain name (derived_name_for-Plain source d name found))
  ]

  guarded-Agrees :
      (id : ℕ) (source : String) (d : Derivation)
      → Agrees
          (map_text (λ c. guarded payload id (column_sql payload c)) (derived_name_for source d))
          0
  guarded-Agrees id source d = elim (Option-cases (derived_name_for source d)) [
    | inl missing ↦ rw missing tt
    | inr (name, found) ↦ rw found (
        guarded-placeholders id (column_sql payload name)
        ∙ column_sql-Plain name (derived_name_for-Plain source d name found))
  ]

  stored_field_sql-IsAligned :
      (f : SourceSchemaField) (storage : ColumnStorage)
      → PlainStorage storage
      → IsAligned (stored_field_sql payload f storage)
  unfolding stored_field_sql num_column_for key_column_for
  stored_field_sql-IsAligned f (schema_column name) h = record {
    of_expr = guarded-placeholders f.schema_id (column_sql payload name) ∙ column_sql-Plain name h;
    of_number = guarded-Agrees f.schema_id name (number prefer_decimal);
    of_country = guarded-Agrees f.schema_id name country;
  }
  stored_field_sql-IsAligned f source_json h = record {
    of_expr = guarded-placeholders f.schema_id (extra_sql payload) ∙ extra_sql-placeholders;
    of_number = tt;
    of_country = tt;
  }

  column_field_sql-IsAligned :
      (name : String) → Plain name → IsAligned (column_field_sql payload name)
  unfolding column_field_sql num_column_for key_column_for
  column_field_sql-IsAligned name h = record {
    of_expr = column_sql-Plain name h;
    of_number = materialized-Agrees name (number prefer_decimal);
    of_country = materialized-Agrees name country;
  }

  year_field_sql-IsAligned : IsAligned (year_field_sql payload)
  unfolding year_field_sql
  year_field_sql-IsAligned = record {
    of_expr = column_sql-Plain "year" (unfold placeholders occurrences in refl);
    of_number = tt;
    of_country = tt;
  }

  extra_field_sql-IsAligned :
      (u : Unicode) (shape : Option TableShape) (header : String)
      → IsAligned (extra_field_sql u shape payload header)
  unfolding extra_field_sql
  extra_field_sql-IsAligned u shape header = record {
    of_expr = extra_sql-placeholders;
    of_number = tt;
    of_country = tt;
  }

  -- Every field that resolves is aligned.
  pub search_field_sql-IsAligned :
      (u : Unicode) (shape : Option TableShape) (lookup : List (String × SourceSchemaField))
      (field : FieldRef) (f : SearchFieldSql)
      → All PlainField lookup
      → search_field_sql u shape payload lookup field ≡ ok f
      → IsAligned f
  unfolding search_field_sql
  search_field_sql-IsAligned u shape lookup (source_field id) f h e =
      elim (Option-cases (get id lookup)) [
        | inl missing ↦ absurd (err_ne_ok (rw (missing, search_field_sql) at e))
        | inr (g, found) ↦
            subst IsAligned (ok_inj (rw (found, search_field_sql) at e))
              (stored_field_sql-IsAligned g g.storage (get-PlainField id lookup g h found))
      ]
  search_field_sql-IsAligned u shape lookup (column name) f h e =
      elim (Bool-cases (name == "year")) [
        | inl is_year ↦
            subst IsAligned (ok_inj (rw (is_year, search_field_sql) at e)) year_field_sql-IsAligned
        | inr other ↦ elim (Bool-cases (one_of result_columns name)) [
          | inl known ↦
              subst IsAligned (ok_inj (rw (other, known, search_field_sql) at e))
                (column_field_sql-IsAligned name (result_column-Plain name known))
          | inr unknown ↦ absurd (err_ne_ok (rw (other, unknown, search_field_sql) at e))
        ]
      ]
  search_field_sql-IsAligned u shape lookup (extra header) f h e =
      elim (Bool-cases (is_empty (trimmed u header))) [
        | inl blank ↦ absurd (err_ne_ok (rw (blank, search_field_sql) at e))
        | inr given ↦
            subst IsAligned (ok_inj (rw (given, search_field_sql) at e))
              (extra_field_sql-IsAligned u shape header)
      ]
