-- ===== src/Search/Offers.antt =====
-- src/search.rs with src/storage/search_sql.rs: a field is offered with the operators of one kind,
-- and a search validates an operator by the kind that it resolves.
use base_search.Prelude.{
  ◌≡◌, refl, ap, ◌∙◌, ◌↔◌, String, true, false, Option, some, List, ◌==◌, string_eq, ok, err, ℕ,
}
use base_search.Prelude.Dict.{get}
use base_search.Prelude.Texts.{Unicode, one_of}
use base_search.Shapes.Columns.{
  SemanticField, ColumnStorage, source_json, schema_column, SourceColumn, SourceSchemaField,
  TableShape,
}
use base_search.Search.Schema.{result_columns}
use base_search.Search.Expr.{ConditionOp, range, QueryCondition, column, condition_is_empty}
use base_search.Search.Fields.{
  text, number, field_kind_for_semantic, field_kind_for_column, operators_for_kind,
  source_column_field_info, field_kind_for_source_column, kind_by,
}
use base_search.Search.Catalog.{exact_field}
use base_search.Search.Clauses.{is_allowed, validate_condition_operator}
use base_search.Search.Compile.{compile_condition}
use base_search.Search.Resolve.{
  not_valid, SearchFieldSql, stored_field_sql, column_field_sql, search_field_sql,
}
use base_search.Search.Operators.{has_op, validate_condition_operator_iff}

offered_source :
    (c : SourceColumn) (name : String)
    → c.storage ≡ schema_column name
    → (source_column_field_info c).source ≡ column name
unfolding source_column_field_info
offered_source c name hs = rw hs refl

offered_operators :
    (c : SourceColumn) (semantic : SemanticField)
    → c.semantic ≡ some semantic
    → field_kind_for_semantic semantic ≡ number
    → (source_column_field_info c).operators ≡ operators_for_kind number
unfolding source_column_field_info field_kind_for_source_column kind_by
offered_operators c semantic hm hn = rw (hm, hn) refl

module _ (u : Unicode) (shape : Option TableShape) (payload : String)
    (lookup : List (String × SourceSchemaField)) where
  stored_kind :
      (f : SourceSchemaField) (storage : ColumnStorage)
      → (stored_field_sql payload f storage).kind ≡ (exact_field f).kind
  unfolding stored_field_sql
  stored_kind f source_json = refl
  stored_kind f (schema_column name) = refl

  -- A registered field that the lookup holds resolves, and a search accepts an operator on it
  -- exactly if the schema's catalog offers that operator for the field.
  pub exact_field-accepted :
      (f : SourceSchemaField) (op : ConditionOp)
      → get f.field_id lookup ≡ some f
      → (r : SearchFieldSql) × (search_field_sql u shape payload lookup (exact_field f).source
          ≡ ok r)
        × ((validate_condition_operator r.kind op ≡ ok tt)
            ↔ (has_op op (exact_field f).operators ≡ true))
  unfolding search_field_sql
  exact_field-accepted f op known = (
    stored_field_sql payload f f.storage,
    rw (known, search_field_sql) refl,
    rw (stored_kind f f.storage) (validate_condition_operator_iff (exact_field f).kind op),
  )

  resolved_text :
      (name : String)
      → (name == "year") ≡ false
      → one_of result_columns name ≡ true
      → search_field_sql u shape payload lookup (column name) ≡ ok (column_field_sql payload name)
  unfolding search_field_sql
  resolved_text name hy hr = rw (hy, hr) refl

  refused_range :
      (name : String)
      → field_kind_for_column name ≡ text
      → validate_condition_operator (column_field_sql payload name).kind range
        ≡ err (not_valid range text)
  unfolding column_field_sql validate_condition_operator is_allowed
  refused_range name ht = rw ht refl

  -- A text column of the profile to which a meaning with numbers was given is offered with the
  -- operator "is between", and every search with that operator on it that is not empty is refused:
  -- the catalog goes by the meaning, the search by the name of the column.
  pub source_column_field_info-refused {ℓ} :
      {F : Type ℓ} (read_float : List ℕ → Option F) (c : SourceColumn) (name : String)
      (semantic : SemanticField) (condition : QueryCondition)
      → c.storage ≡ schema_column name
      → (name == "year") ≡ false
      → one_of result_columns name ≡ true
      → field_kind_for_column name ≡ text
      → c.semantic ≡ some semantic
      → field_kind_for_semantic semantic ≡ number
      → condition.field ≡ (source_column_field_info c).source
      → condition.op ≡ range
      → condition_is_empty u condition.op condition.value ≡ false
      → (has_op range (source_column_field_info c).operators ≡ true)
        × (compile_condition u read_float shape payload lookup condition
            ≡ err (not_valid range text))
  unfolding compile_condition operators_for_kind
  source_column_field_info-refused read_float c name semantic condition hs hy hr ht hm hn hf ho he =
      let field : condition.field ≡ column name = hf ∙ offered_source c name hs in
      (
        ap (has_op range) (offered_operators c semantic hm hn),
        rw (he, field, ho, resolved_text name hy hr) (rw (refused_range name ht) refl),
      )
