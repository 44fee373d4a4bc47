-- ===== src/Search/Operators.antt =====
-- src/search.rs and src/storage/search_sql.rs: the operators that the catalogs offer, the ones
-- that a search accepts, and the values that they need.
use base_search.Prelude.{
  ℕ, ◌≡◌, refl, ap, ◌∙◌, ◌↔◌, ◌⊎◌, List-cases, All-map, String, Bool, true, false, List, [], ◌∷◌,
  map, any, All, All-append, ◌==◌, nat_eq, Option, none, some, ok, arith, Bool-cases, inl, inr,
}
use base_search.Prelude.Texts.{Unicode, trimmed, is_empty as is_empty_text}
use base_search.Shapes.Columns.{TableShape, SourceColumn}
use base_search.Search.Schema.{result_columns}
use base_search.Search.Expr.{
  ConditionOp, contains, equals, starts_with, is_any_of, range, is_not_empty, QueryCondition,
}
use base_search.Search.Fields.{
  FieldKind, text, code, country, number, date, year, FieldInfo, operators_for_kind, field_info,
  source_column_field_info,
}
use base_search.Search.Catalog.{
  profile_field, year_field, extra_field, extra_fields, result_field_catalog, field_catalog,
  with_source_file, is_source_file, result_field_catalog_for_shape, field_catalog_for_shape,
  nonempty_shape, no_columns, field_catalog_for_context,
}
use base_search.Search.Conditions.{
  default_op, default_value_for_op, default_condition_for_field, value_matches,
  ensure_value_matches_operator,
}
use base_search.Search.Clauses.{is_allowed, validate_condition_operator}

-- `PartialEq` of the operators, by the order in which they are declared.
abbrev op_index : ConditionOp → ℕ
op_index contains = 0
op_index equals = 1
op_index starts_with = 2
op_index is_any_of = 3
op_index range = 4
op_index ConditionOp.is_empty = 5
op_index is_not_empty = 6

abbrev pub has_op : ConditionOp → List ConditionOp → Bool
has_op op ops = any (λ o. op_index o == op_index op) ops

is_allowed-has_op :
    (kind : FieldKind) (op : ConditionOp) → is_allowed kind op ≡ has_op op (operators_for_kind kind)
unfolding is_allowed operators_for_kind
is_allowed-has_op text contains = refl
is_allowed-has_op code contains = refl
is_allowed-has_op country contains = refl
is_allowed-has_op number contains = refl
is_allowed-has_op date contains = refl
is_allowed-has_op year contains = refl
is_allowed-has_op _ _ = refl

-- A search accepts an operator on a field of some kind exactly if the catalogs offer it for that
-- kind: the two tables of the source agree for every kind and every operator.
pub validate_condition_operator_iff :
    (kind : FieldKind) (op : ConditionOp)
    → (validate_condition_operator kind op ≡ ok tt) ↔ (has_op op (operators_for_kind kind) ≡ true)
unfolding validate_condition_operator
validate_condition_operator_iff kind op = ground (arith, is_allowed-has_op kind op)

-- A field whose operators are those of its kind.
abbrev pub IsTyped : FieldInfo → Type 0
IsTyped info = info.operators ≡ operators_for_kind info.kind

default_op-has_op :
    (kind : FieldKind)
    → (has_op (default_op kind) (operators_for_kind kind) ≡ true)
      × (value_matches (default_op kind) (default_value_for_op (default_op kind)) ≡ true)
unfolding default_op operators_for_kind value_matches default_value_for_op
default_op-has_op text = (refl, refl)
default_op-has_op _ = (refl, refl)

default_value_for_op-matches :
    (op : ConditionOp) → value_matches op (default_value_for_op op) ≡ true
unfolding value_matches default_value_for_op
default_value_for_op-matches contains = refl
default_value_for_op-matches _ = refl

-- What the editor does when the operator of a condition changes: the value has the form that the
-- operator reads, the field, the operator and the negation stay, and a value that has this form
-- already is kept.
ensure_value_matches_operator_lem :
    (c : QueryCondition)
    → (value_matches (ensure_value_matches_operator c).op (ensure_value_matches_operator c).value
        ≡ true)
      × ((ensure_value_matches_operator c).field ≡ c.field)
      × ((ensure_value_matches_operator c).op ≡ c.op)
      × ((ensure_value_matches_operator c).negated ≡ c.negated)
      × ((value_matches c.op c.value ≡ false) ⊎ (ensure_value_matches_operator c ≡ c))
unfolding ensure_value_matches_operator
ensure_value_matches_operator_lem c = elim (Bool-cases (value_matches c.op c.value)) [
  | inl fits ↦ rw fits (fits, refl, refl, refl, inr refl)
  | inr differs ↦ rw differs (default_value_for_op-matches c.op, refl, refl, refl, inl refl)
]

All-map_of {ℓ κ μ} :
    {A : Type ℓ} {B : Type κ} (P : B → Type μ) (f : A → B) (xs : List A)
    → ((x : A) → P (f x))
    → All P (map f xs)
All-map_of P f [] h = tt
All-map_of P f (x ∷ xs) h = (h x, All-map_of P f xs h)

profile_field-IsTyped : (name : String) → IsTyped (profile_field name)
unfolding profile_field field_info
profile_field-IsTyped name = refl

with_source_file-IsTyped :
    (fields : List FieldInfo) → All IsTyped fields → All IsTyped (with_source_file fields)
unfolding with_source_file
with_source_file-IsTyped fields h = elim (Bool-cases (any is_source_file fields)) [
  | inl known ↦ rw known h
  | inr missing ↦
      rw missing (All-append IsTyped fields _ h (profile_field-IsTyped "source_file", tt))
]

year_field-IsTyped : IsTyped year_field
unfolding year_field field_info
year_field-IsTyped = refl

-- A field with the operators of its kind, whose first condition has one of them and a value of the
-- form that this operator reads.
abbrev pub IsOffered : FieldInfo → Type 0
IsOffered info =
    (info.operators ≡ operators_for_kind info.kind)
    × (has_op (default_condition_for_field info).op info.operators ≡ true)
    × (value_matches (default_condition_for_field info).op (default_condition_for_field info).value
        ≡ true)

IsTyped-IsOffered : (info : FieldInfo) → IsTyped info → IsOffered info
unfolding default_condition_for_field
IsTyped-IsOffered info e =
    let d = default_op-has_op info.kind in (e, ap (has_op (default_op info.kind)) e ∙ d.0, d.1)

module _ (u : Unicode) where
  extra_fields-IsTyped : (headers : List String) → All IsTyped (extra_fields u headers)
  unfolding extra_fields extra_field
  extra_fields-IsTyped [] = tt
  extra_fields-IsTyped (header ∷ headers) = elim (Bool-cases (is_empty_text (trimmed u header))) [
    | inl blank ↦ rw blank (extra_fields-IsTyped headers)
    | inr named ↦ rw named (refl, extra_fields-IsTyped headers)
  ]

  field_catalog-IsTyped : (headers : List String) → All IsTyped (field_catalog u headers)
  unfolding field_catalog year_field field_info result_field_catalog
  field_catalog-IsTyped headers = (
    refl,
    All-append IsTyped (map profile_field result_columns) (extra_fields u headers)
        (All-map_of IsTyped profile_field result_columns profile_field-IsTyped)
        (extra_fields-IsTyped headers),
  )

  shape_fields-IsTyped :
      (columns : List SourceColumn)
      → All IsTyped (with_source_file (map source_column_field_info columns))
  unfolding source_column_field_info
  shape_fields-IsTyped columns =
      with_source_file-IsTyped _ (All-map_of IsTyped source_column_field_info columns λ c. refl)

  context-IsTyped :
      (shape : Option TableShape) (headers : List String)
      → All IsTyped (field_catalog_for_context u shape headers)
  unfolding field_catalog_for_context field_catalog_for_shape result_field_catalog_for_shape
  context-IsTyped none headers = field_catalog-IsTyped headers
  context-IsTyped (some shape) headers = elim (List-cases shape.columns) [
    | inl e ↦ rw (e, nonempty_shape) (field_catalog-IsTyped headers)
    | inr (c, cs, e) ↦
        rw (e, nonempty_shape, no_columns, no_columns)
          (year_field-IsTyped, shape_fields-IsTyped (c ∷ cs))
  ]

  -- Every field that the catalog offers, with a shape or without one, carries the operators of its
  -- kind, and the condition that it starts with has one of them and a value of the form that this
  -- operator reads.
  pub field_catalog_for_context-IsOffered :
      (shape : Option TableShape) (headers : List String)
      → All IsOffered (field_catalog_for_context u shape headers)
  field_catalog_for_context-IsOffered shape headers =
      All-map IsTyped IsOffered (field_catalog_for_context u shape headers) IsTyped-IsOffered
        (context-IsTyped shape headers)
