-- ===== src/Search/Expr.antt =====
-- src/search.rs: query expressions.
use Prim.Native.String.{◌++◌}
use base_search.Prelude.{
  String, Bool, true, false, ◌&&◌, Option, none, some, List, [], ◌∷◌, all, ◌==◌, string_eq,
  if◌then◌else◌,
}
use base_search.Prelude.Texts.{Unicode, trimmed, is_empty as is_empty_text, one_of}

pub data LogicOp : Type 0 where
  and or : LogicOp

pub data FieldRef : Type 0 where
  column extra source_field : String → FieldRef

unfoldable pub field_id : FieldRef → String
field_id (column name) = name
field_id (extra header) = "extra:" ++ header
field_id (source_field id) = id

abbrev pub field_eq : FieldRef → FieldRef → Bool
field_eq (column a) (column b) = a == b
field_eq (extra a) (extra b) = a == b
field_eq (source_field a) (source_field b) = a == b
field_eq a b = false

pub data ConditionOp : Type 0 where
  contains equals starts_with is_any_of range is_empty is_not_empty : ConditionOp

unfoldable pub op_label : ConditionOp → String
op_label contains = "contains"
op_label equals = "equals"
op_label starts_with = "starts with"
op_label is_any_of = "is any of"
op_label range = "is between"
op_label ConditionOp.is_empty = "is empty"
op_label is_not_empty = "is not empty"

pub data ConditionValue : Type 0 where
  no_value : ConditionValue
  one_value : String → ConditionValue
  value_list : List String → ConditionValue
  value_range : Option String → Option String → ConditionValue

-- `ConditionValue::single`, `list` and `range`.
abbrev pub single : ConditionValue → Option String
single (one_value v) = some v
single other = none

abbrev pub values : ConditionValue → Option (List String)
values (value_list vs) = some vs
values other = none

abbrev pub bounds : ConditionValue → Option (Option String × Option String)
bounds (value_range from to) = some (from, to)
bounds other = none

pub record QueryCondition : Type 0 where
  pub field : FieldRef
  pub op : ConditionOp
  pub value : ConditionValue
  pub negated : Bool

-- `QueryExpr` with `QueryGroup`, and the children of a group.
mutual
  pub data QueryExpr : Type 0 where
    group : LogicOp → Bool → QueryExprs → QueryExpr
    condition : QueryCondition → QueryExpr

  pub data QueryExprs : Type 0 where
    none_left : QueryExprs
    child : QueryExpr → QueryExprs → QueryExprs

abbrev pub is_blank : Unicode → String → Bool
is_blank u s = is_empty_text (trimmed u s)

abbrev pub is_blank_option : Unicode → Option String → Bool
is_blank_option u none = true
is_blank_option u (some s) = is_blank u s

abbrev single_is_blank : Unicode → ConditionValue → Bool
single_is_blank u v = is_blank_option u (single v)

abbrev list_is_blank : Unicode → ConditionValue → Bool
list_is_blank u v = elim (values v) [ none ↦ true | some vs ↦ all (is_blank u) vs ]

abbrev range_is_blank : Unicode → ConditionValue → Bool
range_is_blank u v = elim (bounds v) [
  | none ↦ true
  | some (from, to) ↦ is_blank_option u from && is_blank_option u to
]

-- `QueryCondition::is_empty`.
unfoldable pub condition_is_empty : Unicode → ConditionOp → ConditionValue → Bool
condition_is_empty u ConditionOp.is_empty v = false
condition_is_empty u is_not_empty v = false
condition_is_empty u is_any_of v = list_is_blank u v
condition_is_empty u range v = range_is_blank u v
condition_is_empty u contains v = single_is_blank u v
condition_is_empty u equals v = single_is_blank u v
condition_is_empty u starts_with v = single_is_blank u v

-- `QueryExpr::is_empty` and `QueryGroup::is_empty`.
unfoldable mutual
  pub expr_is_empty : Unicode → QueryExpr → Bool
  expr_is_empty u (group op negated children) = group_is_empty u children
  expr_is_empty u (condition c) = condition_is_empty u c.op c.value

  pub group_is_empty : Unicode → QueryExprs → Bool
  group_is_empty u none_left = true
  group_is_empty u (child e es) = expr_is_empty u e && group_is_empty u es

-- `QueryGroup::as_expr`.
unfoldable pub as_expr : Unicode → LogicOp → Bool → QueryExprs → Option QueryExpr
as_expr u op negated children =
    if group_is_empty u children then none else some (group op negated children)

-- `Vec::push`.
abbrev pub append_id : List String → String → List String
append_id [] id = id ∷ []
append_id (x ∷ xs) id = x ∷ append_id xs id

-- `collect_source_field_ids`: the ids are added at the end of `ids`, each once.
abbrev pub push_id : FieldRef → List String → List String
push_id (source_field id) ids = if one_of ids id then ids else append_id ids id
push_id other ids = ids

unfoldable mutual
  pub collect_source_field_ids : QueryExpr → List String → List String
  collect_source_field_ids (group op negated children) ids = collect_children children ids
  collect_source_field_ids (condition c) ids = push_id c.field ids

  pub collect_children : QueryExprs → List String → List String
  collect_children none_left ids = ids
  collect_children (child e es) ids = collect_children es (collect_source_field_ids e ids)

unfoldable pub source_field_ids : QueryExpr → List String
source_field_ids e = collect_source_field_ids e []
