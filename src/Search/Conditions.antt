-- ===== src/Search/Conditions.antt =====
-- src/search.rs: the condition that a new row of the query editor starts with, and the value that
-- an operator needs.
use Prim.Native.String.{◌++◌}
use base_search.Prelude.{
  String, Bool, true, false, Option, none, some, List, [], ◌∷◌, if◌then◌else◌,
}
use base_search.Prelude.Texts.{join, Unicode, trimmed}
use base_search.Search.Expr.{
  LogicOp, ConditionOp, contains, equals, starts_with, is_any_of, range, is_not_empty,
  ConditionValue, no_value, one_value, value_list, value_range, QueryCondition, QueryExpr, group,
  condition, op_label,
}
use base_search.Search.Fields.{FieldKind, text, code, FieldInfo}
use base_search.Search.Catalog.{field_label}

unfoldable pub default_op : FieldKind → ConditionOp
default_op text = contains
default_op code = starts_with
default_op kind = equals

unfoldable pub default_value_for_op : ConditionOp → ConditionValue
default_value_for_op ConditionOp.is_empty = no_value
default_value_for_op is_not_empty = no_value
default_value_for_op is_any_of = value_list ("" ∷ [])
default_value_for_op range = value_range none none
default_value_for_op contains = one_value ""
default_value_for_op equals = one_value ""
default_value_for_op starts_with = one_value ""

unfoldable pub default_condition_for_field : FieldInfo → QueryCondition
default_condition_for_field info = record {
  field = info.source;
  op = default_op info.kind;
  value = default_value_for_op (default_op info.kind);
  negated = false;
}

-- Whether a value has the form that an operator reads.
unfoldable pub value_matches : ConditionOp → ConditionValue → Bool
value_matches ConditionOp.is_empty no_value = true
value_matches is_not_empty no_value = true
value_matches contains (one_value v) = true
value_matches equals (one_value v) = true
value_matches starts_with (one_value v) = true
value_matches is_any_of (value_list vs) = true
value_matches range (value_range from to) = true
value_matches op v = false

unfoldable pub ensure_value_matches_operator : QueryCondition → QueryCondition
ensure_value_matches_operator c =
    if value_matches c.op c.value then c else record c { value = default_value_for_op c.op }

abbrev bound : Option String → String
bound none = ""
bound (some v) = v

unfoldable pub value_label : ConditionValue → String
value_label no_value = ""
value_label (one_value v) = v
value_label (value_list vs) = join ", " vs
value_label (value_range from to) = bound from ++ (".." ++ bound to)

abbrev op_text : LogicOp → String
op_text LogicOp.and = "AND"
op_text LogicOp.or = "OR"

abbrev not_prefix : Bool → String → String
not_prefix negated s = if negated then "NOT " ++ s else s

unfoldable pub expr_label : Unicode → QueryExpr → List FieldInfo → String
expr_label u (group op negated children) catalog = not_prefix negated (op_text op ++ " group")
expr_label u (condition c) catalog = trimmed u (
    not_prefix c.negated
      (field_label c.field catalog ++ (" " ++ (op_label c.op ++ (" " ++ value_label c.value)))))
