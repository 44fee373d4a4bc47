-- ===== src/Editor/Actions.antt =====
-- src/app/advanced_query.rs: the edits of the query tree. A query without a group at its root gets
-- one first.
use base_search.Prelude.{ℕ, zero, suc, Bool, false, not, Option, none, some}
use base_search.Search.Expr.{
  LogicOp, QueryCondition, QueryExpr, QueryExprs, group, condition, none_left, child,
}

pub data AdvancedChipAction : Type 0 where
  duplicate toggle_not remove : ℕ → AdvancedChipAction

-- The operator, the negation and the children of a group.
abbrev pub Root : Type 0
Root = LogicOp × Bool × QueryExprs

abbrev pub to_group : Root → Option QueryExpr
to_group (op, negated, children) = some (group op negated children)

unfoldable pub root_of : Option QueryExpr → Root
root_of none = (LogicOp.and, false, none_left)
root_of (some (group op negated children)) = (op, negated, children)
root_of (some (condition c)) = (LogicOp.and, false, child (condition c) none_left)

unfoldable pub ensure_advanced_root : Option QueryExpr → Option QueryExpr
ensure_advanced_root query = to_group (root_of query)

unfoldable pub push_child : QueryExprs → QueryExpr → QueryExprs
push_child none_left e = child e none_left
push_child (child x xs) e = child x (push_child xs e)

abbrev pub with_children : (QueryExprs → QueryExprs) → Root → Option QueryExpr
with_children f (op, negated, children) = some (group op negated (f children))

unfoldable pub add_advanced_condition : Option QueryExpr → QueryCondition → Option QueryExpr
add_advanced_condition query c =
    with_children (λ children. push_child children (condition c)) (root_of query)

unfoldable pub toggle_expr_not : QueryExpr → QueryExpr
toggle_expr_not (group op negated children) = group op (not negated) children
toggle_expr_not (condition c) = condition (record c { negated = not c.negated })

unfoldable pub duplicate_at : ℕ → QueryExprs → QueryExprs
duplicate_at index none_left = none_left
duplicate_at zero (child e es) = child e (child e es)
duplicate_at (suc index) (child e es) = child e (duplicate_at index es)

unfoldable pub toggle_at : ℕ → QueryExprs → QueryExprs
toggle_at index none_left = none_left
toggle_at zero (child e es) = child (toggle_expr_not e) es
toggle_at (suc index) (child e es) = child e (toggle_at index es)

unfoldable pub remove_at : ℕ → QueryExprs → QueryExprs
remove_at index none_left = none_left
remove_at zero (child e es) = es
remove_at (suc index) (child e es) = child e (remove_at index es)

unfoldable pub edit_children : AdvancedChipAction → QueryExprs → QueryExprs
edit_children (duplicate index) = duplicate_at index
edit_children (toggle_not index) = toggle_at index
edit_children (remove index) = remove_at index

unfoldable pub apply_advanced_chip_action : Option QueryExpr → AdvancedChipAction → Option QueryExpr
apply_advanced_chip_action query action = with_children (edit_children action) (root_of query)
