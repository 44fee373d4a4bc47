-- ===== src/Editor/Undo.antt =====
-- src/app/advanced_query.rs: edits that undo each other.
use base_search.Prelude.{ℕ, zero, suc, ◌≡◌, refl, ap, Bool, true, false, not, Option, some}
use base_search.Search.Expr.{QueryExpr, QueryExprs, group, condition, none_left, child}
use base_search.Editor.Actions.{
  duplicate, toggle_not, remove, root_of, ensure_advanced_root, toggle_expr_not, duplicate_at,
  toggle_at, remove_at, edit_children, apply_advanced_chip_action,
}

remove_at-duplicate_at :
    (index : ℕ) (es : QueryExprs) → remove_at (suc index) (duplicate_at index es) ≡ es
unfolding remove_at duplicate_at
remove_at-duplicate_at index none_left = refl
remove_at-duplicate_at zero (child e es) = refl
remove_at-duplicate_at (suc index) (child e es) = ap (child e) (remove_at-duplicate_at index es)

not-not : (b : Bool) → not (not b) ≡ b
not-not true = refl
not-not false = refl

toggle_expr_not-twice : (e : QueryExpr) → toggle_expr_not (toggle_expr_not e) ≡ e
unfolding toggle_expr_not
toggle_expr_not-twice (group op negated children) = ap (λ b. group op b children) (not-not negated)
toggle_expr_not-twice (condition c) =
    ap (λ b. condition (record c { negated = b })) (not-not c.negated)

toggle_at-twice : (index : ℕ) (es : QueryExprs) → toggle_at index (toggle_at index es) ≡ es
unfolding toggle_at
toggle_at-twice index none_left = refl
toggle_at-twice zero (child e es) = ap (λ x. child x es) (toggle_expr_not-twice e)
toggle_at-twice (suc index) (child e es) = ap (child e) (toggle_at-twice index es)

pub apply_advanced_chip_action-undone :
    (query : Option QueryExpr) (index : ℕ)
    → (apply_advanced_chip_action
          (apply_advanced_chip_action query (duplicate index))
          (remove (suc index))
        ≡ ensure_advanced_root query)
      × (apply_advanced_chip_action
            (apply_advanced_chip_action query (toggle_not index))
            (toggle_not index)
          ≡ ensure_advanced_root query)
unfolding apply_advanced_chip_action ensure_advanced_root root_of edit_children
apply_advanced_chip_action-undone query index =
    let (op, negated, children) = root_of query in
    (
      ap (λ es. some (group op negated es)) (remove_at-duplicate_at index children),
      ap (λ es. some (group op negated es)) (toggle_at-twice index children),
    )
