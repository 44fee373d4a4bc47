-- ===== src/Editor/Examples.antt =====
-- Tests of the query editor, and its theorem at a concrete query.
use base_search.Prelude.{◌≡◌, refl, String, true, false, some, [], ◌∷◌, ◌==◌, nat_eq}
use base_search.Prelude.Texts
use base_search.Prelude.Texts.{Unicode}
use base_search.Search.Expr.{
  LogicOp, column, equals, one_value, QueryCondition, condition, group, child, none_left,
}
use base_search.Plan.Filters.{Filters}
use base_search.Editor.Chips
use base_search.Editor.Chips.{FilterName, flat_filter_chips, clear_filter}
use base_search.Editor.Actions
use base_search.Editor.Actions.{
  duplicate, toggle_not, remove, ensure_advanced_root, add_advanced_condition,
  apply_advanced_chip_action,
}
use base_search.Editor.Undo.{apply_advanced_chip_action-undone}

abbrev spaces : Unicode
spaces = record {
  white = λ c. c == 32;
  alphanumeric = λ c. true;
  lower = λ c. String.◌∷◌ c String.[];
  upper = λ c. String.◌∷◌ c String.[];
  lowercase = λ s. s;
}

abbrev two_filters : Filters
two_filters = record {
  year = " 2024 ";
  product_code = "  ";
  trademark = "";
  description = "";
  sender = "Acme";
  recipient = "";
  edrpou = "";
  trade_country = "";
  dispatch_country = "";
  origin_country = "";
}

chips_test :
    (flat_filter_chips spaces two_filters
      ≡ (FilterName.year, "2024") ∷ (FilterName.sender, "Acme") ∷ [])
    × (flat_filter_chips spaces (clear_filter FilterName.year two_filters)
        ≡ (FilterName.sender, "Acme") ∷ [])
unfolding Chips.flat_filter_chips Chips.filter_chips Chips.value_of Chips.clear_filter Texts.trim
    Texts.trim_start Texts.trim_end
chips_test = (refl, refl)

abbrev in_2024 : QueryCondition
in_2024 = record { field = column "year"; op = equals; value = one_value "2024"; negated = false }

added_test :
    add_advanced_condition (some (condition in_2024)) in_2024
    ≡ some
        (group LogicOp.and false (child (condition in_2024) (child (condition in_2024) none_left)))
unfolding Actions.add_advanced_condition Actions.root_of Actions.push_child
added_test = refl

apply_advanced_chip_action-undone_example :
    (apply_advanced_chip_action
        (apply_advanced_chip_action (some (condition in_2024)) (duplicate 0))
        (remove 1)
      ≡ ensure_advanced_root (some (condition in_2024)))
    × (apply_advanced_chip_action
          (apply_advanced_chip_action (some (condition in_2024)) (toggle_not 0))
          (toggle_not 0)
        ≡ ensure_advanced_root (some (condition in_2024)))
apply_advanced_chip_action-undone_example =
    apply_advanced_chip_action-undone (some (condition in_2024)) 0
