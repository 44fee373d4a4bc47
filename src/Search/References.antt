-- ===== src/Search/References.antt =====
-- src/search.rs: the ids of registered fields that an expression refers to.
use text.Mathlib.TextEquality.{eq_iff}
use base_search.Prelude.{
  ◌≡◌, refl, ◌∙◌, String, Bool, true, false, ◌||◌, List, [], ◌∷◌, ◌==◌, string_eq, arith,
  Bool-cases, inl, inr,
}
use base_search.Prelude.Texts.{one_of}
use base_search.Search.Expr.{
  FieldRef, column, extra, source_field, QueryExpr, group, condition, QueryExprs, none_left, child,
  append_id, push_id, collect_source_field_ids, collect_children, source_field_ids,
}

-- Whether an expression has a condition on a registered field.
abbrev refers : FieldRef → String → Bool
refers (source_field id) s = s == id
refers (column name) s = false
refers (extra header) s = false

unfoldable mutual
  mentions : QueryExpr → String → Bool
  mentions (group op negated children) s = any_mentions children s
  mentions (condition c) s = refers c.field s

  any_mentions : QueryExprs → String → Bool
  any_mentions none_left s = false
  any_mentions (child e es) s = mentions e s || any_mentions es s

-- Every id stands once.
abbrev pub IsOnce : List String → Type 0
IsOnce [] = Unit
IsOnce (id ∷ ids) = (one_of ids id ≡ false) × IsOnce ids

one_of-append_id :
    (ids : List String) (id s : String) → one_of (append_id ids id) s ≡ (one_of ids s || (s == id))
unfolding one_of
one_of-append_id [] id s = ground arith
one_of-append_id (x ∷ xs) id s = ground (arith, one_of-append_id xs id s)

append_id-IsOnce :
    (ids : List String) (id : String)
    → one_of ids id ≡ false
    → IsOnce ids
    → IsOnce (append_id ids id)
unfolding one_of
append_id-IsOnce [] id h once = (refl, tt)
append_id-IsOnce (x ∷ xs) id h once = (
  ground (arith, one_of-append_id xs id x, eq_iff x id, eq_iff id x),
  append_id-IsOnce xs id (ground arith) once.1,
)

push_id-IsOnce : (field : FieldRef) (ids : List String) → IsOnce ids → IsOnce (push_id field ids)
push_id-IsOnce (source_field id) ids once = elim (Bool-cases (one_of ids id)) [
  | inl known ↦ rw known once
  | inr new ↦ rw new (append_id-IsOnce ids id new once)
]
push_id-IsOnce (column name) ids once = once
push_id-IsOnce (extra header) ids once = once

one_of-push_id :
    (field : FieldRef) (ids : List String) (s : String)
    → one_of (push_id field ids) s ≡ (one_of ids s || refers field s)
one_of-push_id (source_field id) ids s =
    ground (arith, one_of-append_id ids id s, eq_iff s id, eq_iff id s)
one_of-push_id (column name) ids s = ground arith
one_of-push_id (extra header) ids s = ground arith

or_assoc : (a b c : Bool) → ((a || b) || c) ≡ (a || (b || c))
or_assoc true b c = refl
or_assoc false b c = refl

mutual
  unfolding collect_source_field_ids mentions

  one_of-collect :
      (e : QueryExpr) (ids : List String) (s : String)
      → one_of (collect_source_field_ids e ids) s ≡ (one_of ids s || mentions e s)
  one_of-collect (group op negated children) ids s = one_of-collect_children children ids s
  one_of-collect (condition c) ids s = one_of-push_id c.field ids s

  one_of-collect_children :
      (es : QueryExprs) (ids : List String) (s : String)
      → one_of (collect_children es ids) s ≡ (one_of ids s || any_mentions es s)
  one_of-collect_children none_left ids s = ground arith
  one_of-collect_children (child e es) ids s =
      one_of-collect_children es (collect_source_field_ids e ids) s
      ∙ rw (one_of-collect e ids s) (or_assoc (one_of ids s) (mentions e s) (any_mentions es s))

mutual
  unfolding collect_source_field_ids

  collect-IsOnce :
      (e : QueryExpr) (ids : List String) → IsOnce ids → IsOnce (collect_source_field_ids e ids)
  collect-IsOnce (group op negated children) ids once = collect_children-IsOnce children ids once
  collect-IsOnce (condition c) ids once = push_id-IsOnce c.field ids once

  collect_children-IsOnce :
      (es : QueryExprs) (ids : List String) → IsOnce ids → IsOnce (collect_children es ids)
  collect_children-IsOnce none_left ids once = once
  collect_children-IsOnce (child e es) ids once =
      collect_children-IsOnce es (collect_source_field_ids e ids) (collect-IsOnce e ids once)

-- The ids that are collected from an expression are those of the registered fields that some
-- condition of it, at any depth, is on, and each stands once.
source_field_ids_lem :
    (e : QueryExpr) (s : String)
    → IsOnce (source_field_ids e) × (one_of (source_field_ids e) s ≡ mentions e s)
unfolding source_field_ids one_of
source_field_ids_lem e s = (collect-IsOnce e [] tt, one_of-collect e [] s)
