-- ===== src/Shapes/Landing.antt =====
-- src/storage/table_shape.rs: where a merged column lands, and what happens to the columns that
-- were there.
use text.Mathlib.TextEquality.{eq_iff}
use base_search.Prelude.{
  suc, ◌+◌, ◌≡◌, refl, sym, ap, ◌∙◌, subst, String, Bool, true, false, ◌&&◌, none, some, List, [],
  ◌∷◌, ◌++◌, ◌==◌, string_eq, eq_refl, length, length-append, arith, Bool-cases, Option-cases, inl,
  inr,
}
use base_search.Shapes.Columns.{storage_eq, SourceColumn}
use base_search.Shapes.Merging.{
  has_id, find_column, fill_semantic, unique_column_id, same_column, merge_column, merge_columns,
}
use base_search.Shapes.FreshIds.{unique_column_id-IsFirstFree}
use base_search.Shapes.Merged.{
  HasDistinctIds, storage_eq-eq, fill_semantic-HasDistinctIds, append-HasDistinctIds,
  find_column-has_id, find_column-append, find_column-append_known, filled,
  find_column-fill_semantic, find_column-id, length-fill_semantic,
}

fresh_in :
    (columns : List SourceColumn) (base : String)
    → has_id (unique_column_id columns base) columns ≡ false
fresh_in columns base = (unique_column_id-IsFirstFree columns base).4

filled_lem :
    (incoming c : SourceColumn)
    → ((filled incoming c).header ≡ c.header)
      × ((filled incoming c).storage ≡ c.storage)
      × ((filled incoming c).id ≡ c.id)
filled_lem incoming c = elim (Bool-cases (c.id == incoming.id)) [
  | inl e ↦ rw e (refl, refl, refl)
  | inr e ↦ rw e (refl, refl, refl)
]

and_parts : (a b : Bool) → (a && b) ≡ true → (a ≡ true) × (b ≡ true)
and_parts true b h = (refl, h)
and_parts false b h = absurd (cc)

same_column_lem :
    (a b : SourceColumn) → same_column a b ≡ true → (a.header ≡ b.header) × (a.storage ≡ b.storage)
same_column_lem a b h =
    let p = and_parts (storage_eq a.storage b.storage) (a.header == b.header) h in
    ((eq_iff a.header b.header).0 p.1, storage_eq-eq a.storage b.storage p.0)

-- A column with another id.
abbrev with_id : SourceColumn → String → SourceColumn
with_id c id = record c { id = id }

module _ (incoming : SourceColumn) (columns : List SourceColumn) where
  abbrev updated : List SourceColumn
  updated = fill_semantic incoming columns

  abbrev fresh : String
  fresh = unique_column_id updated incoming.id

  -- The three ways of a merge.
  merge_new :
      find_column incoming.id columns ≡ none
      → merge_column incoming columns ≡ (columns ++ incoming ∷ [], incoming.id)
  unfolding merge_column
  merge_new absent = rw (absent, merge_column) refl

  merge_same :
      (existing : SourceColumn)
      → find_column incoming.id columns ≡ some existing
      → same_column existing incoming ≡ true
      → merge_column incoming columns ≡ (updated, incoming.id)
  unfolding merge_column
  merge_same existing found same = rw (found, same, merge_column) refl

  merge_apart :
      (existing : SourceColumn)
      → find_column incoming.id columns ≡ some existing
      → same_column existing incoming ≡ false
      → merge_column incoming columns ≡ (updated ++ with_id incoming fresh ∷ [], fresh)
  unfolding merge_column
  merge_apart existing found differs = rw (found, differs, merge_column) refl

  -- To prove a property of a merge in each of the three ways.
  by_ways {ℓ} :
      (P : List SourceColumn × String → Type ℓ)
      → (find_column incoming.id columns ≡ none → P (columns ++ incoming ∷ [], incoming.id))
      → ((existing : SourceColumn)
          → find_column incoming.id columns ≡ some existing
          → same_column existing incoming ≡ true
          → P (updated, incoming.id))
      → P (updated ++ with_id incoming fresh ∷ [], fresh)
      → P (merge_column incoming columns)
  by_ways P new same apart = elim (Option-cases (find_column incoming.id columns)) [
    | inl absent ↦ subst P (sym (merge_new absent)) (new absent)
    | inr (existing, found) ↦ elim (Bool-cases (same_column existing incoming)) [
      | inl e ↦ subst P (sym (merge_same existing found e)) (same existing found e)
      | inr e ↦ subst P (sym (merge_apart existing found e)) apart
    ]
  ]

  merge_column-HasDistinctIds :
      HasDistinctIds columns → HasDistinctIds (merge_column incoming columns).0
  merge_column-HasDistinctIds distinct =
      let kept = fill_semantic-HasDistinctIds incoming columns distinct in
      by_ways (λ (r : List SourceColumn × String). HasDistinctIds r.0)
        (λ absent.
          append-HasDistinctIds columns incoming (find_column-has_id incoming.id columns absent)
            distinct)
        (λ existing found same. kept)
        (append-HasDistinctIds updated (with_id incoming fresh) (fresh_in updated incoming.id) kept)

  -- What a merge reports.
  abbrev Lands : List SourceColumn × String → Type 0
  Lands r =
      (c : SourceColumn) × (find_column r.1 r.0 ≡ some c)
      × (c.header ≡ incoming.header)
      × (c.storage ≡ incoming.storage)

  landed :
      (id : String) (cs : List SourceColumn)
      → has_id id cs ≡ false
      → find_column id (cs ++ with_id incoming id ∷ []) ≡ some (with_id incoming id)
  landed id cs absent = find_column-append id cs (with_id incoming id) absent ∙ rw (eq_refl id) refl

  merge-Lands : Lands (merge_column incoming columns)
  merge-Lands =
      by_ways Lands
        (λ absent. (
          incoming,
          landed incoming.id columns (find_column-has_id incoming.id columns absent),
          refl,
          refl,
        ))
        (λ existing found same. (
          filled incoming existing,
          find_column-fill_semantic incoming.id incoming columns existing found,
          (filled_lem incoming existing).0 ∙ (same_column_lem existing incoming same).0,
          (filled_lem incoming existing).1 ∙ (same_column_lem existing incoming same).1,
        ))
        (with_id incoming fresh, landed fresh updated (fresh_in updated incoming.id), refl, refl)

  -- Every column that was there.
  abbrev Keeps : List SourceColumn × String → Type 0
  Keeps r =
      (s : String) (c : SourceColumn)
      → find_column s columns ≡ some c
      → find_column s r.0 ≡ some (filled incoming c)

  unfilled :
      find_column incoming.id columns ≡ none
      → (s : String) (c : SourceColumn) → find_column s columns ≡ some c
      → filled incoming c ≡ c
  unfilled absent s c found =
      let i = find_column-id s columns c found in
      elim (Bool-cases (c.id == incoming.id)) [
        | inr other ↦ rw other refl
        | inl match ↦ absurd (
            let x : true ≡ false =
              sym i.1
              ∙ ap (λ t. has_id t columns) (sym i.0 ∙ (eq_iff c.id incoming.id).0 match)
              ∙ find_column-has_id incoming.id columns absent in
            cc)
      ]

  merge-Keeps : Keeps (merge_column incoming columns)
  merge-Keeps =
      by_ways Keeps
        (λ absent s c found.
          find_column-append_known s columns incoming c found
          ∙ ap some (sym (unfilled absent s c found)))
        (λ existing known same s c found. find_column-fill_semantic s incoming columns c found)
        (λ s c found.
          find_column-append_known s updated (with_id incoming fresh) (filled incoming c)
            (find_column-fill_semantic s incoming columns c found))

  -- Merging a column keeps the ids apart. It reports the id of a column that has the header and the
  -- storage of the merged one, and a column that was found under some id before is found under it
  -- afterwards, unchanged but for a missing meaning, which is filled in where its id is that of the
  -- merged column.
  pub merge_column_lem :
      (s : String) (c : SourceColumn)
      → HasDistinctIds columns
      → find_column s columns ≡ some c
      → HasDistinctIds (merge_column incoming columns).0
        × ((landed : SourceColumn) × (find_column
                (merge_column incoming columns).1
                (merge_column incoming columns).0
              ≡ some landed)
            × (landed.header ≡ incoming.header)
            × (landed.storage ≡ incoming.storage))
        × (find_column s (merge_column incoming columns).0 ≡ some (filled incoming c))
  merge_column_lem s c distinct found =
      (merge_column-HasDistinctIds distinct, merge-Lands, merge-Keeps s c found)

  -- A column whose id is taken by one with another header or storage.
  length-merge_apart :
      (existing : SourceColumn)
      → find_column incoming.id columns ≡ some existing
      → same_column existing incoming ≡ false
      → length (merge_column incoming columns).0 ≡ suc (length columns)
  length-merge_apart existing found differs = rw (merge_apart existing found differs) (
      omega (
        arith,
        length-append updated (with_id incoming fresh ∷ []),
        length-fill_semantic incoming columns,
      ))

same_column-filled :
    (incoming existing : SourceColumn)
    → same_column existing incoming ≡ false
    → same_column (filled incoming existing) incoming ≡ false
same_column-filled incoming existing h =
    rw ((filled_lem incoming existing).0, (filled_lem incoming existing).1) h

-- A column whose id stands for a column with another header or storage is added anew each time
-- that it is merged: merging it twice leaves two columns more, although they have the same header
-- and storage.
pub merge_columns-repeats :
    (incoming existing : SourceColumn) (columns : List SourceColumn)
    → find_column incoming.id columns ≡ some existing
    → same_column existing incoming ≡ false
    → length (merge_columns (incoming ∷ incoming ∷ []) columns) ≡ length columns + 2
unfolding merge_columns
merge_columns-repeats incoming existing columns found differs = omega (
  arith,
  length-merge_apart incoming columns existing found differs,
  length-merge_apart incoming (merge_column incoming columns).0 (filled incoming existing)
      (merge-Keeps incoming columns incoming.id existing found)
      (same_column-filled incoming existing differs),
)
