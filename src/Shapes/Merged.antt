-- ===== src/Shapes/Merged.antt =====
-- src/storage/table_shape.rs: what merging a column keeps and what it adds.
use text.Mathlib.TextEquality.{eq_iff}
use base_search.Prelude.{
  ◌≡◌, refl, sym, ap, ◌∙◌, subst, String, true, false, ◌||◌, Option, none, some, List, [], ◌∷◌,
  ◌++◌, ◌==◌, string_eq, length, arith, if◌then◌else◌, Bool-cases, inl, inr,
}
use base_search.Shapes.Columns.{ColumnStorage, source_json, schema_column, storage_eq, SourceColumn}
use base_search.Shapes.Merging.{has_id, find_column, semantic_or, fill_semantic}

-- No two columns share an id.
abbrev pub HasDistinctIds : List SourceColumn → Type 0
HasDistinctIds [] = Unit
HasDistinctIds (c ∷ cs) = (has_id c.id cs ≡ false) × HasDistinctIds cs

some_inj {ℓ} : {A : Type ℓ} {a b : A} → ◌≡◌ {A = Option A} (some a) (some b) → a ≡ b
some_inj e = cc

pub storage_eq-eq : (a b : ColumnStorage) → storage_eq a b ≡ true → a ≡ b
storage_eq-eq source_json source_json h = refl
storage_eq-eq (schema_column a) (schema_column b) h = ap schema_column ((eq_iff a b).0 h)
storage_eq-eq source_json (schema_column b) h = absurd (cc)
storage_eq-eq (schema_column a) source_json h = absurd (cc)

has_id-append :
    (s : String) (columns : List SourceColumn) (c : SourceColumn)
    → has_id s (columns ++ c ∷ []) ≡ (has_id s columns || (c.id == s))
has_id-append s [] c = ground arith
has_id-append s (d ∷ ds) c = ground (arith, has_id-append s ds c)

has_id-fill_semantic :
    (s : String) (c : SourceColumn) (columns : List SourceColumn)
    → has_id s (fill_semantic c columns) ≡ has_id s columns
has_id-fill_semantic s c [] = refl
has_id-fill_semantic s c (d ∷ ds) = ground (arith, has_id-fill_semantic s c ds)

pub fill_semantic-HasDistinctIds :
    (c : SourceColumn) (columns : List SourceColumn)
    → HasDistinctIds columns
    → HasDistinctIds (fill_semantic c columns)
fill_semantic-HasDistinctIds c [] h = tt
fill_semantic-HasDistinctIds c (d ∷ ds) h = elim (Bool-cases (d.id == c.id)) [
  | inl same ↦ rw same h
  | inr other ↦
      rw other (has_id-fill_semantic d.id c ds ∙ h.0, fill_semantic-HasDistinctIds c ds h.1)
]

pub append-HasDistinctIds :
    (columns : List SourceColumn) (c : SourceColumn)
    → has_id c.id columns ≡ false
    → HasDistinctIds columns
    → HasDistinctIds (columns ++ c ∷ [])
append-HasDistinctIds [] c fresh h = (refl, tt)
append-HasDistinctIds (d ∷ ds) c fresh h = (
  ground (arith, has_id-append d.id ds c, eq_iff c.id d.id, eq_iff d.id c.id),
  append-HasDistinctIds ds c (ground arith) h.1,
)

pub find_column-has_id :
    (s : String) (columns : List SourceColumn)
    → find_column s columns ≡ none
    → has_id s columns ≡ false
find_column-has_id s [] h = refl
find_column-has_id s (c ∷ cs) h = ground (arith, find_column-has_id s cs)

pub find_column-append :
    (s : String) (columns : List SourceColumn) (c : SourceColumn)
    → has_id s columns ≡ false
    → find_column s (columns ++ c ∷ []) ≡ (if c.id == s then some c else none)
find_column-append s [] c h = refl
find_column-append s (d ∷ ds) c h = ground (arith, find_column-append s ds c)

pub find_column-append_known :
    (s : String) (columns : List SourceColumn) (c d : SourceColumn)
    → find_column s columns ≡ some d
    → find_column s (columns ++ c ∷ []) ≡ some d
find_column-append_known s [] c d h = ground arith
find_column-append_known s (e ∷ es) c d h = ground (arith, find_column-append_known s es c d)

pub find_column-id :
    (s : String) (columns : List SourceColumn) (c : SourceColumn)
    → find_column s columns ≡ some c
    → (c.id ≡ s) × (has_id s columns ≡ true)
find_column-id s [] c h = absurd (ground arith)
find_column-id s (d ∷ ds) c h = elim (Bool-cases (d.id == s)) [
  | inl found ↦ (
    subst (λ (o : SourceColumn). o.id ≡ s) (some_inj (rw found at h)) ((eq_iff d.id s).0 found),
    rw found refl,
  )
  | inr other ↦ let r = find_column-id s ds c (rw other at h) in (r.0, rw other r.1)
]

-- A column as it is after another has filled its meaning.
abbrev pub filled : SourceColumn → SourceColumn → SourceColumn
filled incoming c =
    if c.id == incoming.id
    then record c { semantic = semantic_or c.semantic incoming.semantic }
    else c

pub find_column-fill_semantic :
    (s : String) (incoming : SourceColumn) (columns : List SourceColumn) (c : SourceColumn)
    → find_column s columns ≡ some c
    → find_column s (fill_semantic incoming columns) ≡ some (filled incoming c)
find_column-fill_semantic s incoming [] c h = ground arith
find_column-fill_semantic s incoming (d ∷ ds) c h =
    let i = find_column-id s (d ∷ ds) c h in
    elim (Bool-cases (d.id == s)) [
      | inl found ↦
          subst (λ x. find_column s (fill_semantic incoming (d ∷ ds)) ≡ some (filled incoming x))
            (some_inj (rw found at h)) (first_filled found)
      | inr other ↦ elim (Bool-cases (d.id == incoming.id)) [
        | inl match ↦
            rw (match, other)
              (rw (rw other at h) (
                ap some (
                  sym (
                    unfilled (
                      ground (
                        arith,
                        i.0,
                        eq_iff d.id s,
                        eq_iff d.id incoming.id,
                        eq_iff c.id incoming.id,
                      ))))))
        | inr differs ↦
            rw (differs, other) (find_column-fill_semantic s incoming ds c (rw other at h))
      ]
    ]
  where
    first_filled :
        (d.id == s) ≡ true
        → find_column s (fill_semantic incoming (d ∷ ds)) ≡ some (filled incoming d)
    first_filled found = elim (Bool-cases (d.id == incoming.id)) [
      | inl match ↦ rw match (rw found refl)
      | inr differs ↦ rw differs (rw found refl)
    ]

    unfilled : (c.id == incoming.id) ≡ false → filled incoming c ≡ c
    unfilled e = rw e refl

pub length-fill_semantic :
    (c : SourceColumn) (columns : List SourceColumn)
    → length (fill_semantic c columns) ≡ length columns
length-fill_semantic c [] = refl
length-fill_semantic c (d ∷ ds) = ground (arith, length-fill_semantic c ds)
