-- ===== src/Shapes/FreshIds.antt =====
-- src/storage/table_shape.rs: the loop of `unique_column_id` ends, with the first free id.
use text.Mathlib.TextLemmas.{append_cancel_left}
use text.Mathlib.TextEquality.{eq_iff}
use base_search.Prelude.{
  ℕ, zero, suc, ◌+◌, ◌≤◌, ◌<◌, ◌≡◌, ◌≢◌, refl, sym, ◌∙◌, subst, ltb, String, true, false, not, List,
  [], ◌∷◌, ◌==◌, string_eq, keep, length, length-keep-le, arith, Bool-cases, inl, inr,
}
use base_search.Shapes.Columns.{SourceColumn}
use base_search.Shapes.Merging.{has_id, candidate, next_free, unique_column_id}
use base_search.Shapes.Decimals.{decimal_inj}

candidate_inj : (base : String) (i j : ℕ) → candidate base i ≡ candidate base j → i ≡ j
unfolding candidate
candidate_inj base i j e =
    decimal_inj i j (append_cancel_left "_" _ _ (append_cancel_left base _ _ e))

-- The columns with another id.
abbrev without : String → List SourceColumn → List SourceColumn
without id columns = keep (λ (c : SourceColumn). not (c.id == id)) columns

has_id-without :
    (s t : String) (columns : List SourceColumn)
    → s ≢ t
    → has_id s (without t columns) ≡ has_id s columns
has_id-without s t [] h = refl
has_id-without s t (c ∷ cs) h =
    ground (arith, has_id-without s t cs h, eq_iff c.id t, eq_iff c.id s)

length-without-lt :
    (t : String) (columns : List SourceColumn)
    → has_id t columns ≡ true
    → length (without t columns) < length columns
length-without-lt t [] h = ground arith
length-without-lt t (c ∷ cs) h =
    ground
      (arith, length-without-lt t cs, length-keep-le (λ (d : SourceColumn). not (d.id == t)) cs)

-- What the loop promises when it starts at an index: the first candidate from there on that is
-- free, at most `fuel` steps away.
abbrev pub IsFirstFree : List SourceColumn → String → ℕ → ℕ → String → Type 0
IsFirstFree columns base index fuel id =
    (k : ℕ) × (id ≡ candidate base k)
    × (index ≤ k)
    × (k ≤ index + fuel)
    × (has_id id columns ≡ false)
    × ((j : ℕ) → index ≤ j → j < k → has_id (candidate base j) columns ≡ true)

-- A property at an index and behind it.
from_next {ℓ} : (P : ℕ → Type ℓ) (i j : ℕ) → P i → i ≤ j → (suc i ≤ j → P j) → P j
from_next P i j first le later = elim (Bool-cases (ltb i j)) [
  | inl less ↦ later (ground arith)
  | inr equal ↦ subst P (let e : i ≡ j = ground arith in e) first
]

-- `rest` are the columns whose id may still be a candidate.
next_free-IsFirstFree :
    (fuel : ℕ) (columns rest : List SourceColumn) (base : String) (index : ℕ)
    → length rest ≤ fuel
    → ((j : ℕ) → index ≤ j → has_id (candidate base j) columns ≡ has_id (candidate base j) rest)
    → IsFirstFree columns base index fuel (next_free fuel columns base index)
unfolding next_free
next_free-IsFirstFree zero columns [] base index h same =
    (index, refl, omega arith, omega arith, same index (omega arith), λ j a b. absurd (omega arith))
next_free-IsFirstFree zero columns (c ∷ cs) base index h same = absurd (omega arith)
next_free-IsFirstFree (suc fuel) columns rest base index h same =
    elim (Bool-cases (has_id (candidate base index) columns)) [
      | inr free ↦
          rw free (index, refl, omega arith, omega arith, free, λ j a b. absurd (omega arith))
      | inl taken ↦
          let later =
            next_free-IsFirstFree fuel columns (without (candidate base index) rest) base
              (suc index)
              (omega (
                arith,
                length-without-lt (candidate base index) rest
                    (sym (same index (omega arith)) ∙ taken),
              ))
              (λ j a.
                same j (omega (arith, a))
                ∙ sym (
                    has_id-without (candidate base j) (candidate base index) rest
                      λ e. absurd (omega (arith, candidate_inj base j index e)))) in
          rw taken (
            later.0,
            later.1,
            omega (arith, later.2),
            omega (arith, later.3),
            later.4,
            λ j a b.
                from_next (λ k. has_id (candidate base k) columns ≡ true) index j taken a
                  λ after. later.5 j after b,
          )
    ]

-- The loop that makes an id unique ends, after one candidate more than there are columns at most:
-- the id that it returns is that of no column, and each candidate before it, from the suffix "_2"
-- on, is taken.
pub unique_column_id-IsFirstFree :
    (columns : List SourceColumn) (base : String)
    → IsFirstFree columns base 2 (length columns) (unique_column_id columns base)
unfolding unique_column_id
unique_column_id-IsFirstFree columns base =
    next_free-IsFirstFree (length columns) columns columns base 2 (omega arith) λ j a. refl
