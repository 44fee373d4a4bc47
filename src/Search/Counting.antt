-- ===== src/Search/Counting.antt =====
-- src/storage/search_sql.rs: how many placeholders a text has: the lemmas on texts, on names of
-- columns and on the printed numbers.
use Prim.Native.String
use text.Mathlib.TextEquality.{eq_iff}
use base_search.Prelude.{
  ℕ, zero, suc, ◌+◌, ◌/◌, ◌%◌, ◌≡◌, refl, sym, ap, subst, String, Bool, true, Option, none, some,
  List, [], ◌∷◌, ◌==◌, string_eq, All, keep, arith, Bool-cases, inl, inr,
}
use base_search.Prelude.Texts.{
  occurrences, occurrences-append, join, one_of, decimal, decimal_fuel, digit_text,
}
use base_search.Values.Derived.{
  DerivedColumn, Derivation, is_derived_from, derived, derived_name_for, name_of_first,
}
use base_search.Search.Schema.{result_columns}
use base_search.Search.Clauses.{around}

-- The number of placeholders: '?' is the code point 63.
unfoldable pub placeholders : String → ℕ
placeholders s = occurrences 63 s

placeholders-append :
    (s t : String) → placeholders (String.◌++◌ s t) ≡ placeholders s + placeholders t
unfolding placeholders
placeholders-append s t = occurrences-append 63 s t

pub placeholders-around :
    (a b c : String)
    → placeholders (around a b c) ≡ placeholders a + placeholders b + placeholders c
unfolding around
placeholders-around a b c =
    omega (arith, placeholders-append a (String.◌++◌ b c), placeholders-append b c)

abbrev pub total : List String → ℕ
total [] = 0
total (s ∷ ss) = placeholders s + total ss

pub placeholders-join :
    (separator : String) (parts : List String)
    → placeholders separator ≡ 0
    → placeholders (join separator parts) ≡ total parts
unfolding join placeholders occurrences
placeholders-join separator [] h = refl
placeholders-join separator (part ∷ []) h = omega arith
placeholders-join separator (part ∷ next ∷ parts) h = omega (
  arith,
  occurrences-append 63 part (String.◌++◌ separator (join separator (next ∷ parts))),
  occurrences-append 63 separator (join separator (next ∷ parts)),
  placeholders-join separator (next ∷ parts) h,
)

-- A text without placeholders.
abbrev pub Plain : String → Type 0
Plain s = placeholders s ≡ 0

digit_text-Plain : (n : ℕ) → Plain (digit_text n)
unfolding placeholders occurrences digit_text
digit_text-Plain zero = refl
digit_text-Plain (suc zero) = refl
digit_text-Plain (suc (suc zero)) = refl
digit_text-Plain (suc (suc (suc zero))) = refl
digit_text-Plain (suc (suc (suc (suc zero)))) = refl
digit_text-Plain (suc (suc (suc (suc (suc zero))))) = refl
digit_text-Plain (suc (suc (suc (suc (suc (suc zero)))))) = refl
digit_text-Plain (suc (suc (suc (suc (suc (suc (suc zero))))))) = refl
digit_text-Plain (suc (suc (suc (suc (suc (suc (suc (suc zero)))))))) = refl
digit_text-Plain (suc (suc (suc (suc (suc (suc (suc (suc (suc n))))))))) = refl

decimal_fuel-Plain : (fuel n : ℕ) → Plain (decimal_fuel fuel n)
unfolding decimal_fuel
decimal_fuel-Plain zero n = unfold placeholders occurrences in refl
decimal_fuel-Plain (suc fuel) n = ground (
  arith,
  digit_text-Plain n,
  digit_text-Plain (n % 10),
  decimal_fuel-Plain fuel (n / 10),
  placeholders-append (decimal_fuel fuel (n / 10)) (digit_text (n % 10)),
)

pub decimal-Plain : (n : ℕ) → Plain (decimal n)
unfolding decimal
decimal-Plain n = decimal_fuel-Plain (n + 1) n

-- A property of every name in a list is one of each name that `one_of` finds.
one_of-All {κ} :
    (P : String → Type κ) (names : List String) (s : String)
    → All P names
    → one_of names s ≡ true
    → P s
unfolding one_of
one_of-All P (name ∷ names) s h e = elim (Bool-cases (s == name)) [
  | inl found ↦ subst P (sym ((eq_iff s name).0 found)) h.0
  | inr other ↦ one_of-All P names s h.1 (ground arith)
]
one_of-All P [] s h e = ground arith

abbrev name_or : String → Option String → String
name_or other none = other
name_or other (some name) = name

-- The materialized columns have plain names.
name-Plain :
    (p : DerivedColumn → Bool) (cs : List DerivedColumn) (name : String)
    → All (λ (c : DerivedColumn). Plain c.name) cs
    → name_of_first (keep p cs) ≡ some name
    → Plain name
name-Plain p [] name h e = ground arith
name-Plain p (c ∷ cs) name h e = elim (Bool-cases (p c)) [
  | inl kept ↦ subst Plain (ap (name_or "") (rw kept at e)) h.0
  | inr dropped ↦ name-Plain p cs name h.1 (rw dropped at e)
]

pub derived_name_for-Plain :
    (source : String) (d : Derivation) (name : String)
    → derived_name_for source d ≡ some name
    → Plain name
unfolding derived_name_for
derived_name_for-Plain source d name e =
    name-Plain (is_derived_from source d) derived name
      (unfold derived placeholders occurrences in (omega arith)) e

pub result_column-Plain : (name : String) → one_of result_columns name ≡ true → Plain name
result_column-Plain name h =
    one_of-All Plain result_columns name
      (unfold result_columns placeholders occurrences in (omega arith)) h
