-- ===== src/Plan/SourceTexts.antt =====
-- src/storage/analytics_columns.rs: the expressions of a meaning hold no placeholder.
use Prim.Native.Char.{Char, code}
use base_search.Prelude.{
  ◌≡◌, refl, String, Bool, Option, none, some, List, [], ◌∷◌, ◌++◌, ◌==◌, nat_eq, keep, any, map,
  All, All-append, arith, Bool-cases, Option-cases, inl, inr, if◌then◌else◌,
}
use base_search.Prelude.Texts.{flat_map, occurrences, occurrences-append, join}
use base_search.Values.Derived.{
  Derivation, key_column_for, month_column_for, derived_name_for, country, month,
}
use base_search.Shapes.Columns.{SemanticField, SourceColumn, TableShape}
use base_search.Search.Schema.{semantic_columns}
use base_search.Search.Clauses.{around}
use base_search.Search.Resolve.{column_sql}
use base_search.Search.Counting.{
  placeholders, placeholders-around, placeholders-join, total, Plain, derived_name_for-Plain,
}
use base_search.Search.Alignment.{Agrees, column_sql-Plain}
use base_search.Plan.Sources.{
  Source, schema, extra, source_eq, same_semantic, has_semantic, column_in, column_for_semantic,
  source_of, add_sources, columns_of, or_profile, sources_for, doubled, escape, nonblank,
  coalesce_text, extra_text, materialized, text_of, country_of_source, month_of_source, text_expr,
  country_key_expr, month_expr,
}

abbrev pub PlainSource : Source → Type 0
PlainSource (schema name) = Plain name
PlainSource (extra header) = Plain header

-- The name of a column that is stored, and the header of one that is not, hold no '?'.
abbrev pub PlainColumn : SourceColumn → Type 0
PlainColumn c = PlainSource (source_of c)

All-keep :
    (p : SourceColumn → Bool) (cs : List SourceColumn)
    → All PlainColumn cs
    → All PlainColumn (keep p cs)
All-keep p [] h = tt
All-keep p (c ∷ cs) h = elim (Bool-cases (p c)) [
  | inl e ↦ rw e (h.0, All-keep p cs h.1)
  | inr e ↦ rw e (All-keep p cs h.1)
]

add_sources-Plain :
    (sources : List Source) (cs : List SourceColumn)
    → All PlainSource sources
    → All PlainColumn cs
    → All PlainSource (add_sources sources cs)
unfolding add_sources
add_sources-Plain sources [] h hc = h
add_sources-Plain sources (c ∷ cs) h hc =
    elim (Bool-cases (any (source_eq (source_of c)) sources)) [
      | inl e ↦ rw e (add_sources-Plain sources cs h hc.1)
      | inr e ↦ rw e (
          add_sources-Plain (sources ++ source_of c ∷ []) cs
            (All-append PlainSource sources (source_of c ∷ []) h (hc.0, tt)) hc.1)
    ]

column_in-Plain :
    (field : SemanticField) (table : List (SemanticField × String))
    → All (λ (row : SemanticField × String). Plain row.1) table
    → Agrees (column_in field table) 0
column_in-Plain field [] h = tt
column_in-Plain field ((s, name) ∷ rest) h = elim (Bool-cases (same_semantic s field)) [
  | inl e ↦ rw e h.0
  | inr e ↦ rw e (column_in-Plain field rest h.1)
]

column_for_semantic-Plain : (field : SemanticField) → Agrees (column_for_semantic field) 0
unfolding column_for_semantic
column_for_semantic-Plain field =
    column_in-Plain field semantic_columns
      (unfold semantic_columns placeholders occurrences in (omega arith))

or_profile-Plain :
    (o : Option String) (sources : List Source)
    → Agrees o 0
    → All PlainSource sources
    → All PlainSource (or_profile o sources)
or_profile-Plain none [] h hs = tt
or_profile-Plain (some name) [] h hs = (h, tt)
or_profile-Plain none (s ∷ ss) h hs = hs
or_profile-Plain (some name) (s ∷ ss) h hs = hs

doubled-placeholders : (c : Char) → placeholders (doubled c) ≡ (if code c == 63 then 1 else 0)
unfolding placeholders occurrences
doubled-placeholders c = elim (Bool-cases (code c == 39)) [
  | inl e ↦ rw e (ground arith)
  | inr e ↦ rw e (ground arith)
]

flat_map-doubled : (s : String) → Plain s → Plain (flat_map doubled s)
unfolding flat_map placeholders occurrences
flat_map-doubled String.[] h = refl
flat_map-doubled (String.◌∷◌ c s) h = ground (
  arith,
  occurrences-append 63 (doubled c) (flat_map doubled s),
  doubled-placeholders c,
  flat_map-doubled s,
)

total-nonblank : (es : List String) → All Plain es → total (map nonblank es) ≡ 0
unfolding placeholders occurrences
total-nonblank [] h = refl
total-nonblank (e ∷ es) h =
    omega (arith, total-nonblank es h.1, placeholders-around "NULLIF(" e ", '')", h.0)

coalesce_text-Plain : (es : List String) → All Plain es → Agrees (coalesce_text es) 0
unfolding coalesce_text placeholders occurrences
coalesce_text-Plain [] h = tt
coalesce_text-Plain (e ∷ []) h = h.0
coalesce_text-Plain (e ∷ f ∷ es) h = omega (
  arith,
  placeholders-around "COALESCE(" (join ", " (map nonblank (e ∷ f ∷ es))) ", '')",
  placeholders-join ", " (map nonblank (e ∷ f ∷ es)) refl,
  total-nonblank (e ∷ f ∷ es) h,
)

All-map_lem :
    (f : Source → String) (sources : List Source)
    → ((s : Source) → PlainSource s → Plain (f s))
    → All PlainSource sources
    → All Plain (map f sources)
All-map_lem f [] g h = tt
All-map_lem f (s ∷ ss) g h = (g s h.0, All-map_lem f ss g h.1)

module _ (alias : String) (plain : Plain alias) where
  extra_text-Plain : (header : String) → Plain header → Plain (extra_text alias header)
  unfolding extra_text escape placeholders occurrences
  extra_text-Plain header h = omega (
    arith,
    plain,
    flat_map-doubled header h,
    placeholders-around "extra_value(" alias (around ".extra, '" (escape header) "')"),
    placeholders-around ".extra, '" (escape header) "')",
  )

  -- A materialized column, or a function of the stored one.
  materialized-Plain :
      (o : Option String) (function name : String)
      → Agrees o 0
      → Plain function
      → Plain name
      → Plain (materialized alias o function name)
  unfolding placeholders occurrences
  materialized-Plain none function name h hf hn = omega (
    arith,
    placeholders-around function (column_sql alias name) ")",
    column_sql-Plain alias plain name hn,
    hf,
  )
  materialized-Plain (some column) function name h hf hn = column_sql-Plain alias plain column h

  derived-Agrees : (name : String) (d : Derivation) → Agrees (derived_name_for name d) 0
  derived-Agrees name d = elim (Option-cases (derived_name_for name d)) [
    | inl missing ↦ rw missing tt
    | inr (column, found) ↦ rw found (derived_name_for-Plain name d column found)
  ]

  text_of-Plain : (s : Source) → PlainSource s → Plain (text_of alias s)
  unfolding text_of
  text_of-Plain (schema name) h = column_sql-Plain alias plain name h
  text_of-Plain (extra header) h = extra_text-Plain header h

  country_of_source-Plain : (s : Source) → PlainSource s → Plain (country_of_source alias s)
  unfolding country_of_source key_column_for placeholders occurrences
  country_of_source-Plain (schema name) h =
      materialized-Plain (derived_name_for name country) "country_key(" name
        (derived-Agrees name country) refl h
  country_of_source-Plain (extra header) h = omega (
    arith,
    extra_text-Plain header h,
    placeholders-around "country_key(" (extra_text alias header) ")",
  )

  month_of_source-Plain : (s : Source) → PlainSource s → Plain (month_of_source alias s)
  unfolding month_of_source month_column_for placeholders occurrences
  month_of_source-Plain (schema name) h =
      materialized-Plain (derived_name_for name month) "month_key(" name (derived-Agrees name month)
        refl h
  month_of_source-Plain (extra header) h = omega (
    arith,
    extra_text-Plain header h,
    placeholders-around "month_key(" (extra_text alias header) ")",
  )

  module _ (shape : Option TableShape) (columns : All PlainColumn (columns_of shape))
      (field : SemanticField) where
    sources_for-Plain : All PlainSource (sources_for shape field)
    unfolding sources_for
    sources_for-Plain =
        or_profile-Plain (column_for_semantic field) _ (column_for_semantic-Plain field)
          (add_sources-Plain [] _ tt (All-keep (has_semantic field) (columns_of shape) columns))

    pub text_expr-Plain : Agrees (text_expr alias shape field) 0
    unfolding text_expr
    text_expr-Plain = coalesce_text-Plain _ (All-map_lem _ _ text_of-Plain sources_for-Plain)

    pub country_key_expr-Plain : Agrees (country_key_expr alias shape field) 0
    unfolding country_key_expr
    country_key_expr-Plain =
        coalesce_text-Plain _ (All-map_lem _ _ country_of_source-Plain sources_for-Plain)

    pub month_expr-Plain : Agrees (month_expr alias shape field) 0
    unfolding month_expr
    month_expr-Plain =
        coalesce_text-Plain _ (All-map_lem _ _ month_of_source-Plain sources_for-Plain)
