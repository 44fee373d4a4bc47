-- ===== src/Search/Terms.antt =====
-- src/storage/search_text.rs: the terms of a full-text search. The loops over the characters carry
-- the terms so far and the word that is being read; a loop that has left with `break` keeps both.
use base_search.Prelude.{
  ℕ, zero, suc, String, Bool, true, false, ◌&&◌, ◌||◌, not, Option, none, some, List, [], ◌∷◌, ◌++◌,
  ◌==◌, nat_eq, string_eq, all, length, map, leb, if◌then◌else◌,
}
use Prim.Native.Char.{Char, code}
use Prim.Native.String
use base_search.Prelude.Texts.{
  Unicode, codes, is_digit, is_empty, trim, trimmed, flat_map, has_prefix, join,
}
use base_search.Values.Keys.{decimal_value}
use base_search.Shapes.Headers.{parts_at}
use base_search.Search.Schema.{search_columns}
use base_search.Search.Clauses.{around}

-- `search_text_expr_with_prefix`.
unfoldable pub search_text_expr_with_prefix : String → String
search_text_expr_with_prefix prefix =
    let column : String → String = λ c. around "COALESCE(" (String.◌++◌ prefix c) ",'')" in
    join " || ' ' || "
      (map column search_columns ++ around "COALESCE(extra_values_text(" prefix "extra),'')" ∷ [])

-- `String::push`.
abbrev pub push : String → Char → String
push s c = String.◌++◌ s (String.◌∷◌ c String.[])

abbrev pub quoted : String → String → String
quoted word star = around "\"" word (String.◌++◌ "\"" star)

-- Digits from four on are a prefix by themselves.
abbrev pub is_code : String → Bool
is_code word = all is_digit (codes word) && leb 4 (length (codes word))

unfoldable pub flush : List String → String → Bool → List String
flush terms current prefix =
    if is_empty current
    then terms
    else terms ++ quoted current (if prefix || is_code current then "*" else "") ∷ []

unfoldable pub fts_step : Unicode → List String × String → Char → List String × String
fts_step u (terms, current) c =
    if leb 32 (length terms)
    then (terms, current)
    else if u.alphanumeric (code c)
    then (terms, push current c)
    else (flush terms current (code c == 42), String.[])

unfoldable pub fts_loop : Unicode → List String × String → String → List String × String
fts_loop u state String.[] = state
fts_loop u state (String.◌∷◌ c s) = fts_loop u (fts_step u state c) s

abbrev pub flush_last : List String × String → List String
flush_last (terms, current) = flush terms current false

unfoldable pub build_fts_query : Unicode → String → String
build_fts_query u input = join " " (flush_last (fts_loop u ([], String.[]) input))

-- A word of `fts_prefix_terms`: words of three characters at least are kept.
unfoldable pub add_prefix_term : List String → String → List String
add_prefix_term terms current =
    if leb 3 (length (codes current)) then terms ++ quoted current "*" ∷ [] else terms

unfoldable pub prefix_step : Unicode → List String × String → Char → List String × String
prefix_step u (terms, current) c =
    if leb 8 (length terms)
    then (terms, current)
    else if u.alphanumeric (code c)
    then (terms, push current c)
    else (add_prefix_term terms current, String.[])

unfoldable pub prefix_loop : Unicode → List String × String → String → List String × String
prefix_loop u state String.[] = state
prefix_loop u state (String.◌∷◌ c s) = prefix_loop u (prefix_step u state c) s

abbrev pub joined_terms : List String → Option String
joined_terms [] = none
joined_terms (t ∷ ts) = some (join " " (t ∷ ts))

unfoldable pub fts_prefix_terms : Unicode → String → Option String
fts_prefix_terms u value = joined_terms (prefix_loop u ([], String.[]) (String.◌++◌ value " ")).0

-- Whether two texts start with the same character.
unfoldable pub same_first : String → String → Bool
same_first String.[] needle = false
same_first (String.◌∷◌ c s) String.[] = false
same_first (String.◌∷◌ c s) (String.◌∷◌ d needle) = code c == code d

unfoldable pub found_in : Unicode → String → String → Bool
found_in u String.[] needle = false
found_in u (String.◌∷◌ c s) needle =
    let rest = found_in u s needle in
    if same_first (u.lower c) needle && has_prefix (flat_map u.lower (String.◌∷◌ c s)) needle
    then true
    else rest

unfoldable pub contains_ci : Unicode → String → String → Bool
contains_ci u hay needle = if is_empty needle then true else found_in u hay needle

abbrev pub is_term_end : Unicode → ℕ → Bool
is_term_end u c = not (u.alphanumeric c || ((c == 39) || (c == 45)))

abbrev pub is_term_edge : ℕ → Bool
is_term_edge c = (c == 42) || ((c == 39) || (c == 45))

abbrev pub plain_term : Unicode → String → String
plain_term u part = u.lowercase (trim is_term_edge part)

-- The terms of two characters at least.
unfoldable pub plain_terms : Unicode → List String → List String
plain_terms u [] = []
plain_terms u (part ∷ parts) =
    let rest = plain_terms u parts in
    if leb 2 (length (codes (plain_term u part))) then plain_term u part ∷ rest else rest

unfoldable pub take_terms : ℕ → List String → List String
take_terms zero ts = []
take_terms (suc n) [] = []
take_terms (suc n) (t ∷ ts) = t ∷ take_terms n ts

unfoldable pub plain_search_terms : Unicode → String → List String
plain_search_terms u input =
    let parts : String × List String = parts_at (is_term_end u) input in
    take_terms 32 (plain_terms u (parts.0 ∷ parts.1))

-- The first two digits, a chapter of product codes.
unfoldable pub chapter : String → ℕ
chapter String.[] = 0
chapter (String.◌∷◌ c String.[]) = 0
chapter (String.◌∷◌ c (String.◌∷◌ d s)) = decimal_value 0 (String.◌∷◌ c (String.◌∷◌ d String.[]))

abbrev is_year : String → Bool
is_year value = (length (codes value) == 4) && has_prefix value "20"

unfoldable pub product_code_search_prefix : Unicode → String → Option String
product_code_search_prefix u input =
    let value : String = trimmed u input in
    let size : ℕ = length (codes value) in
    let digits_only : Bool = all is_digit (codes value) in
    let is_chapter : Bool = leb 1 (chapter value) && leb (chapter value) 97 in
    if (leb 4 size && leb size 10) && digits_only
    then (if is_chapter then (if is_year value then none else some value) else none)
    else none
