-- ===== src/Search/TermExamples.antt =====
-- Tests of the terms of a full-text search, and the theorems at concrete inputs.
use base_search.Prelude.{
  ◌≡◌, refl, ◌≤◌, String, ◌||◌, ◌&&◌, none, some, List, [], ◌∷◌, ◌==◌, nat_eq, leb, length, All,
}
use base_search.Prelude.Texts
use base_search.Prelude.Texts.{Unicode, join, flat_map, contains_text}
use base_search.Values.Keys.{decimal_value}
use base_search.Shapes.Headers.{parts_at}
use base_search.Search.Clauses.{around}
use base_search.Search.Terms
use base_search.Search.Terms.{
  build_fts_query, fts_prefix_terms, contains_ci, plain_search_terms, product_code_search_prefix,
}
use base_search.Search.Phrases.{
  IsPhrase, build_fts_query-IsPhrases, IsPrefixTerm, fts_prefix_terms-IsPrefixTerms,
}
use base_search.Search.Containment.{contains_ci-contains_text}

abbrev letters : Unicode
letters = record {
  white = λ c. c == 32;
  alphanumeric = λ c. (leb 48 c && leb c 57) || ((leb 65 c && leb c 90) || (leb 97 c && leb c 122));
  lower = λ c. String.◌∷◌ c String.[];
  upper = λ c. String.◌∷◌ c String.[];
  lowercase = λ s. s;
}

-- A code of four digits becomes a prefix, and the quote and the operator of the text are gone.
build_fts_query_test :
    build_fts_query letters "red\" OR 8504 ph*" ≡ "\"red\" \"OR\" \"8504\"* \"ph\"*"
unfolding Terms.build_fts_query Terms.fts_loop Terms.fts_step Terms.flush Texts.join around
build_fts_query_test = refl

plain_search_terms_test : plain_search_terms letters "o'neil x -ab-, c" ≡ "o'neil" ∷ "ab" ∷ []
unfolding Terms.plain_search_terms Terms.plain_terms Terms.take_terms Texts.trim Texts.trim_start
    Texts.trim_end parts_at
plain_search_terms_test = refl

product_code_tests :
    (product_code_search_prefix letters " 8504 " ≡ some "8504")
    × (product_code_search_prefix letters "2024" ≡ none)
    × (product_code_search_prefix letters "9901" ≡ none)
unfolding Terms.product_code_search_prefix Terms.chapter Texts.trim Texts.trim_start Texts.trim_end
    decimal_value Texts.has_prefix
product_code_tests = (refl, refl, refl)

build_fts_query-IsPhrases_example :
    (phrases : List String) × (build_fts_query letters "a\" OR b*" ≡ join " " phrases)
    × (length phrases ≤ 32)
    × All (IsPhrase letters) phrases
build_fts_query-IsPhrases_example = build_fts_query-IsPhrases letters "a\" OR b*"

fts_prefix_terms-IsPrefixTerms_example :
    (terms : List String) × ("\"JYSK\"* \"Ukraine\"*" ≡ join " " terms)
    × (1 ≤ length terms)
    × (length terms ≤ 8)
    × All (IsPrefixTerm letters) terms
unfolding Terms.fts_prefix_terms Terms.prefix_loop Terms.prefix_step Terms.add_prefix_term
    Texts.join around
fts_prefix_terms-IsPrefixTerms_example =
    fts_prefix_terms-IsPrefixTerms letters "JYSK of Ukraine" "\"JYSK\"* \"Ukraine\"*" refl

contains_ci-contains_text_example :
    contains_ci letters "abc" "bc" ≡ contains_text (flat_map letters.lower "abc") "bc"
contains_ci-contains_text_example =
    contains_ci-contains_text letters "abc" "bc" ((_, refl), ((_, refl), ((_, refl), tt)))
