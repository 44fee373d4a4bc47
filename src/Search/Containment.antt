-- ===== src/Search/Containment.antt =====
-- src/storage/search_text.rs: `contains_ci` against the test on the whole lower-cased text.
use Prim.Native.Char.{Char}
use text.Mathlib.TextLemmas.{cons-append, nil-append}
use base_search.Prelude.{◌≡◌, refl, String, true, false, ◌&&◌, nat_eq, arith}
use base_search.Prelude.Texts.{Unicode, flat_map, has_prefix, contains_text, is_empty}
use base_search.Search.Terms.{same_first, found_in, contains_ci}

-- Lower-casing maps each character of a text to one character.
abbrev pub IsSimple : Unicode → String → Type 0
IsSimple u String.[] = Unit
IsSimple u (String.◌∷◌ c s) = ((d : Char) × (u.lower c ≡ String.◌∷◌ d String.[])) × IsSimple u s

has_prefix-same_first :
    (d : Char) (s needle : String)
    → is_empty needle ≡ false
    → (same_first (String.◌∷◌ d String.[]) needle && has_prefix (String.◌∷◌ d s) needle)
      ≡ has_prefix (String.◌∷◌ d s) needle
unfolding same_first has_prefix
has_prefix-same_first d s String.[] h = ground arith
has_prefix-same_first d s (String.◌∷◌ e needle) h = ground arith

found_in-contains_text :
    (u : Unicode) (hay needle : String)
    → IsSimple u hay
    → is_empty needle ≡ false
    → found_in u hay needle ≡ contains_text (flat_map u.lower hay) needle
unfolding found_in contains_text flat_map
found_in-contains_text u String.[] needle simple h = ground arith
found_in-contains_text u (String.◌∷◌ c s) needle simple h =
    let (d, e) = simple.0 in
    rw
      (
        e,
        cons-append,
        nil-append,
        has_prefix-same_first d (flat_map u.lower s) needle h,
        found_in-contains_text u s needle simple.1 h,
      )
      refl

contains_text-empty : (s : String) → contains_text s String.[] ≡ true
unfolding contains_text has_prefix
contains_text-empty String.[] = refl
contains_text-empty (String.◌∷◌ c s) = refl

-- On a text whose characters are each lower-cased to one character, the search without allocation
-- finds a needle exactly if the lower-cased text contains it.
pub contains_ci-contains_text :
    (u : Unicode) (hay needle : String)
    → IsSimple u hay
    → contains_ci u hay needle ≡ contains_text (flat_map u.lower hay) needle
unfolding contains_ci
contains_ci-contains_text u hay String.[] simple = rw contains_text-empty refl
contains_ci-contains_text u hay (String.◌∷◌ c s) simple =
    found_in-contains_text u hay (String.◌∷◌ c s) simple refl
