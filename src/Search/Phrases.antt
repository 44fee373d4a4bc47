-- ===== src/Search/Phrases.antt =====
-- src/storage/search_text.rs: what a user's text can put into a full-text query.
use Prim.Native.Char.{Char, code}
use Prim.Native.String
use text.Mathlib.TextLemmas.{nil-append, cons-append}
use base_search.Prelude.{
  ℕ, ◌+◌, ◌≡◌, refl, ◌⊎◌, inl, inr, ◌≤◌, ◌<◌, String, Bool, true, false, ◌||◌, Option, none, some,
  List, [], ◌∷◌, ◌==◌, nat_eq, all, length, length-append, All, All-append, leb, ltb, ltb→lt,
  leb→le, sym, ap, if◌then◌else◌, arith, Bool-cases,
}
use base_search.Prelude.Texts.{Unicode, codes, is_empty, join}
use base_search.Search.Terms.{
  push, quoted, flush, is_code, fts_step, fts_loop, flush_last, build_fts_query, add_prefix_term,
  prefix_step, prefix_loop, joined_terms, fts_prefix_terms,
}

-- A word of letters and digits.
abbrev pub IsWord : Unicode → ℕ → String → Type 0
IsWord u size word = (all u.alphanumeric (codes word) ≡ true) × (size ≤ length (codes word))

-- A word between quotes, with a star behind it or without one.
abbrev pub IsPhrase : Unicode → String → Type 0
IsPhrase u t = (word : String) × ((t ≡ quoted word "") ⊎ (t ≡ quoted word "*")) × IsWord u 1 word

codes-push :
    (p : ℕ → Bool) (s : String) (c : Char)
    → all p (codes s) ≡ true
    → p (code c) ≡ true
    → all p (codes (push s c)) ≡ true
codes-push p String.[] c h hc = rw nil-append (ground arith)
codes-push p (String.◌∷◌ d s) c h hc = rw cons-append (ground (arith, codes-push p s c))

length-nonempty : (s : String) → is_empty s ≡ false → 1 ≤ length (codes s)
length-nonempty String.[] h = ground arith
length-nonempty (String.◌∷◌ c s) h = omega arith

-- What a finished word may do to the terms: they stay good and there is one more at most.
abbrev Grows : (String → Type 0) → List String → List String → Type 0
Grows Q terms next = (All Q terms → All Q next) × (length next ≤ length terms + 1)

module _ (u : Unicode) (limit : ℕ) (Q : String → Type 0) where
  -- The terms so far and the word that is read, which is empty once there are enough terms.
  abbrev IsReading : List String × String → Type 0
  IsReading (terms, current) =
      All Q terms
      × (all u.alphanumeric (codes current) ≡ true)
      × ((length terms < limit) ⊎ ((length terms ≤ limit) × (current ≡ String.[])))

  room-cases :
      (n : ℕ) → n ≤ limit → (n < limit) ⊎ ((n ≤ limit) × (◌≡◌ {A = String} String.[] String.[]))
  room-cases n h = elim (Bool-cases (ltb n limit)) [
    | inl e ↦ inl (ltb→lt n limit e)
    | inr e ↦ inr (h, refl)
  ]

  -- One character: nothing happens any more, the word grows, or it is finished.
  step-IsReading :
      (terms next : List String) (current : String) (c : Char)
      → (all u.alphanumeric (codes current) ≡ true → Grows Q terms next)
      → IsReading (terms, current)
      → IsReading (
          if leb limit (length terms)
          then (terms, current)
          else if u.alphanumeric (code c)
          then (terms, push current c)
          else (next, String.[]))
  step-IsReading terms next current c grows h = elim (Bool-cases (leb limit (length terms))) [
    | inl full ↦ rw full h
    | inr short ↦
        let room : length terms < limit = ground arith in
        elim (Bool-cases (u.alphanumeric (code c))) [
          | inl letter ↦
              rw (short, letter) (h.0, codes-push u.alphanumeric current c h.1 letter, inl room)
          | inr other ↦
              rw (short, other)
                (let g = grows h.1 in
                  (g.0 h.0, refl, room-cases (length next) (omega (arith, g.1, room))))
        ]
  ]

abbrev some_or_empty : Option String → String
some_or_empty none = String.[]
some_or_empty (some s) = s

joined_terms_lem :
    (terms : List String) (query : String)
    → joined_terms terms ≡ some query
    → (query ≡ join " " terms) × (1 ≤ length terms)
joined_terms_lem [] query h = ground arith
joined_terms_lem (t ∷ ts) query h = (sym (ap some_or_empty h), omega arith)

-- A word of three letters or digits at least, to be searched as a prefix.
abbrev pub IsPrefixTerm : Unicode → String → Type 0
IsPrefixTerm u t = (word : String) × (t ≡ quoted word "*") × IsWord u 3 word

module _ (u : Unicode) where
  flush-Grows :
      (terms : List String) (current : String) (prefix : Bool)
      → all u.alphanumeric (codes current) ≡ true
      → Grows (IsPhrase u) terms (flush terms current prefix)
  unfolding flush
  flush-Grows terms current prefix w = elim (Bool-cases (is_empty current)) [
    | inl e ↦ rw e (λ h. h, omega arith)
    | inr e ↦
        let size = length-nonempty current e in
        elim (Bool-cases (prefix || is_code current)) [
          | inl starred ↦
              rw (e, starred)
                (
                  λ h.
                      All-append (IsPhrase u) terms (quoted current "*" ∷ []) h
                        ((current, inr refl, (w, size)), tt),
                  omega (arith, length-append terms (quoted current "*" ∷ [])),
                )
          | inr bare ↦
              rw (e, bare)
                (
                  λ h.
                      All-append (IsPhrase u) terms (quoted current "" ∷ []) h
                        ((current, inl refl, (w, size)), tt),
                  omega (arith, length-append terms (quoted current "" ∷ [])),
                )
        ]
  ]

  fts_loop-IsReading :
      (state : List String × String) (s : String)
      → IsReading u 32 (IsPhrase u) state
      → IsReading u 32 (IsPhrase u) (fts_loop u state s)
  unfolding fts_loop fts_step
  fts_loop-IsReading state String.[] h = h
  fts_loop-IsReading (terms, current) (String.◌∷◌ c s) h =
      fts_loop-IsReading (fts_step u (terms, current) c) s (
        step-IsReading u 32 (IsPhrase u) terms (flush terms current (code c == 42)) current c
          (flush-Grows terms current (code c == 42)) h)

  last_room :
      (terms : List String) (current : String)
      → (length terms < 32) ⊎ ((length terms ≤ 32) × (current ≡ String.[]))
      → length (flush terms current false) ≤ length terms + 1
      → length (flush terms current false) ≤ 32
  unfolding flush
  last_room terms current (inl room) h = omega arith
  last_room terms current (inr (full, e)) h = rw e full

  -- For every text, the full-text query is a list of at most 32 phrases: words of letters
  -- and digits between quotes, some with a star behind them.
  pub build_fts_query-IsPhrases :
      (input : String)
      → (phrases : List String) × (build_fts_query u input ≡ join " " phrases)
        × (length phrases ≤ 32)
        × All (IsPhrase u) phrases
  unfolding build_fts_query
  build_fts_query-IsPhrases input =
      let state = fts_loop u ([], String.[]) input in
      let h = fts_loop-IsReading ([], String.[]) input (tt, refl, inl (omega arith)) in
      let g = flush-Grows state.0 state.1 false h.1 in
      (flush_last state, refl, last_room state.0 state.1 h.2 g.1, g.0 h.0)

  add_prefix_term-Grows :
      (terms : List String) (current : String)
      → all u.alphanumeric (codes current) ≡ true
      → Grows (IsPrefixTerm u) terms (add_prefix_term terms current)
  unfolding add_prefix_term
  add_prefix_term-Grows terms current w = elim (Bool-cases (leb 3 (length (codes current)))) [
    | inl e ↦ rw e (
      λ h.
          All-append (IsPrefixTerm u) terms (quoted current "*" ∷ []) h
            ((current, refl, (w, leb→le 3 (length (codes current)) e)), tt),
      omega (arith, length-append terms (quoted current "*" ∷ [])),
    )
    | inr e ↦ rw e (λ h. h, omega arith)
  ]

  prefix_loop-IsReading :
      (state : List String × String) (s : String)
      → IsReading u 8 (IsPrefixTerm u) state
      → IsReading u 8 (IsPrefixTerm u) (prefix_loop u state s)
  unfolding prefix_loop prefix_step
  prefix_loop-IsReading state String.[] h = h
  prefix_loop-IsReading (terms, current) (String.◌∷◌ c s) h =
      prefix_loop-IsReading (prefix_step u (terms, current) c) s (
        step-IsReading u 8 (IsPrefixTerm u) terms (add_prefix_term terms current) current c
          (add_prefix_term-Grows terms current) h)

  -- The terms that a filter's value gives, if it gives some, are between one and eight words of
  -- three letters or digits at least, each searched as a prefix.
  pub fts_prefix_terms-IsPrefixTerms :
      (value query : String)
      → fts_prefix_terms u value ≡ some query
      → (terms : List String) × (query ≡ join " " terms)
        × (1 ≤ length terms)
        × (length terms ≤ 8)
        × All (IsPrefixTerm u) terms
  unfolding fts_prefix_terms
  fts_prefix_terms-IsPrefixTerms value query h =
      let state = prefix_loop u ([], String.[]) (String.◌++◌ value " ") in
      let r =
        prefix_loop-IsReading ([], String.[]) (String.◌++◌ value " ")
          (tt, refl, inl (omega arith)) in
      let given = joined_terms_lem state.0 query h in
      (state.0, given.0, given.1, elim r.2 [ inl room ↦ omega arith | inr full ↦ full.0 ], r.0)
