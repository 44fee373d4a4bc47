-- ===== src/Values/DateBounds.antt =====
-- src/storage/normalize.rs: what month keys look like, and which years are found in a text.
use base_search.Prelude.{
  ℕ, ◌+◌, ◌-◌, ◌*◌, ◌≤◌, ◌<◌, ◌≡◌, refl, subst, ◌⊎◌, inl, inr, String, Bool, true, false, ◌&&◌, not,
  Option, none, some, List, [], ◌∷◌, ◌==◌, nat_eq, leb, length, all, arith, if◌then◌else◌,
  Bool-cases,
}
use base_search.Prelude.Texts.{Unicode, is_digit}
use base_search.Values.Numbers.{is_empty_list}
use base_search.Values.Dates.{
  value_from, parse_u32, month_text, month_of_parts, first_some, is_day_first, is_year_first,
  month_of_three, month_of_split, month_key, is_century, followed_by_digit, extract_year,
}

-- A month of a year with four digits.
abbrev pub IsMonth : List ℕ → Type 0
IsMonth key = (y : ℕ) × (m : ℕ) × (key ≡ month_text y m) × (y < 10000) × (1 ≤ m) × (m ≤ 12)

abbrev pub IsKey : List ℕ → Type 0
IsKey key = (key ≡ []) ⊎ IsMonth key

abbrev IfMonth : Option (List ℕ) → Type 0
IfMonth none = Unit
IfMonth (some key) = IsMonth key

next_digit : (v c k : ℕ) → v < k → is_digit c ≡ true → v * 10 + (c - 48) < k * 10
next_digit v c k h e = ground arith

-- Numbers of three and of four digits.
three_digits :
    (b c d : ℕ)
    → is_digit b ≡ true
    → is_digit c ≡ true
    → is_digit d ≡ true
    → value_from 0 (b ∷ c ∷ d ∷ []) < 1000
three_digits b c d hb hc hd =
    next_digit ((0 * 10 + (b - 48)) * 10 + (c - 48)) d 100
      (next_digit (0 * 10 + (b - 48)) c 10 (next_digit 0 b 1 (omega arith) hb) hc) hd

four_digits :
    (a b c d : ℕ)
    → is_digit a ≡ true
    → is_digit b ≡ true
    → is_digit c ≡ true
    → is_digit d ≡ true
    → value_from 0 (a ∷ b ∷ c ∷ d ∷ []) < 10000
four_digits a b c d ha hb hc hd =
    next_digit (((0 * 10 + (a - 48)) * 10 + (b - 48)) * 10 + (c - 48)) d 1000
      (next_digit ((0 * 10 + (a - 48)) * 10 + (b - 48)) c 100
        (next_digit (0 * 10 + (a - 48)) b 10 (next_digit 0 a 1 (omega arith) ha) hb) hc)
      hd

all_cons :
    (p : ℕ → Bool) (c : ℕ) (cs : List ℕ) → all p (c ∷ cs) ≡ true → (p c ≡ true) × (all p cs ≡ true)
all_cons p c cs h = elim (Bool-cases (p c)) [
  | inl e ↦ (e, rw e at h)
  | inr e ↦ absurd (let x : false ≡ true = rw e at h in cc)
]

if_digits {ℓ} :
    (P : ℕ → Type ℓ) (cs : List ℕ) (y : ℕ)
    → (if not (is_empty_list cs) && all is_digit cs then some (value_from 0 cs) else none) ≡ some y
    → (all is_digit cs ≡ true → P (value_from 0 cs))
    → P y
if_digits P cs y h f = elim (Bool-cases (not (is_empty_list cs) && all is_digit cs)) [
  | inl e ↦
      subst P (some_inj (rw e at h)) (f (and_right (not (is_empty_list cs)) (all is_digit cs) e))
  | inr e ↦ absurd (let x : ◌≡◌ {A = Option ℕ} none (some y) = rw e at h in cc)
]
  where
    some_inj : {a b : ℕ} → ◌≡◌ {A = Option ℕ} (some a) (some b) → a ≡ b
    some_inj e = cc

    and_right : (a b : Bool) → (a && b) ≡ true → b ≡ true
    and_right true b e = e
    and_right false b e = absurd (cc)

-- A number of four characters.
year_bound : (cs : List ℕ) (y : ℕ) → length cs ≡ 4 → parse_u32 cs ≡ some y → y < 10000
unfolding parse_u32
year_bound [] y h e = absurd (omega (arith, h))
year_bound (a ∷ []) y h e = absurd (omega (arith, h))
year_bound (a ∷ b ∷ []) y h e = absurd (omega (arith, h))
year_bound (a ∷ b ∷ c ∷ []) y h e = absurd (omega (arith, h))
year_bound (a ∷ b ∷ c ∷ d ∷ x ∷ rest) y h e = absurd (omega (arith, h))
year_bound (a ∷ b ∷ c ∷ d ∷ []) y h e = elim (Bool-cases (a == 43)) [
  | inl plus ↦
      if_digits (λ n. n < 10000) (b ∷ c ∷ d ∷ []) y (rw plus at e)
        λ ds.
          let r = all_cons is_digit b (c ∷ d ∷ []) ds in
          let s = all_cons is_digit c (d ∷ []) r.1 in
          let t = all_cons is_digit d [] s.1 in omega (arith, three_digits b c d r.0 s.0 t.0)
  | inr digit_first ↦
      if_digits (λ n. n < 10000) (a ∷ b ∷ c ∷ d ∷ []) y (rw digit_first at e)
        λ ds.
          let q = all_cons is_digit a (b ∷ c ∷ d ∷ []) ds in
          let r = all_cons is_digit b (c ∷ d ∷ []) q.1 in
          let s = all_cons is_digit c (d ∷ []) r.1 in
          let t = all_cons is_digit d [] s.1 in four_digits a b c d q.0 r.0 s.0 t.0
]

month_of-IfMonth :
    (y m d : Option ℕ) → ((n : ℕ) → y ≡ some n → n < 10000) → IfMonth (month_of_parts y m d)
unfolding month_of_parts
month_of-IfMonth (some y) (some m) (some d) h = elim (Bool-cases (leb 1 m && leb m 12)) [
  | inl e ↦ rw (e, IfMonth) (y, m, refl, h y refl, ground arith, ground arith)
  | inr e ↦ rw (e, IfMonth) tt
]
month_of-IfMonth (some y) (some m) none h = tt
month_of-IfMonth (some y) none d h = tt
month_of-IfMonth none m d h = tt

first_some-IsKey : (o : Option (List ℕ)) (k : List ℕ) → IfMonth o → IsKey k → IsKey (first_some o k)
first_some-IsKey none k h g = g
first_some-IsKey (some key) k h g = inr h

month_of_three-IsKey : (a b c : List ℕ) → IsKey (month_of_three a b c)
unfolding month_of_three
month_of_three-IsKey a b c = elim (Bool-cases (is_day_first a b c)) [
  | inl day ↦
      let bound = λ (n : ℕ) (e : parse_u32 c ≡ some n). year_bound c n (ground arith) e in
      rw (day, IsKey)
        (first_some-IsKey _ _ (month_of-IfMonth (parse_u32 c) (parse_u32 b) (parse_u32 a) bound) (
          first_some-IsKey _ _ (month_of-IfMonth (parse_u32 c) (parse_u32 a) (parse_u32 b) bound)
            (inl refl)))
  | inr no_day ↦ elim (Bool-cases (is_year_first a b c)) [
    | inl year ↦
        rw (no_day, year, IsKey)
          (first_some-IsKey _ _
            (month_of-IfMonth (parse_u32 a) (parse_u32 b) (parse_u32 c)
              λ n e. year_bound a n (ground arith) e)
            (inl refl))
    | inr no_year ↦ rw (no_day, no_year, IsKey) (inl refl)
  ]
]

month_of_split-IsKey : (a : List ℕ) (rest : List (List ℕ)) → IsKey (month_of_split a rest)
month_of_split-IsKey a (b ∷ c ∷ []) = month_of_three-IsKey a b c
month_of_split-IsKey a [] = inl refl
month_of_split-IsKey a (b ∷ []) = inl refl
month_of_split-IsKey a (b ∷ c ∷ d ∷ rest) = inl refl

-- The month key of any text is empty, or a year of four digits, '-' and a month from 01 to 12.
pub month_key_lem :
    (u : Unicode) (value : String)
    → (month_key u value ≡ [])
      ⊎ ((y : ℕ) × (m : ℕ) × (month_key u value ≡ month_text y m)
          × (y < 10000)
          × (1 ≤ m)
          × (m ≤ 12))
unfolding month_key
month_key_lem u value = month_of_split-IsKey _ _

and_parts : (a b : Bool) → (a && b) ≡ true → (a ≡ true) × (b ≡ true)
and_parts true b h = (refl, h)
and_parts false b h = absurd (cc)

some_inj : {a b : ℕ} → ◌≡◌ {A = Option ℕ} (some a) (some b) → a ≡ b
some_inj e = cc

window :
    (a b c d : ℕ)
    → is_century a b ≡ true
    → is_digit c ≡ true
    → is_digit d ≡ true
    → (1900 ≤ value_from 0 (a ∷ b ∷ c ∷ d ∷ [])) × (value_from 0 (a ∷ b ∷ c ∷ d ∷ []) ≤ 2099)
window a b c d h hc hd = (ground arith, ground arith)

-- A year that is found in a text lies between 1900 and 2099, whatever the bytes of the text are.
extract_year_bounds :
    (before_digit : Bool) (bytes : List ℕ) (y : ℕ)
    → extract_year before_digit bytes ≡ some y
    → (1900 ≤ y) × (y ≤ 2099)
unfolding extract_year
extract_year_bounds before_digit [] y h = absurd (cc)
extract_year_bounds before_digit (a ∷ []) y h = absurd (cc)
extract_year_bounds before_digit (a ∷ b ∷ []) y h = absurd (cc)
extract_year_bounds before_digit (a ∷ b ∷ c ∷ []) y h = absurd (cc)
extract_year_bounds before_digit (a ∷ b ∷ c ∷ d ∷ rest) y h =
    elim (Bool-cases (
      is_century a b
      && (is_digit c && (is_digit d && (not before_digit && not (followed_by_digit rest)))))) [
        | inr later ↦ extract_year_bounds (is_digit a) (b ∷ c ∷ d ∷ rest) y (rw later at h)
        | inl found ↦
            let p = and_parts (is_century a b) _ found in
            let q = and_parts (is_digit c) _ p.1 in
            let r = and_parts (is_digit d) _ q.1 in
            subst (λ n. (1900 ≤ n) × (n ≤ 2099)) (some_inj (rw found at h))
              (window a b c d p.0 q.0 r.0)
      ]
