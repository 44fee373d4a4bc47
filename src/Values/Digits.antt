-- ===== src/Values/Digits.antt =====
-- src/storage/normalize.rs: the digits of a text and of its parts.
use mathlib.Core.List.{reverse, reverse-cons}
use base_search.Prelude.{
  ℕ, ◌≡◌, refl, sym, ap, ◌∙◌, Bool, true, false, ◌||◌, not, Option, none, some, List, [], ◌∷◌, ◌++◌,
  nat_eq, all, any, keep, length, ltb, arith, if◌then◌else◌, Bool-cases, inl, inr,
}
use base_search.Prelude.Texts.{is_digit}
use base_search.Values.Numbers.{
  NumberStyle, is_dot_or_comma, is_digit_group_separator, unsigned_part, break_at, break_last,
  onto_first, concat, split_groups, is_empty_list, is_group_of_three, grouped_digits, sign_of,
  single_separator_decimal, normalize_grouped_integer,
}

-- The digits of a text.
abbrev pub digits : List ℕ → List ℕ
digits cs = keep is_digit cs

pub digits-append : (xs ys : List ℕ) → digits (xs ++ ys) ≡ digits xs ++ digits ys
digits-append [] ys = refl
digits-append (c ∷ cs) ys = ground (arith, digits-append cs ys)

all-digits : (cs : List ℕ) → all is_digit cs ≡ true → digits cs ≡ cs
all-digits [] h = refl
all-digits (c ∷ cs) h = ground (arith, all-digits cs)

pub no-digits : (cs : List ℕ) → any is_digit cs ≡ false → digits cs ≡ []
no-digits [] h = refl
no-digits (c ∷ cs) h = ground (arith, no-digits cs)

pub digits-reverse_nil : (cs : List ℕ) → digits cs ≡ [] → digits (reverse cs) ≡ []
digits-reverse_nil [] h = refl
digits-reverse_nil (c ∷ cs) h = elim (Bool-cases (is_digit c)) [
  | inl e ↦ absurd (let x : ◌≡◌ {A = List ℕ} (c ∷ digits cs) [] = rw e at h in cc)
  | inr e ↦ rw (reverse-cons c cs) (
      rw (digits-append (reverse cs) (c ∷ [])) (rw (digits-reverse_nil cs (rw e at h)) (rw e refl)))
]

-- A text splits at the last code point that passes a test.
abbrev pub Splits : (ℕ → Bool) → List ℕ → Option (List ℕ × List ℕ) → Type 0
Splits p cs none = Unit
Splits p cs (some (before, after)) = (c : ℕ) × (p c ≡ true) × (cs ≡ before ++ c ∷ after)

pub break_last-Splits : (p : ℕ → Bool) (cs : List ℕ) → Splits p cs (break_last p cs)
unfolding break_last
break_last-Splits p [] = tt
break_last-Splits p (c ∷ cs) = go (break_last p cs) (break_last-Splits p cs)
  where
    go :
        (o : Option (List ℕ × List ℕ))
        → Splits p cs o
        → Splits p (c ∷ cs) (elim o [
          | some (before, after) ↦ some (c ∷ before, after)
          | none ↦ if p c then some ([], cs) else none
        ])
    go (some (before, after)) h = (h.0, h.1, ap (λ (ds : List ℕ). c ∷ ds) h.2)
    go none h = elim (Bool-cases (p c)) [
      | inl e ↦ rw (e, Splits) (c, e, refl)
      | inr e ↦ rw (e, Splits) tt
    ]

-- A text splits at the first code point that passes a test.
pub break_at_lem :
    (cs : List ℕ)
    → (cs ≡ (break_at is_digit cs).0 ++ (break_at is_digit cs).1)
      × (any is_digit (break_at is_digit cs).0 ≡ false)
unfolding break_at
break_at_lem [] = (refl, refl)
break_at_lem (c ∷ cs) = elim (Bool-cases (is_digit c)) [
  | inl e ↦ rw e (refl, refl)
  | inr e ↦ let r = break_at_lem cs in rw e (ap (λ (ds : List ℕ). c ∷ ds) r.0, rw e r.1)
]

not_digit : (c : ℕ) → is_dot_or_comma c || is_digit_group_separator c ≡ true → is_digit c ≡ false
not_digit c h = ground arith

abbrev pub AllDigits : List (List ℕ) → Type 0
AllDigits [] = Unit
AllDigits (g ∷ gs) = (all is_digit g ≡ true) × AllDigits gs

-- The groups of a grouped integer hold its digits.
digits-split_groups :
    (cs : List ℕ) → AllDigits (split_groups cs) → digits cs ≡ concat (split_groups cs)
unfolding split_groups
digits-split_groups [] h = refl
digits-split_groups (c ∷ cs) h =
    elim (Bool-cases (is_dot_or_comma c || is_digit_group_separator c)) [
      | inl sep ↦ rw (sep, not_digit c sep) (digits-split_groups cs (rw sep at h).1)
      | inr other ↦ rw other (go (split_groups cs) (rw other at h) (digits-split_groups cs))
    ]
  where
    go :
        (gs : List (List ℕ))
        → AllDigits (onto_first c gs)
        → (AllDigits gs → digits cs ≡ concat gs)
        → digits (c ∷ cs) ≡ concat (onto_first c gs)
    go [] h ih = ground (arith, ih tt)
    go (g ∷ gs) h ih = ground (arith, ih (ground arith, h.1))

pub digits_idem : (cs : List ℕ) → digits (digits cs) ≡ digits cs
digits_idem [] = refl
digits_idem (c ∷ cs) = ground (arith, digits_idem cs)

-- What a fallible step may return.
abbrev pub IfSome {ℓ κ} : {A : Type ℓ} → (A → Type κ) → Option A → Type κ
IfSome P none = Unit
IfSome P (some a) = P a

all_groups : (gs : List (List ℕ)) → all is_group_of_three gs ≡ true → AllDigits gs
all_groups [] h = tt
all_groups (g ∷ gs) h = (ground arith, all_groups gs (ground arith))

grouped_digits-IfSome :
    (gs : List (List ℕ)) → IfSome (λ ds. AllDigits gs × (ds ≡ concat gs)) (grouped_digits gs)
grouped_digits-IfSome [] = tt
grouped_digits-IfSome (g ∷ []) = tt
grouped_digits-IfSome (g ∷ h ∷ gs) =
    elim (Bool-cases (
      is_empty_list g
      || (ltb 3 (length g) || (not (all is_digit g) || not (all is_group_of_three (h ∷ gs)))))) [
        | inl bad ↦ rw (bad, grouped_digits, IfSome) tt
        | inr good ↦
            rw (good, grouped_digits, IfSome)
              ((ground arith, all_groups (h ∷ gs) (ground arith)), refl)
      ]

pub normalize_grouped_integer-IfSome :
    (v : List ℕ) (allow_empty : Bool)
    → IfSome (λ ds. ds ≡ digits v) (normalize_grouped_integer v allow_empty)
unfolding normalize_grouped_integer
normalize_grouped_integer-IfSome [] true = refl
normalize_grouped_integer-IfSome [] false = tt
normalize_grouped_integer-IfSome (c ∷ cs) allow_empty = elim (Bool-cases (all is_digit (c ∷ cs))) [
  | inl plain ↦ rw (plain, IfSome) (sym (all-digits (c ∷ cs) plain))
  | inr grouped ↦
      rw (grouped, IfSome)
        (go (grouped_digits (split_groups (c ∷ cs)))
          (grouped_digits-IfSome (split_groups (c ∷ cs))))
]
  where
    go :
        (o : Option (List ℕ))
        → IfSome (λ ds. AllDigits (split_groups (c ∷ cs)) × (ds ≡ concat (split_groups (c ∷ cs)))) o
        → IfSome (λ ds. ds ≡ digits (c ∷ cs)) o
    go none h = tt
    go (some ds) h = h.1 ∙ sym (digits-split_groups (c ∷ cs) h.0)

pub digits-unsigned_part : (core : List ℕ) → digits (unsigned_part core) ≡ digits core
digits-unsigned_part [] = refl
digits-unsigned_part (c ∷ cs) = ground arith

pub digits-sign_of : (core : List ℕ) → digits (sign_of core) ≡ []
digits-sign_of [] = refl
digits-sign_of (c ∷ cs) = ground arith

pub single_separator_decimal-eq :
    (cs : List ℕ) (sep s : ℕ) (grouped : Bool) (style : NumberStyle)
    → single_separator_decimal cs sep grouped style ≡ some s
    → s ≡ sep
unfolding single_separator_decimal
single_separator_decimal-eq cs sep s grouped style h = ground arith
