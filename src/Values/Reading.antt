-- ===== src/Values/Reading.antt =====
-- src/storage/normalize.rs: the number that a text stands for has the digits of the text, in their
-- order.
use mathlib.Core.Option
use mathlib.Core.List.{reverse, reverse-cons, reverse-append, reverse-reverse, append-nil}
use base_search.Prelude.{
  ℕ, ◌≡◌, refl, sym, ap, ◌∙◌, subst, Bool, true, false, ◌||◌, not, Option, none, some, List, [],
  ◌∷◌, ◌++◌, ◌==◌, nat_eq, nat_beq_iff, all, any, count_if, arith, if◌then◌else◌, Bool-cases,
  Option-cases, inl, inr,
}
use base_search.Prelude.Texts.{is_digit}
use base_search.Values.Numbers.{
  NumberStyle, is_digit_group_separator, unsigned_part, break_at, signed_lead, lead, numeric_core,
  decimal_separator, is_empty_list, sign_of, normalize_grouped_integer, whole_number, split_number,
  normalized_number, localized_text,
}
use base_search.Values.Digits.{
  digits, digits-append, no-digits, digits-reverse_nil, Splits, break_last-Splits, break_at_lem,
  digits_idem, IfSome, normalize_grouped_integer-IfSome, digits-unsigned_part, digits-sign_of,
  single_separator_decimal-eq,
}

-- A decimal separator is a dot or a comma.
decimal_separator_lem :
    (cs : List ℕ) (style : NumberStyle) (s : ℕ)
    → decimal_separator cs style ≡ some s
    → is_digit s ≡ false
unfolding decimal_separator
decimal_separator_lem cs style s h = ground (
  arith,
  single_separator_decimal-eq cs 44 s (any is_digit_group_separator cs) style,
  single_separator_decimal-eq cs 46 s (any is_digit_group_separator cs) style,
)

with_fraction :
    (c : ℕ)
    → is_digit c ≡ false
    → (before after : List ℕ) → digits (before ++ c ∷ after) ≡ digits before ++ digits after
with_fraction c h before after = digits-append before (c ∷ after) ∙ rw h refl

whole_number-IfSome : (core : List ℕ) → IfSome (λ t. digits t ≡ digits core) (whole_number core)
unfolding whole_number
whole_number-IfSome core =
    go (normalize_grouped_integer (unsigned_part core) false)
      (normalize_grouped_integer-IfSome (unsigned_part core) false)
  where
    go :
        (o : Option (List ℕ))
        → IfSome (λ ds. ds ≡ digits (unsigned_part core)) o
        → IfSome (λ t. digits t ≡ digits core) (Option.map (λ ds. sign_of core ++ ds) o)
    go none h = tt
    go (some ds) h =
        digits-append (sign_of core) ds
        ∙ rw (digits-sign_of core)
            (ap digits h ∙ digits_idem (unsigned_part core) ∙ digits-unsigned_part core)

split_number-IfSome :
    (core : List ℕ) (sep : ℕ) (o : Option (List ℕ × List ℕ))
    → is_digit sep ≡ false
    → Splits (λ c. c == sep) (unsigned_part core) o
    → IfSome (λ t. digits t ≡ digits core) (split_number core sep o)
unfolding split_number
split_number-IfSome core sep none h s = tt
split_number-IfSome core sep (some (integer, fraction)) h s =
    elim (Bool-cases (
      not (count_if (λ c. c == sep) (unsigned_part core) == 1)
      || (is_empty_list fraction || not (all is_digit fraction)))) [
        | inl bad ↦ rw (bad, IfSome) tt
        | inr good ↦
            rw (good, IfSome)
              (go (normalize_grouped_integer integer true)
                (normalize_grouped_integer-IfSome integer true))
      ]
  where
    core_digits : digits core ≡ digits integer ++ digits fraction
    core_digits =
        sym (digits-unsigned_part core)
        ∙ ap digits s.2
        ∙ with_fraction s.0 (subst (λ c. is_digit c ≡ false) (sym ((nat_beq_iff s.0 sep).0 s.1)) h)
            integer fraction

    go :
        (o : Option (List ℕ))
        → IfSome (λ ds. ds ≡ digits integer) o
        → IfSome
            (λ t. digits t ≡ digits core)
            (Option.map (λ ds. sign_of core ++ (ds ++ 46 ∷ fraction)) o)
    go none e = tt
    go (some ds) e =
        digits-append (sign_of core) (ds ++ 46 ∷ fraction)
        ∙ rw (digits-sign_of core) (
            with_fraction 46 refl ds fraction
            ∙ rw (ap digits e ∙ digits_idem integer) (sym core_digits))

-- The text that is handed to the float parser has the digits of the core.
normalized_number-IfSome :
    (core : List ℕ) (style : NumberStyle)
    → IfSome (λ t. digits t ≡ digits core) (normalized_number core style)
unfolding normalized_number
normalized_number-IfSome core style =
    elim (Option-cases (decimal_separator (unsigned_part core) style)) [
      | inl whole ↦ rw (whole, IfSome) (whole_number-IfSome core)
      | inr (sep, found) ↦
          rw (found, IfSome)
            (split_number-IfSome core sep _
              (decimal_separator_lem (unsigned_part core) style sep found)
              (break_last-Splits (λ c. c == sep) (unsigned_part core)))
    ]

digits-signed_lead : (c : ℕ) (cs : List ℕ) → is_digit c ≡ false → digits (signed_lead c cs).1 ≡ []
digits-signed_lead c [] h = rw h refl
digits-signed_lead c (s ∷ cs) h = ground arith

-- What of the text before the first digit belongs to the number is no digit.
digits-lead : (cs : List ℕ) → any is_digit cs ≡ false → digits (lead cs).1 ≡ []
digits-lead [] h = refl
digits-lead (c ∷ cs) h = ground (arith, digits-signed_lead c cs)

any-append : (xs ys : List ℕ) → any is_digit (xs ++ ys) ≡ (any is_digit xs || any is_digit ys)
any-append [] ys = refl
any-append (x ∷ xs) ys = ground (arith, any-append xs ys)

any-reverse : (cs : List ℕ) → any is_digit cs ≡ false → any is_digit (reverse cs) ≡ false
any-reverse [] h = refl
any-reverse (c ∷ cs) h =
    rw (reverse-cons c cs) (ground (arith, any-append (reverse cs) (c ∷ []), any-reverse cs))

-- The end of a text, from its last digit on.
digits-back : (cs : List ℕ) → digits (reverse (break_at is_digit (reverse cs)).1) ≡ digits cs
digits-back cs =
    let back = break_at is_digit (reverse cs) in
    let r = break_at_lem (reverse cs) in
    let e : cs ≡ reverse back.1 ++ reverse back.0 =
      sym (reverse-reverse cs) ∙ ap reverse r.0 ∙ reverse-append back.0 back.1 in
    sym (
      ap digits e
      ∙ digits-append (reverse back.1) (reverse back.0)
      ∙ rw (digits-reverse_nil back.0 (no-digits back.0 r.1))
          (append-nil (digits (reverse back.1))))

two_tests {ℓ κ} :
    {A : Type ℓ} (P : A → Type κ) (b c : Bool) (x : A)
    → P x
    → IfSome P (if b then if c then some x else none else none)
two_tests P true true x h = h
two_tests P true false x h = tt
two_tests P false c x h = tt

-- Of a text that starts before its first digit and ends behind its last one.
digits-core :
    (value : List ℕ)
    → digits (
        (lead (reverse (break_at is_digit value).0)).1
        ++ reverse (break_at is_digit (reverse (break_at is_digit value).1)).1)
      ≡ digits value
digits-core value =
    let front = break_at is_digit value in
    let r = break_at_lem value in
    digits-append (lead (reverse front.0)).1 _
    ∙ rw (digits-lead (reverse front.0) (any-reverse front.0 r.1)) (
        digits-back front.1
        ∙ sym (ap digits r.0 ∙ digits-append front.0 front.1 ∙ rw (no-digits front.0 r.1) refl))

-- The core of a number has the digits of the whole text.
numeric_core-IfSome :
    (value : List ℕ) → IfSome (λ core. digits core ≡ digits value) (numeric_core value)
unfolding numeric_core
numeric_core-IfSome value =
    two_tests (λ core. digits core ≡ digits value) (any is_digit value) _ _ (digits-core value)

localized_text-IfSome :
    (value : List ℕ) (style : NumberStyle)
    → IfSome (λ t. digits t ≡ digits value) (localized_text value style)
unfolding localized_text
localized_text-IfSome value style = go (numeric_core value) (numeric_core-IfSome value)
  where
    go :
        (o : Option (List ℕ))
        → IfSome (λ core. digits core ≡ digits value) o
        → IfSome
            (λ t. digits t ≡ digits value)
            (elim o [ none ↦ none | some core ↦ normalized_number core style ])
    go none h = tt
    go (some core) h = via (normalized_number core style) (normalized_number-IfSome core style)
      where
        via :
            (o : Option (List ℕ))
            → IfSome (λ t. digits t ≡ digits core) o
            → IfSome (λ t. digits t ≡ digits value) o
        via none e = tt
        via (some t) e = e ∙ h

-- Whenever a localized text is read as a number, under either style, the text that is handed to the
-- float parser has exactly the digits of the value, in their order: separators are dropped or
-- become the decimal point, and no digit is lost or made up.
pub localized_text-digits :
    (value t : List ℕ) (style : NumberStyle)
    → localized_text value style ≡ some t
    → digits t ≡ digits value
localized_text-digits value t style h =
    subst (IfSome (λ s. digits s ≡ digits value)) h (localized_text-IfSome value style)
