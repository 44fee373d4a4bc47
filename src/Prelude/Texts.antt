-- ===== src/Prelude/Texts.antt =====
-- Texts: lists of code points, and the operations of Rust's `str` and of SQLite that the program
-- uses on whole texts. What is whitespace in Unicode is a parameter.
use Prim.Native.Char.{Char, code}
use Prim.Native.Nat.{ℕ, zero, suc, ◌+◌, ◌/◌, ◌%◌}
use Prim.Native.String.{String, ◌++◌}
use mathlib.Core.Path.{◌≡◌, refl}
use mathlib.Core.Logic.{◌↔◌}
use mathlib.Core.Bool.{Bool, true, false, ◌&&◌}
use mathlib.Core.List.{List, [], ◌∷◌}
use native.Mathlib.Omega.{arith}
use text.Mathlib.TextLemmas.{nil-append, cons-append}
use base_search.Prelude.Tests.{Equality, ◌==◌, nat_eq, string_eq, nat_beq_iff, leb, if◌then◌else◌}

-- Lists of code points are compared element by element.
abbrev codes_same : List ℕ → List ℕ → Bool
codes_same [] [] = true
codes_same [] (c ∷ cs) = false
codes_same (c ∷ cs) [] = false
codes_same (c ∷ cs) (d ∷ ds) = if c == d then codes_same cs ds else false

pub codes_same_iff : (x y : List ℕ) → (codes_same x y ≡ true) ↔ (x ≡ y)
codes_same_iff [] [] = (λ h. refl, λ h. refl)
codes_same_iff [] (c ∷ cs) = (λ h. ground arith, λ h. ground arith)
codes_same_iff (c ∷ cs) [] = (λ h. ground arith, λ h. ground arith)
codes_same_iff (c ∷ cs) (d ∷ ds) =
    let r = codes_same_iff cs ds in let n = nat_beq_iff c d in (λ h. grind arith, λ h. grind arith)

instance abbrev pub codes_eq : Equality (List ℕ)
codes_eq = record { same_iff = codes_same_iff; same = codes_same }

-- The code points of a text.
abbrev pub codes : String → List ℕ
codes String.[] = []
codes (String.◌∷◌ c s) = code c ∷ codes s

-- The form under which SQLite's collation `NOCASE` compares a text: the capitals of ASCII folded.
abbrev pub fold_case : ℕ → ℕ
fold_case c = if leb 65 c && leb c 90 then c + 32 else c

unfoldable pub nocase : String → List ℕ
nocase String.[] = []
nocase (String.◌∷◌ c s) = fold_case (code c) ∷ nocase s

abbrev pub is_empty : String → Bool
is_empty String.[] = true
is_empty (String.◌∷◌ c s) = false

unfoldable pub trim_start : (ℕ → Bool) → String → String
trim_start white String.[] = String.[]
trim_start white (String.◌∷◌ c s) =
    let rest = trim_start white s in if white (code c) then rest else String.◌∷◌ c s

unfoldable pub trim_end : (ℕ → Bool) → String → String
trim_end white String.[] = String.[]
trim_end white (String.◌∷◌ c s) =
    let rest = trim_end white s in
    if white (code c) && is_empty rest then String.[] else String.◌∷◌ c rest

-- `str::trim`.
unfoldable pub trim : (ℕ → Bool) → String → String
trim white s = trim_end white (trim_start white s)

-- The tables of Unicode that Rust's `char` and `str` carry: `is_whitespace`, `is_alphanumeric`,
-- `char::to_lowercase`, `char::to_uppercase` and `str::to_lowercase`.
pub record Unicode : Type 0 where
  pub white : ℕ → Bool
  pub alphanumeric : ℕ → Bool
  pub lower : Char → String
  pub upper : Char → String
  pub lowercase : String → String

-- `char::is_ascii_digit`.
abbrev pub is_digit : ℕ → Bool
is_digit c = leb 48 c && leb c 57

-- `str::trim` with the whitespace of Unicode.
abbrev pub trimmed : Unicode → String → String
trimmed u s = trim u.white s

-- `chars().filter(…)`, collected.
unfoldable pub keep_chars : (ℕ → Bool) → String → String
keep_chars p String.[] = String.[]
keep_chars p (String.◌∷◌ c s) =
    let rest = keep_chars p s in if p (code c) then String.◌∷◌ c rest else rest

-- `flat_map` over the characters, collected.
unfoldable pub flat_map : (Char → String) → String → String
flat_map f String.[] = String.[]
flat_map f (String.◌∷◌ c s) = f c ++ flat_map f s

-- `[String]::join`.
unfoldable pub join : String → List String → String
join separator [] = String.[]
join separator (part ∷ []) = part
join separator (part ∷ next ∷ parts) = part ++ (separator ++ join separator (next ∷ parts))

-- How often a character occurs.
unfoldable pub occurrences : ℕ → String → ℕ
occurrences c String.[] = 0
occurrences c (String.◌∷◌ d s) = (if code d == c then 1 else 0) + occurrences c s

pub occurrences-append :
    (c : ℕ) (s t : String) → occurrences c (s ++ t) ≡ occurrences c s + occurrences c t
unfolding occurrences
occurrences-append c String.[] t = rw nil-append (omega arith)
occurrences-append c (String.◌∷◌ d s) t = rw cons-append (omega (arith, occurrences-append c s t))

-- `str::starts_with` and `str::contains` for a text.
unfoldable pub has_prefix : String → String → Bool
has_prefix s String.[] = true
has_prefix String.[] (String.◌∷◌ d p) = false
has_prefix (String.◌∷◌ c s) (String.◌∷◌ d p) =
    let rest = has_prefix s p in if code c == code d then rest else false

unfoldable pub contains_text : String → String → Bool
unfolding has_prefix
contains_text String.[] p = is_empty p
contains_text (String.◌∷◌ c s) p =
    let rest = contains_text s p in if has_prefix (String.◌∷◌ c s) p then true else rest

-- Whether one of several texts is contained.
unfoldable pub contains_one : List String → String → Bool
contains_one [] s = false
contains_one (p ∷ ps) s = if contains_text s p then true else contains_one ps s

-- Whether a text is one of several.
unfoldable pub one_of : List String → String → Bool
one_of [] s = false
one_of (name ∷ names) s = if s == name then true else one_of names s

-- A number in decimal digits; the fuel bounds the divisions by ten.
unfoldable pub digit_text : ℕ → String
digit_text zero = "0"
digit_text (suc zero) = "1"
digit_text (suc (suc zero)) = "2"
digit_text (suc (suc (suc zero))) = "3"
digit_text (suc (suc (suc (suc zero)))) = "4"
digit_text (suc (suc (suc (suc (suc zero))))) = "5"
digit_text (suc (suc (suc (suc (suc (suc zero)))))) = "6"
digit_text (suc (suc (suc (suc (suc (suc (suc zero))))))) = "7"
digit_text (suc (suc (suc (suc (suc (suc (suc (suc zero)))))))) = "8"
digit_text n = "9"

unfoldable pub decimal_fuel : ℕ → ℕ → String
decimal_fuel zero n = String.[]
decimal_fuel (suc fuel) n =
    let more = decimal_fuel fuel (n / 10) ++ digit_text (n % 10) in
    if leb n 9 then digit_text n else more

unfoldable pub decimal : ℕ → String
decimal n = decimal_fuel (n + 1) n
