-- ===== src/LoginLimit/Names.antt =====
-- src/server/login_limit.rs: `normalize_username`. A name is a list of code points; the whitespace
-- that `str::trim` removes and the Unicode lower-case mapping are parameters.
use base_search.Prelude.{ℕ, Bool, List, [], ◌∷◌, ◌++◌, if◌then◌else◌, take, nat_eq}

pub record Unicode : Type 0 where
  pub is_whitespace : ℕ → Bool
  pub to_lowercase : ℕ → List ℕ

abbrev pub trim_start : (ℕ → Bool) → List ℕ → List ℕ
trim_start white [] = []
trim_start white (c ∷ cs) = if white c then trim_start white cs else c ∷ cs

abbrev pub reverse : List ℕ → List ℕ
reverse [] = []
reverse (c ∷ cs) = reverse cs ++ c ∷ []

abbrev pub trim : (ℕ → Bool) → List ℕ → List ℕ
trim white cs = reverse (trim_start white (reverse (trim_start white cs)))

abbrev pub flat_map : (ℕ → List ℕ) → List ℕ → List ℕ
flat_map f [] = []
flat_map f (c ∷ cs) = f c ++ flat_map f cs

unfoldable pub normalize_username : Unicode → List ℕ → List ℕ
normalize_username unicode username =
    take 128 (flat_map unicode.to_lowercase (trim unicode.is_whitespace username))
