-- ===== src/Prelude/Dict.antt =====
-- The program's hash maps, as association lists. `get`, `insert`, `remove` and `contains_key` are
-- `HashMap`'s; `adjust` is a write through `get_mut`. The order of the list is never read.
use Prim.Native.Nat.{ℕ, ◌+◌, ◌≤◌}
use mathlib.Core.Path.{◌≡◌, refl}
use mathlib.Core.Bool.{Bool, true, false}
use mathlib.Core.List.{List, [], ◌∷◌}
use mathlib.Core.Option
use mathlib.Core.Option.{Option, none, some}
use native.Mathlib.Omega.{arith}
use base_search.Prelude.Tests.{Equality, ◌==◌, if◌then◌else◌}
use base_search.Prelude.Lists.{length}

module _ {ℓ κ} {K : Type ℓ} {V : Type κ} ⦃q : Equality K⦄ where
  abbrev pub get : K → List (K × V) → Option V
  get k [] = none
  get k ((j, v) ∷ m) = if j == k then some v else get k m

  abbrev pub insert : K → V → List (K × V) → List (K × V)
  insert k v [] = (k, v) ∷ []
  insert k v ((j, w) ∷ m) = if j == k then (k, v) ∷ m else (j, w) ∷ insert k v m

  abbrev pub adjust : K → (V → V) → List (K × V) → List (K × V)
  adjust k f [] = []
  adjust k f ((j, w) ∷ m) = if j == k then (j, f w) ∷ m else (j, w) ∷ adjust k f m

  abbrev pub remove : K → List (K × V) → List (K × V)
  remove k [] = []
  remove k ((j, w) ∷ m) = if j == k then remove k m else (j, w) ∷ remove k m

  abbrev pub contains_key : K → List (K × V) → Bool
  contains_key k m = elim (get k m) [ none ↦ false | some v ↦ true ]

  -- How many values pass a test.
  abbrev pub tally : (V → Bool) → List (K × V) → ℕ
  tally p [] = 0
  tally p ((j, w) ∷ m) = (if p w then 1 else 0) + tally p m

  -- `values().any(…)`.
  abbrev pub any_value : (V → Bool) → List (K × V) → Bool
  any_value p [] = false
  any_value p ((j, w) ∷ m) = if p w then true else any_value p m

  pub any_value-tally : (p : V → Bool) (m : List (K × V)) → any_value p m ≡ false → tally p m ≡ 0
  any_value-tally p [] h = refl
  any_value-tally p ((j, w) ∷ m) h = ground (arith, any_value-tally p m)

  pub tally-any_value : (p : V → Bool) (m : List (K × V)) → tally p m ≡ 0 → any_value p m ≡ false
  tally-any_value p [] h = refl
  tally-any_value p ((j, w) ∷ m) h = ground (arith, tally-any_value p m)

  pub get-insert :
      (k j : K) (v : V) (m : List (K × V))
      → get j (insert k v m) ≡ (if k == j then some v else get j m)
  get-insert k j v [] = refl
  get-insert k j v ((i, w) ∷ m) =
      ground (arith, q.same_iff k j, q.same_iff i k, q.same_iff i j, get-insert k j v m)

  pub get-adjust :
      (k j : K) (f : V → V) (m : List (K × V))
      → get j (adjust k f m) ≡ (if k == j then Option.map f (get j m) else get j m)
  get-adjust k j f [] = ground arith
  get-adjust k j f ((i, w) ∷ m) =
      ground (arith, q.same_iff k j, q.same_iff i k, q.same_iff i j, get-adjust k j f m)

  pub get-remove :
      (k j : K) (m : List (K × V)) → get j (remove k m) ≡ (if k == j then none else get j m)
  get-remove k j [] = ground arith
  get-remove k j ((i, w) ∷ m) =
      ground (arith, q.same_iff k j, q.same_iff i k, q.same_iff i j, get-remove k j m)

  pub tally-insert-le :
      (p : V → Bool) (k : K) (v : V) (m : List (K × V))
      → tally p (insert k v m) ≤ tally p m + (if p v then 1 else 0)
  tally-insert-le p k v [] = omega arith
  tally-insert-le p k v ((j, w) ∷ m) = ground (arith, tally-insert-le p k v m)

  -- A write that makes no value pass that did not pass before.
  pub tally-adjust-le :
      (p : V → Bool) (k : K) (f : V → V) (m : List (K × V))
      → ((v : V) → p (f v) ≡ true → p v ≡ true)
      → tally p (adjust k f m) ≤ tally p m
  tally-adjust-le p k f [] h = omega arith
  tally-adjust-le p k f ((j, w) ∷ m) h = ground (arith, h w, tally-adjust-le p k f m h)

  -- The same for the one value that is written.
  pub tally-adjust_at-le :
      (p : V → Bool) (k : K) (f : V → V) (v : V) (m : List (K × V))
      → get k m ≡ some v
      → (p (f v) ≡ true → p v ≡ true)
      → tally p (adjust k f m) ≤ tally p m
  tally-adjust_at-le p k f v [] g h = omega arith
  tally-adjust_at-le p k f v ((j, w) ∷ m) g h = ground (arith, h, tally-adjust_at-le p k f v m)

  pub tally-remove-le : (p : V → Bool) (k : K) (m : List (K × V)) → tally p (remove k m) ≤ tally p m
  tally-remove-le p k [] = omega arith
  tally-remove-le p k ((j, w) ∷ m) = ground (arith, tally-remove-le p k m)

  pub tally-remove-lt :
      (p : V → Bool) (k : K) (v : V) (m : List (K × V))
      → get k m ≡ some v
      → p v ≡ true
      → tally p (remove k m) + 1 ≤ tally p m
  tally-remove-lt p k v [] g h = ground arith
  tally-remove-lt p k v ((j, w) ∷ m) g h =
      ground (arith, tally-remove-le p k m, tally-remove-lt p k v m)

  pub tally-zero :
      (p : V → Bool) (k : K) (v : V) (m : List (K × V))
      → get k m ≡ some v
      → tally p m ≡ 0
      → p v ≡ false
  tally-zero p k v [] g h = ground arith
  tally-zero p k v ((j, w) ∷ m) g h = ground (arith, tally-zero p k v m)

  pub length-insert-le : (k : K) (v : V) (m : List (K × V)) → length (insert k v m) ≤ length m + 1
  length-insert-le k v [] = omega arith
  length-insert-le k v ((j, w) ∷ m) = ground (arith, length-insert-le k v m)

  pub length-insert_known :
      (k : K) (v : V) (m : List (K × V))
      → contains_key k m ≡ true
      → length (insert k v m) ≡ length m
  length-insert_known k v [] h = ground arith
  length-insert_known k v ((j, w) ∷ m) h = ground (arith, length-insert_known k v m)

  length-adjust : (k : K) (f : V → V) (m : List (K × V)) → length (adjust k f m) ≡ length m
  length-adjust k f [] = refl
  length-adjust k f ((j, w) ∷ m) = ground (arith, length-adjust k f m)

  pub length-remove-le : (k : K) (m : List (K × V)) → length (remove k m) ≤ length m
  length-remove-le k [] = omega arith
  length-remove-le k ((j, w) ∷ m) = ground (arith, length-remove-le k m)

  pub length-remove-lt :
      (k : K) (m : List (K × V)) → contains_key k m ≡ true → length (remove k m) + 1 ≤ length m
  length-remove-lt k [] h = ground arith
  length-remove-lt k ((j, w) ∷ m) h = ground (arith, length-remove-le k m, length-remove-lt k m)

  -- No key occurs twice.
  abbrev pub IsDistinct : List (K × V) → Type κ
  IsDistinct [] = Unit
  IsDistinct ((j, w) ∷ m) = (get j m ≡ none) × IsDistinct m

  pub insert-IsDistinct :
      (k : K) (v : V) (m : List (K × V)) → IsDistinct m → IsDistinct (insert k v m)
  insert-IsDistinct k v [] d = (refl, tt)
  insert-IsDistinct k v ((j, w) ∷ m) d =
      ground
        (arith, q.same_iff k j, q.same_iff j k, get-insert k j v m, insert-IsDistinct k v m d.1)

  pub adjust-IsDistinct :
      (k : K) (f : V → V) (m : List (K × V)) → IsDistinct m → IsDistinct (adjust k f m)
  adjust-IsDistinct k f [] d = tt
  adjust-IsDistinct k f ((j, w) ∷ m) d =
      ground
        (arith, q.same_iff k j, q.same_iff j k, get-adjust k j f m, adjust-IsDistinct k f m d.1)

  pub remove-IsDistinct : (k : K) (m : List (K × V)) → IsDistinct m → IsDistinct (remove k m)
  remove-IsDistinct k [] d = tt
  remove-IsDistinct k ((j, w) ∷ m) d =
      ground (arith, q.same_iff k j, get-remove k j m, remove-IsDistinct k m d.1)

  -- `HashMap::retain`, for a test of the values.
  abbrev pub retain : (V → Bool) → List (K × V) → List (K × V)
  retain p [] = []
  retain p ((j, w) ∷ m) = if p w then (j, w) ∷ retain p m else retain p m

  pub get-retain :
      (p : V → Bool) (k : K) (m : List (K × V))
      → IsDistinct m
      → get k (retain p m) ≡ elim (get k m) [ none ↦ none | some v ↦ if p v then some v else none ]
  get-retain p k [] d = refl
  get-retain p k ((j, w) ∷ m) d = ground (arith, q.same_iff j k, get-retain p k m d.1)

  pub retain-IsDistinct : (p : V → Bool) (m : List (K × V)) → IsDistinct m → IsDistinct (retain p m)
  retain-IsDistinct p [] d = tt
  retain-IsDistinct p ((j, w) ∷ m) d =
      ground (arith, get-retain p j m d.1, retain-IsDistinct p m d.1)

  pub length-retain-le : (p : V → Bool) (m : List (K × V)) → length (retain p m) ≤ length m
  length-retain-le p [] = omega arith
  length-retain-le p ((j, w) ∷ m) = ground (arith, length-retain-le p m)

  -- The tally after a write to a key that is there, after its removal, and after a new key.
  pub tally-adjust :
      (p : V → Bool) (k : K) (f : V → V) (v : V) (m : List (K × V))
      → get k m ≡ some v
      → tally p (adjust k f m) + (if p v then 1 else 0) ≡ tally p m + (if p (f v) then 1 else 0)
  tally-adjust p k f v [] g = ground arith
  tally-adjust p k f v ((j, w) ∷ m) g = ground (arith, tally-adjust p k f v m)

  tally-remove_unknown :
      (p : V → Bool) (k : K) (m : List (K × V)) → get k m ≡ none → tally p (remove k m) ≡ tally p m
  tally-remove_unknown p k [] g = refl
  tally-remove_unknown p k ((j, w) ∷ m) g = ground (arith, tally-remove_unknown p k m)

  pub tally-remove :
      (p : V → Bool) (k : K) (v : V) (m : List (K × V))
      → IsDistinct m
      → get k m ≡ some v
      → tally p (remove k m) + (if p v then 1 else 0) ≡ tally p m
  tally-remove p k v [] d g = ground arith
  tally-remove p k v ((j, w) ∷ m) d g =
      ground (arith, q.same_iff j k, tally-remove_unknown p k m, tally-remove p k v m d.1)

  pub tally-insert_new :
      (p : V → Bool) (k : K) (v : V) (m : List (K × V))
      → get k m ≡ none
      → tally p (insert k v m) ≡ tally p m + (if p v then 1 else 0)
  tally-insert_new p k v [] g = omega arith
  tally-insert_new p k v ((j, w) ∷ m) g = ground (arith, tally-insert_new p k v m)
