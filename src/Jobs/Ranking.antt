-- ===== src/Jobs/Ranking.antt =====
-- The order of finished jobs in `prune` (src/server/jobs.rs), newest first: a job is dropped by its
-- rank, the number of jobs at least as new, so that sorting can be forgotten.
use base_search.Prelude.{
  ℕ, zero, suc, ◌+◌, ◌≤◌, ◌≡◌, refl, Bool, true, false, ◌&&◌, List, [], ◌∷◌, map, if◌then◌else◌,
  arith, nat_eq, ◌==◌, ltb, drop, length, any, count_if, All, Bool-cases, inl, inr,
}
use base_search.Jobs.Retention.{Finished, newer, insert_newest, sort_newest}

abbrev pub has_id : ℕ → Finished → Bool
has_id i f = f.id == i

abbrev pub same : Finished → Finished → Bool
same x f = f.id == x.id && f.updated_ms == x.updated_ms

-- How many finished jobs are at least as new.
abbrev pub rank : Finished → List Finished → ℕ
rank x = count_if (λ y. newer y x)

abbrev pub IsSorted : List Finished → Type 0
IsSorted [] = Unit {0}
IsSorted (y ∷ ys) = All (λ z. newer y z ≡ true) ys × IsSorted ys

All-newer :
    (x y : Finished) (ys : List Finished)
    → newer x y ≡ true
    → All (λ z. newer y z ≡ true) ys
    → All (λ z. newer x z ≡ true) ys
All-newer x y [] h a = tt
All-newer x y (z ∷ zs) h a = (ground arith, All-newer x y zs h a.1)

All-insert_newest :
    (P : Finished → Type 0) (x : Finished) (ys : List Finished)
    → P x
    → All P ys
    → All P (insert_newest x ys)
unfolding insert_newest
All-insert_newest P x [] p q = (p, tt)
All-insert_newest P x (y ∷ ys) p q = elim (Bool-cases (newer x y)) [
  | inl e ↦ rw e (p, q)
  | inr e ↦ rw e (q.0, All-insert_newest P x ys p q.1)
]

insert_newest-IsSorted :
    (x : Finished) (ys : List Finished) → IsSorted ys → IsSorted (insert_newest x ys)
unfolding insert_newest
insert_newest-IsSorted x [] s = (tt, tt)
insert_newest-IsSorted x (y ∷ ys) s = elim (Bool-cases (newer x y)) [
  | inl e ↦ rw e ((e, All-newer x y ys e s.0), s)
  | inr e ↦ rw e (
    All-insert_newest (λ z. newer y z ≡ true) x ys (ground arith) s.0,
    insert_newest-IsSorted x ys s.1,
  )
]

pub sort_newest-IsSorted : (xs : List Finished) → IsSorted (sort_newest xs)
unfolding sort_newest
sort_newest-IsSorted [] = tt
sort_newest-IsSorted (x ∷ xs) = insert_newest-IsSorted x (sort_newest xs) (sort_newest-IsSorted xs)

count_if-insert_newest :
    (p : Finished → Bool) (x : Finished) (ys : List Finished)
    → count_if p (insert_newest x ys) ≡ (if p x then 1 else 0) + count_if p ys
unfolding insert_newest
count_if-insert_newest p x [] = refl
count_if-insert_newest p x (y ∷ ys) = ground (arith, count_if-insert_newest p x ys)

pub count_if-sort_newest :
    (p : Finished → Bool) (xs : List Finished) → count_if p (sort_newest xs) ≡ count_if p xs
unfolding sort_newest
count_if-sort_newest p [] = refl
count_if-sort_newest p (x ∷ xs) =
    omega (arith, count_if-insert_newest p x (sort_newest xs), count_if-sort_newest p xs)

pub any-absent :
    (i k : ℕ) (xs : List Finished)
    → count_if (has_id i) xs ≡ 0
    → any (λ id. id == i) (map (λ f. f.id) (drop k xs)) ≡ false
any-absent i zero [] h = refl
any-absent i zero (x ∷ xs) h = ground (arith, any-absent i zero xs)
any-absent i (suc k) [] h = refl
any-absent i (suc k) (x ∷ xs) h = ground (arith, any-absent i k xs)

any-present :
    (i : ℕ) (xs : List Finished)
    → 1 ≤ count_if (has_id i) xs
    → any (λ id. id == i) (map (λ f. f.id) xs) ≡ true
any-present i [] h = ground arith
any-present i (x ∷ xs) h = ground (arith, any-present i xs)

pub same-le : (x : Finished) (xs : List Finished) → count_if (same x) xs ≤ count_if (has_id x.id) xs
same-le x [] = omega arith
same-le x (y ∷ ys) = ground (arith, same-le x ys)

rank-older :
    (x : Finished) (ys : List Finished)
    → All (λ z. newer x z ≡ true) ys
    → count_if (has_id x.id) ys ≡ 0
    → rank x ys ≡ 0
rank-older x [] a h = refl
rank-older x (y ∷ ys) a h = ground (arith, rank-older x ys a.1)

All-member :
    (x y : Finished) (ys : List Finished)
    → All (λ z. newer y z ≡ true) ys
    → 1 ≤ count_if (same x) ys
    → newer y x ≡ true
All-member x y [] a h = ground arith
All-member x y (z ∷ zs) a h = ground (arith, All-member x y zs a.1)

rank-present : (x : Finished) (ys : List Finished) → 1 ≤ count_if (same x) ys → 1 ≤ rank x ys
rank-present x [] h = ground arith
rank-present x (y ∷ ys) h = ground (arith, rank-present x ys)

-- In a sorted list the position of an item is its rank.
pub any-drop :
    (x : Finished) (k : ℕ) (ys : List Finished)
    → IsSorted ys
    → count_if (has_id x.id) ys ≡ 1
    → count_if (same x) ys ≡ 1
    → any (λ id. id == x.id) (map (λ f. f.id) (drop k ys)) ≡ ltb k (rank x ys)
any-drop x k [] s h e = ground arith
any-drop x zero (y ∷ ys) s h e = ground (arith, any-present x.id (y ∷ ys), rank-present x (y ∷ ys))
any-drop x (suc k) (y ∷ ys) s h e = elim (Bool-cases (same x y)) [
  | inl here ↦
      ground (arith, any-absent x.id k ys, rank-older x ys (All-newer x y ys (ground arith) s.0))
  | inr there ↦ ground (arith, same-le x ys, All-member x y ys s.0, any-drop x k ys s.1)
]

pub rank-le : (x : Finished) (ys : List Finished) → rank x ys ≤ length ys
rank-le x [] = omega arith
rank-le x (y ∷ ys) = ground (arith, rank-le x ys)
