-- ===== src/Jobs/Retention.antt =====
-- src/server/jobs.rs: `prune`, by which finished jobs beyond the newest ones are forgotten.
use base_search.Prelude.{
  ℕ, Bool, ◌||◌, ◌&&◌, List, [], ◌∷◌, map, if◌then◌else◌, ltb, leb, ◌==◌, nat_eq, length, drop,
}
use base_search.Prelude.Dict.{remove}
use base_search.Jobs.Types.{is_terminal, JobSnapshot}
use base_search.Jobs.State.{RegistryState}

abbrev pub job_history_limit : ℕ
job_history_limit = 40

-- A finished job's id and the time of its last change, and the order by change, then id.
pub record Finished : Type 0 where
  pub id : ℕ
  pub updated_ms : ℕ

abbrev pub newer : Finished → Finished → Bool
newer a b = ltb b.updated_ms a.updated_ms || (a.updated_ms == b.updated_ms && leb b.id a.id)

-- `sort_by_key(|(id, updated_ms)| Reverse((*updated_ms, *id)))`: newest first.
unfoldable pub insert_newest : Finished → List Finished → List Finished
insert_newest x [] = x ∷ []
insert_newest x (y ∷ ys) = if newer x y then x ∷ y ∷ ys else y ∷ insert_newest x ys

unfoldable pub sort_newest : List Finished → List Finished
unfolding insert_newest
sort_newest [] = []
sort_newest (x ∷ xs) = insert_newest x (sort_newest xs)

module _ {V : Type 0} where
  abbrev pub finished : List (ℕ × JobSnapshot V) → List Finished
  finished [] = []
  finished ((id, s) ∷ entries) =
      if is_terminal s.status
      then record { id = s.id; updated_ms = s.updated_ms } ∷ finished entries
      else finished entries

  abbrev pub remove_all : List ℕ → List (ℕ × JobSnapshot V) → List (ℕ × JobSnapshot V)
  remove_all [] entries = entries
  remove_all (id ∷ ids) entries = remove_all ids (remove id entries)

  abbrev pub expired : ℕ → List (ℕ × JobSnapshot V) → List ℕ
  expired retained entries = map (λ f. f.id) (drop retained (sort_newest (finished entries)))

  -- `deleted` is whether the store has deleted the rows; without a store it is true.
  unfoldable pub prune : ℕ → Bool → RegistryState V → RegistryState V
  unfolding sort_newest
  prune retained deleted st =
      if leb (length (finished st.entries)) retained
      then st
      else if deleted
      then record st { entries = remove_all (expired retained st.entries) st.entries }
      else st
