-- ===== src/Jobs/Privacy.antt =====
-- src/server/jobs.rs: what the views of the jobs show and hide.
use base_search.Prelude.{
  ℕ, ◌+◌, ◌≡◌, ◌↔◌, refl, Bool, true, ◌&&◌, ◌||◌, none, some, List, [], ◌∷◌, map, if◌then◌else◌,
  ◌==◌, nat_eq, arith, string_eq, keep, count_if, Option-cases, inl, inr, ok, err, ◌∙◌,
}
use base_search.Prelude.Dict.{get}
use base_search.Auth.Roles.{is_privileged, Identity}
use base_search.Jobs.Types.{JobSnapshot, JobAccessError}
use base_search.Jobs.State.{RegistryState}
use base_search.Jobs.Keys.{Keyed}
use base_search.Jobs.Queue.{cancel}
use base_search.Jobs.Access.{
  is_redacted, can_view, redact_for, insert_job, sort_jobs, list, list_for, cancel_for,
}

module _ {V : Type 0} where
  abbrev pub has_id : ℕ → JobSnapshot V → Bool
  has_id i s = s.id == i

  redact_for-id : (identity : Identity) (s : JobSnapshot V) → (redact_for identity s).id ≡ s.id
  unfolding redact_for
  redact_for-id identity s = ground arith

  -- Visible jobs with an id, as the listing counts them.
  abbrev seen : Identity → ℕ → JobSnapshot V → Bool
  seen identity i s = has_id i s && can_view identity s

  seen-shown :
      (identity : Identity) (i : ℕ) (xs : List (JobSnapshot V))
      → count_if (has_id i) (map (redact_for identity) (keep (can_view identity) xs))
        ≡ count_if (seen identity i) xs
  seen-shown identity i [] = refl
  seen-shown identity i (s ∷ xs) =
      ground (arith, redact_for-id identity s, seen-shown identity i xs)

  seen-insert_job :
      (identity : Identity) (i : ℕ) (s : JobSnapshot V) (xs : List (JobSnapshot V))
      → count_if (seen identity i) (insert_job s xs)
        ≡ (if seen identity i s then 1 else 0) + count_if (seen identity i) xs
  unfolding insert_job
  seen-insert_job identity i s [] = refl
  seen-insert_job identity i s (x ∷ xs) = ground (arith, seen-insert_job identity i s xs)

  abbrev pub shows : Identity → ℕ → List (ℕ × JobSnapshot V) → ℕ
  shows identity i m = elim (get i m) [ none ↦ 0 | some s ↦ if can_view identity s then 1 else 0 ]

  seen-sort_jobs :
      (identity : Identity) (i : ℕ) (m : List (ℕ × JobSnapshot V))
      → Keyed m
      → count_if (seen identity i) (sort_jobs m) ≡ shows identity i m
  unfolding sort_jobs
  seen-sort_jobs identity i [] k = refl
  seen-sort_jobs identity i ((j, s) ∷ m) k =
      ground (arith, seen-insert_job identity i s (sort_jobs m), seen-sort_jobs identity i m k.2)

  pub list_for_lem :
      (identity : Identity) (i : ℕ) (st : RegistryState V)
      → Keyed st.entries
      → count_if (has_id i) (list_for identity st) ≡ shows identity i st.entries
  unfolding list_for list
  list_for_lem identity i st k =
      seen-shown identity i (sort_jobs st.entries) ∙ seen-sort_jobs identity i st.entries k

  -- Two snapshots that differ at most in what is private to the people who run imports.
  pub record SameOutline (a b : JobSnapshot V) : Type 0 where
    pub id : a.id ≡ b.id
    pub kind : a.kind ≡ b.kind
    pub status : a.status ≡ b.status
    pub owner_user_id : a.owner_user_id ≡ b.owner_user_id
    pub visibility : a.visibility ≡ b.visibility
    pub progress : a.progress ≡ b.progress
    pub has_error : (a.error ≡ none) ↔ (b.error ≡ none)
    pub cancellable : a.cancellable ≡ b.cancellable
    pub cancel_requested : a.cancel_requested ≡ b.cancel_requested
    pub created_ms : a.created_ms ≡ b.created_ms
    pub updated_ms : a.updated_ms ≡ b.updated_ms

  -- A viewer learns nothing of an import that the workspace shares but its outline: the title, the
  -- request, the result, the message, the text of the error and the reason why it cannot be
  -- cancelled do not show, whatever they are.
  pub redact_for-hides :
      (identity : Identity) (a b : JobSnapshot V)
      → is_redacted identity a ≡ true
      → SameOutline a b
      → redact_for identity a ≡ redact_for identity b
  unfolding redact_for
  redact_for-hides identity a b h o = elim (Option-cases a.error) [
    | inl e ↦ ground (arith, o.has_error)
    | inr (x, e) ↦ elim (Option-cases b.error) [
      | inl f ↦ ground (arith, o.has_error)
      | inr (y, f) ↦ ground arith
    ]
  ]

  -- A job that is not there is reported so; one that is there may be cancelled by an owner, an
  -- admin or the user who started it, and for anyone else the answer is that it is forbidden.
  cancel_for_outcome :
      (identity : Identity) (id now : ℕ) (st : RegistryState V)
      → ((cancel_for identity id now st ≡ err JobAccessError.not_found)
          ↔ (get id st.entries ≡ none))
        × ((s : JobSnapshot V)
            → get id st.entries ≡ some s
            → cancel_for identity id now st ≡ (
                if is_privileged identity.role || s.owner_user_id == identity.user_id
                then ok (cancel id now st)
                else err JobAccessError.forbidden))
  unfolding cancel_for
  cancel_for_outcome identity id now st =
      ((λ h. ground arith, λ h. ground arith), λ s g. ground arith)
