-- ===== src/Auth/LastOwner.antt =====
-- No sequence of calls leaves the workspace without an enabled owner.
use base_search.Prelude.{
  ℕ, ◌≡◌, refl, String, List, [], ◌∷◌, arith, string_eq, Result, ok, err, subst, >>=-ok, sym,
}
use base_search.Prelude.Dict.{IsDistinct}
use base_search.Auth.Tables.{AuthStore, user_by_username}
use base_search.Auth.Accounts.{add_user, set_user_role, set_user_enabled, set_password, remove_user}
use base_search.Auth.Sessions.{
  create_session, identify_session, revoke_session, validate_csrf, enabled_only,
}
use base_search.Auth.Calls.{
  Platform, AccountCall, add, change_role, change_enabled, change_password, remove_account, sign_in,
  identify, sign_out, check_csrf, or_rollback, perform, perform_all,
}
use base_search.Auth.Owners.{
  HasOwner, add_user-HasOwner, set_user_role-HasOwner, set_user_enabled-HasOwner,
  set_password-HasOwner, remove_user-HasOwner,
}

or_rollback-HasOwner :
    {A : Type 0} (r : Result A String) (f : A → AuthStore) (st : AuthStore)
    → HasOwner st
    → ((a : A) → r ≡ ok a → HasOwner (f a))
    → HasOwner (or_rollback r f st)
or_rollback-HasOwner (ok a) f st v h = h a refl
or_rollback-HasOwner (err e) f st v h = v

-- Sessions leave the users as they are.
same_users-HasOwner : (st u : AuthStore) → u.users ≡ st.users → HasOwner st → HasOwner u
same_users-HasOwner st u e v = record {
  distinct = subst IsDistinct (sym e) v.distinct;
  owned = ground (arith, e, v.owned);
}

users-create_session :
    (token_hash : String → String) (username token csrf_token : String) (now : ℕ) (st u : AuthStore)
    → create_session token_hash username token csrf_token now st ≡ ok u
    → u.users ≡ st.users
unfolding create_session
users-create_session token_hash username token csrf_token now st u h =
    let (found, e, rest) = >>=-ok (enabled_only (user_by_username username st.users)) _ u h in
    ground (arith, rest)

users-identify_session :
    (token_hash : String → String) (token : String) (now : ℕ) (st : AuthStore)
    → (identify_session token_hash token now st).0.users ≡ st.users
unfolding identify_session
users-identify_session token_hash token now st = ground arith

users-revoke_session :
    (token_hash : String → String) (token : String) (now : ℕ) (st : AuthStore)
    → (revoke_session token_hash token now st).users ≡ st.users
unfolding revoke_session
users-revoke_session token_hash token now st = ground arith

users-validate_csrf :
    (token_hash : String → String) (token csrf_token : String) (now : ℕ) (st : AuthStore)
    → (validate_csrf token_hash token csrf_token now st).0.users ≡ st.users
unfolding validate_csrf
users-validate_csrf token_hash token csrf_token now st =
    ground (arith, users-identify_session token_hash token now st)

module _ (platform : Platform) where
  perform-HasOwner :
      (call : AccountCall) (st : AuthStore) → HasOwner st → HasOwner (perform platform call st)
  unfolding perform
  perform-HasOwner (add username password role new_id now now_text) st v =
      or_rollback-HasOwner
        (add_user platform.is_whitespace platform.hash username password role new_id now now_text
          st)
        (λ r. r.0) st v
        (λ r h.
          add_user-HasOwner platform.is_whitespace platform.hash username password role new_id now
            now_text st r v h)
  perform-HasOwner (change_role username role now now_text) st v =
      or_rollback-HasOwner (set_user_role platform.is_whitespace username role now now_text st)
        (λ u. u) st v
        (λ u h. set_user_role-HasOwner platform.is_whitespace username role now now_text st u v h)
  perform-HasOwner (change_enabled username enabled now now_text) st v =
      or_rollback-HasOwner
        (set_user_enabled platform.is_whitespace username enabled now now_text st) (λ u. u) st v
        (λ u h.
          set_user_enabled-HasOwner platform.is_whitespace username enabled now now_text st u v h)
  perform-HasOwner (change_password username password now now_text) st v =
      or_rollback-HasOwner
        (set_password platform.is_whitespace platform.hash username password now now_text st)
        (λ u. u) st v
        (λ u h.
          set_password-HasOwner platform.is_whitespace platform.hash username password now now_text
            st u v h)
  perform-HasOwner (remove_account username) st v =
      or_rollback-HasOwner (remove_user platform.is_whitespace username st) (λ r. r.0) st v
        (λ r h. remove_user-HasOwner platform.is_whitespace username st r v h)
  perform-HasOwner (sign_in username token csrf_token now) st v =
      or_rollback-HasOwner (create_session platform.token_hash username token csrf_token now st)
        (λ u. u) st v
        (λ u h.
          same_users-HasOwner st u
            (users-create_session platform.token_hash username token csrf_token now st u h) v)
  perform-HasOwner (identify token now) st v =
      same_users-HasOwner st _ (users-identify_session platform.token_hash token now st) v
  perform-HasOwner (sign_out token now) st v =
      same_users-HasOwner st _ (users-revoke_session platform.token_hash token now st) v
  perform-HasOwner (check_csrf token csrf_token now) st v =
      same_users-HasOwner st _ (users-validate_csrf platform.token_hash token csrf_token now st) v

  -- Where user ids are unique and an owner is enabled, so it is after any sequence of calls that
  -- add, change or remove accounts, sign in or out, or identify sessions, whatever their outcome.
  pub perform_all-HasOwner :
      (calls : List AccountCall) (st : AuthStore)
      → HasOwner st
      → HasOwner (perform_all platform calls st)
  unfolding perform_all
  perform_all-HasOwner [] st v = v
  perform_all-HasOwner (call ∷ calls) st v =
      perform-HasOwner call (perform_all platform calls st) (perform_all-HasOwner calls st v)
