-- ===== src/Auth/Calls.antt =====
-- src/server/auth.rs: the calls of `AuthStore` that change the tables, as values.
use base_search.Prelude.{ℕ, String, Bool, List, [], ◌∷◌, Result, ok, err}
use base_search.Auth.Roles.{Role}
use base_search.Auth.Tables.{AuthStore}
use base_search.Auth.Accounts.{add_user, set_user_role, set_user_enabled, set_password, remove_user}
use base_search.Auth.Sessions.{create_session, identify_session, revoke_session, validate_csrf}

-- What the code relies on outside it: whitespace, salted Argon2 hashes, SHA-256.
pub record Platform : Type 0 where
  pub is_whitespace : ℕ → Bool
  pub hash : String → Result String String
  pub token_hash : String → String

pub data AccountCall : Type 0 where
  add : String → String → Role → String → ℕ → String → AccountCall
  change_role : String → Role → ℕ → String → AccountCall
  change_enabled : String → Bool → ℕ → String → AccountCall
  change_password : String → String → ℕ → String → AccountCall
  remove_account : String → AccountCall
  sign_in : String → String → String → ℕ → AccountCall
  identify : String → ℕ → AccountCall
  sign_out : String → ℕ → AccountCall
  check_csrf : String → String → ℕ → AccountCall

-- A transaction that ends in an error is rolled back.
abbrev pub or_rollback {ℓ} :
    {A : Type ℓ} → Result A String → (A → AuthStore) → AuthStore → AuthStore
or_rollback (ok a) f st = f a
or_rollback (err e) f st = st

module _ (platform : Platform) where
  unfoldable pub perform : AccountCall → AuthStore → AuthStore
  perform (add username password role new_id now now_text) st =
      or_rollback
        (add_user platform.is_whitespace platform.hash username password role new_id now now_text
          st)
        (λ r. r.0) st
  perform (change_role username role now now_text) st =
      or_rollback (set_user_role platform.is_whitespace username role now now_text st) (λ r. r) st
  perform (change_enabled username enabled now now_text) st =
      or_rollback (set_user_enabled platform.is_whitespace username enabled now now_text st)
        (λ r. r) st
  perform (change_password username password now now_text) st =
      or_rollback
        (set_password platform.is_whitespace platform.hash username password now now_text st)
        (λ r. r) st
  perform (remove_account username) st =
      or_rollback (remove_user platform.is_whitespace username st) (λ r. r.0) st
  perform (sign_in username token csrf_token now) st =
      or_rollback (create_session platform.token_hash username token csrf_token now st) (λ r. r) st
  perform (identify token now) st = (identify_session platform.token_hash token now st).0
  perform (sign_out token now) st = revoke_session platform.token_hash token now st
  perform (check_csrf token csrf_token now) st =
      (validate_csrf platform.token_hash token csrf_token now st).0

  -- The calls are listed latest first.
  unfoldable pub perform_all : List AccountCall → AuthStore → AuthStore
  perform_all [] st = st
  perform_all (call ∷ calls) st = perform call (perform_all calls st)
