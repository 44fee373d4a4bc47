-- ===== src/Auth/Owners.antt =====
-- The transactions on accounts, and what none of them takes away: an enabled owner.
use base_search.Prelude.{
  ℕ, ◌+◌, ◌<◌, ◌≡◌, String, Bool, true, false, not, ◌&&◌, some, List, [], ◌∷◌, leb, arith,
  string_eq, Result, ok, Option-cases, inl, inr, subst, >>=-ok, Bool-cases,
}
use base_search.Prelude.Dict.{
  get, insert, remove, IsDistinct, tally-adjust, tally-remove, tally-insert_new, insert-IsDistinct,
  adjust-IsDistinct, remove-IsDistinct,
}
use base_search.Auth.Roles.{Role}
use base_search.Auth.Tables.{
  StoredUser, AuthStore, UserMutation, validate_username, validate_password, user_by_username,
  is_active_owner, active_owner_count, write_user, role_eq, bool_eq, delete_sessions,
}
use base_search.Auth.Accounts.{
  new_user, find_user, put_user, add_user, set_user_role, set_user_enabled, set_password,
  remove_user,
}

-- The column `id` is unique, and an owner is enabled.
pub record HasOwner (st : AuthStore) : Type 0 where
  pub distinct : IsDistinct st.users
  pub owned : 0 < active_owner_count st

pub get-user_by_username :
    (name id : String) (user : StoredUser) (users : List (String × StoredUser))
    → IsDistinct users
    → user_by_username name users ≡ some (id, user)
    → get id users ≡ some user
unfolding user_by_username
get-user_by_username name id user [] d h = ground arith
get-user_by_username name id user ((j, u) ∷ users) d h =
    ground (arith, string_eq.same_iff j id, get-user_by_username name id user users d.1)

write_user-HasOwner :
    (id : String) (user : StoredUser) (change : StoredUser → StoredUser) (now : ℕ)
    (now_text : String) (st : AuthStore)
    → HasOwner st
    → get id st.users ≡ some user
    → ((is_active_owner user && not (is_active_owner (change user)))
        && leb (active_owner_count st) 1)
      ≡ false
    → HasOwner (write_user id change now now_text st)
write_user-HasOwner id user change now now_text st v g h =
    let f : StoredUser → StoredUser =
      λ u. record (change u) { session_epoch = u.session_epoch + 1; updated_at = now_text } in
    record {
      distinct = adjust-IsDistinct id f st.users v.distinct;
      owned = ground (arith, v.owned, tally-adjust is_active_owner id f user st.users g);
    }

put_user-HasOwner :
    (name password_hash : String) (role : Role) (new_id : String) (now : ℕ) (now_text : String)
    (st : AuthStore) (r : AuthStore × UserMutation)
    → HasOwner st
    → put_user name password_hash role new_id now now_text st ≡ ok r
    → HasOwner r.0
unfolding put_user
put_user-HasOwner name password_hash role new_id now now_text st r v h =
    elim (Option-cases (user_by_username name st.users)) [
      | inl g ↦
          let fresh = new_user name password_hash role now_text in
          let written = record st { users = insert new_id fresh st.users } in
          let e : written ≡ r.0 = ground arith in
          subst HasOwner e (record {
            distinct = insert-IsDistinct new_id fresh st.users v.distinct;
            owned = ground (arith, v.owned, tally-insert_new is_active_owner new_id fresh st.users);
          })
      | inr ((id, user), g) ↦
          let change : StoredUser → StoredUser =
            λ u. record u { password_hash = password_hash; role = role; enabled = true } in
          let e : write_user id change now now_text st ≡ r.0 = ground arith in
          subst HasOwner e (
            write_user-HasOwner id user change now now_text st v
              (get-user_by_username name id user st.users v.distinct g) (ground arith))
    ]

pub add_user-HasOwner :
    (white : ℕ → Bool) (hash : String → Result String String) (username password : String)
    (role : Role) (new_id : String) (now : ℕ) (now_text : String) (st : AuthStore)
    (r : AuthStore × UserMutation)
    → HasOwner st
    → add_user white hash username password role new_id now now_text st ≡ ok r
    → HasOwner r.0
unfolding add_user
add_user-HasOwner white hash username password role new_id now now_text st r v h =
    let (name, e, e_rest) = >>=-ok (validate_username white username) _ r h in
    let (checked, f, f_rest) = >>=-ok (validate_password password) _ r e_rest in
    let (password_hash, g, g_rest) = >>=-ok (hash password) _ r f_rest in
    put_user-HasOwner name password_hash role new_id now now_text st r v g_rest

-- The transactions that change one account, after the account was found.
change-HasOwner :
    (name : String) (found : String × StoredUser) (change : StoredUser → StoredUser) (now : ℕ)
    (now_text : String) (st : AuthStore)
    → HasOwner st
    → find_user name st ≡ ok found
    → ((is_active_owner found.1 && not (is_active_owner (change found.1)))
        && leb (active_owner_count st) 1)
      ≡ false
    → HasOwner (write_user found.0 change now now_text st)
change-HasOwner name found change now now_text st v g h =
    elim (Option-cases (user_by_username name st.users)) [
      | inl f ↦ ground arith
      | inr (x, f) ↦
          write_user-HasOwner found.0 found.1 change now now_text st v
            (get-user_by_username name found.0 found.1 st.users v.distinct (ground arith)) h
    ]

pub set_user_role-HasOwner :
    (white : ℕ → Bool) (username : String) (role : Role) (now : ℕ) (now_text : String)
    (st u : AuthStore)
    → HasOwner st
    → set_user_role white username role now now_text st ≡ ok u
    → HasOwner u
unfolding set_user_role
set_user_role-HasOwner white username role now now_text st u v h =
    let (name, e, e_rest) = >>=-ok (validate_username white username) _ u h in
    let (found, f, f_rest) = >>=-ok (find_user name st) _ u e_rest in
    let change : StoredUser → StoredUser = λ x. record x { role = role } in
    elim (Bool-cases (role_eq found.1.role role)) [
      | inl b ↦ let k : st ≡ u = ground (arith, f_rest) in subst HasOwner k v
      | inr b ↦
          let k : write_user found.0 change now now_text st ≡ u = ground (arith, f_rest) in
          subst HasOwner k
            (change-HasOwner name found change now now_text st v f (ground (arith, f_rest)))
    ]

pub set_user_enabled-HasOwner :
    (white : ℕ → Bool) (username : String) (enabled : Bool) (now : ℕ) (now_text : String)
    (st u : AuthStore)
    → HasOwner st
    → set_user_enabled white username enabled now now_text st ≡ ok u
    → HasOwner u
unfolding set_user_enabled
set_user_enabled-HasOwner white username enabled now now_text st u v h =
    let (name, e, e_rest) = >>=-ok (validate_username white username) _ u h in
    let (found, f, f_rest) = >>=-ok (find_user name st) _ u e_rest in
    let change : StoredUser → StoredUser = λ x. record x { enabled = enabled } in
    elim (Bool-cases (bool_eq found.1.enabled enabled)) [
      | inl b ↦ let k : st ≡ u = ground (arith, f_rest) in subst HasOwner k v
      | inr b ↦
          let k : write_user found.0 change now now_text st ≡ u = ground (arith, f_rest) in
          subst HasOwner k
            (change-HasOwner name found change now now_text st v f (ground (arith, f_rest)))
    ]

pub set_password-HasOwner :
    (white : ℕ → Bool) (hash : String → Result String String) (username password : String) (now : ℕ)
    (now_text : String) (st u : AuthStore)
    → HasOwner st
    → set_password white hash username password now now_text st ≡ ok u
    → HasOwner u
unfolding set_password
set_password-HasOwner white hash username password now now_text st u v h =
    let (name, e, e_rest) = >>=-ok (validate_username white username) _ u h in
    let (checked, c, c_rest) = >>=-ok (validate_password password) _ u e_rest in
    let (password_hash, g, g_rest) = >>=-ok (hash password) _ u c_rest in
    let (found, f, f_rest) = >>=-ok (find_user name st) _ u g_rest in
    let change : StoredUser → StoredUser = λ x. record x { password_hash = password_hash } in
    let k : write_user found.0 change now now_text st ≡ u = ground (arith, f_rest) in
    subst HasOwner k
      (change-HasOwner name found change now now_text st v f (ground (arith, f_rest)))

pub remove_user-HasOwner :
    (white : ℕ → Bool) (username : String) (st : AuthStore) (r : AuthStore × Bool)
    → HasOwner st
    → remove_user white username st ≡ ok r
    → HasOwner r.0
unfolding remove_user
remove_user-HasOwner white username st r v h =
    let (name, e, e_rest) = >>=-ok (validate_username white username) _ r h in
    elim (Option-cases (user_by_username name st.users)) [
      | inl g ↦ let k : st ≡ r.0 = ground (arith, e_rest) in subst HasOwner k v
      | inr ((id, user), g) ↦
          let left = record st {
            users = remove id st.users;
            sessions = delete_sessions id st.sessions;
          } in
          let k : left ≡ r.0 = ground (arith, e_rest) in
          subst HasOwner k (record {
            distinct = remove-IsDistinct id st.users v.distinct;
            owned = ground (
              arith,
              v.owned,
              e_rest,
              tally-remove is_active_owner id user st.users v.distinct
                  (get-user_by_username name id user st.users v.distinct g),
            );
          })
    ]
