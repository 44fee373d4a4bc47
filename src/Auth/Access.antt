-- ===== src/Auth/Access.antt =====
-- Sessions: whom a token identifies, and when it no longer does.
use base_search.Prelude.{
  ℕ, ◌+◌, ◌≤◌, ◌<◌, ◌≡◌, refl, String, Bool, true, false, some, none, List, [], ◌∷◌, arith,
  string_eq, nat_eq, nat_beq_iff, Result, ok, >>=-ok, Option-cases, inl, inr, eq_refl, subst,
}
use base_search.Prelude.Dict.{get, insert, remove, IsDistinct, get-insert, get-adjust}
use base_search.Auth.Roles.{Role, Identity}
use base_search.Auth.Tables.{
  StoredUser, StoredSession, AuthStore, user_by_username, validate_username, validate_password,
  revoke_at, revoke_user_sessions, delete_sessions, write_user, role_eq, bool_eq,
}
use base_search.Auth.Accounts.{set_user_role, set_user_enabled, set_password, remove_user}
use base_search.Auth.Sessions.{
  idle_session_ttl, is_valid_token, create_session, identify_session, validate_csrf, enabled_only,
  room_for_session, new_session, touch, identity_of,
}
use base_search.Auth.Owners.{get-user_by_username}

get-revoke_user_sessions :
    (id token : String) (now : ℕ) (s : StoredSession) (sessions : List (String × StoredSession))
    → get token sessions ≡ some s
    → s.user_id ≡ id
    → get token (revoke_user_sessions id now sessions) ≡ some (revoke_at now s)
unfolding revoke_user_sessions
get-revoke_user_sessions id token now s [] g h = ground arith
get-revoke_user_sessions id token now s ((t, r) ∷ sessions) g h =
    ground
      (arith, string_eq.same_iff r.user_id id, get-revoke_user_sessions id token now s sessions)

get-delete_sessions_unknown :
    (id token : String) (sessions : List (String × StoredSession))
    → get token sessions ≡ none
    → get token (delete_sessions id sessions) ≡ none
unfolding delete_sessions
get-delete_sessions_unknown id token [] g = refl
get-delete_sessions_unknown id token ((t, r) ∷ sessions) g =
    ground (arith, get-delete_sessions_unknown id token sessions)

get-delete_sessions :
    (id token : String) (s : StoredSession) (sessions : List (String × StoredSession))
    → IsDistinct sessions
    → get token sessions ≡ some s
    → s.user_id ≡ id
    → get token (delete_sessions id sessions) ≡ none
unfolding delete_sessions
get-delete_sessions id token s [] d g h = refl
get-delete_sessions id token s ((t, r) ∷ sessions) d g h = ground (
  arith,
  string_eq.same_iff r.user_id id,
  string_eq.same_iff t token,
  get-delete_sessions_unknown id token sessions,
  get-delete_sessions id token s sessions d.1,
)

-- A session that its token identifies is not revoked.
identify_session-revoked :
    (token_hash : String → String) (token : String) (now earlier : ℕ) (s : StoredSession)
    (st : AuthStore)
    → get (token_hash token) st.sessions ≡ some (revoke_at earlier s)
    → (identify_session token_hash token now st).1 ≡ none
unfolding identify_session
identify_session-revoked token_hash token now earlier s st g = ground arith

identify_session-unknown :
    (token_hash : String → String) (token : String) (now : ℕ) (st : AuthStore)
    → get (token_hash token) st.sessions ≡ none
    → (identify_session token_hash token now st).1 ≡ none
unfolding identify_session
identify_session-unknown token_hash token now st g = ground arith

write_user-signs_out :
    (token_hash : String → String) (token id : String) (change : StoredUser → StoredUser)
    (now later : ℕ) (now_text : String) (s : StoredSession) (st : AuthStore)
    → get (token_hash token) st.sessions ≡ some s
    → s.user_id ≡ id
    → (identify_session token_hash token later (write_user id change now now_text st)).1 ≡ none
write_user-signs_out token_hash token id change now later now_text s st g h =
    identify_session-revoked token_hash token later now s (write_user id change now now_text st)
      (get-revoke_user_sessions id (token_hash token) now s st.sessions g h)

-- A token that identifies somebody is well formed and has a session of an enabled account, not
-- revoked, written under the account's present epoch and before both of its expiry times; and the
-- identity has the account's present name and role, not those from when the user signed in.
pub identify_session_lem :
    (token_hash : String → String) (token : String) (now : ℕ) (st : AuthStore) (identity : Identity)
    → (identify_session token_hash token now st).1 ≡ some identity
    → (s : StoredSession) × (user : StoredUser) × (get (token_hash token) st.sessions ≡ some s)
      × (get s.user_id st.users ≡ some user)
      × (is_valid_token token ≡ true)
      × (user.enabled ≡ true)
      × (user.session_epoch ≡ s.session_epoch)
      × (s.revoked_at ≡ none)
      × (now < s.idle_expires_at)
      × (now < s.absolute_expires_at)
      × (identity ≡ identity_of s.user_id user)
unfolding identify_session
identify_session_lem token_hash token now st identity h =
    elim (Option-cases (get (token_hash token) st.sessions)) [
      | inl g ↦ ground arith
      | inr (s, g) ↦ elim (Option-cases (get s.user_id st.users)) [
        | inl f ↦ ground arith
        | inr (user, f) ↦ (
          s,
          user,
          g,
          f,
          ground arith,
          ground arith,
          ground (arith, nat_beq_iff user.session_epoch s.session_epoch),
          ground arith,
          ground arith,
          ground arith,
          ground arith,
        )
      ]
    ]

-- Where user ids are unique: a well-formed token just handed out identifies its user until the idle
-- time is over, and its well-formed CSRF token is accepted along with it.
pub create_session-identify_session :
    (token_hash : String → String) (username token csrf_token : String) (now later : ℕ)
    (id : String) (user : StoredUser) (st u : AuthStore)
    → IsDistinct st.users
    → is_valid_token token ≡ true
    → is_valid_token csrf_token ≡ true
    → user_by_username username st.users ≡ some (id, user)
    → create_session token_hash username token csrf_token now st ≡ ok u
    → now ≤ later
    → later < now + idle_session_ttl
    → ((identify_session token_hash token later u).1 ≡ some (identity_of id user))
      × ((validate_csrf token_hash token csrf_token later u).1 ≡ true)
unfolding create_session identify_session validate_csrf
create_session-identify_session token_hash username token csrf_token now later id user st u d v c g
      h a b =
    let (found, e, rest) = >>=-ok (enabled_only (user_by_username username st.users)) _ u h in
    let k = get-user_by_username username id user st.users d g in
    let s = new_session st.next_session_id (token_hash csrf_token) id user now in
    let room = room_for_session id now st in
    let written : AuthStore = record st {
      sessions = insert (token_hash token) s room;
      next_session_id = st.next_session_id + 1;
    } in
    let w : written ≡ u = ground (arith, g) in
    let f = get-insert (token_hash token) (token_hash token) s room in
    let q = get-adjust (token_hash token) (token_hash token) (touch later) written.sessions in
    let epoch = nat_eq.same_iff user.session_epoch user.session_epoch in
    subst
      (λ x.
        ((identify_session token_hash token later x).1 ≡ some (identity_of id user))
        × ((validate_csrf token_hash token csrf_token later x).1 ≡ true))
      w
      (
        ground (arith, f, k, e, g, epoch, eq_refl (token_hash token)),
        ground (
          arith,
          f,
          k,
          e,
          g,
          q,
          epoch,
          eq_refl (token_hash token),
          eq_refl (token_hash csrf_token),
        ),
      )

pub change-signs_out :
    (white : ℕ → Bool) (hash : String → Result String String) (token_hash : String → String)
    (username name id : String) (user : StoredUser) (token : String) (s : StoredSession)
    (now later : ℕ) (now_text : String) (st : AuthStore)
    → IsDistinct st.sessions
    → validate_username white username ≡ ok name
    → user_by_username name st.users ≡ some (id, user)
    → get (token_hash token) st.sessions ≡ some s
    → s.user_id ≡ id
    → ((role : Role) (u : AuthStore)
        → role_eq user.role role ≡ false
        → set_user_role white username role now now_text st ≡ ok u
        → (identify_session token_hash token later u).1 ≡ none)
      × ((enabled : Bool) (u : AuthStore)
          → bool_eq user.enabled enabled ≡ false
          → set_user_enabled white username enabled now now_text st ≡ ok u
          → (identify_session token_hash token later u).1 ≡ none)
      × ((password : String) (u : AuthStore)
          → set_password white hash username password now now_text st ≡ ok u
          → (identify_session token_hash token later u).1 ≡ none)
      × ((r : AuthStore × Bool)
          → remove_user white username st ≡ ok r
          → (identify_session token_hash token later r.0).1 ≡ none)
unfolding set_user_role set_user_enabled set_password remove_user
change-signs_out white hash token_hash username name id user token s now later now_text st d n g f
      h =
    let signs_out = λ (change : StoredUser → StoredUser).
      write_user-signs_out token_hash token id change now later now_text s st f h in
    (
      λ role u r e.
          let w : write_user id (λ x. record x { role = role }) now now_text st ≡ u =
            ground (arith, n, g) in
          subst (λ x. (identify_session token_hash token later x).1 ≡ none) w
            (signs_out (λ x. record x { role = role })),
      λ enabled u r e.
          let w : write_user id (λ x. record x { enabled = enabled }) now now_text st ≡ u =
            ground (arith, n, g) in
          subst (λ x. (identify_session token_hash token later x).1 ≡ none) w
            (signs_out (λ x. record x { enabled = enabled })),
      λ password u e.
          let (name', e1, r1) = >>=-ok (validate_username white username) _ u e in
          let (checked, e2, r2) = >>=-ok (validate_password password) _ u r1 in
          let (password_hash, e3, r3) = >>=-ok (hash password) _ u r2 in
          let w : write_user id (λ x. record x { password_hash = password_hash }) now now_text st
              ≡ u =
            ground (arith, n, g, e1, r3) in
          subst (λ x. (identify_session token_hash token later x).1 ≡ none) w
            (signs_out (λ x. record x { password_hash = password_hash })),
      λ r e.
          let left : AuthStore = record st {
            users = remove id st.users;
            sessions = delete_sessions id st.sessions;
          } in
          let w : left ≡ r.0 = ground (arith, n, g) in
          subst (λ x. (identify_session token_hash token later x).1 ≡ none) w
            (identify_session-unknown token_hash token later left
              (get-delete_sessions id (token_hash token) s st.sessions d f h)),
    )
