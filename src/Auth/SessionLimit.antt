-- ===== src/Auth/SessionLimit.antt =====
-- The rows of `sessions` under each call: at most `MAX_ACTIVE_SESSIONS_PER_USER` for a user.
use base_search.Prelude.{
  ℕ, ◌+◌, ◌-◌, ◌≤◌, ◌≡◌, refl, String, Bool, not, ◌||◌, List, arith, string_eq, nat_eq, ok, >>=-ok,
  Option-cases, Bool-cases, inl, inr, subst,
}
use base_search.Prelude.Dict.{get, insert, adjust, tally, tally-insert-le}
use base_search.Auth.Tables.{
  StoredUser, StoredSession, AuthStore, write_user, revoke_at, delete_sessions, user_by_username,
}
use base_search.Auth.Sessions.{
  create_session, identify_session, revoke_session, validate_csrf, is_valid_token, is_invalid,
  prune_sessions, trim_user_sessions, enabled_only, room_for_session, new_session, touch,
  max_active_sessions_per_user, is_retained, ids_to_keep, is_kept,
}
use base_search.Auth.SessionRows.{
  session_has_id, belongs_to, trim_user_sessions-bounds, tally-retain-le, tally-adjust_same,
  tally-revoke_user_sessions, tally-delete_sessions-le,
}

-- The ids of the sessions are different and below the counter, and no user has too many.
pub record IsLimited (st : AuthStore) : Type 0 where
  pub unique : (i : ℕ) → tally (session_has_id i) st.sessions ≤ 1
  pub below : (i : ℕ) → st.next_session_id ≤ i → tally (session_has_id i) st.sessions ≡ 0
  pub limited :
      (user_id : String) → tally (belongs_to user_id) st.sessions ≤ max_active_sessions_per_user

-- A call that writes no new session.
pub record NoNewSession (st u : AuthStore) : Type 0 where
  pub counter : u.next_session_id ≡ st.next_session_id
  pub ids : (i : ℕ) → tally (session_has_id i) u.sessions ≤ tally (session_has_id i) st.sessions
  pub users :
      (user_id : String)
      → tally (belongs_to user_id) u.sessions ≤ tally (belongs_to user_id) st.sessions

pub NoNewSession-IsLimited : (st u : AuthStore) → NoNewSession st u → IsLimited st → IsLimited u
NoNewSession-IsLimited st u n v = record {
  unique = λ i. omega (arith, n.ids i, v.unique i);
  below = λ i h. let b = v.below i (omega (arith, n.counter)) in omega (arith, n.ids i);
  limited = λ user_id. omega (arith, n.users user_id, v.limited user_id);
}

pub NoNewSession-refl : (st : AuthStore) → NoNewSession st st
NoNewSession-refl st = record {
  counter = refl;
  ids = λ i. omega arith;
  users = λ user_id. omega arith;
}

pub write_user-NoNewSession :
    (id : String) (change : StoredUser → StoredUser) (now : ℕ) (now_text : String) (st : AuthStore)
    → NoNewSession st (write_user id change now now_text st)
write_user-NoNewSession id change now now_text st = record {
  counter = refl;
  ids = λ i.
      omega (arith, tally-revoke_user_sessions (session_has_id i) id now st.sessions (λ s. refl));
  users = λ user_id.
      omega (arith, tally-revoke_user_sessions (belongs_to user_id) id now st.sessions (λ s. refl));
}

adjust-NoNewSession :
    (token : String) (f : StoredSession → StoredSession) (st : AuthStore)
    → ((s : StoredSession) → (f s).id ≡ s.id)
    → ((s : StoredSession) → (f s).user_id ≡ s.user_id)
    → NoNewSession st (record st { sessions = adjust token f st.sessions })
adjust-NoNewSession token f st h k = record {
  counter = refl;
  ids = λ i.
      omega (
        arith,
        tally-adjust_same (session_has_id i) token f st.sessions (λ s. ground (arith, h s)),
      );
  users = λ user_id. omega (
    arith,
    tally-adjust_same (belongs_to user_id) token f st.sessions (λ s. ground (arith, k s)),
  );
}

pub delete_sessions-NoNewSession :
    (id : String) (users : List (String × StoredUser)) (st : AuthStore)
    → NoNewSession st (record st { users = users; sessions = delete_sessions id st.sessions })
delete_sessions-NoNewSession id users st = record {
  counter = refl;
  ids = λ i. tally-delete_sessions-le (session_has_id i) id st.sessions;
  users = λ user_id. tally-delete_sessions-le (belongs_to user_id) id st.sessions;
}

pub identify_session-NoNewSession :
    (token_hash : String → String) (token : String) (now : ℕ) (st : AuthStore)
    → NoNewSession st (identify_session token_hash token now st).0
unfolding identify_session
identify_session-NoNewSession token_hash token now st =
    let a = adjust-NoNewSession (token_hash token) (revoke_at now) st (λ s. refl) (λ s. refl) in
    let b =
      adjust-NoNewSession (token_hash token) (touch now) st (λ s. ground arith)
        (λ s. ground arith) in
    let stays =
      λ (x : AuthStore) (n : NoNewSession st x)
          (e : x ≡ (identify_session token_hash token now st).0).
        subst (λ y. NoNewSession st y) e n in
    elim (Bool-cases (is_valid_token token)) [
      | inr v ↦ stays st (NoNewSession-refl st) (ground arith)
      | inl v ↦ elim (Option-cases (get (token_hash token) st.sessions)) [
        | inl g ↦ stays st (NoNewSession-refl st) (ground arith)
        | inr (s, g) ↦ elim (Option-cases (get s.user_id st.users)) [
          | inl f ↦ stays st (NoNewSession-refl st) (ground arith)
          | inr (user, f) ↦ elim (Bool-cases (is_invalid user s now)) [
            | inl i ↦ stays _ a (ground arith)
            | inr i ↦ stays _ b (ground arith)
          ]
        ]
      ]
    ]

pub revoke_session-NoNewSession :
    (token_hash : String → String) (token : String) (now : ℕ) (st : AuthStore)
    → NoNewSession st (revoke_session token_hash token now st)
unfolding revoke_session
revoke_session-NoNewSession token_hash token now st = elim (Bool-cases (is_valid_token token)) [
  | inl v ↦
      let e : record st { sessions = adjust (token_hash token) (revoke_at now) st.sessions }
          ≡ revoke_session token_hash token now st =
        ground arith in
      subst (λ x. NoNewSession st x) e
        (adjust-NoNewSession (token_hash token) (revoke_at now) st (λ s. refl) (λ s. refl))
  | inr v ↦
      let e : st ≡ revoke_session token_hash token now st = ground arith in
      subst (λ x. NoNewSession st x) e (NoNewSession-refl st)
]

pub validate_csrf-NoNewSession :
    (token_hash : String → String) (token csrf_token : String) (now : ℕ) (st : AuthStore)
    → NoNewSession st (validate_csrf token_hash token csrf_token now st).0
unfolding validate_csrf
validate_csrf-NoNewSession token_hash token csrf_token now st =
    elim (Bool-cases (not (is_valid_token token) || not (is_valid_token csrf_token))) [
      | inl v ↦
          let e : st ≡ (validate_csrf token_hash token csrf_token now st).0 = ground arith in
          subst (λ x. NoNewSession st x) e (NoNewSession-refl st)
      | inr v ↦
          let e : (identify_session token_hash token now st).0
              ≡ (validate_csrf token_hash token csrf_token now st).0 =
            ground arith in
          subst (λ x. NoNewSession st x) e (identify_session-NoNewSession token_hash token now st)
    ]

pruned-le :
    (p : StoredSession → Bool) (now : ℕ) (st : AuthStore)
    → tally p (prune_sessions now st.sessions) ≤ tally p st.sessions
unfolding prune_sessions
pruned-le p now st = tally-retain-le p (is_retained now) st.sessions

room-le :
    (p : StoredSession → Bool) (user_id : String) (now : ℕ) (st : AuthStore)
    → tally p (room_for_session user_id now st) ≤ tally p st.sessions
unfolding trim_user_sessions
room-le p user_id now st =
    let pruned = prune_sessions now st.sessions in
    let ids = ids_to_keep user_id now (max_active_sessions_per_user - 1) pruned in
    omega (arith, pruned-le p now st, tally-retain-le p (is_kept user_id ids) pruned)

pub create_session-IsLimited :
    (token_hash : String → String) (username token csrf_token : String) (now : ℕ) (st u : AuthStore)
    → IsLimited st
    → create_session token_hash username token csrf_token now st ≡ ok u
    → IsLimited u
unfolding create_session
create_session-IsLimited token_hash username token csrf_token now st u v h =
    let ((id, user), e, rest) = >>=-ok (enabled_only (user_by_username username st.users)) _ u h in
    let room = room_for_session id now st in
    let s = new_session st.next_session_id (token_hash csrf_token) id user now in
    let written : AuthStore = record st {
      sessions = insert (token_hash token) s room;
      next_session_id = st.next_session_id + 1;
    } in
    let w : written ≡ u = ground arith in
    subst IsLimited w (record {
      unique = λ i.
          let r = room-le (session_has_id i) id now st in
          let n = tally-insert-le (session_has_id i) (token_hash token) s room in
          let b = v.below i in let q = v.unique i in ground arith;
      below = λ i k.
          let r = room-le (session_has_id i) id now st in
          let n = tally-insert-le (session_has_id i) (token_hash token) s room in
          let b = v.below i in ground arith;
      limited = λ user_id.
          let r = room-le (belongs_to user_id) id now st in
          let n = tally-insert-le (belongs_to user_id) (token_hash token) s room in
          let q = v.limited user_id in
          let trimmed =
            trim_user_sessions-bounds id now (max_active_sessions_per_user - 1)
              (prune_sessions now st.sessions)
              (λ i. omega (arith, pruned-le (session_has_id i) now st, v.unique i)) in
          ground (arith, string_eq.same_iff id user_id, trimmed);
    })
