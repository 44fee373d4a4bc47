-- ===== src/Auth/SessionRows.antt =====
-- The rows of `sessions`: how many of them a user has. The lemmas count rows by a column that a
-- write does not change.
use base_search.Prelude.{
  ℕ, zero, suc, ◌+◌, ◌≤◌, ◌≡◌, refl, String, Bool, List, [], ◌∷◌, arith, string_eq, nat_eq, ◌==◌,
  length, take, map, any,
}
use base_search.Prelude.Dict.{adjust, retain, tally}
use base_search.Auth.Tables.{StoredSession, revoke_at, revoke_user_sessions, delete_sessions}
use base_search.Auth.Sessions.{active_sessions, ids_to_keep, is_kept, trim_user_sessions}

abbrev pub session_has_id : ℕ → StoredSession → Bool
session_has_id i session = session.id == i

abbrev pub belongs_to : String → StoredSession → Bool
belongs_to user_id session = session.user_id == user_id

abbrev pub is_listed : List ℕ → StoredSession → Bool
is_listed ids session = any (λ id. id == session.id) ids

tally-is_listed-le :
    (i : ℕ) (ids : List ℕ) (rows : List (String × StoredSession))
    → tally (is_listed (i ∷ ids)) rows ≤ tally (session_has_id i) rows + tally (is_listed ids) rows
tally-is_listed-le i ids [] = omega arith
tally-is_listed-le i ids ((t, s) ∷ rows) = ground (arith, tally-is_listed-le i ids rows)

tally-unlisted : (rows : List (String × StoredSession)) → tally (is_listed []) rows ≡ 0
tally-unlisted [] = refl
tally-unlisted ((t, s) ∷ rows) = omega (arith, tally-unlisted rows)

-- Where no id occurs twice, no more rows are listed than ids.
tally-is_listed-length :
    (ids : List ℕ) (rows : List (String × StoredSession))
    → ((i : ℕ) → tally (session_has_id i) rows ≤ 1)
    → tally (is_listed ids) rows ≤ length ids
tally-is_listed-length [] rows u = omega (arith, tally-unlisted rows)
tally-is_listed-length (i ∷ ids) rows u =
    omega (arith, u i, tally-is_listed-le i ids rows, tally-is_listed-length ids rows u)

tally-kept :
    (user_id : String) (ids : List ℕ) (rows : List (String × StoredSession))
    → tally (belongs_to user_id) (retain (is_kept user_id ids) rows) ≤ tally (is_listed ids) rows
tally-kept user_id ids [] = omega arith
tally-kept user_id ids ((t, s) ∷ rows) = ground (arith, tally-kept user_id ids rows)

length-map-take-le :
    {A B : Type 0} (f : A → B) (n : ℕ) (xs : List A) → length (map f (take n xs)) ≤ n
length-map-take-le f zero xs = omega arith
length-map-take-le f (suc n) [] = omega arith
length-map-take-le f (suc n) (x ∷ xs) = omega (arith, length-map-take-le f n xs)

-- After trimming, a user has at most as many rows as are kept.
pub trim_user_sessions-bounds :
    (user_id : String) (now keep : ℕ) (rows : List (String × StoredSession))
    → ((i : ℕ) → tally (session_has_id i) rows ≤ 1)
    → tally (belongs_to user_id) (trim_user_sessions user_id now keep rows) ≤ keep
unfolding trim_user_sessions
trim_user_sessions-bounds user_id now keep rows u =
    let ids = ids_to_keep user_id now keep rows in
    omega (
      arith,
      tally-kept user_id ids rows,
      tally-is_listed-length ids rows u,
      length-map-take-le (λ (s : StoredSession). s.id) keep (active_sessions user_id now rows),
    )

pub tally-retain-le :
    (p keep : StoredSession → Bool) (rows : List (String × StoredSession))
    → tally p (retain keep rows) ≤ tally p rows
tally-retain-le p keep [] = omega arith
tally-retain-le p keep ((t, s) ∷ rows) = ground (arith, tally-retain-le p keep rows)

pub tally-adjust_same :
    (p : StoredSession → Bool) (token : String) (f : StoredSession → StoredSession)
    (rows : List (String × StoredSession))
    → ((s : StoredSession) → p (f s) ≡ p s)
    → tally p (adjust token f rows) ≡ tally p rows
tally-adjust_same p token f [] h = refl
tally-adjust_same p token f ((t, s) ∷ rows) h =
    ground (arith, h s, tally-adjust_same p token f rows h)

pub tally-revoke_user_sessions :
    (p : StoredSession → Bool) (id : String) (now : ℕ) (rows : List (String × StoredSession))
    → ((s : StoredSession) → p (revoke_at now s) ≡ p s)
    → tally p (revoke_user_sessions id now rows) ≡ tally p rows
unfolding revoke_user_sessions
tally-revoke_user_sessions p id now [] h = refl
tally-revoke_user_sessions p id now ((t, s) ∷ rows) h =
    ground (arith, h s, tally-revoke_user_sessions p id now rows h)

pub tally-delete_sessions-le :
    (p : StoredSession → Bool) (id : String) (rows : List (String × StoredSession))
    → tally p (delete_sessions id rows) ≤ tally p rows
unfolding delete_sessions
tally-delete_sessions-le p id [] = omega arith
tally-delete_sessions-le p id ((t, s) ∷ rows) = ground (arith, tally-delete_sessions-le p id rows)
