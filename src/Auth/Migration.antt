-- ===== src/Auth/Migration.antt =====
-- src/server/auth.rs: the part of `migrate_auth_schema` that sees to it that there is an owner when
-- a database is opened. The rows of `users` are listed in the order of their `rowid`; the other
-- statements of the migration add columns, identifiers and tables.
use Prim.Native.Char.{code}
use base_search.Prelude.{
  ◌<◌, ◌≡◌, ◌≢◌, refl, String, Bool, true, false, not, ◌&&◌, ◌||◌, Option, none, some, List, [],
  ◌∷◌, if◌then◌else◌, ltb, ◌==◌, nat_eq, string_eq, arith, Option-cases, Bool-cases, inl, inr,
  subst,
}
use base_search.Prelude.Dict.{get, adjust, IsDistinct, tally-adjust, tally-zero, adjust-IsDistinct}
use base_search.Auth.Roles.{Role, owner, admin}
use base_search.Auth.Tables.{StoredUser, AuthStore, is_active_owner, active_owner_count}
use base_search.Auth.Owners.{HasOwner}

-- SQLite's order of texts, by their bytes in UTF-8, which is the order of the code points.
unfoldable pub text_leb : String → String → Bool
text_leb String.[] t = true
text_leb (String.◌∷◌ c s) String.[] = false
text_leb (String.◌∷◌ c s) (String.◌∷◌ d t) =
    let rest = text_leb s t in if ltb (code c) (code d) then true else (code c == code d) && rest

abbrev is_admin : Role → Bool
is_admin admin = true
is_admin role = false

abbrev pub is_enabled_admin : StoredUser → Bool
is_enabled_admin user = user.enabled && is_admin user.role

-- The row that comes first by an order of the rows that pass a test, the earlier one on a tie:
-- `ORDER BY …, rowid LIMIT 1`.
unfoldable pub first_by :
    (StoredUser → Bool)
    → (StoredUser → StoredUser → Bool)
    → List (String × StoredUser)
    → Option (String × StoredUser)
first_by test before [] = none
first_by test before ((id, user) ∷ users) =
    let rest = first_by test before users in
    if test user
    then elim rest [
      | none ↦ some (id, user)
      | some (j, other) ↦ if before user other then some (id, user) else some (j, other)
    ]
    else rest

-- `ORDER BY created_at`, and `ORDER BY enabled DESC, created_at`.
abbrev pub created_before : StoredUser → StoredUser → Bool
created_before a b = text_leb a.created_at b.created_at

abbrev pub enabled_before : StoredUser → StoredUser → Bool
enabled_before a b =
    (a.enabled && not b.enabled)
    || (((a.enabled && b.enabled) || (not a.enabled && not b.enabled)) && created_before a b)

abbrev pub any_user : StoredUser → Bool
any_user user = true

-- The earliest enabled admin, or else the earliest account, an enabled one before the others.
unfoldable pub owner_row : List (String × StoredUser) → Option (String × StoredUser)
owner_row users = elim (first_by is_enabled_admin created_before users) [
  | some found ↦ some found
  | none ↦ first_by any_user enabled_before users
]

abbrev pub make_owner : StoredUser → StoredUser
make_owner user = record user { role = owner; enabled = true }

unfoldable pub promote_owner : AuthStore → AuthStore
promote_owner st =
    if active_owner_count st == 0
    then elim (owner_row st.users) [
      | none ↦ st
      | some (id, user) ↦ record st { users = adjust id make_owner st.users }
    ]
    else st

get-first_by :
    (test : StoredUser → Bool) (before : StoredUser → StoredUser → Bool) (id : String)
    (user : StoredUser) (users : List (String × StoredUser))
    → IsDistinct users
    → first_by test before users ≡ some (id, user)
    → get id users ≡ some user
unfolding first_by
get-first_by test before id user [] d h = ground arith
get-first_by test before id user ((j, u) ∷ users) d h =
    elim (Option-cases (first_by test before users)) [
      | inl g ↦ ground (arith, string_eq.same_iff j id)
      | inr ((k, v), g) ↦
          ground (arith, string_eq.same_iff j id, get-first_by test before k v users d.1 g)
    ]

first_by-any :
    (before : StoredUser → StoredUser → Bool) (users : List (String × StoredUser))
    → first_by any_user before users ≡ none
    → users ≡ []
unfolding first_by
first_by-any before [] h = refl
first_by-any before ((j, u) ∷ users) h = elim (Option-cases (first_by any_user before users)) [
  | inl g ↦ ground arith
  | inr ((k, v), g) ↦ elim (Bool-cases (before u v)) [ inl b ↦ ground arith | inr b ↦ ground arith ]
]

owner_row-found :
    (users : List (String × StoredUser))
    → IsDistinct users
    → users ≢ []
    → (id : String) × (user : StoredUser) × (owner_row users ≡ some (id, user))
      × (get id users ≡ some user)
unfolding owner_row
owner_row-found users d n = elim (Option-cases (first_by is_enabled_admin created_before users)) [
  | inr ((id, user), g) ↦ (id, user, ground arith, get-first_by _ _ id user users d g)
  | inl g ↦ elim (Option-cases (first_by any_user enabled_before users)) [
    | inl f ↦ absurd (n (first_by-any enabled_before users f))
    | inr ((id, user), f) ↦ (id, user, ground arith, get-first_by _ _ id user users d f)
  ]
]

-- A database with an account, whose user ids are unique, has an enabled owner once it is opened;
-- and if it had one before, the accounts are as they were.
pub promote_owner-HasOwner :
    (st : AuthStore)
    → IsDistinct st.users
    → st.users ≢ []
    → HasOwner (promote_owner st) × (0 < active_owner_count st → promote_owner st ≡ st)
unfolding promote_owner
promote_owner-HasOwner st d n =
    let (id, user, e, g) = owner_row-found st.users d n in
    let t = tally-adjust is_active_owner id make_owner user st.users g in
    elim (Bool-cases (active_owner_count st == 0)) [
      | inl b ↦
          let w : record st { users = adjust id make_owner st.users } ≡ promote_owner st =
            ground (arith, e) in
          (
            subst HasOwner w (record {
              distinct = adjust-IsDistinct id make_owner st.users d;
              owned = ground (arith, t, tally-zero is_active_owner id user st.users g);
            }),
            λ h. ground arith,
          )
      | inr b ↦
          let w : st ≡ promote_owner st = ground arith in
          (subst HasOwner w (record { distinct = d; owned = ground arith }), λ h. ground arith)
    ]
