-- ===== src/Sessions.antt =====
-- backend/app/auth/sessions.py: the login sessions, found by the hash of their token. Times are seconds.
mod Revoked
mod Tests
use perchtail.Prelude.{
  ℕ, suc, ◌+◌, ◌*◌, Bool, true, false, ◌&&◌, ◌||◌, not, Option, none, some, String, List, [], ◌∷◌,
  ◌++◌, ltb, leb, filter, length, if◌then◌else◌, ◌==◌, nat_eq, string_eq, option_eq,
}
use perchtail.Prelude.Table.{get, remove, replace}
use perchtail.Model.{User}

pub record AuthSession : Type 0 where
  pub id : ℕ
  pub token_hash : String
  pub user_id : ℕ
  pub created_at : ℕ
  pub expires_at : ℕ
  pub last_seen_at : Option ℕ
  pub user_agent : Option String

pub record AuthDb : Type 0 where
  pub users : List User
  pub sessions : List AuthSession
  pub next_id : ℕ

abbrev pub last_seen_resolution : ℕ
last_seen_resolution = 60

abbrev pub is_seen_stale : ℕ → Option ℕ → Bool
is_seen_stale now none = true
is_seen_stale now (some last_seen) = leb (last_seen + last_seen_resolution) now

abbrev pub user_by_id : ℕ → List User → Option User
user_by_id = get (λ (u : User). u.id)

-- `order_by(last_seen_at.desc().nulls_last(), created_at.desc())`: may `a` stand before `b`?
abbrev pub is_before : AuthSession → AuthSession → Bool
is_before a b = elim a.last_seen_at [
  | none ↦ elim b.last_seen_at [ none ↦ leb b.created_at a.created_at | some s ↦ false ]
  | some r ↦ elim b.last_seen_at [
    | none ↦ true
    | some s ↦ ltb s r || (r == s && leb b.created_at a.created_at)
  ]
]

abbrev pub insert_session : AuthSession → List AuthSession → List AuthSession
insert_session a [] = a ∷ []
insert_session a (b ∷ bs) =
    let rest = insert_session a bs in if is_before a b then a ∷ b ∷ bs else b ∷ rest

abbrev pub sort_sessions : List AuthSession → List AuthSession
sort_sessions [] = []
sort_sessions (a ∷ as') = insert_session a (sort_sessions as')

pub list_sessions_for_user : ℕ → ℕ → AuthDb → List AuthSession
list_sessions_for_user now user_id db =
    sort_sessions (filter (λ s. s.user_id == user_id && ltb now s.expires_at) db.sessions)

pub revoke_session : ℕ → ℕ → AuthDb → Bool × AuthDb
revoke_session user_id session_id db =
    elim (get (λ (s : AuthSession). s.id) session_id db.sessions) [
      | none ↦ (false, db)
      | some s ↦
          if s.user_id == user_id
          then (
            true,
            record db { sessions = remove (λ (s : AuthSession). s.id) session_id db.sessions },
          )
          else (false, db)
    ]

abbrev pub is_expired : ℕ → AuthSession → Bool
is_expired now s = ltb s.expires_at now

pub purge_expired_sessions : ℕ → AuthDb → ℕ × AuthDb
purge_expired_sessions now db = (
  length (filter (is_expired now) db.sessions),
  record db { sessions = filter (λ s. not (is_expired now s)) db.sessions },
)

-- `sha256` is the hex SHA-256 of a token.
module _ (sha256 : String → String) where
  abbrev pub session_of : String → AuthDb → Option AuthSession
  session_of token db = get (λ (s : AuthSession). s.token_hash) (sha256 token) db.sessions

  -- at a drawn token, with the row it makes
  pub create_session : ℕ → ℕ → User → Option String → String → AuthDb → AuthSession × AuthDb
  create_session session_ttl_hours now user user_agent token db =
      let auth_session : AuthSession = record {
        id = db.next_id;
        token_hash = sha256 token;
        user_id = user.id;
        created_at = now;
        expires_at = now + session_ttl_hours * 3_600;
        last_seen_at = none;
        user_agent = user_agent;
      } in
      (
        auth_session,
        record db { sessions = db.sessions ++ auth_session ∷ []; next_id = suc db.next_id },
      )

  -- the update of `last_seen_at`, by the row's id
  abbrev pub see : ℕ → AuthSession → AuthDb → AuthDb
  see now s db =
      if is_seen_stale now s.last_seen_at
      then record db {
        sessions =
            replace (λ (x : AuthSession). x.id) (record s { last_seen_at = some now }) db.sessions;
      }
      else db

  pub get_user_by_token : ℕ → String → AuthDb → Option User × AuthDb
  get_user_by_token now token db = elim (session_of token db) [
    | none ↦ (none, db)
    | some s ↦ if is_expired now s then (none, db) else elim (user_by_id s.user_id db.users) [
      | none ↦ (none, db)
      | some user ↦ if user.active then (some user, see now s db) else (none, db)
    ]
  ]

  pub delete_session : String → AuthDb → AuthDb
  delete_session token db = elim (session_of token db) [
    | none ↦ db
    | some s ↦ record db { sessions = remove (λ (x : AuthSession). x.id) s.id db.sessions }
  ]

  -- `hash_token(except_token) if except_token else None`
  abbrev pub keep_of : Option String → Option String
  keep_of none = none
  keep_of (some token) = if token == "" then none else some (sha256 token)

  abbrev pub is_revoked : ℕ → Option String → AuthSession → Bool
  is_revoked user_id keep s = s.user_id == user_id && not (some s.token_hash == keep)

  pub revoke_all_sessions : ℕ → Option String → AuthDb → ℕ × AuthDb
  revoke_all_sessions user_id except_token db =
      let gone = is_revoked user_id (keep_of except_token) in
      (
        length (filter gone db.sessions),
        record db { sessions = filter (λ s. not (gone s)) db.sessions },
      )
