-- ===== src/Sessions/Tests.antt =====
-- Login sessions of the sample user, with a token as its own hash.
use perchtail.Prelude.{◌≡◌, ◌≢◌, ◌⊎◌, refl, none, some, String, [], ◌∷◌, arith, nat_eq, string_eq}
use perchtail.Prelude.Table.{get}
use perchtail.Sessions.{
  AuthSession, AuthDb, user_by_id, session_of, create_session, get_user_by_token,
  revoke_all_sessions, keep_of,
}
use perchtail.Sessions.Revoked.{
  get_user_by_token-create_session, get_user_by_token-revoke_all_sessions,
}
use perchtail.Samples.{operator}

abbrev old : AuthSession
old = record {
  id = 1;
  token_hash = "old";
  user_id = 7;
  created_at = 0;
  expires_at = 9_000;
  last_seen_at = none;
  user_agent = none;
}

abbrev db : AuthDb
db = record { users = operator ∷ []; sessions = old ∷ []; next_id = 2 }

abbrev plain : String → String
plain token = token

new-missing : session_of plain "new" db ≡ none
unfolding get
new-missing = refl

operator-found : user_by_id operator.id db.users ≡ some operator
unfolding get
operator-found = refl

get_user_by_token-create_session_example :
    (get_user_by_token plain 200 "new" (create_session plain 12 100 operator none "new" db).1).0
    ≡ some operator
get_user_by_token-create_session_example =
    get_user_by_token-create_session plain 12 100 200 operator none "new" db new-missing
      operator-found refl (omega arith)

kept :
    (get_user_by_token plain 200 "old" (revoke_all_sessions plain 7 (some "old") db).1).0
    ≡ some operator
unfolding get_user_by_token revoke_all_sessions get
kept = refl

get_user_by_token-revoke_all_sessions_example :
    (operator.id ≢ 7) ⊎ (keep_of plain (some "old") ≡ some (plain "old"))
get_user_by_token-revoke_all_sessions_example =
    get_user_by_token-revoke_all_sessions plain 7 200 (some "old") "old" db operator kept
