-- ===== src/Sessions/Revoked.antt =====
-- backend/app/auth/sessions.py: a token signs its user in until its session is revoked.
use mathlib.Core.Bool.{false≢true}
use perchtail.Prelude.{
  ℕ, ◌+◌, ◌*◌, ◌≤◌, ◌≡◌, ◌≢◌, ◌⊎◌, refl, Bool, true, false, not, Bool-cases, inl, inr, Option,
  Option-cases, none, some, String, List, [], ◌∷◌, filter, ◌==◌, nat_eq, string_eq, option_eq,
  ==_iff, ==_refl, arith, sym, ap, ◌∙◌,
}
use perchtail.Prelude.Table.{get, get-key, get-append}
use perchtail.Model.{User}
use perchtail.Sessions.{
  AuthSession, AuthDb, user_by_id, session_of, create_session, get_user_by_token, is_revoked,
  keep_of, revoke_all_sessions, is_expired,
}

-- What is found in a filtered table passes the filter.
get-filter :
    (p : AuthSession → Bool) (h : String) (ss : List AuthSession) (s : AuthSession)
    → get (λ (x : AuthSession). x.token_hash) h (filter p ss) ≡ some s
    → p s ≡ true
unfolding get
get-filter p h [] s e = ground arith
get-filter p h (x ∷ xs) s e = ground (arith, get-filter p h xs s)

module _ (sha256 : String → String) where
  get_user_by_token-found :
      (now : ℕ) (token : String) (db : AuthDb) (s : AuthSession) (user : User)
      → session_of sha256 token db ≡ some s
      → is_expired now s ≡ false
      → user_by_id s.user_id db.users ≡ some user
      → user.active ≡ true
      → (get_user_by_token sha256 now token db).0 ≡ some user
  unfolding get_user_by_token
  get_user_by_token-found now token db s user g e u a =
      rw (get_user_by_token, g) (rw e (rw u (rw a refl)))

  -- A new session signs in: where no session has the hash of the drawn token, the user is stored and
  -- active, and the time is at most the expiry, the token finds the user.
  pub get_user_by_token-create_session :
      (hours now later : ℕ) (user : User) (user_agent : Option String) (token : String)
      (db : AuthDb)
      → session_of sha256 token db ≡ none
      → user_by_id user.id db.users ≡ some user
      → user.active ≡ true
      → later ≤ now + hours * 3_600
      → (get_user_by_token sha256 later token
          (create_session sha256 hours now user user_agent token db).1).0
        ≡ some user
  unfolding create_session
  get_user_by_token-create_session hours now later user user_agent token db h u a l =
      let s = (create_session sha256 hours now user user_agent token db).0 in
      let g : session_of sha256 token (create_session sha256 hours now user user_agent token db).1
          ≡ some s =
        ground (
          arith,
          h,
          get-append (λ (x : AuthSession). x.token_hash) (sha256 token) db.sessions s,
          ==_refl (sha256 token),
        ) in
      let e : is_expired later s ≡ false = ground arith in
      get_user_by_token-found later token
        (create_session sha256 hours now user user_agent token db).1 s user g e u a

  get_user_by_token-some :
      (now : ℕ) (token : String) (db : AuthDb) (user : User)
      → (get_user_by_token sha256 now token db).0 ≡ some user
      → (s : AuthSession) × (session_of sha256 token db ≡ some s)
        × (user_by_id s.user_id db.users ≡ some user)
  unfolding get_user_by_token
  get_user_by_token-some now token db user h = elim (Option-cases (session_of sha256 token db)) [
    | inl e ↦ ground (arith, e, h)
    | inr (s, e) ↦ (s, e, ground (arith, e, h))
  ]

  -- Signing a user out everywhere leaves no token that signs this user in but the excepted one: whoever a
  -- token signs in afterwards is another user, or the token's hash is that of the excepted token.
  pub get_user_by_token-revoke_all_sessions :
      (user_id now : ℕ) (except : Option String) (token : String) (db : AuthDb) (user : User)
      → (get_user_by_token sha256 now token (revoke_all_sessions sha256 user_id except db).1).0
        ≡ some user
      → (user.id ≢ user_id) ⊎ (keep_of sha256 except ≡ some (sha256 token))
  unfolding get_user_by_token revoke_all_sessions
  get_user_by_token-revoke_all_sessions user_id now except token db user h =
      let db' = (revoke_all_sessions sha256 user_id except db).1 in
      let (s, found, owner) = get_user_by_token-some now token db' user h in
      let gone = is_revoked sha256 user_id (keep_of sha256 except) in
      let kept : not (gone s) ≡ true =
        get-filter (λ s. not (gone s)) (sha256 token) db.sessions s found in
      let hash = get-key (λ (x : AuthSession). x.token_hash) (sha256 token) db'.sessions s found in
      let id = get-key (λ (u : User). u.id) s.user_id db'.users user owner in
      elim (Bool-cases (s.user_id == user_id)) [
        | inl e ↦ elim (Bool-cases (some s.token_hash == keep_of sha256 except)) [
          | inl k ↦
              inr (sym ((==_iff (some s.token_hash) (keep_of sha256 except)).0 k) ∙ ap some hash)
          | inr k ↦ absurd (false≢true (sym (rw e (rw k refl)) ∙ kept))
        ]
        | inr e ↦ inl (λ same. ground (arith, e, id, same, ==_iff s.user_id user_id))
      ]
