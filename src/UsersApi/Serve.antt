-- ===== src/UsersApi/Serve.antt =====
-- backend/app/api/users.py: any requests, one after the other.
use perchtail.Prelude.{◌≡◌, refl, String, List, [], ◌∷◌}
use perchtail.Model.{User}
use perchtail.Run.{Run, ok, http, crash, out_of_fuel}
use perchtail.UsersApi.{
  UsersDb, Request, create, update, reset, deactivate, handle, or_rollback, serve,
}
use perchtail.UsersApi.Guards.{IsSafe}
use perchtail.UsersApi.LastAdmin.{
  create_user-IsSafe, update_user-IsSafe, deactivate_user-IsSafe, reset_password-IsSafe,
}

module _ (hash_password sha256 : String → String) where
  handle-IsSafe :
      (actor : User) (r : Request) (db db' : UsersDb)
      → handle hash_password sha256 actor r db ≡ ok db'
      → IsSafe db
      → IsSafe db'
  unfolding handle
  handle-IsSafe actor (create payload) db db' e h =
      create_user-IsSafe db actor hash_password payload db' e h
  handle-IsSafe actor (update user_id payload) db db' e h =
      update_user-IsSafe db actor user_id payload db' e h
  handle-IsSafe actor (reset user_id temporary) db db' e h =
      reset_password-IsSafe db actor hash_password sha256 user_id temporary db' e h
  handle-IsSafe actor (deactivate user_id) db db' e h =
      deactivate_user-IsSafe db actor user_id db' e h

  or_rollback-IsSafe :
      (db : UsersDb) (r : Run UsersDb)
      → ((db' : UsersDb) → r ≡ ok db' → IsSafe db')
      → IsSafe db
      → IsSafe (or_rollback db r)
  or_rollback-IsSafe db (ok db') k h = k db' refl
  or_rollback-IsSafe db (http code detail) k h = h
  or_rollback-IsSafe db crash k h = h
  or_rollback-IsSafe db out_of_fuel k h = h

  -- When each id stands in one row, all below the next one, and an active account has a super-admin
  -- role, the same holds after any requests of any users: an active super-admin always remains.
  pub serve-IsSafe :
      (rs : List (User × Request)) (db : UsersDb)
      → IsSafe db
      → IsSafe (serve hash_password sha256 rs db)
  unfolding serve
  serve-IsSafe [] db h = h
  serve-IsSafe (r ∷ rest) db h =
      serve-IsSafe rest (or_rollback db (handle hash_password sha256 r.0 r.1 db)) (
        or_rollback-IsSafe db (handle hash_password sha256 r.0 r.1 db)
          (λ db' e. handle-IsSafe r.0 r.1 db db' e h) h)
