-- ===== src/Auth/Requests.antt =====
-- What a login request leaves behind, through the session of its request.
use assetlog.Prelude.{
  ℕ, ◌≡◌, refl, String, Bool, false, some, List, [], ◌∷◌, All, arith, ◌==ₛ◌, if◌then◌else◌,
}
use assetlog.Db.{Database, ok, err, Error, unauthorized}
use assetlog.Auth.Limiter.{Limits, check, record_failure, record_success}
use assetlog.Auth.Service.{authenticate, login, owner_id}
use assetlog.Auth.Lockout.{check_passes}

pub record Attempt : Type 0 where
  pub password : String
  pub now : ℕ
  pub later : ℕ

module _ (verify : String → String → Bool) (l : Limits) (pw_hash : String) where
  -- The service, past the limits: a wrong password is recorded as one failure and refused, a right
  -- one is recorded as one success and lets the owner in.
  pub authenticate-checked :
      (password ip : String) (now later : ℕ) (db : Database)
      → (pw_hash ==ₛ "") ≡ false
      → (check l now ip db).0 ≡ ok tt
      → authenticate verify l (some pw_hash) password ip now later db ≡ (
          if verify password pw_hash
          then (ok owner_id, (record_success ip later db).1)
          else (err unauthorized, (record_failure ip later db).1))
  unfolding authenticate record_success record_failure
  authenticate-checked password ip now later db set passed =
      ground (arith, check_passes l ip now db)

  -- A client that the limits refuse is refused before its password is looked at, and nothing is
  -- recorded.
  pub authenticate-blocked :
      (password ip : String) (now later : ℕ) (db : Database) (e : Error)
      → (pw_hash ==ₛ "") ≡ false
      → (check l now ip db).0 ≡ err e
      → authenticate verify l (some pw_hash) password ip now later db ≡ (err e, db)
  unfolding authenticate
  authenticate-blocked password ip now later db e set refused =
      ground (arith, check_passes l ip now db)

  -- Requests one after another, from one client.
  pub requests : String → List Attempt → Database → Database
  requests ip [] db = db
  requests ip (a ∷ rest) db =
      requests ip rest (login verify l (some pw_hash) a.password ip a.now a.later db).1

  login-wrong :
      (ip : String) (a : Attempt) (db : Database)
      → verify a.password pw_hash ≡ false
      → (login verify l (some pw_hash) a.password ip a.now a.later db).1 ≡ db
  unfolding login record_failure
  login-wrong ip a db wrong = ground (arith, check_passes l ip a.now db)

  -- However many requests with a wrong password are made, the database is as before: the session of
  -- each is rolled back, with the failure that it recorded.
  pub requests-wrong :
      (ip : String) (attempts : List Attempt) (db : Database)
      → All (λ (a : Attempt). verify a.password pw_hash ≡ false) attempts
      → requests ip attempts db ≡ db
  unfolding requests
  requests-wrong ip [] db wrong = refl
  requests-wrong ip (a ∷ rest) db wrong =
      rw (login-wrong ip a db wrong.0) (requests-wrong ip rest db wrong.1)
