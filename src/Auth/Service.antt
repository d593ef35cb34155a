-- ===== src/Auth/Service.antt =====
-- `AuthService.authenticate` of backend/app/services/auth.py, the handler of POST /api/auth/login in
-- backend/app/routers/auth.py with its session, and
-- backend/app/scheduler/login_attempt_cleanup_job.py.
use assetlog.Prelude.{ℕ, ◌-◌, ◌*◌, String, Bool, Option, none, some, ◌==ₛ◌, if◌then◌else◌}
use assetlog.Db.{
  Action, pure, raise, ◌>>◌, owner_password_not_configured, unauthorized, get_db_session,
}
use assetlog.Auth.Attempts.{purge_older_than}
use assetlog.Auth.Limiter.{Limits, check, record_failure, record_success}

-- core/principal.py: the one owner.
abbrev pub owner_id : ℕ
owner_id = 1

-- `verify` is `verify_password`, which calls bcrypt. `now` is the clock when the limits are checked,
-- `later` when the attempt is recorded.
module _ (verify : String → String → Bool) where
  -- A password that was given to the service with a configured hash.
  unfoldable pub verified : Limits → String → String → String → (now later : ℕ) → Action ℕ
  verified l pw_hash password client_ip now later = do
    check l now client_ip
    if verify password pw_hash
        then (record_success client_ip later >> pure owner_id)
        else (record_failure client_ip later >> raise unauthorized)

  unfoldable pub authenticate :
      Limits → Option String → String → String → (now later : ℕ) → Action ℕ
  unfolding verified
  authenticate l none password client_ip now later = raise owner_password_not_configured
  authenticate l (some pw_hash) password client_ip now later =
      if pw_hash ==ₛ ""
      then raise owner_password_not_configured
      else verified l pw_hash password client_ip now later

  -- One request: FastAPI throws what the handler raises into `get_db_session`.
  unfoldable pub login : Limits → Option String → String → String → (now later : ℕ) → Action ℕ
  unfolding authenticate get_db_session
  login l pw_hash password client_ip now later =
      get_db_session (authenticate l pw_hash password client_ip now later)

-- `timedelta(days=n)`
abbrev pub days : ℕ → ℕ
days n = n * 86_400_000_000

unfoldable pub login_attempt_cleanup_job : ℕ → ℕ → Action ℕ
unfolding purge_older_than
login_attempt_cleanup_job retention_days now = purge_older_than (now - days retention_days)
