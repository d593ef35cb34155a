-- ===== src/Db/Session.antt =====
-- A method over the request's session: it reads and writes the database and may raise. What it
-- wrote before it raised is in the session still, until `get_db_session` rolls it back.
use assetlog.Prelude.{ℕ, String, ◌≡◌, ap, Bool, Option, none, some, List, if◌then◌else◌}
use assetlog.Db.Rows.{Database}

-- One entry of `CsvImportValidationError.errors`: the row, the field and the message's kind.
pub record Violation : Type 0 where
  pub row : ℕ
  pub field : Option String
  pub message : String

-- exceptions.py; `integrity` is SQLAlchemy's IntegrityError, from a UNIQUE constraint.
pub data Error : Type 0 where
  not_found insufficient_holding owner_password_not_configured unauthorized integrity : Error
  too_many_attempts : ℕ → Error
  csv_import_validation : List Violation → Error

pub data Result {ℓ} (A : Type ℓ) : Type ℓ where
  ok : A → Result A
  err : Error → Result A

abbrev pub Action {ℓ} : Type ℓ → Type ℓ
Action A = Database → Result A × Database

module _ {ℓ} {A : Type ℓ} where
  abbrev pub pure : A → Action A
  pure a db = (ok a, db)

  abbrev pub raise : Error → Action A
  raise e db = (err e, db)

  abbrev pub gets : (Database → A) → Action A
  gets f db = (ok (f db), db)

  abbrev pub or_raise : Option A → Error → Action A
  or_raise none e = raise e
  or_raise (some a) e = pure a

infixl 5 ◌>>=◌ ◌>>◌
abbrev pub ◌>>=◌ {ℓ κ} : {A : Type ℓ} {B : Type κ} → Action A → (A → Action B) → Action B
◌>>=◌ m f db = let (r, db') = m db in elim r [ ok a ↦ f a db' | err e ↦ (err e, db') ]

abbrev pub ◌>>◌ {ℓ} : {B : Type ℓ} → Action (Unit {0}) → Action B → Action B
m >> k = m >>= λ _. k

abbrev pub raise_if : Bool → Error → Action (Unit {0})
raise_if b e db = (if b then err e else ok tt, db)

abbrev pub modify : (Database → Database) → Action (Unit {0})
modify f db = (ok tt, f db)

-- A request's session: commit when the handler returns, roll back when it raises.
abbrev committed {ℓ} : {A : Type ℓ} → Database → Result A × Database → Result A × Database
committed before (ok a, after) = (ok a, after)
committed before (err e, after) = (err e, before)

unfoldable pub get_db_session {ℓ} : {A : Type ℓ} → Action A → Action A
get_db_session handler db = committed db (handler db)

-- A step that returns hands on its value and its state; one that raises ends the chain.
module _ {ℓ κ} {A : Type ℓ} {B : Type κ} (m : Action A) (k : A → Action B) where
  pub bind-ok : (db after : Database) (a : A) → m db ≡ (ok a, after) → (m >>= k) db ≡ k a after
  bind-ok db after a e = ap (λ out. elim out.0 [ ok b ↦ k b out.1 | err y ↦ (err y, out.1) ]) e

  pub bind-err :
      (db after : Database) (x : Error) → m db ≡ (err x, after) → (m >>= k) db ≡ (err x, after)
  bind-err db after x e = ap (λ out. elim out.0 [ ok b ↦ k b out.1 | err y ↦ (err y, out.1) ]) e
