-- ===== src/Auth/Database.antt =====
-- The users in the database, cot/src/auth/db.rs: `DatabaseUser`, its credentials and its back end.
pub mod Authenticated
use flareon.Base.{ℕ, Text, Option, none, some, Bool, true, false, ◌⊎◌, inl, inr, ◌≡◌}
use flareon.Postgres.{ℤ}
use flareon.Auth.{
  AuthError, Outcome, ok, err, panic, user_backend, credentials_type_not_supported,
  user_id_type_not_supported, UserId, int, string, SecretKey, User, Environment, AuthBackend,
  Request,
}
use flareon.Auth.Passwords
use flareon.Auth.Passwords.{
  PasswordAuth, PasswordVerificationResult, ok_obsolete, invalid, from_password, verify, byte_len,
  limited_string,
}

-- `Auto` of cot/src/db.rs.
pub data Auto (A : Type 0) : Type 0 where
  fixed : A → Auto A
  auto : Auto A

pub record DatabaseUser : Type 0 where
  pub id : Auto ℤ
  pub username : Text
  pub password : Text

pub record DatabaseUserCredentials : Type 0 where
  pub username : Text
  pub password : Text

abbrev pub max_username_length : ℕ
max_username_length = 255

pub data CreateUserError : Type 0 where
  username_too_long : ℕ → CreateUserError

-- The table of users as the queries of this file see it, the box for errors, the downcast of
-- credentials, and the HMAC with SHA-512 of a key and a message.
pub record Users (e : Environment) : Type 1 where
  pub DatabaseError : Type 0
  pub box_create : CreateUserError → e.BackendError
  pub box_database : DatabaseError → e.BackendError
  pub downcast : e.Credentials → Option DatabaseUserCredentials
  pub by_id : e.Db → ℤ → DatabaseError ⊎ Option DatabaseUser
  pub by_username : e.Db → Text → DatabaseError ⊎ Option DatabaseUser
  pub insert : DatabaseUser → e.Db → (DatabaseError ⊎ DatabaseUser) × e.Db
  pub save : DatabaseUser → e.Db → (DatabaseError ⊎ DatabaseUser) × e.Db
  pub hmac : Text → Text → Text

module _ {e : Environment} (users : Users e) (p : PasswordAuth) where
  abbrev pub Result : Type 0 → Type 0
  Result A = Outcome e.SessionError e.BackendError A

  abbrev pub D : Type 0 → Type 0
  D A = e.Db → Result A × e.Db

  abbrev and_then : {A B : Type 0} → Result A × e.Db → (A → D B) → Result B × e.Db
  and_then (ok a, db) f = f a db
  and_then (err x, db) f = (err x, db)
  and_then (panic, db) f = (panic, db)

  infixl 5 ◌>>=◌
  abbrev ◌>>=◌ : {A B : Type 0} → D A → (A → D B) → D B
  ◌>>=◌ m f db = and_then (m db) f

  abbrev pure : {A : Type 0} → A → D A
  pure a db = (ok a, db)

  abbrev of_result : {A : Type 0} → Result A → D A
  of_result o db = (o, db)

  -- A query, and a statement that may change the table.
  abbrev query : {A : Type 0} → users.DatabaseError ⊎ A → D A
  query (inl x) db = (err (user_backend (users.box_database x)), db)
  query (inr a) db = (ok a, db)

  abbrev statement : (users.DatabaseError ⊎ DatabaseUser) × e.Db → Result DatabaseUser × e.Db
  statement (inl x, db) = (err (user_backend (users.box_database x)), db)
  statement (inr u, db) = (ok u, db)

  abbrev limited_result : Text → Option Text → D Text
  limited_result username none db =
      (err (user_backend (users.box_create (username_too_long (byte_len username)))), db)
  limited_result username (some limited_username) db = (ok limited_username, db)

  abbrev limited : Text → D Text
  limited username = limited_result username (limited_string max_username_length username)

  unfoldable pub create_user : ℕ → Text → Text → D DatabaseUser
  create_user salt username password = do
    limited_username ← limited username
    hash ← of_result (from_password p salt password)
    λ db.
        statement
          (users.insert (record { id = auto; username = limited_username; password = hash }) db)

  unfoldable pub get_by_id : ℤ → D (Option DatabaseUser)
  get_by_id id db = query (users.by_id db id) db

  unfoldable pub get_by_username : Text → D (Option DatabaseUser)
  get_by_username username = do
    limited_username ← limited username
    λ db. query (users.by_username db limited_username) db

  -- The match on the result of `verify`.
  unfoldable pub checked : DatabaseUser → PasswordVerificationResult → D (Option DatabaseUser)
  checked user PasswordVerificationResult.ok = pure (some user)
  checked user (ok_obsolete new_hash) = do
    saved ← λ db. statement (users.save (record user { password = new_hash }) db)
    pure (some saved)
  checked user invalid = pure none

  -- The work that is done where there is no such user.
  unfoldable pub dummy : PasswordVerificationResult → D (Option DatabaseUser)
  dummy invalid db = (panic, db)
  dummy PasswordVerificationResult.ok db = (ok none, db)
  dummy (ok_obsolete _) db = (ok none, db)

  unfoldable pub authenticate_found : ℕ → ℕ → Text → Option DatabaseUser → D (Option DatabaseUser)
  unfolding checked dummy
  authenticate_found salt salt' password (some user) = do
    result ← of_result (verify p salt user.password password)
    checked user result
  authenticate_found salt salt' password none = do
    dummy_hash ← of_result (from_password p salt password)
    result ← of_result (verify p salt' dummy_hash password)
    dummy result

  unfoldable pub authenticate : ℕ → ℕ → DatabaseUserCredentials → D (Option DatabaseUser)
  unfolding authenticate_found
  authenticate salt salt' credentials = do
    username_limited ← limited credentials.username
    user ← λ db. query (users.by_username db username_limited) db
    authenticate_found salt salt' credentials.password user

  unfoldable pub session_auth_hash : DatabaseUser → SecretKey → Text
  session_auth_hash user secret_key = users.hmac secret_key user.password

  -- A user from the table as `dyn User`, with the number that `id` returns.
  unfoldable pub boxed : DatabaseUser → ℤ → User
  unfolding session_auth_hash
  boxed user i = record {
    id = some (int i);
    username = some user.username;
    is_active = true;
    is_authenticated = true;
    session_auth_hash = λ k. some (session_auth_hash user k);
  }

  -- A user without an identifier, for whom `id` panics, does so here when it is boxed.
  unfoldable pub as_user : DatabaseUser → Result User
  unfolding boxed
  as_user user = elim user.id [ auto ↦ panic | fixed i ↦ ok (boxed user i) ]

  unfoldable pub as_users : Option DatabaseUser → D (Option User)
  unfolding as_user
  as_users none = pure none
  as_users (some user) = do boxed ← of_result (as_user user); pure (some boxed)

  unfoldable pub authenticate_credentials : ℕ → ℕ → Option DatabaseUserCredentials → D (Option User)
  unfolding authenticate as_users
  authenticate_credentials salt salt' none = of_result (err credentials_type_not_supported)
  authenticate_credentials salt salt' (some credentials) = do
    user ← authenticate salt salt' credentials
    as_users user

  unfoldable pub get_by_user_id : UserId → D (Option User)
  unfolding get_by_id as_users
  get_by_user_id (string _) = of_result (err user_id_type_not_supported)
  get_by_user_id (int id) = do user ← get_by_id id; as_users user

  -- `DatabaseUserBackend`, for the salts that one authentication takes.
  unfoldable pub database_user_backend : ℕ → ℕ → AuthBackend e
  unfolding authenticate_credentials get_by_user_id
  database_user_backend salt salt' = record {
    authenticate =
        λ credentials r. authenticate_credentials salt salt' (users.downcast credentials) r.db;
    get_by_id = λ id r. get_by_user_id id r.db;
  }
