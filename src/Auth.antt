-- ===== src/Auth.antt =====
-- Authentication, cot/src/auth.rs and cot/src/auth/db.rs: users, their identifiers, and what the
-- code calls of other crates, as the record `Environment`.
pub mod Session
pub mod Passwords
pub mod Database
pub mod Tests
use flareon.Base.{
  ℕ, Text, codes, Option, none, some, Bool, true, false, ◌⊎◌, ◌≡◌, ◌≢◌, ◌↔◌, inl, inr, List,
}
use flareon.Postgres.{ℤ}

-- `session_access` and `user_backend` carry the error of the session store and of the back end.
pub data AuthError (S B : Type 0) : Type 0 where
  password_hash_invalid credentials_type_not_supported user_id_type_not_supported : AuthError S B
  session_access : S → AuthError S B
  user_backend : B → AuthError S B

-- `Result`, or a panic.
pub data Outcome (S B A : Type 0) : Type 0 where
  ok : A → Outcome S B A
  err : AuthError S B → Outcome S B A
  panic : Outcome S B A

pub data UserId : Type 0 where
  int : ℤ → UserId
  string : Text → UserId

pub as_int : UserId → Option ℤ
as_int (int id) = some id
as_int (string _) = none

pub as_string : UserId → Option Text
as_string (int _) = none
as_string (string id) = some id

-- The bytes of a `SecretKey` and of a `SessionAuthHash`.
abbrev pub SecretKey : Type 0
SecretKey = Text

abbrev pub SessionAuthHash : Type 0
SessionAuthHash = Text

-- The methods of the trait `User`, less its two dates.
pub record User : Type 0 where
  pub id : Option UserId
  pub username : Option Text
  pub is_active : Bool
  pub is_authenticated : Bool
  pub session_auth_hash : SecretKey → Option SessionAuthHash

-- All the methods are the defaults of the trait.
abbrev pub anonymous_user : User
anonymous_user = record {
  id = none;
  username = none;
  is_active = false;
  is_authenticated = false;
  session_auth_hash = λ _. none;
}

abbrev pub user_id_session_key : Text
user_id_session_key = codes "__cot_auth_user_id"

abbrev pub session_hash_session_key : Text
session_hash_session_key = codes "__cot_auth_session_hash"

-- The session of the `tower_sessions` crate, with its typed accesses, the comparison of the
-- `subtle` crate, and the types that a back end for users stands on.
pub record Environment : Type 1 where
  pub Session : Type 0
  pub SessionError : Type 0
  pub BackendError : Type 0
  pub Db : Type 0
  pub Credentials : Type 0
  pub get_id : Session → Text → SessionError ⊎ Option UserId
  pub get_bytes : Session → Text → SessionError ⊎ Option Text
  pub insert_id : Session → Text → UserId → SessionError ⊎ Session
  pub insert_bytes : Session → Text → Text → SessionError ⊎ Session
  pub remove_value : Session → Text → SessionError ⊎ Session
  pub ct_eq : Text → Text → Bool

-- What is documented of them: a session that was changed at a key holds there what was inserted,
-- or nothing, and holds elsewhere what it held; `ct_eq` is equality.
pub record IsDocumented (e : Environment) : Type 0 where
  pub get_id-insert_id :
      (s : e.Session) (k : Text) (id : UserId) {s' : e.Session}
      → e.insert_id s k id ≡ inr s'
      → e.get_id s' k ≡ inr (some id)
  pub get_bytes-insert_id :
      (s : e.Session) (k j : Text) (id : UserId) {s' : e.Session}
      → e.insert_id s k id ≡ inr s'
      → k ≢ j
      → e.get_bytes s' j ≡ e.get_bytes s j
  pub get_bytes-insert_bytes :
      (s : e.Session) (k : Text) (b : Text) {s' : e.Session}
      → e.insert_bytes s k b ≡ inr s'
      → e.get_bytes s' k ≡ inr (some b)
  pub get_id-insert_bytes :
      (s : e.Session) (k j : Text) (b : Text) {s' : e.Session}
      → e.insert_bytes s k b ≡ inr s'
      → k ≢ j
      → e.get_id s' j ≡ e.get_id s j
  pub get_id-remove_value :
      (s : e.Session) (k : Text) {s' : e.Session}
      → e.remove_value s k ≡ inr s'
      → e.get_id s' k ≡ inr none
  pub get_id-remove_value_ne :
      (s : e.Session) (k j : Text) {s' : e.Session}
      → e.remove_value s k ≡ inr s'
      → k ≢ j
      → e.get_id s' j ≡ e.get_id s j
  pub get_bytes-remove_value :
      (s : e.Session) (k : Text) {s' : e.Session}
      → e.remove_value s k ≡ inr s'
      → e.get_bytes s' k ≡ inr none
  pub ct_eq_iff : (a b : Text) → (e.ct_eq a b ≡ true) ↔ (a ≡ b)

-- A `Request`: its session, the user among its extensions, and the database of its context.
pub record Request (e : Environment) : Type 0 where
  pub session : e.Session
  pub user_extension : Option User
  pub db : e.Db

-- `AuthBackend`, of this repository or of an application: what it returns for a request, and the
-- database that it leaves.
pub record AuthBackend (e : Environment) : Type 0 where
  pub authenticate :
      e.Credentials → Request e → Outcome e.SessionError e.BackendError (Option User) × e.Db
  pub get_by_id : UserId → Request e → Outcome e.SessionError e.BackendError (Option User) × e.Db

-- The part of `ProjectConfig` that signs.
pub record ProjectConfig : Type 0 where
  pub secret_key : SecretKey
  pub fallback_secret_keys : List SecretKey
