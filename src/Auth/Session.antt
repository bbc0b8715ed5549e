-- ===== src/Auth/Session.antt =====
-- The extension of requests by `AuthRequestExt`, cot/src/auth.rs: `user`, `authenticate`, `login`,
-- `logout`, and the check of the hash that a session holds.
pub mod Checked
pub mod Kept
pub mod Rotated
use flareon.Base.{
  Text, Option, none, some, Bool, true, false, ◌⊎◌, inl, inr, List, [], ◌∷◌, if◌then◌else◌,
}
use flareon.Auth.{
  AuthError, session_access, Outcome, ok, err, panic, UserId, SecretKey, SessionAuthHash, User,
  anonymous_user, user_id_session_key, session_hash_session_key, Environment, AuthBackend, Request,
  ProjectConfig,
}

abbrev pub M : Environment → Type 0 → Type 0
M e A = Request e → Outcome e.SessionError e.BackendError A × Request e

-- A failed step ends the computation, and leaves the request as it is by then.
abbrev pub and_then :
    {e : Environment} {A B : Type 0}
    → Outcome e.SessionError e.BackendError A × Request e
    → (A → M e B)
    → Outcome e.SessionError e.BackendError B × Request e
and_then (ok a, r) f = f a r
and_then (err x, r) f = (err x, r)
and_then (panic, r) f = (panic, r)

infixl 5 ◌>>=◌ ◌>>◌
abbrev pub ◌>>=◌ : {e : Environment} {A B : Type 0} → M e A → (A → M e B) → M e B
◌>>=◌ m f r = and_then (m r) f

abbrev pub ◌>>◌ : {e : Environment} {A B : Type 0} → M e A → M e B → M e B
◌>>◌ m k = m >>= λ _. k

abbrev pub pure : {e : Environment} {A : Type 0} → A → M e A
pure a r = (ok a, r)

abbrev pub expect : {e : Environment} {A : Type 0} → Option A → M e A
expect none r = (panic, r)
expect (some a) r = (ok a, r)

module _ (e : Environment) where
  -- An access of the session that reads it, and one that changes it.
  abbrev pub read : {A : Type 0} → e.SessionError ⊎ A → M e A
  read (inl x) r = (err (session_access x), r)
  read (inr a) r = (ok a, r)

  abbrev pub write : e.SessionError ⊎ e.Session → M e (Unit {0})
  write (inl x) r = (err (session_access x), r)
  write (inr s) r = (ok tt, record r { session = s })

  abbrev pub insert_extension : User → M e (Unit {0})
  insert_extension u r = (ok tt, record r { user_extension = some u })

  abbrev pub insert_some_id : Option UserId → M e (Unit {0})
  insert_some_id none r = (ok tt, r)
  insert_some_id (some user_id) r = write (e.insert_id r.session user_id_session_key user_id) r

  abbrev pub insert_hash : SessionAuthHash → M e (Unit {0})
  insert_hash hash r = write (e.insert_bytes r.session session_hash_session_key hash) r

  abbrev pub insert_some_hash : Option SessionAuthHash → M e (Unit {0})
  insert_some_hash none = pure tt
  insert_some_hash (some hash) = insert_hash hash

  abbrev pub remove : Text → M e (Unit {0})
  remove k r = write (e.remove_value r.session k) r

  unfoldable pub logout : M e (Unit {0})
  logout = do
    remove user_id_session_key
    remove session_hash_session_key
    insert_extension anonymous_user

  module _ (config : ProjectConfig) where
    unfoldable pub login : User → M e (Unit {0})
    login user = do
      insert_some_id user.id
      insert_some_hash (user.session_auth_hash config.secret_key)
      insert_extension user

    -- The loop over the fallback keys: a key that made the stored hash has the new one stored.
    unfoldable pub try_fallbacks :
        User → SessionAuthHash → SessionAuthHash → List SecretKey → M e Bool
    try_fallbacks user user_hash stored_hash [] = pure false
    try_fallbacks user user_hash stored_hash (fallback_key ∷ keys) =
        let rest = try_fallbacks user user_hash stored_hash keys in
        do
          user_hash_fallback ← expect (user.session_auth_hash fallback_key)
          if e.ct_eq user_hash_fallback stored_hash
              then (insert_hash user_hash >> pure true)
              else rest

    unfoldable pub check_hash : User → Option SessionAuthHash → M e Bool
    unfolding try_fallbacks
    check_hash user none = pure true
    check_hash user (some user_hash) = do
      found ← λ r. read (e.get_bytes r.session session_hash_session_key) r
      stored_hash ← expect found
      if e.ct_eq user_hash stored_hash
          then pure true
          else try_fallbacks user user_hash stored_hash config.fallback_secret_keys

    unfoldable pub session_auth_hash_valid : User → M e Bool
    unfolding check_hash
    session_auth_hash_valid user = check_hash user (user.session_auth_hash config.secret_key)

    module _ (backend : AuthBackend e) where
      -- A call of the back end, which sees the request and may change the database.
      abbrev pub of_backend :
          {A : Type 0} → (Request e → Outcome e.SessionError e.BackendError A × e.Db) → M e A
      of_backend call r = let (o, db) = call r in (o, record r { db = db })

      unfoldable pub authenticate : e.Credentials → M e (Option User)
      authenticate credentials = of_backend (backend.authenticate credentials)

      unfoldable pub keep_valid : Option User → M e (Option User)
      unfolding session_auth_hash_valid
      keep_valid none = pure none
      keep_valid (some user) = do
        valid ← session_auth_hash_valid user
        pure (if valid then some user else none)

      unfoldable pub get_by_saved_id : Option UserId → M e (Option User)
      unfolding keep_valid
      get_by_saved_id none = pure none
      get_by_saved_id (some user_id) = do
        user ← of_backend (backend.get_by_id user_id)
        keep_valid user

      unfoldable pub get_user_with_saved_id : M e (Option User)
      unfolding get_by_saved_id
      get_user_with_saved_id = do
        saved ← λ r. read (e.get_id r.session user_id_session_key) r
        get_by_saved_id saved

      unfoldable pub insert_or_logout : Option User → M e (Unit {0})
      unfolding logout
      insert_or_logout (some user) = insert_extension user
      insert_or_logout none = logout

      unfoldable pub load_extension : Option User → M e (Unit {0})
      unfolding get_user_with_saved_id insert_or_logout
      load_extension (some _) = pure tt
      load_extension none = do user ← get_user_with_saved_id; insert_or_logout user

      unfoldable pub user : M e User
      unfolding load_extension
      user = do λ r. load_extension r.user_extension r; λ r. expect r.user_extension r
