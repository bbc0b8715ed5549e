-- ===== src/Auth/Database/Authenticated/Remembered.antt =====
-- A user of the table from the check of the credentials to later requests: `authenticate` and
-- `login` of cot/src/auth.rs with `DatabaseUserBackend` of cot/src/auth/db.rs.
use flareon.Base.{ℕ, ◌≤◌, Option, none, some, inl, inr, ◌∷◌, ◌≡◌, ◌≢◌, refl, sym, ap, subst, ◌∙◌}
use mathlib.Core.List.{Memᴰ}
use flareon.Postgres.{ℤ}
use flareon.Auth.{
  Outcome, ok, err, user_backend, int, SecretKey, User, Environment, IsDocumented, Request,
  ProjectConfig,
}
use flareon.Auth.Session.{login, user}
use flareon.Auth.Session as Sessions
use flareon.Auth.Session.Checked.{of_backend-eq-ok}
use flareon.Auth.Session.Rotated.{Recalls, login-user}
use flareon.Auth.Passwords.{PasswordAuth, IsDocumentedPasswordAuth, byte_len, matching}
use flareon.Auth.Database.{
  fixed, DatabaseUser, DatabaseUserCredentials, Users, max_username_length, as_user, as_users,
  boxed, get_by_id, get_by_user_id, authenticate_credentials, database_user_backend,
}
use flareon.Auth.Database.Authenticated.{IsTable, IsUpToDate, authenticate_lem}

module _ {e : Environment} {users : Users e} {p : PasswordAuth} (d : IsDocumentedPasswordAuth p)
    (t : IsTable users p) where
  as_user-boxed :
      (u : DatabaseUser) (i : ℤ) → u.id ≡ fixed i → as_user users p u ≡ ok (boxed users p u i)
  unfolding as_user
  as_user-boxed u i at = rw (at, as_user)

  as_users-boxed :
      (u : DatabaseUser) (i : ℤ) (db : e.Db)
      → u.id ≡ fixed i
      → as_users users p (some u) db ≡ (ok (some (boxed users p u i)), db)
  unfolding as_users
  as_users-boxed u i db at = rw (as_user-boxed u i at)

  get_by_user_id-boxed :
      (u : DatabaseUser) (i : ℤ) (db : e.Db)
      → u.id ≡ fixed i
      → users.by_id db i ≡ inr (some u)
      → get_by_user_id users p (int i) db ≡ (ok (some (boxed users p u i)), db)
  unfolding get_by_user_id get_by_id
  get_by_user_id-boxed u i db at held = rw (held, as_users-boxed u i db at)

  returned :
      (v w : User) {db db' : e.Db}
      → ◌≡◌ {A = Outcome e.SessionError e.BackendError (Option User) × e.Db}
          (ok (some v), db)
          (ok (some w), db')
      → v ≡ w
  returned v w h = cc

  not_returned :
      (v : User) {db db' : e.Db}
      → ◌≢◌ {A = Outcome e.SessionError e.BackendError (Option User) × e.Db}
          (ok (some v), db)
          (ok none, db')
  not_returned v h = cc

  not_failed :
      (v : User) (x : users.DatabaseError) {db db' : e.Db}
      → ◌≢◌ {A = Outcome e.SessionError e.BackendError (Option User) × e.Db}
          (ok (some v), db)
          (err (user_backend (users.box_database x)), db')
  not_failed v x h = cc

  none_user : (db : e.Db) → as_users users p none db ≡ (ok none, db)
  unfolding as_users
  none_user db = refl

  authenticate_credentials-boxed :
      (salt salt' : ℕ) (c : DatabaseUserCredentials) (db : e.Db) (found : Option DatabaseUser)
      {user : User} {db' : e.Db}
      → byte_len c.username ≤ max_username_length
      → users.by_username db c.username ≡ inr found
      → authenticate_credentials users p salt salt' (some c) db ≡ (ok (some user), db')
      → (old u : DatabaseUser) × (i : ℤ) × (found ≡ some old)
        × (p.verify_password c.password old.password ≡ matching)
        × (user ≡ boxed users p u i)
        × IsUpToDate d t c.password old u db'
        × (u.id ≡ fixed i)
  unfolding authenticate_credentials
  authenticate_credentials-boxed salt salt' c db found {user} {db'} short at h =
      elim (authenticate_lem d t salt salt' c db found short at) [
        | inl (old, is, matches, inr (x, db'', was, failed, fails)) ↦
            absurd (not_failed user x {db' = db''} (sym h ∙ rw fails refl))
        | inl (old, is, matches, inl (u, db'', done, good)) ↦
            let (i, at_old, _) = t.found_by_id db c.username (at ∙ ap inr is) in
            let at_u = good.same_id ∙ at_old in
            let both = sym h ∙ rw done (as_users-boxed u i db'' at_u) in
            (
              old,
              u,
              i,
              is,
              matches,
              returned user (boxed users p u i) both,
              subst (IsUpToDate d t c.password old u) (sym (ap (λ q. q.1) both)) good,
              at_u,
            )
        | inr (refused, _) ↦
            absurd (not_returned user {db' = db} (sym h ∙ rw refused (none_user db)))
      ]

  -- With the back end for users in the database, over a session, a table and a password crate that
  -- do what is documented, for credentials of such a user whose user name is not too long and a query for
  -- that name that does not fail: if `authenticate` returns a user, then the table has a user of
  -- the name and the password is the one of its hash; and if `login` then succeeds for what was
  -- returned, then in a new request with that session and with the database as the authentication left
  -- it, for a configuration whose secret key or fallback keys have the key of the login, `user`
  -- returns the same user. The only other case is that the session fails to store the hash
  -- of the user under a new secret key, in place of another one: then `user` returns the error of the session.
  pub authenticate-login-user :
      (s : IsDocumented e) (config config' : ProjectConfig) (salt salt' : ℕ)
      (credentials : e.Credentials) (c : DatabaseUserCredentials) (found : Option DatabaseUser)
      (v : User) (r ra r1 : Request e)
      → users.downcast credentials ≡ some c
      → byte_len c.username ≤ max_username_length
      → users.by_username r.db c.username ≡ inr found
      → Sessions.authenticate e config (database_user_backend users p salt salt') credentials r
        ≡ (ok (some v), ra)
      → login e config v ra ≡ (ok tt, r1)
      → Memᴰ {A = SecretKey} config.secret_key (config'.secret_key ∷ config'.fallback_secret_keys)
      → ((old : DatabaseUser) × (found ≡ some old)
          × (p.verify_password c.password old.password ≡ matching))
        × Recalls s v r1.session config'.secret_key v (
            user e config'
              (database_user_backend users p salt salt')
              (record { session = r1.session; user_extension = none; db = ra.db }))
  unfolding Sessions.authenticate database_user_backend boxed
  authenticate-login-user s config config' salt salt' credentials c found v r ra r1 casts short at
        done logged m =
      let backend = database_user_backend users p salt salt' in
      let (db, call, left) =
        of_backend-eq-ok s config backend (backend.authenticate credentials) r done in
      let found_it =
        ap (λ o. authenticate_credentials users p salt salt' o r.db) (sym casts) ∙ call in
      let (old, u, i, is, matches, same, good, at_u) =
        authenticate_credentials-boxed salt salt' c r.db found short at found_it in
      let held =
        subst (λ (x : e.Db). users.by_id x i ≡ inr (some u))
          (sym (ap (λ (q : Request e). q.db) left)) (good.stored i at_u) in
      let hash_of = λ (k : SecretKey). ap (λ (w : User). w.session_auth_hash k) same in
      let (_, again) =
        login-user s config config' v v (λ k _. (users.hmac k u.password, hash_of k)) backend
          (int i) (users.hmac config.secret_key u.password) ra r1 ra.db ra.db logged
          (ap (λ (w : User). w.id) same) (hash_of config.secret_key) (hash_of config.secret_key) m
          (get_by_user_id-boxed u i ra.db at_u held
            ∙ ap (λ (w : User). (ok (some w), ra.db)) (sym same)) in
      ((old, is, matches), again)
