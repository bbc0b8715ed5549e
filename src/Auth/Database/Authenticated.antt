-- ===== src/Auth/Database/Authenticated.antt =====
-- Whom `DatabaseUser::authenticate` of cot/src/auth/db.rs lets in.
pub mod Remembered
use flareon.Base.{
  ℕ, ◌≤◌, Text, Option, none, some, Bool, true, false, ◌⊎◌, inl, inr, ◌≡◌, refl, sym, subst, ap,
  ◌∙◌, ltb, ltb→lt, ◌%◌, ◌^◌, arith, Bool-cases, Option-cases,
}
use flareon.Postgres.{ℤ}
use flareon.Auth.{Outcome, ok, err, panic, user_backend, Environment}
use flareon.Auth.Passwords.{
  PasswordAuth, IsDocumentedPasswordAuth, PasswordVerificationResult, ok_obsolete, invalid,
  from_password, verify, byte_len, limited_string, Verified, matching, password_invalid, parse,
  matching_result,
}
use flareon.Auth.Database.{
  Auto, fixed, auto, DatabaseUser, DatabaseUserCredentials, Users, max_username_length,
  authenticate, authenticate_found, checked, dummy, statement,
}

-- What the back end relies on of the table: a user that a query returns has an identifier, by which
-- it is found too, and a hash that `PasswordHash::new` accepted; a user that was saved is found as it
-- was saved.
pub record IsTable {e : Environment} (users : Users e) (p : PasswordAuth) : Type 0 where
  pub found_by_id :
      (db : e.Db) (name : Text) {u : DatabaseUser}
      → users.by_username db name ≡ inr (some u)
      → (i : ℤ) × (u.id ≡ fixed i) × (users.by_id db i ≡ inr (some u))
  pub hashed :
      (db : e.Db) (name : Text) {u : DatabaseUser}
      → users.by_username db name ≡ inr (some u)
      → (obsolete : Bool) × (p.is_hash_obsolete u.password ≡ some obsolete)
  pub saved :
      (u : DatabaseUser) (i : ℤ) (db : e.Db) {u' : DatabaseUser} {db' : e.Db}
      → u.id ≡ fixed i
      → users.save u db ≡ (inr u', db')
      → (u' ≡ u) × (users.by_id db' i ≡ inr (some u))

pub from_password-generate :
    {S B : Type 0} {p : PasswordAuth} (d : IsDocumentedPasswordAuth p) (salt : ℕ) (w : Text)
    → from_password {S = S} {B = B} p salt w ≡ ok (p.generate_hash salt w)
unfolding from_password
from_password-generate d salt w = ground (arith, d.generate-short salt w)

module _ {S B : Type 0} {p : PasswordAuth} (d : IsDocumentedPasswordAuth p) (salt : ℕ)
    (h w : Text) where
  pub verify-recent :
      p.verify_password w h ≡ matching
      → p.is_hash_obsolete h ≡ some false
      → verify {S = S} {B = B} p salt h w ≡ ok PasswordVerificationResult.ok
  unfolding verify matching_result
  verify-recent matches recent = rw (matches, recent, verify)

  pub verify-obsolete :
      p.verify_password w h ≡ matching
      → p.is_hash_obsolete h ≡ some true
      → verify {S = S} {B = B} p salt h w ≡ ok (ok_obsolete (p.generate_hash salt w))
  unfolding verify matching_result
  verify-obsolete matches old =
      rw (matches, old, verify, from_password-generate {S = S} {B = B} d salt w)

  pub verify-invalid :
      p.verify_password w h ≡ password_invalid → verify {S = S} {B = B} p salt h w ≡ ok invalid
  unfolding verify
  verify-invalid differs = rw (differs, verify)

limited_string-eq-some :
    (limit : ℕ) (name : Text) → byte_len name ≤ limit → limited_string limit name ≡ some name
unfolding limited_string
limited_string-eq-some limit name h = elim (Bool-cases (ltb limit (byte_len name % 2 ^ 32))) [
  | inl over ↦ absurd (omega (arith, ltb→lt _ _ over))
  | inr fits ↦ rw fits
]

module _ {e : Environment} {users : Users e} {p : PasswordAuth} (d : IsDocumentedPasswordAuth p)
    (t : IsTable users p) where
  fixed_injective : (i j : ℤ) → fixed i ≡ fixed j → i ≡ j
  fixed_injective i j h = cc

  some_injective : (u v : DatabaseUser) → some u ≡ some v → u ≡ v
  some_injective u v h = cc

  -- The user of the table, with the hash that it had or a new one of the same password.
  pub record IsUpToDate (w : Text) (old u : DatabaseUser) (db : e.Db) : Type 0 where
    pub same_id : u.id ≡ old.id
    pub same_username : u.username ≡ old.username
    pub matches : p.verify_password w u.password ≡ matching
    pub current : p.is_hash_obsolete u.password ≡ some false
    pub stored : (i : ℤ) → u.id ≡ fixed i → users.by_id db i ≡ inr (some u)

  -- The user whose hash is obsolete is not saved with a new one: an error of the database is returned.
  abbrev pub FailsToSave :
      ℕ
      → Text
      → DatabaseUser
      → e.Db
      → Outcome e.SessionError e.BackendError (Option DatabaseUser) × e.Db
      → Type 0
  FailsToSave salt w old db result =
      (x : users.DatabaseError) × (db' : e.Db) × (p.is_hash_obsolete old.password ≡ some true)
      × (users.save (record old { password = p.generate_hash salt w }) db ≡ (inl x, db'))
      × (result ≡ (err (user_backend (users.box_database x)), db'))

  save-cases :
      (result : (users.DatabaseError ⊎ DatabaseUser) × e.Db)
      → ((x : users.DatabaseError) × (db : e.Db) × (result ≡ (inl x, db)))
        ⊎ ((u : DatabaseUser) × (db : e.Db) × (result ≡ (inr u, db)))
  save-cases (inl x, db) = inl (x, db, refl)
  save-cases (inr u, db) = inr (u, db, refl)

  found-stored :
      (db : e.Db) (name : Text) {u : DatabaseUser}
      → users.by_username db name ≡ inr (some u)
      → (i : ℤ) → u.id ≡ fixed i
      → users.by_id db i ≡ inr (some u)
  found-stored db name {u} found i at =
      let (j, at', held) = t.found_by_id db name found in
      rw (fixed_injective i j (sym at ∙ at')) held

  authenticate_found-matching :
      (salt salt' : ℕ) (w name : Text) (db : e.Db) {u : DatabaseUser}
      → users.by_username db name ≡ inr (some u)
      → p.verify_password w u.password ≡ matching
      → ((u' : DatabaseUser) × (db' : e.Db) × (authenticate_found users p salt salt' w (some u) db
            ≡ (ok (some u'), db'))
          × IsUpToDate w u u' db')
        ⊎ FailsToSave salt w u db (authenticate_found users p salt salt' w (some u) db)
  unfolding authenticate_found checked
  authenticate_found-matching salt salt' w name db {u} found matches =
      let (obsolete, hashed) = t.hashed db name found in
      let new = record u { password = p.generate_hash salt w } in
      elim (Bool-cases obsolete) [
        | inl old ↦ elim (save-cases (users.save new db)) [
          | inl (x, db', failed) ↦ inr (
            x,
            db',
            hashed ∙ ap some old,
            failed,
            rw (verify-obsolete d salt u.password w matches (hashed ∙ ap some old), failed),
          )
          | inr (u', db', done) ↦
              let (j, at, _) = t.found_by_id db name found in
              let (same, held) = t.saved new j db at done in
              inl (
                new,
                db',
                rw (verify-obsolete d salt u.password w matches (hashed ∙ ap some old), done, same),
                record {
                  same_id = refl;
                  same_username = refl;
                  matches = d.verify-generate salt w;
                  current = d.obsolete-generate salt w;
                  stored = λ i at'. rw (fixed_injective i j (sym at' ∙ at)) held;
                },
              )
        ]
        | inr recent ↦ inl (
          u,
          db,
          rw (verify-recent d salt u.password w matches (hashed ∙ ap some recent)),
          record {
            same_id = refl;
            same_username = refl;
            matches = matches;
            current = rw (hashed, recent);
            stored = found-stored db name found;
          },
        )
      ]

  Verified-cases : (v : Verified) → (v ≡ matching) ⊎ ((v ≡ password_invalid) ⊎ (v ≡ parse))
  Verified-cases matching = inl refl
  Verified-cases password_invalid = inr (inl refl)
  Verified-cases parse = inr (inr refl)

  authenticate_found-none :
      (salt salt' : ℕ) (w : Text) (db : e.Db)
      → authenticate_found users p salt salt' w none db ≡ (ok none, db)
  unfolding authenticate_found dummy
  authenticate_found-none salt salt' w db = rw (
    from_password-generate {S = e.SessionError} {B = e.BackendError} d salt w,
    verify-recent d salt' (p.generate_hash salt w) w (d.verify-generate salt w)
        (d.obsolete-generate salt w),
  )

  authenticate_found-invalid :
      (salt salt' : ℕ) (w : Text) (u : DatabaseUser) (db : e.Db)
      → p.verify_password w u.password ≡ password_invalid
      → authenticate_found users p salt salt' w (some u) db ≡ (ok none, db)
  unfolding authenticate_found checked
  authenticate_found-invalid salt salt' w u db differs =
      rw (verify-invalid d salt u.password w differs)

  authenticate-found :
      (salt salt' : ℕ) (c : DatabaseUserCredentials) (db : e.Db) {found : Option DatabaseUser}
      → byte_len c.username ≤ max_username_length
      → users.by_username db c.username ≡ inr found
      → authenticate users p salt salt' c db
        ≡ authenticate_found users p salt salt' c.password found db
  unfolding authenticate
  authenticate-found salt salt' c db short at =
      rw (limited_string-eq-some max_username_length c.username short, at)

  -- Over a table and a password crate that do what is documented, for a user name that is not too long
  -- and a query for it that does not fail: where the table has a user of the name and the password
  -- is the one of its hash, `authenticate` returns that user, whose hash then is not obsolete and
  -- still of the password, and as whom the table then holds it, unless the hash was obsolete and
  -- the user is not saved with a new one: then it returns that error of the database. In all other cases
  -- it returns no user, and leaves the database as it was. It never panics.
  pub authenticate_lem :
      (salt salt' : ℕ) (c : DatabaseUserCredentials) (db : e.Db) (found : Option DatabaseUser)
      → byte_len c.username ≤ max_username_length
      → users.by_username db c.username ≡ inr found
      → ((old : DatabaseUser) × (found ≡ some old)
          × (p.verify_password c.password old.password ≡ matching)
          × (((u : DatabaseUser) × (db' : e.Db) × (authenticate users p salt salt' c db
                  ≡ (ok (some u), db'))
                × IsUpToDate c.password old u db')
              ⊎ FailsToSave salt c.password old db (authenticate users p salt salt' c db)))
        ⊎ ((authenticate users p salt salt' c db ≡ (ok none, db))
            × ((old : DatabaseUser)
                → found ≡ some old
                → p.verify_password c.password old.password ≡ password_invalid))
  authenticate_lem salt salt' c db none short at = inr (
    authenticate-found salt salt' c db short at ∙ authenticate_found-none salt salt' c.password db,
    λ old h. cc,
  )
  authenticate_lem salt salt' c db (some old) short at =
      let same = authenticate-found salt salt' c db short at in
      elim (Verified-cases (p.verify_password c.password old.password)) [
        | inl matches ↦ inl (
          old,
          refl,
          matches,
          elim (authenticate_found-matching salt salt' c.password c.username db at matches) [
            | inl (u, db', found, good) ↦ inl (u, db', same ∙ found, good)
            | inr (x, db', was, failed, found) ↦ inr (x, db', was, failed, same ∙ found)
          ],
        )
        | inr (inl differs) ↦ inr (
          same ∙ authenticate_found-invalid salt salt' c.password old db differs,
          λ u h.
              subst
                (λ (x : DatabaseUser). p.verify_password c.password x.password ≡ password_invalid)
                (some_injective old u h) differs,
        )
        | inr (inr bad) ↦
            let (obsolete, hashed) = t.hashed db c.username at in
            absurd (cc (d.verify-parse c.password old.password bad))
      ]
