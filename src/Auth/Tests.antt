-- ===== src/Auth/Tests.antt =====
-- A session of two maps, a table of one user, a checksum in place of a password hash, and the theorems
-- at them.
use flareon.Base.{
  ℕ, ◌+◌, ◌%◌, ◌≤◌, Text, codes, text_eq, text_eq_refl, text_eq_iff, Option, none, some, Bool, true,
  false, ◌⊎◌, inr, [], ◌∷◌, ◌++◌, ◌≡◌, ◌≢◌, refl, sym, ap, subst, ◌∙◌, if◌then◌else◌, ◌==◌, arith,
}
use mathlib.Core.List.{Memᴰ}
use flareon.Postgres.{ℤ, pos, negsuc}
use flareon.Auth.{
  ok, UserId, int, User, anonymous_user, user_id_session_key, session_hash_session_key, Environment,
  IsDocumented, AuthBackend, Request, ProjectConfig,
}
use flareon.Auth.Session.{login, user, logout}
use flareon.Auth.Session as Sessions
use flareon.Auth.Session.Checked.{user-Recognises, Recognises}
use flareon.Auth.Session.Rotated.{Recalls, login-user, login-login-user}
use flareon.Auth.Passwords
use flareon.Auth.Passwords.{
  PasswordAuth, IsDocumentedPasswordAuth, Verified, matching, password_invalid, parse, byte_len,
}
use flareon.Auth.Database.{
  Auto, fixed, auto, DatabaseUser, DatabaseUserCredentials, Users, authenticate,
  database_user_backend,
}
use flareon.Auth.Database.Authenticated.{IsTable, IsUpToDate, FailsToSave, authenticate_lem}
use flareon.Auth.Database.Authenticated.Remembered.{authenticate-login-user}

abbrev Session : Type 0
Session = (Text → Option UserId) × (Text → Option Text)

abbrev update : {A : Type 0} → (Text → Option A) → Text → Option A → Text → Option A
update f k v j = if text_eq k j then v else f j

-- A table of one row.
abbrev Row : Type 0
Row = ℤ × Text × Text

abbrev memory : Environment
memory = record {
  Session = Session;
  SessionError = ℕ;
  BackendError = ℕ;
  Db = Row;
  Credentials = DatabaseUserCredentials;
  get_id = λ s k. inr (s.0 k);
  get_bytes = λ s k. inr (s.1 k);
  insert_id = λ s k id. inr (update s.0 k (some id), s.1);
  insert_bytes = λ s k b. inr (s.0, update s.1 k (some b));
  remove_value = λ s k. inr (update s.0 k none, update s.1 k none);
  ct_eq = text_eq;
}

inr_injective : {s t : Session} → ◌≡◌ {A = ℕ ⊎ Session} (inr s) (inr t) → s ≡ t
inr_injective h = cc

update_self : {A : Type 0} (f : Text → Option A) (k : Text) (v : Option A) → update f k v k ≡ v
update_self f k v = rw (text_eq_refl k)

update_ne :
    {A : Type 0} (f : Text → Option A) (k j : Text) (v : Option A) → k ≢ j → update f k v j ≡ f j
update_ne f k j v ne = ground (arith, text_eq_iff k j)

memory-IsDocumented : IsDocumented memory
memory-IsDocumented = record {
  get_id-insert_id = λ s k id h.
      subst (λ (t : Session). ◌≡◌ {A = ℕ ⊎ Option UserId} (inr (t.0 k)) (inr (some id)))
        (inr_injective h) (ap inr (update_self s.0 k (some id)));
  get_bytes-insert_id = λ s k j id h ne.
      subst (λ (t : Session). ◌≡◌ {A = ℕ ⊎ Option Text} (inr (t.1 j)) (inr (s.1 j)))
        (inr_injective h) refl;
  get_bytes-insert_bytes = λ s k b h.
      subst (λ (t : Session). ◌≡◌ {A = ℕ ⊎ Option Text} (inr (t.1 k)) (inr (some b)))
        (inr_injective h) (ap inr (update_self s.1 k (some b)));
  get_id-insert_bytes = λ s k j b h ne.
      subst (λ (t : Session). ◌≡◌ {A = ℕ ⊎ Option UserId} (inr (t.0 j)) (inr (s.0 j)))
        (inr_injective h) refl;
  get_id-remove_value = λ s k h.
      subst (λ (t : Session). ◌≡◌ {A = ℕ ⊎ Option UserId} (inr (t.0 k)) (inr none))
        (inr_injective h) (ap inr (update_self s.0 k none));
  get_id-remove_value_ne = λ s k j h ne.
      subst (λ (t : Session). ◌≡◌ {A = ℕ ⊎ Option UserId} (inr (t.0 j)) (inr (s.0 j)))
        (inr_injective h) (ap inr (update_ne s.0 k j none ne));
  get_bytes-remove_value = λ s k h.
      subst (λ (t : Session). ◌≡◌ {A = ℕ ⊎ Option Text} (inr (t.1 k)) (inr none)) (inr_injective h)
        (ap inr (update_self s.1 k none));
  ct_eq_iff = text_eq_iff;
}

abbrev total : Text → ℕ
total [] = 0
total (c ∷ s) = c + total s

-- A checksum with the number of its format, of which 1 is the current one.
abbrev checksums : PasswordAuth
checksums = record {
  generate_hash = λ salt w. 1 ∷ total w % 128 ∷ [];
  is_hash_obsolete = λ h. elim h [ [] ↦ some true | (v ∷ _) ↦ some (v == 0) ];
  verify_password = λ w h.
      if text_eq h (1 ∷ total w % 128 ∷ [])
      then matching
      else if text_eq h (0 ∷ total w % 128 ∷ [])
      then matching
      else password_invalid;
}

short_hash : (salt : ℕ) (w : Text) → byte_len (checksums.generate_hash salt w) ≤ 128
unfolding byte_len
short_hash salt w = ground arith

never_parse : (w h : Text) → checksums.verify_password w h ≢ parse
never_parse w h = ground arith

checksums-IsDocumented : IsDocumentedPasswordAuth checksums
checksums-IsDocumented = record {
  verify-generate = λ salt w. rw (text_eq_refl (checksums.generate_hash salt w));
  obsolete-generate = λ salt w. refl;
  verify-parse = λ w h is. absurd (never_parse w h is);
  generate-short = short_hash;
}

abbrev int_eq : ℤ → ℤ → Bool
int_eq (pos m) (pos n) = m == n
int_eq (negsuc m) (negsuc n) = m == n
int_eq _ _ = false

int_eq_refl : (i : ℤ) → int_eq i i ≡ true
int_eq_refl (pos n) = ground arith
int_eq_refl (negsuc n) = ground arith

abbrev row_user : Row → DatabaseUser
row_user row = record { id = fixed row.0; username = row.1; password = row.2 }

abbrev save_row : DatabaseUser → Auto ℤ → Row → Row
save_row u (fixed i) row = (i, u.username, u.password)
save_row u auto row = row

abbrev one_row : Users memory
one_row = record {
  DatabaseError = ℕ;
  box_create = λ _. 0;
  box_database = λ x. x;
  downcast = some;
  by_id = λ row i. inr (if int_eq row.0 i then some (row_user row) else none);
  by_username = λ row name. inr (if text_eq row.1 name then some (row_user row) else none);
  insert = λ u row. (inr u, row);
  save = λ u row. (inr u, save_row u u.id row);
  hmac = λ key message. key ++ message;
}

row_found :
    (row : Row) (b : Bool) {u : DatabaseUser}
    → ◌≡◌ {A = ℕ ⊎ Option DatabaseUser}
        (inr (if b then some (row_user row) else none))
        (inr (some u))
    → row_user row ≡ u
row_found row true h = cc
row_found row false h = absurd (cc)

formatted : (h : Text) → (obsolete : Bool) × (checksums.is_hash_obsolete h ≡ some obsolete)
formatted [] = (true, refl)
formatted (v ∷ _) = (v == 0, refl)

row_saved :
    (u : DatabaseUser) (i : ℤ) (row : Row) {u' : DatabaseUser} {row' : Row}
    → u.id ≡ fixed i
    → one_row.save u row ≡ (inr u', row')
    → (u' ≡ u) × (one_row.by_id row' i ≡ inr (some u))
row_saved u i row {u'} {row'} at h =
    let same : row' ≡ (i, u.username, u.password) =
      sym (ap (λ q. q.1) h) ∙ ap (λ a. save_row u a row) at in
    (
      cc,
      subst (λ (t : Row). one_row.by_id t i ≡ inr (some u)) (sym same)
          (rw (int_eq_refl i) (ap (λ a. inr (some (record u { id = a }))) (sym at))),
    )

one_row-IsTable : IsTable one_row checksums
one_row-IsTable = record {
  found_by_id = λ row name h.
      let same = row_found row (text_eq row.1 name) h in
      (
        row.0,
        ap (λ (u : DatabaseUser). u.id) (sym same),
        rw (int_eq_refl row.0) (ap inr (ap some same)),
      );
  hashed = λ row name {u} h. formatted u.password;
  saved = row_saved;
}

abbrev admin_row : Row
admin_row = (pos 1, codes "admin", 0 ∷ total (codes "secret") % 128 ∷ [])

abbrev admin_credentials : DatabaseUserCredentials
admin_credentials = record { username = codes "admin"; password = codes "secret" }

authenticate_lem_example :
    ((old : DatabaseUser) × (some (row_user admin_row) ≡ some old)
      × (checksums.verify_password (codes "secret") old.password ≡ matching)
      × (((u : DatabaseUser) × (row : Row) × (authenticate one_row checksums 7 8 admin_credentials
                admin_row
              ≡ (ok (some u), row))
            × IsUpToDate checksums-IsDocumented one_row-IsTable (codes "secret") old u row)
          ⊎ FailsToSave checksums-IsDocumented one_row-IsTable 7
              (codes "secret")
              old
              admin_row
              (authenticate one_row checksums 7 8 admin_credentials admin_row)))
    ⊎ ((authenticate one_row checksums 7 8 admin_credentials admin_row ≡ (ok none, admin_row))
        × ((old : DatabaseUser)
            → some (row_user admin_row) ≡ some old
            → checksums.verify_password (codes "secret") old.password ≡ password_invalid))
unfolding byte_len
authenticate_lem_example =
    authenticate_lem checksums-IsDocumented one_row-IsTable 7 8 admin_credentials admin_row
      (some (row_user admin_row)) (omega arith) refl

abbrev old_key : ProjectConfig
old_key = record { secret_key = codes "old"; fallback_secret_keys = [] }

abbrev new_key : ProjectConfig
new_key = record { secret_key = codes "new"; fallback_secret_keys = codes "old" ∷ [] }

abbrev empty_session : Session
empty_session = (λ _. none, λ _. none)

abbrev first_request : Request memory
first_request = record { session = empty_session; user_extension = none; db = admin_row }

-- The user that the first request authenticates, and the two requests of the login.
abbrev rehashed_row : Row
rehashed_row = (pos 1, codes "admin", 1 ∷ total (codes "secret") % 128 ∷ [])

abbrev admin : User
admin = record {
  id = some (int (pos 1));
  username = some (codes "admin");
  is_active = true;
  is_authenticated = true;
  session_auth_hash = λ k. some (k ++ rehashed_row.2);
}

abbrev authenticated_request : Request memory
authenticated_request = record first_request { db = rehashed_row }

abbrev admin_hash : Text
admin_hash = codes "old" ++ rehashed_row.2

abbrev logged_in : Request memory
logged_in = record {
  session = (
    update empty_session.0 user_id_session_key (some (int (pos 1))),
    update empty_session.1 session_hash_session_key (some admin_hash),
  );
  user_extension = some admin;
  db = rehashed_row;
}

login-admin : login memory old_key admin authenticated_request ≡ (ok tt, logged_in)
unfolding login
login-admin = refl

authenticate-login-user_example :
    ((old : DatabaseUser) × (some (row_user admin_row) ≡ some old)
      × (checksums.verify_password (codes "secret") old.password ≡ matching))
    × Recalls memory-IsDocumented admin logged_in.session new_key.secret_key admin (
        user memory new_key
          (database_user_backend one_row checksums 7 8)
          (record { session = logged_in.session; user_extension = none; db = rehashed_row }))
unfolding byte_len Sessions.authenticate database_user_backend Passwords.limited_string
    Passwords.verify
authenticate-login-user_example =
    authenticate-login-user checksums-IsDocumented one_row-IsTable memory-IsDocumented old_key
      new_key 7 8 admin_credentials admin_credentials (some (row_user admin_row)) admin
      first_request authenticated_request logged_in refl (omega arith) refl refl login-admin
      (Memᴰ.tail (Memᴰ.head refl))

-- A back end that knows `admin`, by any identifier.
abbrev knows_admin : AuthBackend memory
knows_admin = record {
  authenticate = λ _ r. (ok none, r.db);
  get_by_id = λ _ r. (ok (some admin), r.db);
}

abbrev later_request : Request memory
later_request = record { session = logged_in.session; user_extension = none; db = rehashed_row }

-- The request after the hash was stored anew.
abbrev later_known : Request memory
later_known = record {
  session = (
    logged_in.session.0,
    update logged_in.session.1 session_hash_session_key (some (codes "new" ++ rehashed_row.2)),
  );
  user_extension = some admin;
  db = rehashed_row;
}

admin_again : user memory new_key knows_admin later_request ≡ (ok admin, later_known)
unfolding user
admin_again = refl

user-Recognises_example :
    (later_known.user_extension ≡ some admin)
    × (Recognises memory-IsDocumented new_key knows_admin later_request admin
        ⊎ ((admin ≡ anonymous_user)
            × (memory.get_id later_known.session user_id_session_key ≡ inr none)
            × (memory.get_bytes later_known.session session_hash_session_key ≡ inr none)))
user-Recognises_example =
    user-Recognises memory-IsDocumented new_key knows_admin later_request refl admin_again

login-user_example :
    (memory.get_id logged_in.session user_id_session_key ≡ inr (some (int (pos 1))))
    × Recalls memory-IsDocumented admin logged_in.session new_key.secret_key admin (
        user memory new_key knows_admin
          (record { session = logged_in.session; user_extension = none; db = rehashed_row }))
login-user_example =
    login-user memory-IsDocumented old_key new_key admin admin (λ k _. (k ++ rehashed_row.2, refl))
      knows_admin (int (pos 1)) admin_hash authenticated_request logged_in rehashed_row rehashed_row
      login-admin refl refl refl (Memᴰ.tail (Memᴰ.head refl)) refl

login-anonymous_user :
    login memory old_key anonymous_user logged_in
    ≡ (ok tt, record logged_in { user_extension = some anonymous_user })
unfolding login
login-anonymous_user = refl

login-login-user_example :
    (some anonymous_user ≡ some anonymous_user)
    × ((r3 : Request memory) × (user memory old_key knows_admin
            (record { session = logged_in.session; user_extension = none; db = rehashed_row })
          ≡ (ok admin, r3)))
login-login-user_example =
    login-login-user memory-IsDocumented old_key admin anonymous_user knows_admin (int (pos 1))
      admin_hash authenticated_request logged_in
      (record logged_in { user_extension = some anonymous_user }) rehashed_row rehashed_row
      login-admin login-anonymous_user refl refl refl refl refl
