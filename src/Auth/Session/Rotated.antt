-- ===== src/Auth/Session/Rotated.antt =====
-- A user who was logged in is found again in later requests with the session, also after the secret
-- key of cot/src/config.rs has moved to the fallback keys.
use flareon.Base.{
  none, some, Option, true, false, ◌⊎◌, inl, inr, List, [], ◌∷◌, ◌≡◌, ◌≢◌, refl, sym, ap, subst,
  ◌∙◌, Bool-cases,
}
use mathlib.Core.List.{Memᴰ}
use flareon.Auth.{
  Outcome, session_access, ok, err, UserId, SecretKey, SessionAuthHash, User, user_id_session_key,
  session_hash_session_key, Environment, IsDocumented, AuthBackend, Request, ProjectConfig,
}
use flareon.Auth.Session.{
  try_fallbacks, check_hash, session_auth_hash_valid, user, login, insert_hash, pure, ◌>>◌,
  keep_valid, get_by_saved_id, get_user_with_saved_id, insert_or_logout, load_extension, of_backend,
}
use flareon.Auth.Session.Kept.{Sum-cases, login_lem, keys_differ, or_kept}

module _ {e : Environment} (d : IsDocumented e) where
  -- A hash under every key of a list.
  abbrev pub HasHashes : User → List SecretKey → Type 0
  HasHashes u keys =
      (k : SecretKey)
      → Memᴰ {A = SecretKey} k keys
      → (h : SessionAuthHash) × (u.session_auth_hash k ≡ some h)

  module _ (u : User) (s : e.Session) where
    -- An access of a session that returned a value, and left the session with its identifier and with
    -- the hash of the user.
    abbrev Succeeds :
        {A : Type 0} → SecretKey → A → Outcome e.SessionError e.BackendError A × Request e → Type 0
    Succeeds key a result =
        (r : Request e) × (result ≡ (ok a, r))
        × (e.get_id r.session user_id_session_key ≡ e.get_id s user_id_session_key)
        × (e.get_bytes r.session session_hash_session_key ≡ inr (u.session_auth_hash key))

    -- An access that failed because the session, which holds another hash, did not store the one of
    -- the user.
    abbrev Refused :
        {A : Type 0} → SecretKey → Outcome e.SessionError e.BackendError A × Request e → Type 0
    Refused key result =
        (new : SessionAuthHash) × (x : e.SessionError) × (r : Request e) × (u.session_auth_hash key
          ≡ some new)
        × (e.get_bytes s session_hash_session_key ≢ inr (some new))
        × (e.insert_bytes s session_hash_session_key new ≡ inl x)
        × (result ≡ (err (session_access x), r))

    abbrev pub Recalls :
        {A : Type 0} → SecretKey → A → Outcome e.SessionError e.BackendError A × Request e → Type 0
    Recalls key a result = Succeeds key a result ⊎ Refused key result

  hash_injective :
      (x y : SessionAuthHash)
      → ◌≡◌ {A = e.SessionError ⊎ Option SessionAuthHash} (inr (some x)) (inr (some y))
      → x ≡ y
  hash_injective x y h = cc

  module _ (config : ProjectConfig) (u : User) where
    -- The hash of the user takes the place of another one.
    replaced :
        (new stored : SessionAuthHash) (key : SecretKey) (r : Request e)
        → u.session_auth_hash key ≡ some new
        → e.get_bytes r.session session_hash_session_key ≡ inr (some stored)
        → e.ct_eq new stored ≡ false
        → Recalls u r.session key true ((insert_hash e new >> pure true) r)
    replaced new stored key r of_key held differs =
        elim (Sum-cases (e.insert_bytes r.session session_hash_session_key new)) [
          | inl (x, failed) ↦ inr (
            new,
            x,
            r,
            of_key,
            λ same. absurd (
                cc (
                  differs,
                  (d.ct_eq_iff new stored).1 (hash_injective new stored (sym same ∙ held)),
                )),
            failed,
            rw failed,
          )
          | inr (s, inserted) ↦ inl (
            record r { session = s },
            rw inserted,
            d.get_id-insert_bytes r.session _ _ new inserted (λ h. keys_differ (sym h)),
            d.get_bytes-insert_bytes r.session _ new inserted ∙ ap inr (sym of_key),
          )
        ]

    module _ (new stored : SessionAuthHash) (secret key : SecretKey) (r : Request e)
        (of_secret : u.session_auth_hash secret ≡ some new)
        (of_key : u.session_auth_hash key ≡ some stored)
        (held : e.get_bytes r.session session_hash_session_key ≡ inr (some stored))
        (differs : e.ct_eq new stored ≡ false) where
      try_fallbacks_stores :
          (keys : List SecretKey)
          → HasHashes u keys
          → Memᴰ {A = SecretKey} key keys
          → Recalls u r.session secret true (try_fallbacks e config u new stored keys r)
      unfolding try_fallbacks
      try_fallbacks_stores [] hashes m = elim m [ ]
      try_fallbacks_stores (k ∷ keys) hashes (Memᴰ.head eq) =
          rw (ap u.session_auth_hash (sym eq) ∙ of_key, (d.ct_eq_iff stored stored).1 refl)
            (replaced new stored secret r of_secret held differs)
      try_fallbacks_stores (k ∷ keys) hashes (Memᴰ.tail m) =
          let (h, of_k) = hashes k (Memᴰ.head refl) in
          let rest = try_fallbacks_stores keys (λ j i. hashes j (Memᴰ.tail i)) m in
          elim (Bool-cases (e.ct_eq h stored)) [
            | inl same ↦ rw (of_k, same) (replaced new stored secret r of_secret held differs)
            | inr other ↦ rw (of_k, other) rest
          ]

    session_auth_hash_valid_stores :
        (stored : SessionAuthHash) (key : SecretKey) (r : Request e)
        → HasHashes u (config.secret_key ∷ config.fallback_secret_keys)
        → Memᴰ {A = SecretKey} key (config.secret_key ∷ config.fallback_secret_keys)
        → u.session_auth_hash key ≡ some stored
        → e.get_bytes r.session session_hash_session_key ≡ inr (some stored)
        → Recalls u r.session config.secret_key true (session_auth_hash_valid e config u r)
    unfolding session_auth_hash_valid check_hash
    session_auth_hash_valid_stores stored key r hashes m of_key held =
        let (new, of_secret) = hashes config.secret_key (Memᴰ.head refl) in
        elim (Bool-cases (e.ct_eq new stored)) [
          | inl same ↦ inl (
            r,
            rw (of_secret, held, same),
            refl,
            held ∙ ap inr (ap some (sym ((d.ct_eq_iff new stored).0 same)) ∙ sym of_secret),
          )
          | inr differs ↦ elim m [
            | Memᴰ.head eq ↦ absurd (
                cc (
                  differs,
                  (d.ct_eq_iff new stored).1 (
                      some_injective new stored
                        (sym of_secret ∙ ap u.session_auth_hash (sym eq) ∙ of_key)),
                ))
            | Memᴰ.tail later ↦
                subst (Recalls u r.session config.secret_key true)
                  (sym (rw (of_secret, held, differs)))
                  (try_fallbacks_stores new stored config.secret_key key r of_secret of_key held
                    differs config.fallback_secret_keys (λ k i. hashes k (Memᴰ.tail i)) later)
          ]
        ]
      where
        some_injective : (x y : SessionAuthHash) → some x ≡ some y → x ≡ y
        some_injective x y h = cc

    module _ (backend : AuthBackend e) where
      -- What `user` does for a request whose session names a user and holds a hash of that user.
      user_stores :
          (id : UserId) (stored : SessionAuthHash) (key : SecretKey) (s : e.Session) (db db' : e.Db)
          → HasHashes u (config.secret_key ∷ config.fallback_secret_keys)
          → e.get_id s user_id_session_key ≡ inr (some id)
          → e.get_bytes s session_hash_session_key ≡ inr (some stored)
          → Memᴰ {A = SecretKey} key (config.secret_key ∷ config.fallback_secret_keys)
          → u.session_auth_hash key ≡ some stored
          → backend.get_by_id id (record { session = s; user_extension = none; db = db })
            ≡ (ok (some u), db')
          → Recalls u s config.secret_key u
              (user e config backend (record { session = s; user_extension = none; db = db }))
      unfolding user load_extension get_user_with_saved_id get_by_saved_id keep_valid
          insert_or_logout
      user_stores id stored key s db db' hashes named held m at known =
          elim (session_auth_hash_valid_stores stored key
            (record { session = s; user_extension = none; db = db' }) hashes m at held) [
              | inl (r, valid, same_id, hash) ↦ inl (
                record r { user_extension = some u },
                rw (named, known, valid, of_backend),
                same_id,
                hash,
              )
              | inr (new, x, r, of_key, other, failed, refused) ↦
                  inr (new, x, r, of_key, other, failed, rw (named, known, refused, of_backend))
            ]

module _ {e : Environment} (d : IsDocumented e) where
  -- If `login` succeeds for a user with an identifier and a hash under the secret key, take a new
  -- request with that session, any configuration whose secret key or fallback keys have that key, and
  -- any back end that returns for the identifier, in this request, a user with the same hash under that
  -- key and with a hash under every key of the configuration. Then `user` returns that user, and leaves
  -- the session with the same identifier and with the hash of the user under the secret key of the
  -- configuration. The only other case is that the session held another hash than this one and fails
  -- to store this one: then `user` returns the error of the session.
  pub login-user :
      (config config' : ProjectConfig) (u u' : User)
      (hashes : HasHashes d u' (config'.secret_key ∷ config'.fallback_secret_keys))
      (backend : AuthBackend e) (id : UserId) (hash : SessionAuthHash) (r r1 : Request e)
      (db db' : e.Db)
      → login e config u r ≡ (ok tt, r1)
      → u.id ≡ some id
      → u.session_auth_hash config.secret_key ≡ some hash
      → u'.session_auth_hash config.secret_key ≡ some hash
      → Memᴰ {A = SecretKey} config.secret_key (config'.secret_key ∷ config'.fallback_secret_keys)
      → backend.get_by_id id (record { session = r1.session; user_extension = none; db = db })
        ≡ (ok (some u'), db')
      → (e.get_id r1.session user_id_session_key ≡ inr (some id))
        × Recalls d u' r1.session config'.secret_key u' (
            user e config' backend
              (record { session = r1.session; user_extension = none; db = db }))
  login-user config config' u u' hashes backend id hash r r1 db db' done at of_u of_u' m known =
      let (_, ids, held) = login_lem d config u r done in
      let named = ids ∙ ap (λ o. or_kept d o (e.get_id r.session user_id_session_key)) at in
      (
        named,
        user_stores d config' u' backend id hash config.secret_key r1.session db db' hashes named
            (held ∙ ap (λ o. or_kept d o (e.get_bytes r.session session_hash_session_key)) of_u) m
            of_u' known,
      )

  -- Let `login` succeed for a user with an identifier and a hash under the secret key, and then, in the
  -- request that it leaves, for a user that has no identifier and no hash under it. Take a new request
  -- with that session, and a back end that returns for the identifier, in this request, the first
  -- user. Then the request of the second login has the second user as its user, but `user` in the new
  -- request returns the first one.
  pub login-login-user :
      (config : ProjectConfig) (u w : User) (backend : AuthBackend e) (id : UserId)
      (hash : SessionAuthHash) (r r1 r2 : Request e) (db db' : e.Db)
      → login e config u r ≡ (ok tt, r1)
      → login e config w r1 ≡ (ok tt, r2)
      → u.id ≡ some id
      → u.session_auth_hash config.secret_key ≡ some hash
      → w.id ≡ none
      → w.session_auth_hash config.secret_key ≡ none
      → backend.get_by_id id (record { session = r2.session; user_extension = none; db = db })
        ≡ (ok (some u), db')
      → (r2.user_extension ≡ some w)
        × ((r3 : Request e) × (user e config backend
                (record { session = r2.session; user_extension = none; db = db })
              ≡ (ok u, r3)))
  unfolding user load_extension get_user_with_saved_id get_by_saved_id keep_valid insert_or_logout
      session_auth_hash_valid check_hash
  login-login-user config u w backend id hash r r1 r2 db db' done done' at of_u no_id no_hash
        known =
      let (_, ids, held) = login_lem d config u r done in
      let (shown, ids', held') = login_lem d config w r1 done' in
      let named =
        (ids' ∙ ap (λ o. or_kept d o (e.get_id r1.session user_id_session_key)) no_id)
        ∙ (ids ∙ ap (λ o. or_kept d o (e.get_id r.session user_id_session_key)) at) in
      let hashed =
        (held' ∙ ap (λ o. or_kept d o (e.get_bytes r1.session session_hash_session_key)) no_hash)
        ∙ (held ∙ ap (λ o. or_kept d o (e.get_bytes r.session session_hash_session_key)) of_u) in
      (
        shown,
        (
          record { session = r2.session; user_extension = some u; db = db' },
          rw (named, known, of_u, hashed, (d.ct_eq_iff hash hash).1 refl, of_backend),
        ),
      )
