-- ===== src/Auth/Session/Checked.antt =====
-- Whom `user` of cot/src/auth.rs returns: nobody whom the session does not vouch for.
use flareon.Base.{
  Option, none, some, Bool, true, false, ◌⊎◌, inl, inr, List, [], ◌∷◌, ◌≡◌, refl, sym, subst,
  if◌then◌else◌, ap, ◌∙◌, arith, Bool-cases,
}
use mathlib.Core.List.{Memᴰ}
use flareon.Auth.{
  Outcome, ok, UserId, SecretKey, SessionAuthHash, User, anonymous_user, user_id_session_key,
  session_hash_session_key, Environment, IsDocumented, AuthBackend, Request, ProjectConfig,
}
use flareon.Auth.Session.{
  pure, expect, read, try_fallbacks, check_hash, session_auth_hash_valid, user, keep_valid,
  get_by_saved_id, get_user_with_saved_id, insert_or_logout, load_extension, of_backend,
}
use flareon.Auth.Session.Kept.{
  and_then-eq-ok, expect-eq-ok, read-eq-ok, logout_lem, insert_extension_lem,
}

module _ {e : Environment} (d : IsDocumented e) (config : ProjectConfig) where
  -- The session holds the hash that the user has under the secret key or a fallback key, or the
  -- user has none under the secret key.
  abbrev pub Vouches : e.Session → User → Type 0
  Vouches s u =
      (u.session_auth_hash config.secret_key ≡ none)
      ⊎ ((stored : SessionAuthHash) × (key : SecretKey) × Memᴰ {A = SecretKey} key
            (config.secret_key ∷ config.fallback_secret_keys)
          × (e.get_bytes s session_hash_session_key ≡ inr (some stored))
          × (u.session_auth_hash key ≡ some stored))

  try_fallbacks-key :
      (u : User) (new stored : SessionAuthHash) (keys : List SecretKey) (r : Request e)
      {r' : Request e}
      → try_fallbacks e config u new stored keys r ≡ (ok true, r')
      → (key : SecretKey) × Memᴰ {A = SecretKey} key keys × (u.session_auth_hash key ≡ some stored)
  unfolding try_fallbacks
  try_fallbacks-key u new stored [] r h = absurd (cc)
  try_fallbacks-key u new stored (k ∷ keys) r h =
      let (hash, q, first, rest) = and_then-eq-ok (expect (u.session_auth_hash k) r) _ h in
      let (at, _) = expect-eq-ok _ r first in
      elim (Bool-cases (e.ct_eq hash stored)) [
        | inl same ↦ (k, Memᴰ.head refl, at ∙ ap some ((d.ct_eq_iff hash stored).0 same))
        | inr differs ↦
            let (key, m, found) = try_fallbacks-key u new stored keys q (rw differs at rest) in
            (key, Memᴰ.tail m, found)
      ]

  check_hash-Vouches :
      (u : User) (o : Option SessionAuthHash) (r : Request e) {r' : Request e}
      → u.session_auth_hash config.secret_key ≡ o
      → check_hash e config u o r ≡ (ok true, r')
      → Vouches r.session u
  unfolding check_hash
  check_hash-Vouches u none r at h = inl at
  check_hash-Vouches u (some hash) r at h =
      let (found, q, first, rest) = and_then-eq-ok (read e _ r) _ h in
      let (held, _) = read-eq-ok _ r first in
      let (stored, p, second, last) = and_then-eq-ok (expect found q) _ rest in
      let (held', _) = expect-eq-ok found q second in
      elim (Bool-cases (e.ct_eq hash stored)) [
        | inl same ↦ inr (
          stored,
          config.secret_key,
          Memᴰ.head refl,
          held ∙ ap inr held',
          at ∙ ap some ((d.ct_eq_iff hash stored).0 same),
        )
        | inr differs ↦
            let (key, m, of_key) =
              try_fallbacks-key u hash stored config.fallback_secret_keys p (rw differs at last) in
            inr (stored, key, Memᴰ.tail m, held ∙ ap inr held', of_key)
      ]

  module _ (backend : AuthBackend e) where
    -- The session of a request names the user, the back end knows that user, and the session
    -- vouches for it.
    abbrev pub Recognises : Request e → User → Type 0
    Recognises r u =
        (id : UserId) × (db : e.Db) × (e.get_id r.session user_id_session_key ≡ inr (some id))
        × (backend.get_by_id id r ≡ (ok (some u), db))
        × Vouches r.session u

    pub of_backend-eq-ok :
        {A : Type 0} (call : Request e → Outcome e.SessionError e.BackendError A × e.Db)
        (r : Request e) {a : A} {q : Request e}
        → of_backend e config backend call r ≡ (ok a, q)
        → (db : e.Db) × (call r ≡ (ok a, db)) × (q ≡ record r { db = db })
    of_backend-eq-ok call r h = ((call r).1, λ i. ((h i).0, (call r).1), sym (ap (λ p. p.1) h))

    kept_user :
        (valid : Bool) (v : User) (r : Request e) {u : User} {r' : Request e}
        → pure {e = e} (if valid then some v else none) r ≡ (ok (some u), r')
        → (valid ≡ true) × (v ≡ u)
    kept_user true v r h = (refl, cc)
    kept_user false v r h = absurd (cc)

    keep_valid-Vouches :
        (o : Option User) (r : Request e) {u : User} {r' : Request e}
        → keep_valid e config backend o r ≡ (ok (some u), r')
        → (o ≡ some u) × Vouches r.session u
    unfolding keep_valid session_auth_hash_valid
    keep_valid-Vouches none r h = absurd (cc)
    keep_valid-Vouches (some v) r h =
        let (valid, q, first, rest) = and_then-eq-ok (session_auth_hash_valid e config v r) _ h in
        let (so, same) = kept_user valid v q rest in
        (
          ap some same,
          subst (Vouches r.session) same
              (check_hash-Vouches v _ r refl (first ∙ ap (λ b. (ok b, q)) so)),
        )

    get_by_saved_id-Vouches :
        (o : Option UserId) (r : Request e) {u : User} {r' : Request e}
        → get_by_saved_id e config backend o r ≡ (ok (some u), r')
        → (id : UserId) × (db : e.Db) × (o ≡ some id)
          × (backend.get_by_id id r ≡ (ok (some u), db))
          × Vouches r.session u
    unfolding get_by_saved_id
    get_by_saved_id-Vouches none r h = absurd (cc)
    get_by_saved_id-Vouches (some id) r {u} h =
        let (found, q, first, rest) =
          and_then-eq-ok (of_backend e config backend (backend.get_by_id id) r) _ h in
        let (db, known, left) = of_backend-eq-ok (backend.get_by_id id) r first in
        let (same, vouched) = keep_valid-Vouches found q rest in
        (
          id,
          db,
          refl,
          known ∙ ap (λ o. (ok o, db)) same,
          subst (λ (t : Request e). Vouches t.session u) left vouched,
        )

    get_user_with_saved_id-Recognises :
        (r : Request e) {u : User} {r' : Request e}
        → get_user_with_saved_id e config backend r ≡ (ok (some u), r')
        → Recognises r u
    unfolding get_user_with_saved_id
    get_user_with_saved_id-Recognises r {u} h =
        let (saved, q, first, rest) =
          and_then-eq-ok (read e (e.get_id r.session user_id_session_key) r) _ h in
        let (held, left) = read-eq-ok _ r first in
        let (id, db, is_id, known, vouched) = get_by_saved_id-Vouches saved q rest in
        (
          id,
          db,
          held ∙ ap inr is_id,
          subst (λ (t : Request e). backend.get_by_id id t ≡ (ok (some u), db)) (sym left) known,
          subst (λ (t : Request e). Vouches t.session u) (sym left) vouched,
        )

    insert_or_logout_lem :
        (o : Option User) (r : Request e) {r' : Request e}
        → insert_or_logout e config backend o r ≡ (ok tt, r')
        → ((u : User) × (o ≡ some u) × (r'.user_extension ≡ some u))
          ⊎ ((r'.user_extension ≡ some anonymous_user)
              × (e.get_id r'.session user_id_session_key ≡ inr none)
              × (e.get_bytes r'.session session_hash_session_key ≡ inr none))
    unfolding insert_or_logout
    insert_or_logout_lem (some u) r h = inl (u, refl, (insert_extension_lem u r h).1)
    insert_or_logout_lem none r h = inr (logout_lem d r h)

    load_extension-Recognises :
        (o : Option User) (r : Request e) {r' : Request e}
        → o ≡ none
        → load_extension e config backend o r ≡ (ok tt, r')
        → ((u : User) × Recognises r u × (r'.user_extension ≡ some u))
          ⊎ ((r'.user_extension ≡ some anonymous_user)
              × (e.get_id r'.session user_id_session_key ≡ inr none)
              × (e.get_bytes r'.session session_hash_session_key ≡ inr none))
    unfolding load_extension
    load_extension-Recognises (some u) r is_none h = absurd (cc)
    load_extension-Recognises none r {r'} is_none h =
        let (found, q, first, rest) =
          and_then-eq-ok (get_user_with_saved_id e config backend r) _ h in
        elim (insert_or_logout_lem found q rest) [
          | inl (u, same, inserted) ↦
              inl (
                u,
                get_user_with_saved_id-Recognises r (first ∙ ap (λ o. (ok o, q)) same),
                inserted,
              )
          | inr anonymous ↦ inr anonymous
        ]

    -- Where `user` returns a user for a request that has none among its extensions, either the
    -- session of the request names it by an identifier for which the back end returns it, and holds
    -- its hash under the secret key or a fallback key, unless it has none under the secret key; or it
    -- is the anonymous user, and neither identifier nor hash is left in the session. In both cases it
    -- is the user among the extensions from then on.
    pub user-Recognises :
        (r : Request e) {u : User} {r' : Request e}
        → r.user_extension ≡ none
        → user e config backend r ≡ (ok u, r')
        → (r'.user_extension ≡ some u)
          × (Recognises r u
              ⊎ ((u ≡ anonymous_user)
                  × (e.get_id r'.session user_id_session_key ≡ inr none)
                  × (e.get_bytes r'.session session_hash_session_key ≡ inr none)))
    unfolding user
    user-Recognises r {u} {r'} is_none h =
        let (_, q, first, rest) =
          and_then-eq-ok (load_extension e config backend r.user_extension r) _ h in
        let (inserted, left) = expect-eq-ok q.user_extension q rest in
        (
          ap (λ (t : Request e). t.user_extension) (sym left) ∙ inserted,
          elim (load_extension-Recognises r.user_extension r is_none first) [
            | inl (v, recognised, same) ↦
                inl (subst (Recognises r) (ground (arith, same, inserted)) recognised)
            | inr (anonymous, no_id, no_hash) ↦ inr (
              ground (arith, anonymous, inserted),
              subst (λ (t : Request e). e.get_id t.session user_id_session_key ≡ inr none) left
                  no_id,
              subst (λ (t : Request e). e.get_bytes t.session session_hash_session_key ≡ inr none)
                  left no_hash,
            )
          ],
        )
