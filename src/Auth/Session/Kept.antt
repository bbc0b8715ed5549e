-- ===== src/Auth/Session/Kept.antt =====
-- Steps of `AuthRequestExt` that succeeded, taken apart.
use flareon.Base.{Text-Eq, Option, none, some, ◌⊎◌, inl, inr, ◌≡◌, ◌≢◌, refl, sym, ap, ◌∙◌, arith}
use flareon.Auth.{
  Outcome, ok, err, panic, UserId, SessionAuthHash, User, anonymous_user, user_id_session_key,
  session_hash_session_key, Environment, IsDocumented, Request, ProjectConfig,
}
use flareon.Auth.Session.{
  M, and_then, expect, read, write, logout, login, insert_some_id, insert_some_hash,
  insert_extension,
}

pub and_then-eq-ok :
    {e : Environment} {A B : Type 0} (p : Outcome e.SessionError e.BackendError A × Request e)
    (f : A → M e B) {b : B} {r : Request e}
    → and_then p f ≡ (ok b, r)
    → (a : A) × (q : Request e) × (p ≡ (ok a, q)) × (f a q ≡ (ok b, r))
and_then-eq-ok (ok a, q) f h = (a, q, refl, h)
and_then-eq-ok (err x, q) f h = cc
and_then-eq-ok (panic, q) f h = cc

pub expect-eq-ok :
    {e : Environment} {A : Type 0} (o : Option A) (r : Request e) {a : A} {r' : Request e}
    → expect o r ≡ (ok a, r')
    → (o ≡ some a) × (r ≡ r')
expect-eq-ok none r h = cc
expect-eq-ok (some a) r h = (cc, cc)

module _ {e : Environment} where
  pub read-eq-ok :
      {A : Type 0} (x : e.SessionError ⊎ A) (r : Request e) {a : A} {r' : Request e}
      → read e x r ≡ (ok a, r')
      → (x ≡ inr a) × (r ≡ r')
  read-eq-ok (inl x) r h = cc
  read-eq-ok (inr a) r h = (cc, cc)

  pub write-eq-ok :
      (x : e.SessionError ⊎ e.Session) (r : Request e) {r' : Request e}
      → write e x r ≡ (ok tt, r')
      → (s : e.Session) × (x ≡ inr s) × (r' ≡ record r { session = s })
  write-eq-ok (inl x) r h = cc
  write-eq-ok (inr s) r h = (s, refl, cc)

pub insert_extension_lem :
    {e : Environment} (u : User) (r : Request e) {r' : Request e}
    → insert_extension e u r ≡ (ok tt, r')
    → (r'.session ≡ r.session) × (r'.user_extension ≡ some u)
insert_extension_lem u r h = (cc, cc)

pub Sum-cases : {A B : Type 0} (x : A ⊎ B) → ((a : A) × (x ≡ inl a)) ⊎ ((b : B) × (x ≡ inr b))
Sum-cases (inl a) = inl (a, refl)
Sum-cases (inr b) = inr (b, refl)

pub keys_differ : user_id_session_key ≢ session_hash_session_key
keys_differ h = ground arith

module _ {e : Environment} (d : IsDocumented e) where
  -- What a request is after it was logged out.
  pub logout_lem :
      (r : Request e) {r' : Request e}
      → logout e r ≡ (ok tt, r')
      → (r'.user_extension ≡ some anonymous_user)
        × (e.get_id r'.session user_id_session_key ≡ inr none)
        × (e.get_bytes r'.session session_hash_session_key ≡ inr none)
  unfolding logout
  logout_lem r h = elim (Sum-cases (e.remove_value r.session user_id_session_key)) [
    | inl (x, p) ↦ absurd (ground arith)
    | inr (s, p) ↦ elim (Sum-cases (e.remove_value s session_hash_session_key)) [
      | inl (x, q) ↦ absurd (ground arith)
      | inr (t, q) ↦ (
        ground arith,
        ground (
          arith,
          d.get_id-remove_value r.session _ p,
          d.get_id-remove_value_ne s _ _ q (λ h. keys_differ (sym h)),
        ),
        ground (arith, d.get_bytes-remove_value s _ q),
      )
    ]
  ]

  -- What an access returns after a value, if there is one, was inserted.
  abbrev pub or_kept :
      {A : Type 0} → Option A → e.SessionError ⊎ Option A → e.SessionError ⊎ Option A
  or_kept none kept = kept
  or_kept (some a) kept = inr (some a)

  pub insert_some_id_lem :
      (o : Option UserId) (r : Request e) {r' : Request e}
      → insert_some_id e o r ≡ (ok tt, r')
      → (e.get_id r'.session user_id_session_key
          ≡ or_kept o (e.get_id r.session user_id_session_key))
        × (e.get_bytes r'.session session_hash_session_key
            ≡ e.get_bytes r.session session_hash_session_key)
  insert_some_id_lem none r h = ground arith
  insert_some_id_lem (some id) r h =
      elim (Sum-cases (e.insert_id r.session user_id_session_key id)) [
        | inl (x, p) ↦ absurd (ground arith)
        | inr (s, p) ↦ (
          ground (arith, d.get_id-insert_id r.session _ id p),
          ground (arith, d.get_bytes-insert_id r.session _ _ id p keys_differ),
        )
      ]

  pub insert_some_hash_lem :
      (o : Option SessionAuthHash) (r : Request e) {r' : Request e}
      → insert_some_hash e o r ≡ (ok tt, r')
      → (e.get_id r'.session user_id_session_key ≡ e.get_id r.session user_id_session_key)
        × (e.get_bytes r'.session session_hash_session_key
            ≡ or_kept o (e.get_bytes r.session session_hash_session_key))
  insert_some_hash_lem none r h = ground arith
  insert_some_hash_lem (some b) r h =
      elim (Sum-cases (e.insert_bytes r.session session_hash_session_key b)) [
        | inl (x, p) ↦ absurd (ground arith)
        | inr (s, p) ↦ (
          ground (arith, d.get_id-insert_bytes r.session _ _ b p (λ h. keys_differ (sym h))),
          ground (arith, d.get_bytes-insert_bytes r.session _ b p),
        )
      ]

  module _ (config : ProjectConfig) where
    pub login_lem :
        (u : User) (r : Request e) {r' : Request e}
        → login e config u r ≡ (ok tt, r')
        → (r'.user_extension ≡ some u)
          × (e.get_id r'.session user_id_session_key
              ≡ or_kept u.id (e.get_id r.session user_id_session_key))
          × (e.get_bytes r'.session session_hash_session_key
              ≡ or_kept
                  (u.session_auth_hash config.secret_key)
                  (e.get_bytes r.session session_hash_session_key))
    unfolding login
    login_lem u r {r'} h =
        let (_, q, first, rest) = and_then-eq-ok (insert_some_id e u.id r) _ h in
        let (_, p, second, last) = and_then-eq-ok (insert_some_hash e _ q) _ rest in
        let (ids, hashes) = insert_some_id_lem u.id r first in
        let (ids', hashes') =
          insert_some_hash_lem (u.session_auth_hash config.secret_key) q second in
        let (same, stored) = insert_extension_lem u p last in
        (stored, rw same (ids' ∙ ids), rw same (hashes' ∙ ap (or_kept _) hashes))
