-- ===== src/Auth/Passwords.antt =====
-- `PasswordHash` of cot/src/auth.rs, over the `password_auth` crate, and `LimitedString` of
-- cot/src/db.rs.
use flareon.Base.{
  ℕ, ◌+◌, ◌%◌, ◌^◌, ◌≤◌, Text, Option, none, some, Bool, true, false, [], ◌∷◌, ltb, if◌then◌else◌,
  ◌≡◌,
}
use flareon.Auth.{Outcome, err, panic, password_hash_invalid}

-- `String::len`: the bytes of a character in UTF-8.
unfoldable pub byte_len : Text → ℕ
byte_len [] = 0
byte_len (c ∷ s) =
    (if ltb c 0x80 then 1 else if ltb c 0x800 then 2 else if ltb c 0x10000 then 3 else 4)
    + byte_len s

-- `Result<(), VerifyError>`.
pub data Verified : Type 0 where
  matching password_invalid parse : Verified

-- The crate. A hash is made with a salt; `is_hash_obsolete` is `none` where the hash does not parse.
pub record PasswordAuth : Type 0 where
  pub generate_hash : ℕ → Text → Text
  pub is_hash_obsolete : Text → Option Bool
  pub verify_password : Text → Text → Verified

abbrev pub max_password_hash_length : ℕ
max_password_hash_length = 128

-- What is documented of the crate: a hash that it makes is of its current format and is that of the
-- password, and both functions refuse the same hashes; and that it is no longer than
-- `from_password` relies on.
pub record IsDocumentedPasswordAuth (p : PasswordAuth) : Type 0 where
  pub verify-generate :
      (salt : ℕ) (w : Text) → p.verify_password w (p.generate_hash salt w) ≡ matching
  pub obsolete-generate :
      (salt : ℕ) (w : Text) → p.is_hash_obsolete (p.generate_hash salt w) ≡ some false
  pub verify-parse : (w h : Text) → p.verify_password w h ≡ parse → p.is_hash_obsolete h ≡ none
  pub generate-short :
      (salt : ℕ) (w : Text) → byte_len (p.generate_hash salt w) ≤ max_password_hash_length

pub data PasswordVerificationResult : Type 0 where
  ok invalid : PasswordVerificationResult
  ok_obsolete : Text → PasswordVerificationResult

module _ {S B : Type 0} (p : PasswordAuth) where
  unfoldable pub new : Text → Outcome S B Text
  unfolding byte_len
  new hash =
      if ltb max_password_hash_length (byte_len hash)
      then err password_hash_invalid
      else elim (p.is_hash_obsolete hash) [
        | none ↦ err password_hash_invalid
        | some _ ↦ Outcome.ok hash
      ]

  unfoldable pub from_password : ℕ → Text → Outcome S B Text
  unfolding byte_len
  from_password salt password =
      let hash = p.generate_hash salt password in
      if ltb max_password_hash_length (byte_len hash) then panic else Outcome.ok hash

  -- `PasswordVerificationResult::OkObsolete` of a new hash.
  abbrev pub obsolete_result : Outcome S B Text → Outcome S B PasswordVerificationResult
  obsolete_result (Outcome.ok hash) = Outcome.ok (ok_obsolete hash)
  obsolete_result (err x) = err x
  obsolete_result panic = panic

  unfoldable pub matching_result : ℕ → Text → Option Bool → Outcome S B PasswordVerificationResult
  unfolding from_password
  matching_result salt password none = panic
  matching_result salt password (some true) = obsolete_result (from_password salt password)
  matching_result salt password (some false) = Outcome.ok ok

  -- The salt is for a new hash in place of an obsolete one.
  unfoldable pub verify : ℕ → Text → Text → Outcome S B PasswordVerificationResult
  unfolding matching_result
  verify salt hash password = elim (p.verify_password password hash) [
    | matching ↦ matching_result salt password (p.is_hash_obsolete hash)
    | password_invalid ↦ Outcome.ok invalid
    | parse ↦ panic
  ]

-- `LimitedString::new`: `none` is its error. The length goes through `as u32`.
unfoldable pub limited_string : ℕ → Text → Option Text
unfolding byte_len
limited_string limit value = if ltb limit (byte_len value % 2 ^ 32) then none else some value
