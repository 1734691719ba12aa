-- ===== src/Operations/Mfa.antt =====
-- apps/operations/mfa.py: enrolment, the challenge and the pending state, over the operator accounts
-- of apps/operations/models.py. Encryption, password hashing and pyotp are parameters; random values
-- are arguments.
use trend_engine_backend.Base.{
  ℕ, ◌-◌, ◌≡◌, Bool, true, false, ◌&&◌, not, Option, none, some, List, [], ◌∷◌, ◌++◌, filter, find?,
  update_where, count_of, length, suc, ◌+◌, ltb, ◌==◌, is_some, if◌then◌else◌, Text, is_empty,
  Result, ok, err, ◌>>=◌,
}
use trend_engine_backend.Base.Int.{ℤ, pos}
use trend_engine_backend.Operations.Totp.{Generator, verify, normalise_recovery_code}

-- `OperatorUser`, with the hash of its password.
pub record OperatorUser : Type 0 where
  pub pk : ℕ
  pub email : Text
  pub password : Text
  pub is_active : Bool
  pub mfa_enabled : Bool
  pub totp_secret : Text
  pub totp_confirmed_at : Option ℕ
  pub totp_last_counter : ℤ

-- `OperatorUser.mfa_ready`
abbrev pub mfa_ready : OperatorUser → Bool
mfa_ready u = u.mfa_enabled && not (is_empty u.totp_secret)

-- `RecoveryCode`
pub record RecoveryCode : Type 0 where
  pub pk : ℕ
  pub operator_id : ℕ
  pub code_hash : Text
  pub used_at : Option ℕ

-- What `_audit` is told.
pub data MfaAudit : Type 0 where
  enrolled : MfaAudit
  recovery_code_used : (remaining : ℕ) → MfaAudit
  second_factor_reset : (actor : Text) → MfaAudit

pub record Accounts : Type 0 where
  pub users : List OperatorUser
  pub codes : List RecoveryCode
  pub next_code : ℕ
  pub audit : List (ℕ × MfaAudit)

-- `MfaError`, and the `CredentialUnreadable` of a changed encryption key.
pub data MfaFailure : Type 0 where
  mfa_error credential_unreadable : MfaFailure

-- Code that the repository calls: pyotp, the Fernet helper and the password hasher.
pub record Crypto : Type 0 where
  pub generate : Generator
  pub encrypt : Text → Text
  pub decrypt : Text → Option Text
  pub check_password : Text → Text → Bool
  pub make_password : Text → Text
  pub decrypt-encrypt : (s : Text) → decrypt (encrypt s) ≡ some s

-- `user.save(update_fields=[...])`: the named columns of the stored row.
abbrev pub save_user : ℕ → (OperatorUser → OperatorUser) → Accounts → Accounts
save_user pk change a = record a { users = update_where (λ v. v.pk == pk) change a.users }

abbrev pub audit_mfa : ℕ → MfaAudit → Accounts → Accounts
audit_mfa pk what a = record a { audit = a.audit ++ (pk, what) ∷ [] }

abbrev pub is_unused_of : ℕ → RecoveryCode → Bool
is_unused_of pk c = (c.operator_id == pk) && not (is_some c.used_at)

abbrev pub unused : ℕ → Accounts → List RecoveryCode
unused pk a = filter (is_unused_of pk) a.codes

abbrev pub mark_used : ℕ → ℕ → Accounts → Accounts
mark_used code now a = record a {
  codes =
      update_where (λ (c : RecoveryCode). c.pk == code) (λ c. record c { used_at = some now })
        a.codes;
}

module _ (crypto : Crypto) where
  open crypto use {generate, encrypt, decrypt, check_password, make_password}

  abbrev readable : Option Text → Result MfaFailure Text
  readable none = err credential_unreadable
  readable (some secret) = ok secret

  -- `totp.decrypt_secret`
  abbrev pub decrypt_secret : Text → Result MfaFailure Text
  decrypt_secret [] = ok []
  decrypt_secret (c ∷ cs) = readable (decrypt (c ∷ cs))

  -- `begin_enrolment`, with the fresh secret.
  unfoldable pub begin_enrolment : OperatorUser → Text → Accounts → Accounts
  begin_enrolment user secret a =
      save_user user.pk
        (λ v. record v {
          totp_secret = encrypt secret;
          mfa_enabled = false;
          totp_confirmed_at = none;
          totp_last_counter = pos 0;
        })
        a

  abbrev new_codes : ℕ → ℕ → List Text → List RecoveryCode
  new_codes operator pk [] = []
  new_codes operator pk (code ∷ codes) =
      record {
        pk = pk;
        operator_id = operator;
        code_hash = make_password (normalise_recovery_code code);
        used_at = none;
      }
      ∷ new_codes operator (suc pk) codes

  -- `_issue_recovery_codes`, with the codes that `new_recovery_codes` draws.
  abbrev pub issue_recovery_codes : OperatorUser → List Text → Accounts → Accounts
  issue_recovery_codes user codes a = record a {
    codes =
        filter (λ (c : RecoveryCode). not (c.operator_id == user.pk)) a.codes
        ++ new_codes user.pk a.next_code codes;
    next_code = a.next_code + length codes;
  }

  abbrev enrol : OperatorUser → ℕ → List Text → Accounts → Option ℤ → Result MfaFailure Accounts
  enrol user now codes a none = err mfa_error
  enrol user now codes a (some counter) =
      let saved =
        save_user user.pk
          (λ v. record v {
            mfa_enabled = true;
            totp_confirmed_at = some now;
            totp_last_counter = counter;
          })
          a in
      ok (audit_mfa user.pk enrolled (issue_recovery_codes user codes saved))

  -- `confirm_enrolment`
  unfoldable pub confirm_enrolment :
      OperatorUser → Text → ℕ → List Text → Accounts → Result MfaFailure Accounts
  confirm_enrolment user code now codes a = decrypt_secret user.totp_secret >>= λ secret.
      if is_empty secret
      then err mfa_error
      else enrol user now codes a (verify generate secret code user.totp_last_counter now)

  abbrev spend : OperatorUser → ℕ → Accounts → Option RecoveryCode → Bool × Accounts
  spend user now a none = (false, a)
  spend user now a (some c) =
      let a' = mark_used c.pk now a in
      (true, audit_mfa user.pk (recovery_code_used (count_of (is_unused_of user.pk) a'.codes)) a')

  -- `_consume_recovery_code`
  unfoldable pub consume_recovery_code : OperatorUser → Text → ℕ → Accounts → Bool × Accounts
  consume_recovery_code user code now a =
      if is_empty (normalise_recovery_code code)
      then (false, a)
      else spend user now a (
          find? (λ (c : RecoveryCode). check_password (normalise_recovery_code code) c.code_hash)
            (unused user.pk a))

  abbrev accept_counter : OperatorUser → Text → ℕ → Accounts → Option ℤ → Bool × Accounts
  accept_counter user code now a none = consume_recovery_code user code now a
  accept_counter user code now a (some counter) =
      (true, save_user user.pk (λ v. record v { totp_last_counter = counter }) a)

  -- `verify_code`
  unfoldable pub verify_code :
      OperatorUser → Text → ℕ → Accounts → Result MfaFailure (Bool × Accounts)
  verify_code user code now a = decrypt_secret user.totp_secret >>= λ secret. ok (
      if is_empty secret
      then consume_recovery_code user code now a
      else accept_counter user code now a (verify generate secret code user.totp_last_counter now))

-- `reset`
unfoldable pub reset : OperatorUser → Text → Accounts → Accounts
reset user actor a =
    let cleared =
      save_user user.pk
        (λ v. record v {
          totp_secret = [];
          mfa_enabled = false;
          totp_confirmed_at = none;
          totp_last_counter = pos 0;
        })
        a in
    audit_mfa user.pk (second_factor_reset actor) (record cleared {
      codes = filter (λ (c : RecoveryCode). not (c.operator_id == user.pk)) cleared.codes;
    })

-- The keys of the session that signing in reads and writes.
pub record LoginSession : Type 0 where
  pub user : Option ℕ
  pub pending : Option ℕ
  pub since : Option ℕ

-- `begin_pending`
abbrev pub begin_pending : ℕ → OperatorUser → LoginSession → LoginSession
begin_pending now user s = record s { pending = some user.pk; since = some now }

-- `clear_pending`
abbrev pub clear_pending : LoginSession → LoginSession
clear_pending s = record s { pending = none; since = none }

abbrev pub pending_seconds : ℕ
pending_seconds = 600

abbrev pub found_or_clear : Option OperatorUser → LoginSession → Option OperatorUser × LoginSession
found_or_clear none s = (none, clear_pending s)
found_or_clear (some u) s = (some u, s)

abbrev pub pending_of :
    ℕ → Accounts → Option ℕ → Option ℕ → LoginSession → Option OperatorUser × LoginSession
pending_of now a none since s = (none, s)
pending_of now a (some pk) none s = (none, s)
pending_of now a (some pk) (some started) s =
    if ltb pending_seconds (now - started)
    then (none, clear_pending s)
    else found_or_clear (find? (λ (u : OperatorUser). (u.pk == pk) && u.is_active) a.users) s

-- `pending_user`
unfoldable pub pending_user : ℕ → Accounts → LoginSession → Option OperatorUser × LoginSession
pending_user now a s = pending_of now a s.pending s.since s
