-- ===== src/Operations/Api.antt =====
-- apps/operations/api.py and the backend of apps/operations/auth.py: signing in, enrolling, the
-- second factor and signing out. Django's login and logout are parameters; a form is `none` where
-- its serializer refuses it.
use trend_engine_backend.Base.{
  ℕ, ◌≡◌, Bool, true, false, ◌||◌, not, Option, none, some, List, find?, if◌then◌else◌, Text,
  eq_text, is_empty, strip, lower, Result, ok, err,
}
use trend_engine_backend.Operations.Throttle.{
  Cache, Limits, Bucket, exceeded, record_attempt, clear, login_buckets, mfa_buckets,
}
use trend_engine_backend.Operations.Mfa.{
  OperatorUser, Accounts, Crypto, MfaFailure, mfa_error, credential_unreadable, LoginSession,
  mfa_ready, begin_pending, clear_pending, pending_user, begin_enrolment, confirm_enrolment,
  verify_code,
}

-- The settings, how a key is printed, and django.contrib.auth's login and logout.
pub record Realm : Type 0 where
  pub limits : Limits
  pub require_mfa : Bool
  pub decimal : ℕ → Text
  pub login : OperatorUser → LoginSession → LoginSession
  pub logout : LoginSession → LoginSession
  pub login-user : (u : OperatorUser) (s : LoginSession) → (login u s).user ≡ some u.pk
  pub login-pending :
      (u : OperatorUser) (s : LoginSession) → s.pending ≡ none → (login u s).pending ≡ none
  pub logout-user : (s : LoginSession) → (logout s).user ≡ none
  pub logout-pending : (s : LoginSession) → (logout s).pending ≡ none

-- The session of the caller, with the accounts and the cache that all callers share.
pub record Site (C : Type 0) : Type 0 where
  pub cache : C
  pub session : LoginSession
  pub accounts : Accounts

pub data Reply : Type 0 where
  rate_limited invalid_credentials invalid_form mfa_challenge mfa_setup_required : Reply
  no_pending_login already_enrolled invalid_code no_content server_error : Reply
  signed_in : (pk : ℕ) → Reply
  signed_in_with_codes : (pk : ℕ) → (recovery_codes : List Text) → Reply
  enrolment : (secret : Text) → Reply

abbrev checked_user : Crypto → Text → Option OperatorUser → Option OperatorUser
checked_user crypto password none = none
checked_user crypto password (some u) =
    if not (crypto.check_password password u.password) || not u.is_active then none else some u

-- `OperatorBackend.authenticate`
unfoldable pub authenticate : Crypto → Accounts → Text → Text → Option OperatorUser
authenticate crypto a email password =
    if is_empty email || is_empty password
    then none
    else checked_user crypto password
        (find? (λ (u : OperatorUser). eq_text u.email (lower (strip email))) a.users)

module _ (cache : Cache) (lapse : cache.State → cache.State) (crypto : Crypto) (realm : Realm) where
  abbrev record_both : Bucket → Bucket → Site cache.State → Site cache.State
  record_both first second w = record w {
    cache = (record_attempt cache lapse (record_attempt cache lapse w.cache first).1 second).1;
  }

  abbrev pub either_exceeded : Bucket → Bucket → Site cache.State → Bool
  either_exceeded first second w = exceeded cache w.cache first || exceeded cache w.cache second

  -- `_complete_login`, with the reply that it is wrapped in.
  abbrev complete_login : OperatorUser → Reply → Site cache.State → Reply × Site cache.State
  complete_login user reply w =
      (reply, record w { session = realm.login user (clear_pending w.session) })

  abbrev greet : ℕ → OperatorUser → Site cache.State → Reply × Site cache.State
  greet now user w =
      if realm.require_mfa
      then (
        if mfa_ready user then mfa_challenge else mfa_setup_required,
        record w { session = begin_pending now user w.session },
      )
      else (signed_in user.pk, record w { session = realm.login user w.session })

  abbrev after_password :
      ℕ → Bucket → Bucket → Site cache.State → Option OperatorUser → Reply × Site cache.State
  after_password now by_email by_ip w none = (invalid_credentials, record_both by_email by_ip w)
  after_password now by_email by_ip w (some user) =
      greet now user (record w { cache = clear cache w.cache by_email })

  -- `LoginView.post`
  unfoldable pub login_post :
      ℕ → Text → Option (Text × Text) → Site cache.State → Reply × Site cache.State
  login_post now ip none w = (invalid_form, w)
  login_post now ip (some (address, password)) w =
      let email = lower (strip address) in
      let (by_email, by_ip) = login_buckets realm.limits ip email in
      if either_exceeded by_email by_ip w
      then (rate_limited, w)
      else after_password now by_email by_ip w (authenticate crypto w.accounts email password)

  abbrev pub after_look :
      (OperatorUser → Site cache.State → Reply × Site cache.State)
      → Site cache.State
      → Option OperatorUser × LoginSession
      → Reply × Site cache.State
  after_look view w (none, session) = (no_pending_login, record w { session = session })
  after_look view w (some u, session) = view u (record w { session = session })

  -- `_pending_or_401`
  unfoldable pub pending_or_401 :
      ℕ
      → (OperatorUser → Site cache.State → Reply × Site cache.State)
      → Site cache.State
      → Reply × Site cache.State
  pending_or_401 now view w = after_look view w (pending_user now w.accounts w.session)

  abbrev pub setup_form : Text → OperatorUser → Site cache.State → Reply × Site cache.State
  setup_form secret user w =
      if mfa_ready user
      then (already_enrolled, w)
      else (enrolment secret, record w { accounts = begin_enrolment crypto user secret w.accounts })

  -- `MfaSetupView.get`
  unfoldable pub mfa_setup_get : ℕ → Text → Site cache.State → Reply × Site cache.State
  mfa_setup_get now secret w = pending_or_401 now (setup_form secret) w

  abbrev after_confirm :
      OperatorUser
      → List Text
      → Site cache.State
      → Result MfaFailure Accounts
      → Reply × Site cache.State
  after_confirm user codes w (err mfa_error) = (invalid_code, w)
  after_confirm user codes w (err credential_unreadable) = (server_error, w)
  after_confirm user codes w (ok a) =
      complete_login user (signed_in_with_codes user.pk codes) (record w { accounts = a })

  abbrev pub confirm_form :
      ℕ → List Text → Option Text → OperatorUser → Site cache.State → Reply × Site cache.State
  confirm_form now codes none user w = (invalid_form, w)
  confirm_form now codes (some code) user w =
      after_confirm user codes w (confirm_enrolment crypto user code now codes w.accounts)

  -- `MfaConfirmView.post`
  unfoldable pub mfa_confirm_post :
      ℕ → List Text → Option Text → Site cache.State → Reply × Site cache.State
  mfa_confirm_post now codes form w = pending_or_401 now (confirm_form now codes form) w

  abbrev after_verify :
      OperatorUser
      → Bucket
      → Bucket
      → Site cache.State
      → Result MfaFailure (Bool × Accounts)
      → Reply × Site cache.State
  after_verify user by_user by_ip w (err e) = (server_error, w)
  after_verify user by_user by_ip w (ok (false, a)) =
      (invalid_code, record_both by_user by_ip (record w { accounts = a }))
  after_verify user by_user by_ip w (ok (true, a)) =
      complete_login user (signed_in user.pk)
        (record w { accounts = a; cache = clear cache w.cache by_user })

  abbrev pub challenge :
      ℕ → Text → Option Text → OperatorUser → Site cache.State → Reply × Site cache.State
  challenge now ip none user w = (invalid_form, w)
  challenge now ip (some code) user w =
      let (by_user, by_ip) = mfa_buckets realm.limits ip (realm.decimal user.pk) in
      if either_exceeded by_user by_ip w
      then (rate_limited, record w { session = clear_pending w.session })
      else if not (mfa_ready user)
      then (mfa_setup_required, w)
      else after_verify user by_user by_ip w (verify_code crypto user code now w.accounts)

  -- `MfaVerifyView.post`
  unfoldable pub mfa_verify_post :
      ℕ → Text → Option Text → Site cache.State → Reply × Site cache.State
  mfa_verify_post now ip form w = pending_or_401 now (challenge now ip form) w

  -- `LogoutView.post`
  unfoldable pub logout_post : Site cache.State → Reply × Site cache.State
  logout_post w = (no_content, record w { session = realm.logout w.session })
