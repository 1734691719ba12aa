-- ===== src/Operations/SignIn.antt =====
-- That an operator is signed in only after both factors: what the endpoints of apps/operations/api.py
-- do to a session, over any sequence of requests, while anything happens elsewhere.
use trend_engine_backend.Base.{
  ◌++◌, ℕ, ◌≡◌, Bool, true, false, Option, none, some, List, [], ◌∷◌, Text, strip, lower, Result,
  ok, err,
}
use mathlib.Core.List.{Memᴰ}
use trend_engine_backend.Operations.Throttle.{Cache}
use trend_engine_backend.Operations.Mfa.{
  OperatorUser, Accounts, Crypto, MfaFailure, pending_user, confirm_enrolment, verify_code,
}
use trend_engine_backend.Operations.Api.{
  Realm, Site, Reply, authenticate, login_post, mfa_setup_get, mfa_confirm_post, mfa_verify_post,
  logout_post,
}

-- What a request proves about its caller.
pub data Proof : Type 0 where
  password_right factor_right : (pk : ℕ) → Proof

-- A proof of the second factor with one of the password before it, the latest first.
pub data Both (pk : ℕ) : List Proof → Type 0 where
  completed :
      {older : List Proof} → Memᴰ (password_right pk) older → Both pk (factor_right pk ∷ older)
  earlier : {p : Proof} {older : List Proof} → Both pk older → Both pk (p ∷ older)

pub data Request : Type 0 where
  login : (ip : Text) → (form : Option (Text × Text)) → Request
  setup : (secret : Text) → Request
  confirm : (codes : List Text) → (form : Option Text) → Request
  second_factor : (ip : Text) → (form : Option Text) → Request
  logout : Request

module _ (cache : Cache) (lapse : cache.State → cache.State) (crypto : Crypto) (realm : Realm) where
  -- One request, at a time, from the site before to the reply and the site after.
  abbrev pub serve : ℕ → Request → Site cache.State → Reply × Site cache.State
  serve at (login ip form) w = login_post cache lapse crypto realm at ip form w
  serve at (setup secret) w = mfa_setup_get cache lapse crypto realm at secret w
  serve at (confirm codes form) w = mfa_confirm_post cache lapse crypto realm at codes form w
  serve at (second_factor ip form) w = mfa_verify_post cache lapse crypto realm at ip form w
  serve at logout w = logout_post cache lapse crypto realm w

  abbrev proof_of_user : (ℕ → Proof) → Option OperatorUser → List Proof
  proof_of_user proof none = []
  proof_of_user proof (some u) = proof u.pk ∷ []

  abbrev confirmed : OperatorUser → Result MfaFailure Accounts → List Proof
  confirmed u (err e) = []
  confirmed u (ok a) = factor_right u.pk ∷ []

  abbrev verified : OperatorUser → Result MfaFailure (Bool × Accounts) → List Proof
  verified u (err e) = []
  verified u (ok (false, a)) = []
  verified u (ok (true, a)) = factor_right u.pk ∷ []

  abbrev pub factor_of : ℕ → Request → Accounts → Option OperatorUser → List Proof
  factor_of at r a none = []
  factor_of at (login ip form) a (some u) = []
  factor_of at (setup secret) a (some u) = []
  factor_of at (confirm codes none) a (some u) = []
  factor_of at (confirm codes (some code)) a (some u) =
      confirmed u (confirm_enrolment crypto u code at codes a)
  factor_of at (second_factor ip none) a (some u) = []
  factor_of at (second_factor ip (some code)) a (some u) =
      verified u (verify_code crypto u code at a)
  factor_of at logout a (some u) = []

  -- The right password of an active operator, or a code that is right for the operator whose login
  -- is pending.
  unfoldable pub proves : ℕ → Request → Site cache.State → List Proof
  proves at (login ip none) w = []
  proves at (login ip (some (email, password))) w =
      proof_of_user password_right (authenticate crypto w.accounts (lower (strip email)) password)
  proves at (setup secret) w = []
  proves at (confirm codes form) w =
      factor_of at (confirm codes form) w.accounts (pending_user at w.accounts w.session).0
  proves at (second_factor ip form) w =
      factor_of at (second_factor ip form) w.accounts (pending_user at w.accounts w.session).0
  proves at logout w = []

  -- Requests of one session, from a fresh one, with what they proved; other callers change the
  -- accounts and the cache as they like in between.
  pub data Visit : Site cache.State → List Proof → Type 0 where
    anonymous :
        {w : Site cache.State}
        → w.session ≡ record { user = none; pending = none; since = none }
        → Visit w []
    request :
        {w : Site cache.State} {known : List Proof} (at : ℕ) (r : Request)
        → Visit w known
        → Visit (serve at r w).1 (proves at r w ++ known)
    elsewhere :
        {w : Site cache.State} {known : List Proof} (a : Accounts) (c : cache.State)
        → Visit w known
        → Visit (record w { accounts = a; cache = c }) known
