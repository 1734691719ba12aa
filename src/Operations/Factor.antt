-- ===== src/Operations/Factor.antt =====
-- What the second factor of apps/operations/mfa.py guarantees: no authenticator code and no recovery
-- code works twice, and a pending login is short and names an active operator.
use mathlib.Core.Option.{some-injective}
use mathlib.Core.List.{Memᴰ}
use trend_engine_backend.Operations.Totp.{cleaned, window, verify, normalise_recovery_code}
use trend_engine_backend.Operations.Replay.{Accepts, verify_sound}
use trend_engine_backend.Base.{
  ok-injective, Result-cases, find?-eq-some, count_of-update_where-lt, mem-filter, ℕ, ◌+◌, ◌-◌, ◌≤◌,
  ◌<◌, ◌≡◌, refl, ap, sym, ◌∙◌, subst, ◌⊎◌, inl, inr, Bool, true, false, ◌&&◌, some, List, [], ◌∷◌,
  find?, update_where, count_of, arith, Bool-cases, Option-cases, is_empty, ltb, ◌==◌, Text, ok,
}
use trend_engine_backend.Base.Int.{ℤ}
use trend_engine_backend.Operations.Mfa.{
  OperatorUser, RecoveryCode, Accounts, Crypto, LoginSession, is_unused_of, unused, mark_used,
  pending_user, found_or_clear, pending_seconds, consume_recovery_code, verify_code, decrypt_secret,
}

found_active :
    (pk : ℕ) (a : Accounts) (s : LoginSession) (u : OperatorUser)
    → (found_or_clear (find? (λ (v : OperatorUser). (v.pk == pk) && v.is_active) a.users) s).0
      ≡ some u
    → (u.pk ≡ pk) × (u.is_active ≡ true)
found_active pk a s u h =
    elim (Option-cases (find? (λ (v : OperatorUser). (v.pk == pk) && v.is_active) a.users)) [
      | inl e ↦ cc (rw e at h)
      | inr (v, e) ↦
          (let right =
              (find?-eq-some (λ (v : OperatorUser). (v.pk == pk) && v.is_active) v a.users e).1 in
            let same : v ≡ u = some-injective v u (rw e at h) in
            subst (λ x. (x.pk ≡ pk) × (x.is_active ≡ true)) same (ground (arith, right)))
    ]

-- The operator that pending_user gives has the key that the session holds and is active, and the moment
-- that the session holds is no more than ten minutes ago.
pub pending_user_sound :
    (now : ℕ) (a : Accounts) (s : LoginSession) (u : OperatorUser)
    → (pending_user now a s).0 ≡ some u
    → (s.pending ≡ some u.pk)
      × (u.is_active ≡ true)
      × ((since : ℕ) × (s.since ≡ some since) × (now ≤ since + pending_seconds))
unfolding pending_user
pending_user_sound now a s u h = elim (Option-cases s.pending) [
  | inl e ↦ cc (rw e at h)
  | inr (pk, e) ↦ elim (Option-cases s.since) [
    | inl f ↦ cc (rw (e, f) at h)
    | inr (started, f) ↦ elim (Bool-cases (ltb pending_seconds (now - started))) [
      | inl old ↦ cc (rw (e, f, old) at h)
      | inr new ↦
          (let (same, active) =
              found_active pk a (record s { pending = some pk; since = some started }) u
                (rw (e, f, new) at h) in
            (e ∙ ap some (sym same), active, (started, f, ground arith)))
    ]
  ]
]

abbrev unused_count : OperatorUser → Accounts → ℕ
unused_count user a = count_of (is_unused_of user.pk) a.codes

-- Marking an unused code of the operator leaves fewer of them.
marked_fewer :
    (user : OperatorUser) (now : ℕ) (a : Accounts) (c : RecoveryCode)
    → Memᴰ c (unused user.pk a)
    → unused_count user (mark_used c.pk now a) < unused_count user a
marked_fewer user now a c m =
    let (stored, fresh) = (mem-filter (is_unused_of user.pk) c a.codes).0 m in
    omega (
      arith,
      count_of-update_where-lt (is_unused_of user.pk) (λ (d : RecoveryCode). d.pk == c.pk)
          (λ d. record d { used_at = some now }) c a.codes (λ d same. ground arith) stored
          (ground arith) fresh,
    )

-- A row that was found is found as it was saved.
find?-saved :
    (user : OperatorUser) (change : OperatorUser → OperatorUser) (users : List OperatorUser)
    → ((v : OperatorUser) → (change v).pk ≡ v.pk)
    → find? (λ (u : OperatorUser). u.pk == user.pk) users ≡ some user
    → find?
        (λ (u : OperatorUser). u.pk == user.pk)
        (update_where (λ (u : OperatorUser). u.pk == user.pk) change users)
      ≡ some (change user)
find?-saved user change [] same h = cc
find?-saved user change (u ∷ us) same h = elim (Bool-cases (u.pk == user.pk)) [
  | inl e ↦
      (let kept : ((change u).pk == user.pk) ≡ true = ap (λ k. k == user.pk) (same u) ∙ e in
        rw (e, kept) (ap (λ o. mathlib.Core.Option.map change o) (rw e at h)))
  | inr e ↦ rw (e, e) (find?-saved user change us same (rw e at h))
]

module _ (crypto : Crypto) where
  abbrev hashes : Text → RecoveryCode → Bool
  hashes code c = crypto.check_password (normalise_recovery_code code) c.code_hash

  -- An unused recovery code of the operator that the code is, and fewer of them left.
  abbrev pub IsConsumed : OperatorUser → Text → Accounts → Accounts → Type 0
  IsConsumed user code a a' =
      (c : RecoveryCode) × Memᴰ c (unused user.pk a)
      × (hashes code c ≡ true)
      × (unused_count user a' < unused_count user a)

  -- The operator's own authenticator shows the code at a step beyond the last accepted one, which is
  -- the stored one from then on.
  abbrev pub IsShown : OperatorUser → Text → ℕ → Accounts → Type 0
  IsShown user code now a' =
      (secret : Text) × (counter : ℤ) × (decrypt_secret crypto user.totp_secret ≡ ok secret)
      × (is_empty secret ≡ false)
      × Accepts crypto.generate secret (cleaned code) user.totp_last_counter (window now) counter
      × (find? (λ (u : OperatorUser). u.pk == user.pk) a'.users
          ≡ some (record user { totp_last_counter = counter }))

  recovery_code_spent :
      (user : OperatorUser) (code : Text) (now : ℕ) (a a' : Accounts)
      → consume_recovery_code crypto user code now a ≡ (true, a')
      → IsConsumed user code a a'
  unfolding consume_recovery_code
  recovery_code_spent user code now a a' h =
      elim (Bool-cases (is_empty (normalise_recovery_code code))) [
        | inl e ↦ cc (rw e at h)
        | inr e ↦ elim (Option-cases (find? (hashes code) (unused user.pk a))) [
          | inl f ↦ cc (rw (e, f) at h)
          | inr (c, f) ↦
              (let (m, right) = find?-eq-some (hashes code) c (unused user.pk a) f in
                let fewer = marked_fewer user now a c m in
                let same = ap (λ (r : Bool × Accounts). r.1.codes) (rw (e, f) at h) in
                (c, m, right, rw (← same) fewer))
        ]
      ]

  -- A recovery code that is refused changes nothing.
  pub recovery_code_refused :
      (user : OperatorUser) (code : Text) (now : ℕ) (a a' : Accounts)
      → consume_recovery_code crypto user code now a ≡ (false, a')
      → a' ≡ a
  unfolding consume_recovery_code
  recovery_code_refused user code now a a' h =
      elim (Bool-cases (is_empty (normalise_recovery_code code))) [
        | inl e ↦ cc (rw e at h)
        | inr e ↦ elim (Option-cases (find? (hashes code) (unused user.pk a))) [
          | inl f ↦ cc (rw (e, f) at h)
          | inr (c, f) ↦ cc (rw (e, f) at h)
        ]
      ]

  -- For an operator as stored, a code that verify_code accepts is spent. Either the secret that
  -- the operator's stored one decrypts to, which is not empty, shows it at a step of the window
  -- beyond the last accepted one, and that step is now the stored one; or it is an unused recovery
  -- code of the operator, of which there are now fewer.
  pub second_factor_spent :
      (user : OperatorUser) (code : Text) (now : ℕ) (a a' : Accounts)
      → find? (λ (u : OperatorUser). u.pk == user.pk) a.users ≡ some user
      → verify_code crypto user code now a ≡ ok (true, a')
      → IsShown user code now a' ⊎ IsConsumed user code a a'
  unfolding verify_code
  second_factor_spent user code now a a' stored h =
      elim (Result-cases (decrypt_secret crypto user.totp_secret)) [
        | inl (failure, e) ↦ cc (rw e at h)
        | inr (secret, e) ↦ elim (Bool-cases (is_empty secret)) [
          | inl bare ↦
              inr (recovery_code_spent user code now a a' (ok-injective _ _ (rw (e, bare) at h)))
          | inr real ↦
              elim (Option-cases (verify crypto.generate secret code user.totp_last_counter now)) [
                | inl f ↦ inr (
                    recovery_code_spent user code now a a'
                      (ok-injective _ _ (rw (e, real, f) at h)))
                | inr (counter, f) ↦
                    (let right =
                        verify_sound crypto.generate secret code user.totp_last_counter now counter
                          f in
                      let same =
                        ap (λ (r : Bool × Accounts). r.1.users)
                          (ok-injective _ _ (rw (e, real, f) at h)) in
                      inl (
                        secret,
                        counter,
                        e,
                        real,
                        right,
                        rw (← same) (
                            find?-saved user (λ v. record v { totp_last_counter = counter }) a.users
                              (λ v. refl) stored),
                      ))
              ]
        ]
      ]
