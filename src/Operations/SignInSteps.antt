-- ===== src/Operations/SignInSteps.antt =====
-- What each request of apps/operations/api.py does to the session, and the theorem on both factors.
use mathlib.Core.List.{Memᴰ}
use trend_engine_backend.Base.{
  find?, ltb, ◌-◌, ◌==◌, ℕ, ◌≡◌, refl, sym, ap, ◌∙◌, subst, ◌⊎◌, inl, inr, true, false, ◌&&◌,
  Option, none, some, List, [], ◌∷◌, ◌++◌, Text, strip, lower, Bool-cases, Option-cases,
  Result-cases,
}
use trend_engine_backend.Operations.Throttle.{Cache, login_buckets, mfa_buckets}
use trend_engine_backend.Operations.Mfa.{
  OperatorUser, Accounts, Crypto, LoginSession, mfa_error, credential_unreadable, mfa_ready,
  clear_pending, pending_user, pending_of, pending_seconds, confirm_enrolment, verify_code,
}
use trend_engine_backend.Operations.Factor.{pending_user_sound}
use trend_engine_backend.Operations.Api.{
  Realm, Site, Reply, authenticate, login_post, pending_or_401, mfa_setup_get, mfa_confirm_post,
  mfa_verify_post, logout_post, either_exceeded, after_look, challenge, confirm_form, setup_form,
}
use trend_engine_backend.Operations.SignIn.{
  Proof, password_right, factor_right, Both, Request, login, setup, confirm, second_factor, logout,
  serve, proves, Visit, anonymous, request, elsewhere, completed, earlier, factor_of,
}

data Change (s s' : LoginSession) (ps : List Proof) : Type 0 where
  kept : s'.user ≡ s.user → s'.pending ≡ s.pending → Change s s' ps
  forgot : s'.user ≡ s.user → s'.pending ≡ none → Change s s' ps
  named :
      (pk : ℕ)
      → s'.user ≡ s.user
      → s'.pending ≡ some pk
      → ps ≡ password_right pk ∷ []
      → Change s s' ps
  entered :
      (pk : ℕ)
      → s.pending ≡ some pk
      → s'.user ≡ some pk
      → s'.pending ≡ none
      → ps ≡ factor_right pk ∷ []
      → Change s s' ps
  departed : s'.user ≡ none → s'.pending ≡ none → Change s s' ps

-- A pending login has its password behind it, and a session its two factors.
abbrev Secure : LoginSession → List Proof → Type 0
Secure s known =
    ((pk : ℕ) → s.pending ≡ some pk → Memᴰ (password_right pk) known)
    × ((pk : ℕ) → s.user ≡ some pk → Both pk known)

mem-append_right : {A : Type 0} (x : A) (xs ys : List A) → Memᴰ x ys → Memᴰ x (xs ++ ys)
mem-append_right x [] ys m = m
mem-append_right x (y ∷ xs) ys m = Memᴰ.tail (mem-append_right x xs ys m)

Both-append_right : (pk : ℕ) (ps known : List Proof) → Both pk known → Both pk (ps ++ known)
Both-append_right pk [] known b = b
Both-append_right pk (p ∷ ps) known b = earlier (Both-append_right pk ps known b)

same_key : (p q : ℕ) → ◌≡◌ {A = Option ℕ} (some p) (some q) → p ≡ q
same_key p q e = ap (λ (o : Option ℕ). elim o [ none ↦ p | some n ↦ n ]) e

Change-Secure :
    (s s' : LoginSession) (ps known : List Proof)
    → Change s s' ps
    → Secure s known
    → Secure s' (ps ++ known)
Change-Secure s s' ps known (kept u p) (pend, user) = (
  λ pk e. mem-append_right (password_right pk) ps known (pend pk (sym p ∙ e)),
  λ pk e. Both-append_right pk ps known (user pk (sym u ∙ e)),
)
Change-Secure s s' ps known (forgot u p) (pend, user) =
    (λ pk e. cc (sym p ∙ e), λ pk e. Both-append_right pk ps known (user pk (sym u ∙ e)))
Change-Secure s s' ps known (named n u p proof) (pend, user) = (
  λ pk e. rw (proof, same_key n pk (sym p ∙ e)) (Memᴰ.head refl),
  λ pk e. Both-append_right pk ps known (user pk (sym u ∙ e)),
)
Change-Secure s s' ps known (entered n was u p proof) (pend, user) = (
  λ pk e. cc (sym p ∙ e),
  λ pk e.
      (let same = same_key n pk (sym u ∙ e) in
        rw proof (
          subst (λ m. Both pk (factor_right m ∷ known)) (sym same)
            (completed (pend pk (was ∙ ap some same))))),
)
Change-Secure s s' ps known (departed u p) (pend, user) =
    (λ pk e. cc (sym p ∙ e), λ pk e. cc (sym u ∙ e))

abbrev Looked : Option OperatorUser × LoginSession → LoginSession → Type 0
Looked r s =
    (r ≡ (none, s)) ⊎ ((r ≡ (none, clear_pending s)) ⊎ ((u : OperatorUser) × (r ≡ (some u, s))))

-- A look at the pending login changes nothing or forgets the login.
pending_of-Looked :
    (at : ℕ) (a : Accounts) (p q : Option ℕ) (s : LoginSession) → Looked (pending_of at a p q s) s
pending_of-Looked at a none q s = inl refl
pending_of-Looked at a (some pk) none s = inl refl
pending_of-Looked at a (some pk) (some started) s =
    elim (Bool-cases (ltb pending_seconds (at - started))) [
      | inl old ↦ rw old (inr (inl refl))
      | inr new ↦
          elim (Option-cases (find? (λ (u : OperatorUser). (u.pk == pk) && u.is_active) a.users)) [
            | inl e ↦ rw (new, e) (inr (inl refl))
            | inr (u, e) ↦ rw (new, e) (inr (inr (u, refl)))
          ]
    ]

pending_user-Looked : (at : ℕ) (a : Accounts) (s : LoginSession) → Looked (pending_user at a s) s
unfolding pending_user
pending_user-Looked at a s = pending_of-Looked at a s.pending s.since s

module _ (cache : Cache) (lapse : cache.State → cache.State) (crypto : Crypto) (realm : Realm)
    (mfa : realm.require_mfa ≡ true) where
  login-Change :
      (at : ℕ) (ip : Text) (form : Option (Text × Text)) (w : Site cache.State)
      → Change w.session
          (serve cache lapse crypto realm at (login ip form) w).1.session
          (proves cache lapse crypto realm at (login ip form) w)
  unfolding login_post proves
  login-Change at ip none w = kept refl refl
  login-Change at ip (some (address, password)) w =
      let email = lower (strip address) in
      let (by_email, by_ip) = login_buckets realm.limits ip email in
      elim (Bool-cases (either_exceeded cache lapse crypto realm by_email by_ip w)) [
        | inl e ↦ rw e (kept refl refl)
        | inr e ↦ elim (Option-cases (authenticate crypto w.accounts email password)) [
          | inl f ↦ rw (e, f) (kept refl refl)
          | inr (u, f) ↦ rw (e, f, mfa) (named u.pk refl refl refl)
        ]
      ]

  setup-Change :
      (at : ℕ) (secret : Text) (u : OperatorUser) (w : Site cache.State)
      → (setup_form cache lapse crypto realm secret u w).1.session ≡ w.session
  setup-Change at secret u w = elim (Bool-cases (mfa_ready u)) [
    | inl e ↦ rw e refl
    | inr e ↦ rw e refl
  ]

  confirm-Change :
      (at : ℕ) (codes : List Text) (form : Option Text) (u : OperatorUser) (w : Site cache.State)
      → w.session.pending ≡ some u.pk
      → Change w.session
          (confirm_form cache lapse crypto realm at codes form u w).1.session
          (factor_of cache lapse crypto realm at (confirm codes form) w.accounts (some u))
  confirm-Change at codes none u w was = kept refl refl
  confirm-Change at codes (some code) u w was =
      elim (Result-cases (confirm_enrolment crypto u code at codes w.accounts)) [
        | inl (mfa_error, e) ↦ rw e (kept refl refl)
        | inl (credential_unreadable, e) ↦ rw e (kept refl refl)
        | inr (a, e) ↦ rw e (
            entered u.pk was (realm.login-user u (clear_pending w.session))
              (realm.login-pending u (clear_pending w.session) refl) refl)
      ]

  verify-Change :
      (at : ℕ) (ip : Text) (form : Option Text) (u : OperatorUser) (w : Site cache.State)
      → w.session.pending ≡ some u.pk
      → Change w.session
          (challenge cache lapse crypto realm at ip form u w).1.session
          (factor_of cache lapse crypto realm at (second_factor ip form) w.accounts (some u))
  verify-Change at ip none u w was = kept refl refl
  verify-Change at ip (some code) u w was =
      let (by_user, by_ip) = mfa_buckets realm.limits ip (realm.decimal u.pk) in
      elim (Bool-cases (either_exceeded cache lapse crypto realm by_user by_ip w)) [
        | inl over ↦ rw over (forgot refl refl)
        | inr under ↦ elim (Bool-cases (mfa_ready u)) [
          | inr bare ↦ rw (under, bare) (kept refl refl)
          | inl ready ↦ elim (Result-cases (verify_code crypto u code at w.accounts)) [
            | inl (failure, e) ↦ rw (under, ready, e) (kept refl refl)
            | inr ((false, a), e) ↦ rw (under, ready, e) (kept refl refl)
            | inr ((true, a), e) ↦
                rw (under, ready, e)
                  (entered u.pk was (realm.login-user u (clear_pending w.session))
                    (realm.login-pending u (clear_pending w.session) refl) refl)
          ]
        ]
      ]

  pending-Change :
      (at : ℕ) (view : OperatorUser → Site cache.State → Reply × Site cache.State)
      (w : Site cache.State) (ps : Option OperatorUser → List Proof)
      → ((u : OperatorUser)
          → w.session.pending ≡ some u.pk
          → Change w.session (view u w).1.session (ps (some u)))
      → Change w.session
          (pending_or_401 cache lapse crypto realm at view w).1.session
          (ps (pending_user at w.accounts w.session).0)
  unfolding pending_or_401
  pending-Change at view w ps h =
      let Outcome = λ (r : Option OperatorUser × LoginSession).
        Change w.session (after_look cache lapse crypto realm view w r).1.session (ps r.0) in
      elim (pending_user-Looked at w.accounts w.session) [
        | inl e ↦ subst Outcome (sym e) (kept refl refl)
        | inr (inl e) ↦ subst Outcome (sym e) (forgot refl refl)
        | inr (inr (u, e)) ↦ subst Outcome (sym e) (
            h u
              (pending_user_sound at w.accounts w.session u
                (ap (λ (r : Option OperatorUser × LoginSession). r.0) e)).0)
      ]

  serve-Change :
      (at : ℕ) (r : Request) (w : Site cache.State)
      → Change w.session
          (serve cache lapse crypto realm at r w).1.session
          (proves cache lapse crypto realm at r w)
  unfolding proves mfa_setup_get mfa_confirm_post mfa_verify_post logout_post
  serve-Change at (login ip form) w = login-Change at ip form w
  serve-Change at (setup secret) w =
      pending-Change at (setup_form cache lapse crypto realm secret) w (λ u. [])
        (λ u was.
          kept (ap (λ (s : LoginSession). s.user) (setup-Change at secret u w))
            (ap (λ (s : LoginSession). s.pending) (setup-Change at secret u w)))
  serve-Change at (confirm codes form) w =
      pending-Change at (confirm_form cache lapse crypto realm at codes form) w
        (factor_of cache lapse crypto realm at (confirm codes form) w.accounts)
        (λ u was. confirm-Change at codes form u w was)
  serve-Change at (second_factor ip form) w =
      pending-Change at (challenge cache lapse crypto realm at ip form) w
        (factor_of cache lapse crypto realm at (second_factor ip form) w.accounts)
        (λ u was. verify-Change at ip form u w was)
  serve-Change at logout w = departed (realm.logout-user w.session) (realm.logout-pending w.session)

  Visit-Secure :
      (w : Site cache.State) (known : List Proof)
      → Visit cache lapse crypto realm w known
      → Secure w.session known
  Visit-Secure w known (anonymous fresh) = (
    λ pk e. cc (sym (ap (λ (s : LoginSession). s.pending) fresh) ∙ e),
    λ pk e. cc (sym (ap (λ (s : LoginSession). s.user) fresh) ∙ e),
  )
  Visit-Secure w known (request {w = v} {known = earlier_proofs} at r visit) =
      Change-Secure v.session (serve cache lapse crypto realm at r v).1.session
        (proves cache lapse crypto realm at r v) earlier_proofs (serve-Change at r v)
        (Visit-Secure v earlier_proofs visit)
  Visit-Secure w known (elsewhere {w = v} {known = earlier_proofs} a c visit) =
      Visit-Secure v earlier_proofs visit

  -- Where the second factor is required, a session that began anonymous belongs to an operator
  -- only if its requests gave that operator's right password and, later, a right second factor
  -- while the login was pending, whatever other sessions did to the accounts and the cache
  -- meanwhile.
  pub signed_in-Both :
      (w : Site cache.State) (known : List Proof) (pk : ℕ)
      → Visit cache lapse crypto realm w known
      → w.session.user ≡ some pk
      → Both pk known
  signed_in-Both w known pk visit signed = (Visit-Secure w known visit).1 pk signed
