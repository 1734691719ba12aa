-- ===== src/Scoring/Decided.antt =====
-- The review of a recommendation: every path through `edit`, `decide` and `withdraw` of
-- apps/scoring/recommendations.py.
use trend_engine_backend.Base.{
  ◌≡◌, refl, ap, ◌∙◌, subst, Bool, true, false, List, [], ◌∷◌, ◌++◌, Text, is_empty, strip, ok,
  ok-injective, Result-cases, Bool-cases, inl, inr,
}
use trend_engine_backend.Scoring.Recommend.{
  Content, Validation, Grounds, RecommendationState, proposed, edited, approved, rejected,
  ReviewAudit, was_drafted, was_edited, was_approved, was_rejected, was_withdrawn, Recommendation,
  is_open, is_approved, edited_as, validate, edit, decide, withdraw,
}
use trend_engine_backend.Scoring.Grounded.{IsGrounded, validate-IsGrounded}

-- One call of the review, by whom and with what.
pub data Step (g : Grounds) (r : Recommendation) : Recommendation → Type 0 where
  edits :
      {r' : Recommendation} (raw : Content) (actor : Text)
      → edit g r raw actor ≡ ok r'
      → Step g r r'
  decides :
      {r' : Recommendation} (approve : Bool) (actor note : Text)
      → decide r approve actor note ≡ ok r'
      → Step g r r'
  withdraws :
      {r' : Recommendation} (actor note : Text) → withdraw r actor note ≡ ok r' → Step g r r'

pub data Reach (g : Grounds) (r : Recommendation) : Recommendation → Type 0 where
  here : Reach g r r
  next : {r' r'' : Recommendation} → Reach g r r' → Step g r' r'' → Reach g r r''

-- What an audit row needs of the state before it, and the state it leads to.
abbrev is_allowed : ReviewAudit → RecommendationState → Bool
is_allowed (was_drafted validation) state = false
is_allowed (was_withdrawn actor) state = is_approved state
is_allowed row state = is_open state

abbrev state_after : ReviewAudit → RecommendationState
state_after (was_drafted validation) = proposed
state_after (was_edited actor) = edited
state_after (was_approved actor) = approved
state_after (was_rejected actor) = rejected
state_after (was_withdrawn actor) = edited

-- Audit rows that lead from a state to another, each allowed where it stands.
abbrev pub Leads : List ReviewAudit → RecommendationState → RecommendationState → Type 0
Leads [] state to = state ≡ to
Leads (row ∷ rows) state to = (is_allowed row state ≡ true) × Leads rows (state_after row) to

-- The audit rows of a recommendation that a draft made: the draft's, and then none like it.
abbrev pub IsTrail : List ReviewAudit → RecommendationState → Type 0
IsTrail audits to =
    (validation : Validation) × (rows : List ReviewAudit) × (audits ≡ was_drafted validation ∷ rows)
    × Leads rows proposed to

-- A rejection says why.
abbrev pub HasReason : RecommendationState → Text → Type 0
HasReason rejected note = is_empty note ≡ false
HasReason state note = Unit {0}

-- What holds of a recommendation through its review.
abbrev pub IsReviewed : Grounds → Recommendation → Type 0
IsReviewed g r =
    IsGrounded g r.content × IsTrail r.audits r.state × HasReason r.state r.decision_note

Leads-snoc :
    (rows : List ReviewAudit) (row : ReviewAudit) (state to : RecommendationState)
    → Leads rows state to
    → is_allowed row to ≡ true
    → Leads (rows ++ row ∷ []) state (state_after row)
Leads-snoc [] row state to h allowed = (ap (is_allowed row) h ∙ allowed, refl)
Leads-snoc (r ∷ rows) row state to (ok_, h) allowed =
    (ok_, Leads-snoc rows row (state_after r) to h allowed)

IsTrail-snoc :
    (audits : List ReviewAudit) (row : ReviewAudit) (to : RecommendationState)
    → IsTrail audits to
    → is_allowed row to ≡ true
    → IsTrail (audits ++ row ∷ []) (state_after row)
IsTrail-snoc audits row to (validation, rows, e, h) allowed = (
  validation,
  rows ++ row ∷ [],
  ap (λ l. l ++ row ∷ []) e,
  Leads-snoc rows row proposed to h allowed,
)

module _ (g : Grounds) (r r' : Recommendation) (h : IsReviewed g r) where
  edit-IsReviewed : (raw : Content) (actor : Text) → edit g r raw actor ≡ ok r' → IsReviewed g r'
  unfolding edit
  edit-IsReviewed raw actor e = elim (Bool-cases (is_open r.state)) [
    | inr f ↦ (let e' = rw f at e in cc)
    | inl f ↦ elim (Result-cases (validate g raw)) [
      | inl (why, v) ↦ (let e' = rw (f, v) at e in cc)
      | inr ((content, validation), v) ↦
          (let same = ok-injective (edited_as r actor (content, validation)) r' (rw (f, v) at e) in
            subst (IsReviewed g) same (
              validate-IsGrounded g raw content validation v,
              IsTrail-snoc r.audits (was_edited actor) r.state h.1 f,
              tt,
            ))
    ]
  ]

  decide-IsReviewed :
      (approve : Bool) (actor note : Text) → decide r approve actor note ≡ ok r' → IsReviewed g r'
  unfolding decide
  decide-IsReviewed true actor note e = elim (Bool-cases (is_open r.state)) [
    | inr f ↦ (let e' = rw f at e in cc)
    | inl f ↦
        (let same = ok-injective _ r' (rw f at e) in
          subst (IsReviewed g) same
            (h.0, IsTrail-snoc r.audits (was_approved actor) r.state h.1 f, tt))
  ]
  decide-IsReviewed false actor note e = elim (Bool-cases (is_open r.state)) [
    | inr f ↦ (let e' = rw f at e in cc)
    | inl f ↦ elim (Bool-cases (is_empty (strip note))) [
      | inl blank ↦ (let e' = rw (f, blank) at e in cc)
      | inr said ↦
          (let same = ok-injective _ r' (rw (f, said) at e) in
            subst (IsReviewed g) same
              (h.0, IsTrail-snoc r.audits (was_rejected actor) r.state h.1 f, said))
    ]
  ]

  withdraw-IsReviewed : (actor note : Text) → withdraw r actor note ≡ ok r' → IsReviewed g r'
  unfolding withdraw
  withdraw-IsReviewed actor note e = elim (Bool-cases (is_approved r.state)) [
    | inr f ↦ (let e' = rw f at e in cc)
    | inl f ↦ elim (Bool-cases (is_empty (strip note))) [
      | inl blank ↦ (let e' = rw (f, blank) at e in cc)
      | inr said ↦
          (let same = ok-injective _ r' (rw (f, said) at e) in
            subst (IsReviewed g) same
              (h.0, IsTrail-snoc r.audits (was_withdrawn actor) r.state h.1 f, tt))
    ]
  ]

Step-IsReviewed :
    (g : Grounds) (r r' : Recommendation) → IsReviewed g r → Step g r r' → IsReviewed g r'
Step-IsReviewed g r r' h (edits raw actor e) = edit-IsReviewed g r r' h raw actor e
Step-IsReviewed g r r' h (decides approve actor note e) =
    decide-IsReviewed g r r' h approve actor note e
Step-IsReviewed g r r' h (withdraws actor note e) = withdraw-IsReviewed g r r' h actor note e

-- However a grounded draft is edited, decided on and withdrawn, over the same evidence and
-- profile, its content stays grounded; its audit rows are the one of the draft and then ones that
-- lead from proposed to its state, edits and decisions only while it is open and withdrawals only
-- of an approval; and where it is rejected, it says why.
pub Reach-IsReviewed :
    (g : Grounds) (r r' : Recommendation) → IsReviewed g r → Reach g r r' → IsReviewed g r'
Reach-IsReviewed g r r' h here = h
Reach-IsReviewed g r r'' h (next path step) =
    Step-IsReviewed g _ r'' (Reach-IsReviewed g r _ h path) step
