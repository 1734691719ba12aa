-- ===== src/Scoring/Drafts.antt =====
-- What `draft` of apps/scoring/recommendations.py stores.
use trend_engine_backend.Base.{
  ℕ, ◌≡◌, refl, ap, subst, true, false, not, ◌&&◌, Option, none, some, List, [], ◌∷◌, ◌++◌, any,
  count_of, count_of-append, count_of-eq-zero, is_empty, strip, Result, ok, err, ok-injective,
  ==_refl, arith, Bool-cases, inl, inr,
}
use trend_engine_backend.Enrichment.Costs.{Books}
use trend_engine_backend.Enrichment.Client.{Ending, returned}
use trend_engine_backend.Scoring.Recommend.{
  Content, Validation, Grounds, Recommendation, proposed, validate, Refused,
}
use trend_engine_backend.Scoring.Grounded.{validate-IsGrounded}
use trend_engine_backend.Scoring.Decided.{IsReviewed}
use trend_engine_backend.Scoring.Draft.{
  Proposal, Row, is_current, is_current_for, Drafted, drafted, declined, new_recommendation,
  stored_draft, settle_draft, draft_for,
}

-- A draft that is stored is the model's proposal as validated, in one new row at the end of the table,
-- which is then the one current recommendation for its client and signal, at the start of its review;
-- one that is declined says what the model says and leaves the table as it was.
abbrev pub IsSoleDraft : Grounds → ℕ → ℕ → List Row → Ending Proposal → Drafted × List Row → Type 0
IsSoleDraft g organization signal rows ending (drafted r, rows') =
    (p : Proposal) × (ending ≡ returned p)
    × (validate g p.content ≡ ok (r.content, r.validation))
    × (r.state ≡ proposed)
    × IsReviewed g r
    × (rows'
        ≡ rows ++ record { organization = organization; signal = signal; recommendation = r } ∷ [])
    × (count_of (is_current_for organization signal) rows' ≡ 1)
IsSoleDraft g organization signal rows ending (declined why, rows') =
    (p : Proposal) × (ending ≡ returned p)
    × (is_empty p.content.actions ≡ true)
    × (why ≡ strip p.decline_reason)
    × (is_empty why ≡ false)
    × (rows' ≡ rows)

current_one :
    (organization signal : ℕ) (rows : List Row) (r : Recommendation)
    → r.state ≡ proposed
    → any (is_current_for organization signal) rows ≡ false
    → count_of
        (is_current_for organization signal)
        (rows ++ record { organization = organization; signal = signal; recommendation = r } ∷ [])
      ≡ 1
current_one organization signal rows r new none_open =
    let p = is_current_for organization signal in
    let row : Row = record { organization = organization; signal = signal; recommendation = r } in
    let open_ : is_current r.state ≡ true = ap is_current new in
    let here : p row ≡ true = ground (arith, ==_refl organization, ==_refl signal) in
    let one : count_of p (row ∷ []) ≡ 1 = rw here (omega arith) in
    omega (arith, count_of-append p rows (row ∷ []), count_of-eq-zero p rows none_open, one)

module _ (g : Grounds) (organization signal : ℕ) (rows : List Row)
    (none_open : any (is_current_for organization signal) rows ≡ false)
    (out : Drafted × List Row) where
  stored_draft-IsSoleDraft :
      (p : Proposal) (kept : Result Refused (Content × Validation))
      → validate g p.content ≡ kept
      → stored_draft organization signal rows kept ≡ ok out
      → IsSoleDraft g organization signal rows (returned p) out
  stored_draft-IsSoleDraft p (err why) v e = cc
  stored_draft-IsSoleDraft p (ok (kept, validation)) v e =
      let r = new_recommendation (kept, validation) in
      subst (IsSoleDraft g organization signal rows (returned p)) (ok-injective _ out e) (
        p,
        refl,
        v,
        refl,
        (validate-IsGrounded g p.content kept validation v, (validation, [], refl, refl), tt),
        refl,
        current_one organization signal rows r refl none_open,
      )

  settle_draft-IsSoleDraft :
      (ending : Ending Proposal)
      → settle_draft g organization signal rows ending ≡ ok out
      → IsSoleDraft g organization signal rows ending out
  settle_draft-IsSoleDraft (returned p) e =
      elim (Bool-cases (not (is_empty (strip p.decline_reason)) && is_empty p.content.actions)) [
        | inl f ↦
            subst (IsSoleDraft g organization signal rows (returned p))
              (ok-injective _ out (rw f at e)) (p, refl, ground arith, refl, ground arith, refl)
        | inr f ↦ stored_draft-IsSoleDraft p (validate g p.content) refl (rw f at e)
      ]
  settle_draft-IsSoleDraft ending e = cc

-- A draft that goes through is made for a client with a live profile, on a signal with evidence,
-- and where no recommendation is current. Either it is stored: the table has one row more, at its
-- end, with what validation keeps of the model's proposal, grounded, proposed and with its audit
-- row, and that is then the one current recommendation for the client and signal. Or the model
-- declined: there are no actions, the reason is the model's and not blank, and the table is as it
-- was.
pub draft_for-IsSoleDraft :
    (grounds : Option Grounds) (organization signal : ℕ) (rows : List Row)
    (model : Books → Ending Proposal × Books) (b : Books) (out : Drafted × List Row)
    → (draft_for grounds organization signal rows model b).0 ≡ ok out
    → (g : Grounds) × (grounds ≡ some g)
      × ((is_empty g.claim_ids && is_empty g.observation_ids) ≡ false)
      × (any (is_current_for organization signal) rows ≡ false)
      × IsSoleDraft g organization signal rows (model b).0 out
unfolding draft_for
draft_for-IsSoleDraft none organization signal rows model b out e = cc
draft_for-IsSoleDraft (some g) organization signal rows model b out e =
    elim (Bool-cases (any (is_current_for organization signal) rows)) [
      | inl f ↦ (let e' = rw f at e in cc)
      | inr f ↦ elim (Bool-cases (is_empty g.claim_ids && is_empty g.observation_ids)) [
        | inl h ↦ (let e' = rw (f, h) at e in cc)
        | inr h ↦ (
          g,
          refl,
          h,
          f,
          settle_draft-IsSoleDraft g organization signal rows f out (model b).0 (rw (f, h) at e),
        )
      ]
    ]
