-- ===== src/Scoring/Reviews.antt =====
-- A recommendation drafted, edited, approved and taken back.
use trend_engine_backend.Base.{
  any, ℕ, ◌≡◌, refl, true, false, ◌&&◌, some, List, [], ◌∷◌, ◌++◌, is_empty, Text, codes, ok,
}
use trend_engine_backend.Enrichment.Costs.{Books}
use trend_engine_backend.Enrichment.Client.{Ending, returned}
use trend_engine_backend.Scoring.Recommend.{
  Action, Content, Validation, Grounds, Recommendation, edited, approved, validate, edit, decide,
  withdraw, was_drafted, was_edited, was_approved, was_withdrawn,
}
use trend_engine_backend.Scoring.Grounded.{validate-IsGrounded}
use trend_engine_backend.Scoring.Decided.{
  IsReviewed, here, next, edits, decides, withdraws, Reach-IsReviewed,
}
use trend_engine_backend.Scoring.Draft.{
  is_current_for, Proposal, Row, drafted, new_recommendation, draft_for,
}
use trend_engine_backend.Scoring.Drafts.{IsSoleDraft, draft_for-IsSoleDraft}

abbrev grounds : Grounds
grounds = record {
  claim_ids = 11 ∷ 12 ∷ [];
  observation_ids = 7 ∷ [];
  product_names = codes "Creatine Gummies" ∷ codes "MagMind" ∷ [];
}

abbrev action_on : Text → List ℕ → Action
action_on what claims = record {
  owner = codes "Growth";
  action = what;
  success_measure = [];
  claim_ids = claims;
  observation_ids = [];
}

-- An action that cites an unknown claim among others, and one that cites nothing known.
abbrev raw : Content
raw = record {
  why_it_matters = codes " Creatine is discussed widely. ";
  limits = [];
  actions =
      action_on (codes "Publish an article") (12 ∷ 99 ∷ 12 ∷ [])
      ∷ action_on (codes "Launch") (5 ∷ [])
      ∷ [];
  products = codes "magmind" ∷ codes "Vitamin D" ∷ [];
  cited_claim_ids = 11 ∷ 5 ∷ [];
}

abbrev kept : Content
kept = record {
  why_it_matters = codes "Creatine is discussed widely.";
  limits = [];
  actions =
      record {
        owner = codes "Brand";
        action = codes "Publish an article";
        success_measure = [];
        claim_ids = 12 ∷ [];
        observation_ids = [];
      }
      ∷ [];
  products = codes "MagMind" ∷ [];
  cited_claim_ids = 11 ∷ 12 ∷ [];
}

abbrev dropped : Validation
dropped = record {
  invented_claim_ids = 99 ∷ 5 ∷ [];
  invented_observation_ids = [];
  uncited_actions = 1;
  unknown_products = codes "Vitamin D" ∷ [];
}

raw_validated : validate grounds raw ≡ ok (kept, dropped)
unfolding validate
raw_validated = refl

abbrev first_draft : Recommendation
first_draft = new_recommendation (kept, dropped)

abbrev operator : Text
operator = codes "ana"

abbrev second : Recommendation
second = record first_draft {
  state = edited;
  edited_by_label = operator;
  audits = was_drafted dropped ∷ was_edited operator ∷ [];
}

abbrev third : Recommendation
third = record second {
  state = approved;
  decided_by_label = operator;
  audits = was_drafted dropped ∷ was_edited operator ∷ was_approved operator ∷ [];
}

abbrev fourth : Recommendation
fourth = record third {
  state = edited;
  decision_note = codes "wrong dose";
  audits =
      was_drafted dropped
      ∷ was_edited operator
      ∷ was_approved operator
      ∷ was_withdrawn operator
      ∷ [];
}

edited_run : edit grounds first_draft raw operator ≡ ok second
unfolding edit validate
edited_run = refl

decided_run : decide second true operator [] ≡ ok third
unfolding decide
decided_run = refl

withdrawn_run : withdraw third operator (codes " wrong dose") ≡ ok fourth
unfolding withdraw
withdrawn_run = refl

Reach-IsReviewed_example : IsReviewed grounds fourth
Reach-IsReviewed_example =
    Reach-IsReviewed grounds first_draft fourth
      (validate-IsGrounded grounds raw kept dropped raw_validated, (dropped, [], refl, refl), tt)
      (next
        (next (next here (edits raw operator edited_run)) (decides true operator [] decided_run))
        (withdraws operator (codes " wrong dose") withdrawn_run))

abbrev empty : Books
empty = record { runs = []; ledger = []; alerts = [] }

abbrev model : Books → Ending Proposal × Books
model b = (returned (record { decline_reason = []; content = raw }), b)

abbrev table : List Row
table = record { organization = 1; signal = 3; recommendation = first_draft } ∷ []

draft_run :
    (draft_for (some grounds) 1 4 table model empty).0
    ≡ ok (
      drafted first_draft,
      table ++ record { organization = 1; signal = 4; recommendation = first_draft } ∷ [],
    )
unfolding draft_for validate
draft_run = refl

draft_for-IsSoleDraft_example :
    (g : Grounds) × (some grounds ≡ some g)
    × ((is_empty g.claim_ids && is_empty g.observation_ids) ≡ false)
    × (any (is_current_for 1 4) table ≡ false)
    × IsSoleDraft g 1 4 table (returned (record { decline_reason = []; content = raw })) (
      drafted first_draft,
      table ++ record { organization = 1; signal = 4; recommendation = first_draft } ∷ [],
    )
draft_for-IsSoleDraft_example =
    draft_for-IsSoleDraft (some grounds) 1 4 table model empty
      (
        drafted first_draft,
        table ++ record { organization = 1; signal = 4; recommendation = first_draft } ∷ [],
      )
      draft_run
