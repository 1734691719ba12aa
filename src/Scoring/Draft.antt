-- ===== src/Scoring/Draft.antt =====
-- `draft` of apps/scoring/recommendations.py: a recommendation drafted by a model, or declined.
use trend_engine_backend.Base.{
  ℕ, Bool, true, false, not, ◌&&◌, Option, none, some, List, [], ◌∷◌, ◌++◌, any, ◌==◌,
  if◌then◌else◌, Text, is_empty, strip, Result, ok, err,
}
use trend_engine_backend.Enrichment.Costs.{Books}
use trend_engine_backend.Enrichment.Client.{Ending, returned, unknown_model, call_error}
use trend_engine_backend.Scoring.Recommend.{
  Content, Validation, Grounds, Refused, RecommendationState, proposed, rejected, Recommendation,
  was_drafted, validate,
}

-- `ProposedRecommendation`
pub record Proposal : Type 0 where
  pub decline_reason : Text
  pub content : Content

-- A row of the table of recommendations, with its client and its signal.
pub record Row : Type 0 where
  pub organization : ℕ
  pub signal : ℕ
  pub recommendation : Recommendation

-- `OPEN_STATES`
abbrev pub is_current : RecommendationState → Bool
is_current rejected = false
is_current state = true

abbrev pub is_current_for : ℕ → ℕ → Row → Bool
is_current_for organization signal row =
    (row.organization == organization)
    && ((row.signal == signal) && is_current row.recommendation.state)

-- Why nothing is drafted: a RecommendationError of `draft` or of `validate`, or an exception that the
-- call raises and `draft` does not catch.
pub data DraftRefused : Type 0 where
  no_profile already_open no_evidence drafting_failed : DraftRefused
  not_validated : Refused → DraftRefused
  not_caught : DraftRefused

-- `Drafted`
pub data Drafted : Type 0 where
  drafted : Recommendation → Drafted
  declined : Text → Drafted

abbrev pub new_recommendation : Content × Validation → Recommendation
new_recommendation (content, validation) = record {
  state = proposed;
  content = content;
  validation = validation;
  edited_by_label = [];
  decided_by_label = [];
  decision_note = [];
  audits = was_drafted validation ∷ [];
}

abbrev pub stored_draft :
    ℕ
    → ℕ
    → List Row
    → Result Refused (Content × Validation)
    → Result DraftRefused (Drafted × List Row)
stored_draft organization signal rows (err why) = err (not_validated why)
stored_draft organization signal rows (ok kept) =
    let r = new_recommendation kept in
    ok (
      drafted r,
      rows ++ record { organization = organization; signal = signal; recommendation = r } ∷ [],
    )

abbrev pub settle_draft :
    Grounds → ℕ → ℕ → List Row → Ending Proposal → Result DraftRefused (Drafted × List Row)
settle_draft g organization signal rows (returned p) =
    if not (is_empty (strip p.decline_reason)) && is_empty p.content.actions
    then ok (declined (strip p.decline_reason), rows)
    else stored_draft organization signal rows (validate g p.content)
settle_draft g organization signal rows unknown_model = err not_caught
settle_draft g organization signal rows call_error = err not_caught
settle_draft g organization signal rows ending = err drafting_failed

-- `draft`: the ground it may stand on is none where the client has no live profile, and the model is a
-- function of the books.
unfoldable pub draft_for :
    Option Grounds
    → ℕ
    → ℕ
    → List Row
    → (Books → Ending Proposal × Books)
    → Books
    → Result DraftRefused (Drafted × List Row) × Books
unfolding validate
draft_for none organization signal rows model b = (err no_profile, b)
draft_for (some g) organization signal rows model b =
    if any (is_current_for organization signal) rows
    then (err already_open, b)
    else if is_empty g.claim_ids && is_empty g.observation_ids
    then (err no_evidence, b)
    else (let (ending, b') = model b in (settle_draft g organization signal rows ending, b'))
