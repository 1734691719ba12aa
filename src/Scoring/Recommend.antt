-- ===== src/Scoring/Recommend.antt =====
-- apps/scoring/recommendations.py: what is kept of a proposed recommendation, and its review by an
-- operator.
use trend_engine_backend.Base.{
  ℕ, suc, Bool, true, false, not, ◌&&◌, ◌||◌, Option, none, some, List, [], ◌∷◌, ◌++◌, any, filter,
  mem_nat, distinct, take, if◌then◌else◌, Text, codes, eq_text, is_empty, lower, strip, Result, ok,
  err, ◌>>=◌,
}

-- `ProposedAction`, and an action as it is stored.
pub record Action : Type 0 where
  pub owner : Text
  pub action : Text
  pub success_measure : Text
  pub claim_ids : List ℕ
  pub observation_ids : List ℕ

-- `ProposedRecommendation`, less the reason to decline, or the content of a stored recommendation.
pub record Content : Type 0 where
  pub why_it_matters : Text
  pub limits : Text
  pub actions : List Action
  pub products : List Text
  pub cited_claim_ids : List ℕ

-- The dictionary `validation`.
pub record Validation : Type 0 where
  pub invented_claim_ids : List ℕ
  pub invented_observation_ids : List ℕ
  pub uncited_actions : ℕ
  pub unknown_products : List Text

-- The reasons of RecommendationError.
pub data Refused : Type 0 where
  no_action_survived no_why not_open already_decided no_reject_reason not_approved
        no_withdraw_reason :
      Refused

-- `OWNERS`
abbrev pub owners : List Text
owners =
    codes "Content/SEO"
    ∷ codes "Ecommerce"
    ∷ codes "Scientific/Legal"
    ∷ codes "Innovation"
    ∷ codes "Brand"
    ∷ []

abbrev pub owner_or_brand : Text → Text
owner_or_brand s = if any (λ o. eq_text o s) owners then s else codes "Brand"

abbrev pub kept_of : List ℕ → List ℕ → List ℕ
kept_of allowed ids = filter (λ i. mem_nat i allowed) (distinct ids)

abbrev invented_of : List ℕ → List ℕ → List ℕ
invented_of allowed ids = filter (λ i. not (mem_nat i allowed)) (distinct ids)

-- What a recommendation may rest on: the claims and observations of its signal, the products of its
-- client's profile.
pub record Grounds : Type 0 where
  pub claim_ids : List ℕ
  pub observation_ids : List ℕ
  pub product_names : List Text

abbrev pub keep_action : Grounds → Action → List Action × Validation → List Action × Validation
keep_action g a (rest, v) =
    let kept = kept_of g.claim_ids a.claim_ids in
    let kept_obs = kept_of g.observation_ids a.observation_ids in
    let v' : Validation = record v {
      invented_claim_ids = invented_of g.claim_ids a.claim_ids ++ v.invented_claim_ids;
      invented_observation_ids =
          invented_of g.observation_ids a.observation_ids ++ v.invented_observation_ids;
    } in
    let stored : Action = record {
      owner = owner_or_brand (strip a.owner);
      action = strip a.action;
      success_measure = strip a.success_measure;
      claim_ids = kept;
      observation_ids = kept_obs;
    } in
    if (is_empty kept && is_empty kept_obs) || is_empty (strip a.action)
    then (rest, record v' { uncited_actions = suc v.uncited_actions })
    else (stored ∷ rest, v')

abbrev pub no_validation : Validation
no_validation = record {
  invented_claim_ids = [];
  invented_observation_ids = [];
  uncited_actions = 0;
  unknown_products = [];
}

-- The loop over the actions.
abbrev pub keep_actions : Grounds → List Action → List Action × Validation
keep_actions g [] = ([], no_validation)
keep_actions g (a ∷ as') = keep_action g a (keep_actions g as')

-- `canonical.get(name)`: of two names that differ only in case the dictionary keeps the last.
abbrev pub canonical_name : List Text → Text → Option Text
canonical_name [] name = none
canonical_name (n ∷ ns) name =
    let later = canonical_name ns name in
    elim later [ some m ↦ some m | none ↦ if eq_text (lower n) name then some n else none ]

abbrev pub add_product : Text → Option Text → List Text × List Text → List Text × List Text
add_product name none (products, unknown) = (products, unknown ++ name ∷ [])
add_product name (some match_) (products, unknown) =
    if any (λ p. eq_text p match_) products
    then (products, unknown)
    else (products ++ match_ ∷ [], unknown)

-- The loop over the products: those of the profile, and those that are not in it.
abbrev pub keep_products : List Text → List Text → List Text × List Text → List Text × List Text
keep_products names [] found = found
keep_products names (p ∷ ps) found =
    keep_products names ps (add_product p (canonical_name names (lower (strip p))) found)

-- `cited += [i for i in action["claim_ids"] if i not in cited]` for each action.
abbrev pub cite_actions : List Action → List ℕ → List ℕ
cite_actions [] cited = cited
cite_actions (a ∷ as') cited =
    cite_actions as' (cited ++ filter (λ i. not (mem_nat i cited)) a.claim_ids)

-- `MAX_ACTIONS`
abbrev pub max_actions : ℕ
max_actions = 4

abbrev pub validated :
    Grounds
    → Content
    → List Action × Validation
    → List Text × List Text
    → Result Refused (Content × Validation)
validated g raw ([], v) found = err no_action_survived
validated g raw (a ∷ as', v) (products, unknown) =
    if is_empty (strip raw.why_it_matters)
    then err no_why
    else ok (
      record {
        why_it_matters = strip raw.why_it_matters;
        limits = strip raw.limits;
        actions = a ∷ as';
        products = products;
        cited_claim_ids = cite_actions (a ∷ as') (kept_of g.claim_ids raw.cited_claim_ids);
      },
      record v { unknown_products = unknown },
    )

-- `validate`
unfoldable pub validate : Grounds → Content → Result Refused (Content × Validation)
validate g raw =
    validated g raw (keep_actions g (take max_actions raw.actions))
      (keep_products g.product_names raw.products ([], []))

-- `Recommendation.State`
pub data RecommendationState : Type 0 where
  proposed edited approved rejected : RecommendationState

-- The messages of `_audit`: who acted, and for a draft its validation.
pub data ReviewAudit : Type 0 where
  was_drafted : Validation → ReviewAudit
  was_edited was_approved was_rejected was_withdrawn : Text → ReviewAudit

-- `Recommendation`, with its audit rows.
pub record Recommendation : Type 0 where
  pub state : RecommendationState
  pub content : Content
  pub validation : Validation
  pub edited_by_label : Text
  pub decided_by_label : Text
  pub decision_note : Text
  pub audits : List ReviewAudit

abbrev pub is_open : RecommendationState → Bool
is_open proposed = true
is_open edited = true
is_open approved = false
is_open rejected = false

abbrev pub is_approved : RecommendationState → Bool
is_approved approved = true
is_approved state = false

abbrev pub edited_as : Recommendation → Text → Content × Validation → Recommendation
edited_as r actor (content, validation) = record r {
  content = content;
  validation = validation;
  state = edited;
  edited_by_label = actor;
  audits = r.audits ++ was_edited actor ∷ [];
}

-- `edit`
unfoldable pub edit : Grounds → Recommendation → Content → Text → Result Refused Recommendation
unfolding validate
edit g r raw actor =
    if is_open r.state
    then (validate g raw >>= λ kept. ok (edited_as r actor kept))
    else err not_open

-- `decide`
unfoldable pub decide : Recommendation → Bool → Text → Text → Result Refused Recommendation
decide r approve actor note =
    let decided : Recommendation = record r {
      state = if approve then approved else rejected;
      decided_by_label = actor;
      decision_note = strip note;
      audits = r.audits ++ (if approve then was_approved actor else was_rejected actor) ∷ [];
    } in
    if not (is_open r.state)
    then err already_decided
    else if not approve && is_empty (strip note)
    then err no_reject_reason
    else ok decided

-- `withdraw`
unfoldable pub withdraw : Recommendation → Text → Text → Result Refused Recommendation
withdraw r actor note =
    let taken_back : Recommendation = record r {
      state = edited;
      decision_note = strip note;
      audits = r.audits ++ was_withdrawn actor ∷ [];
    } in
    if not (is_approved r.state)
    then err not_approved
    else if is_empty (strip note)
    then err no_withdraw_reason
    else ok taken_back
