-- ===== src/Enrichment/Costs.antt =====
-- apps/enrichment/llm/costs.py, with the rows of the cost ledger. The ledger and the caps are in
-- millionths of a dollar, the scale of the column; an estimate is in hundred-millionths. A cap of 0
-- stands for one that is not set.
use trend_engine_backend.Base.{
  ℕ, ◌+◌, ◌*◌, Bool, ◌&&◌, Option, none, some, List, [], ◌∷◌, ◌++◌, filter, sum_of, ltb, leb,
  if◌then◌else◌, Text, codes, eq_text,
}
use trend_engine_backend.Enrichment.Pricing.{Tokens}

-- `CostEvent`; `month` is the calendar month of its `at`.
pub record CostEvent : Type 0 where
  pub month : ℕ
  pub provider : Text
  pub source_id : Text
  pub run_id : ℕ
  pub model : Text
  pub units : Tokens
  pub estimated_usd : ℕ

pub data Outcome : Type 0 where
  succeeded refused invalid errored capped : Outcome

-- `ModelRun`, without the texts that explain it.
pub record ModelRun : Type 0 where
  pub pk : ℕ
  pub purpose : Text
  pub outcome : Outcome
  pub model : Text
  pub tokens : Tokens
  pub cost_usd : ℕ

-- `_alert`
pub record Alert : Type 0 where
  pub purpose : Text
  pub spent : ℕ
  pub cap : ℕ

pub record Books : Type 0 where
  pub runs : List ModelRun
  pub ledger : List CostEvent
  pub alerts : List Alert

-- `Budget`
pub record Budget : Type 0 where
  pub spent : ℕ
  pub cap : ℕ

pub record Caps : Type 0 where
  pub monthly_cap : ℕ
  pub per_call_max : ℕ

abbrev pub llm_provider : Text
llm_provider = codes "llm"

abbrev pub is_spend_of : ℕ → Text → CostEvent → Bool
is_spend_of month provider e = eq_text e.provider provider && leb month e.month

-- `spend_this_month`
unfoldable pub spend_this_month : ℕ → Text → List CostEvent → ℕ
spend_this_month month provider ledger =
    sum_of (λ (e : CostEvent). e.estimated_usd) (filter (is_spend_of month provider) ledger)

-- `budget`
abbrev pub budget : Caps → ℕ → Text → Books → Budget
budget caps month provider b = record {
  spent = spend_this_month month provider b.ledger;
  cap = caps.monthly_cap;
}

-- `Budget.is_warning`: four fifths of the cap.
abbrev pub is_warning : Budget → Bool
is_warning b = ltb 0 b.cap && leb (8 * b.cap) (10 * b.spent)

abbrev pub alerted : Text → Budget → Books → Books
alerted purpose current b = record b {
  alerts = b.alerts ++ record { purpose = purpose; spent = current.spent; cap = current.cap } ∷ [];
}

-- `check_or_raise`: no budget where it raises CostCapExceeded.
unfoldable pub check_or_raise : Caps → ℕ → ℕ → Text → Text → Books → Option Budget × Books
check_or_raise caps month estimated purpose provider b =
    let current = budget caps month provider b in
    if leb current.cap 0
    then (some current, b)
    else if ltb 0 caps.per_call_max && ltb (100 * caps.per_call_max) estimated
    then (none, b)
    else if ltb (100 * current.cap) (100 * current.spent + estimated)
    then (none, alerted purpose current b)
    else (some current, b)
