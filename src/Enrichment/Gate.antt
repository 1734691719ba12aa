-- ===== src/Enrichment/Gate.antt =====
-- apps/enrichment/gate.py: whether an item is worth a transcript. What counts as a letter, `str.isalpha`, is
-- an argument, and so is whether a rejection falls into the sample.
use trend_engine_backend.Base.{
  ℕ, ◌*◌, Bool, true, false, not, ◌&&◌, [], ◌∷◌, ◌++◌, filter, length, take, ltb, if◌then◌else◌,
  Text, codes, eq_text, lower, Result, ok, err,
}
use trend_engine_backend.Evidence.Items.{
  ContentItem, GateDecision, pending, relevant, rejected, sampled,
}
use trend_engine_backend.Enrichment.Costs.{Books}
use trend_engine_backend.Enrichment.Client.{Ending, returned, unknown_model, call_error}
use trend_engine_backend.Enrichment.Claims.{Uncaught, no_price, other_error}

-- `GateVerdict`
pub record GateVerdict : Type 0 where
  pub is_relevant : Bool
  pub reason : Text
  pub confidence : ℕ

-- `GateResult`, less its reason.
pub record GateResult : Type 0 where
  pub decision : GateDecision
  pub confidence : ℕ
  pub was_sampled : Bool

abbrev pub is_pending : GateDecision → Bool
is_pending pending = true
is_pending decision = false

-- `(config.get("language") or "en").lower()`
abbrev expected_language : Text → Text
expected_language [] = codes "en"
expected_language (x ∷ xs) = lower (x ∷ xs)

module _ (is_alpha : ℕ → Bool) where
  abbrev letters : ContentItem → Text
  letters item = filter is_alpha (item.title ++ (b' ' ∷ take 300 item.description))

  -- `language_mismatch`, as far as it gives a reason: of at least eight letters more than three tenths lie
  -- beyond the Latin alphabets.
  unfoldable pub language_mismatch : ContentItem → Bool
  language_mismatch item =
      if not (eq_text (expected_language item.language) (codes "en"))
      then false
      else if ltb (length (letters item)) 8
      then false
      else ltb (3 * length (letters item)) (10 * length (filter (λ c. ltb 591 c) (letters item)))

  abbrev decided : Bool → Bool → GateDecision
  decided true in_sample = relevant
  decided false in_sample = if in_sample then sampled else rejected

  abbrev pub with_decision : GateDecision → Text → ContentItem → ContentItem
  with_decision decision reason item = record item {
    gate_decision = decision;
    gate_reason = reason;
  }

  abbrev result_of : GateDecision → ℕ → Bool → GateResult
  result_of decision confidence was_sampled = record {
    decision = decision;
    confidence = confidence;
    was_sampled = was_sampled;
  }

  -- What follows the model's answer.
  abbrev pub settle_verdict :
      Bool
      → ContentItem
      → Ending GateVerdict × Books
      → Result Uncaught GateResult × ContentItem × Books
  settle_verdict in_sample item (returned v, b) = (
    ok (result_of (decided v.is_relevant in_sample) v.confidence (not v.is_relevant && in_sample)),
    with_decision (decided v.is_relevant in_sample) v.reason item,
    b,
  )
  settle_verdict in_sample item (unknown_model, b) = (err no_price, item, b)
  settle_verdict in_sample item (call_error, b) = (err other_error, item, b)
  settle_verdict in_sample item (ending, b) = (ok (result_of pending 0 false), item, b)

  -- `assess`
  unfoldable pub assess :
      (Books → Ending GateVerdict × Books)
      → Bool
      → ContentItem
      → Books
      → Result Uncaught GateResult × ContentItem × Books
  unfolding language_mismatch
  assess model in_sample item b =
      if not (is_pending item.gate_decision)
      then (ok (result_of item.gate_decision 0 false), item, b)
      else if language_mismatch item
      then (
        ok (result_of rejected 100 false),
        with_decision rejected (codes "Not in English") item,
        b,
      )
      else settle_verdict in_sample item (model b)

abbrev pub passes : GateDecision → Bool
passes pending = false
passes relevant = true
passes rejected = false
passes sampled = true

-- `needs_transcript`
abbrev pub needs_transcript : ContentItem → Bool
needs_transcript item = passes item.gate_decision
