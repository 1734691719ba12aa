-- ===== src/Enrichment/Cached.antt =====
-- How far the calls of apps/enrichment/llm/client.py that write to the prompt cache can take a month's
-- spend over the cap.
use trend_engine_backend.Base.{
  ℕ, ◌+◌, ◌*◌, ◌/◌, ◌≤◌, ◌<◌, ◌≡◌, refl, ap, true, false, Option, none, some, arith, Option-cases,
  inl, inr,
}
use trend_engine_backend.Enrichment.Pricing.{
  Rates, Tokens, rates_for, rates_for-Plausible, price, cost_of, estimate,
}
use trend_engine_backend.Enrichment.Costs.{
  succeeded, refused, invalid, errored, Outcome, Books, Budget, Caps, llm_provider, check_or_raise,
  spend_this_month,
}
use trend_engine_backend.Enrichment.Client.{
  Call, Answer, not_valid, call_failed, response, structured, record_call, settle, guarded,
  no_tokens,
}
use trend_engine_backend.Enrichment.Estimates.{IsPrompted, price_le-quarter_over}
use trend_engine_backend.Enrichment.Cap.{
  record_call-spend, worst_of, capped-spend, Guarded, check_or_raise-Guarded,
}

-- An answer to a call whose prompt takes at most so many tokens, however the prompt cache serves them.
abbrev pub AnswersPrompt : {A : Type 0} → Call → ℕ → Answer A → Type 0
AnswersPrompt call approx (not_valid cut characters) = characters / 4 ≤ call.tier.max_output_tokens
AnswersPrompt call approx (call_failed no_credentials) = Unit {0}
AnswersPrompt call approx (response usage declined parsed) =
    IsPrompted approx call.tier.max_output_tokens usage

-- A month's spend that is over the cap by a quarter of it at most, half a millionth of a dollar aside.
abbrev pub IsQuarterOver : Caps → ℕ → Books → Type 0
IsQuarterOver caps month b =
    4 * spend_this_month month llm_provider b.ledger ≤ 5 * caps.monthly_cap + 2

module _ (to_ledger : ℕ → ℕ) (nearest : (x : ℕ) → 100 * to_ledger x ≤ x + 50) where
  -- What a call leaves of the books: five quarters of its estimate more, to the nearest millionth.
  abbrev IsCharged : Call → ℕ → Rates → Books → Books → Type 0
  IsCharged call approx r b b' =
      400 * spend_this_month call.month llm_provider b'.ledger
      ≤ 400 * spend_this_month call.month llm_provider b.ledger
        + 5 * worst_of to_ledger nearest r call approx
        + 200

  recorded-IsCharged :
      (call : Call) (outcome : Outcome) (approx : ℕ) (t : Tokens) (b : Books) (r : Rates)
      → rates_for call.tier.model ≡ some r
      → IsPrompted approx call.tier.max_output_tokens t
      → IsCharged call approx r b (record_call to_ledger call outcome t b)
  unfolding cost_of
  recorded-IsCharged call outcome approx t b r h prompted =
      let cost : cost_of call.tier.model t ≡ some (price r t) = rw h refl in
      omega (
        arith,
        record_call-spend to_ledger nearest call outcome t b (price r t) cost,
        price_le-quarter_over r approx call.tier.max_output_tokens t
            (rates_for-Plausible call.tier.model r h) prompted,
      )

  settle-IsCharged :
      {A : Type 0} (call : Call) (approx : ℕ) (answer : Answer A) (b : Books) (r : Rates)
      → rates_for call.tier.model ≡ some r
      → AnswersPrompt call approx answer
      → IsCharged call approx r b (settle to_ledger call approx answer b).1
  settle-IsCharged call approx (not_valid cut characters) b r h within =
      recorded-IsCharged call invalid approx
        (record no_tokens { input_tokens = approx; output_tokens = characters / 4 }) b r h
        (omega arith, within)
  settle-IsCharged call approx (call_failed no_credentials) b r h within =
      recorded-IsCharged call errored approx no_tokens b r h (omega arith, omega arith)
  settle-IsCharged call approx (response usage true parsed) b r h within =
      recorded-IsCharged call refused approx usage b r h within
  settle-IsCharged call approx (response usage false none) b r h within =
      recorded-IsCharged call invalid approx usage b r h within
  settle-IsCharged call approx (response usage false (some a)) b r h within =
      recorded-IsCharged call succeeded approx usage b r h within

  guarded-IsQuarterOver :
      {A : Type 0} (caps : Caps) (call : Call) (approx : ℕ) (answer : Answer A) (b : Books)
      (r : Rates) (checked : Option Budget × Books)
      → rates_for call.tier.model ≡ some r
      → AnswersPrompt call approx answer
      → IsQuarterOver caps call.month b
      → Guarded to_ledger nearest caps call (worst_of to_ledger nearest r call approx) b checked
      → IsQuarterOver caps call.month (guarded to_ledger call approx answer checked).1
  guarded-IsQuarterOver caps call approx answer b r (none, b') h within below same =
      let before = ap (spend_this_month call.month llm_provider) same in
      omega (arith, before, capped-spend to_ledger nearest call b' r h)
  guarded-IsQuarterOver caps call approx answer b r (some current, b') h within below (same, fits) =
      let before = ap (λ (x : Books). spend_this_month call.month llm_provider x.ledger) same in
      omega (arith, before, settle-IsCharged call approx answer b' r h within)

  -- One call, through the guard.
  pub structured-IsQuarterOver :
      {A : Type 0} (caps : Caps) (call : Call) (approx : ℕ) (answer : Answer A) (b : Books)
      → 0 < caps.monthly_cap
      → AnswersPrompt call approx answer
      → IsQuarterOver caps call.month b
      → IsQuarterOver caps call.month (structured to_ledger caps call approx answer b).1
  unfolding structured estimate cost_of
  structured-IsQuarterOver caps call approx answer b metered within below =
      elim (Option-cases (rates_for call.tier.model)) [
        | inl e ↦ rw e below
        | inr (r, e) ↦
            (let worst = worst_of to_ledger nearest r call approx in
              rw e (
                guarded-IsQuarterOver caps call approx answer b r
                  (check_or_raise caps call.month worst call.purpose llm_provider b) e within below
                  (check_or_raise-Guarded to_ledger nearest caps call worst b metered)))
      ]
