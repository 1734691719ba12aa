-- ===== src/Enrichment/Cap.antt =====
-- That the monthly cap of apps/enrichment/llm/costs.py holds, which it does for calls that cost no more
-- than was estimated.
use native.Mathlib.Nat.{zero-mul}
use trend_engine_backend.Base.{
  length, ℕ, suc, ◌+◌, ◌*◌, ◌/◌, ◌≤◌, ◌<◌, ◌≡◌, refl, sym, ap, subst, true, false, ◌&&◌, Option,
  none, some, List, [], ◌∷◌, ◌++◌, All, ltb, leb, if◌then◌else◌, arith, Bool-cases, Option-cases,
  inl, inr,
}
use trend_engine_backend.Enrichment.Pricing.{
  Rates, Tokens, rates_for, rates_for-Plausible, price, cost_of, estimate,
}
use trend_engine_backend.Enrichment.Costs.{
  succeeded, refused, invalid, errored, capped, CostEvent, Outcome, Books, Budget, Caps,
  llm_provider, check_or_raise, spend_this_month, is_spend_of,
}
use trend_engine_backend.Enrichment.Client.{
  Call, Answer, not_valid, call_failed, response, structured, record_call, settle, guarded,
  no_tokens,
}
use trend_engine_backend.Enrichment.Estimates.{IsWithin, AnswersWithin, price_le}

spend-append :
    (month : ℕ) (es : List CostEvent) (e : CostEvent)
    → spend_this_month month llm_provider (es ++ e ∷ [])
      ≡ spend_this_month month llm_provider es
        + (if is_spend_of month llm_provider e then e.estimated_usd else 0)
unfolding spend_this_month
spend-append month [] e = ground arith
spend-append month (d ∷ ds) e = ground (arith, spend-append month ds e)

-- A call with its number of input tokens and what came of it.
abbrev pub Exchange : Type 0 → Type 0
Exchange A = Call × (ℕ × Answer A)

abbrev pub IsPriced : {A : Type 0} → ℕ → Exchange A → Type 0
IsPriced month (call, (approx, answer)) = (call.month ≡ month) × AnswersWithin call approx answer

module _ (to_ledger : ℕ → ℕ) where
  -- The books after calls, one after the other.
  unfoldable pub books_after : {A : Type 0} → Caps → List (Exchange A) → Books → Books
  books_after caps [] b = b
  books_after caps ((call, (approx, answer)) ∷ rest) b =
      books_after caps rest (structured to_ledger caps call approx answer b).1

module _ (to_ledger : ℕ → ℕ) (nearest : (x : ℕ) → 100 * to_ledger x ≤ x + 50) where
  -- A recorded call adds at most what it cost, to the nearest millionth.
  pub record_call-spend :
      (call : Call) (outcome : Outcome) (t : Tokens) (b : Books) (cost : ℕ)
      → cost_of call.tier.model t ≡ some cost
      → 100
          * spend_this_month call.month llm_provider (record_call to_ledger call outcome t b).ledger
        ≤ 100 * spend_this_month call.month llm_provider b.ledger + cost + 50
  unfolding record_call
  record_call-spend call outcome t b cost h =
      let row : ℕ → CostEvent = λ c. record {
        month = call.month;
        provider = llm_provider;
        source_id = call.purpose;
        run_id = suc (length b.runs);
        model = call.tier.model;
        units = t;
        estimated_usd = to_ledger c;
      } in
      elim (Bool-cases (ltb 0 cost)) [
        | inl paid ↦
            rw (h, paid) (ground (arith, spend-append call.month b.ledger (row cost), nearest cost))
        | inr free ↦ rw (h, free) (omega arith)
      ]

  -- The estimate of a call, where its model has a price.
  abbrev pub worst_of : Rates → Call → ℕ → ℕ
  worst_of r call approx =
      price r
        (record no_tokens { input_tokens = approx; output_tokens = call.tier.max_output_tokens })

  recorded_within :
      (call : Call) (outcome : Outcome) (approx : ℕ) (t : Tokens) (b : Books) (r : Rates)
      → rates_for call.tier.model ≡ some r
      → IsWithin call approx t
      → 100
          * spend_this_month call.month llm_provider (record_call to_ledger call outcome t b).ledger
        ≤ 100 * spend_this_month call.month llm_provider b.ledger + worst_of r call approx + 50
  unfolding cost_of
  recorded_within call outcome approx t b r h within =
      let cost : cost_of call.tier.model t ≡ some (price r t) = rw h refl in
      omega (
        arith,
        record_call-spend call outcome t b (price r t) cost,
        price_le r call approx t (rates_for-Plausible call.tier.model r h).0 within,
      )

  settle-spend :
      {A : Type 0} (call : Call) (approx : ℕ) (answer : Answer A) (b : Books) (r : Rates)
      → rates_for call.tier.model ≡ some r
      → AnswersWithin call approx answer
      → 100
          * spend_this_month call.month llm_provider
              (settle to_ledger call approx answer b).1.ledger
        ≤ 100 * spend_this_month call.month llm_provider b.ledger + worst_of r call approx + 50
  settle-spend call approx (not_valid cut characters) b r h within =
      recorded_within call invalid approx
        (record no_tokens { input_tokens = approx; output_tokens = characters / 4 }) b r h
        (omega arith, within, refl)
  settle-spend call approx (call_failed no_credentials) b r h within =
      recorded_within call errored approx no_tokens b r h (omega arith, omega arith, refl)
  settle-spend call approx (response usage true parsed) b r h within =
      recorded_within call refused approx usage b r h within
  settle-spend call approx (response usage false none) b r h within =
      recorded_within call invalid approx usage b r h within
  settle-spend call approx (response usage false (some a)) b r h within =
      recorded_within call succeeded approx usage b r h within

  pub capped-spend :
      (call : Call) (b : Books) (r : Rates)
      → rates_for call.tier.model ≡ some r
      → spend_this_month call.month llm_provider
          (record_call to_ledger call capped no_tokens b).ledger
        ≤ spend_this_month call.month llm_provider b.ledger
  unfolding cost_of
  capped-spend call b r h =
      let free : cost_of call.tier.model no_tokens ≡ some 0 = rw h (
        ap some (
          omega (
            arith,
            zero-mul r.input,
            zero-mul r.output,
            zero-mul r.cache_read,
            zero-mul r.cache_write,
          ))) in
      omega (arith, record_call-spend call capped no_tokens b 0 free)

  -- The guard lets a call through only where the estimate fits under the cap, and changes no ledger.
  abbrev pub Guarded : Caps → Call → ℕ → Books → Option Budget × Books → Type 0
  Guarded caps call worst b (none, b') = b'.ledger ≡ b.ledger
  Guarded caps call worst b (some current, b') =
      (b' ≡ b)
      × (100 * spend_this_month call.month llm_provider b.ledger + worst ≤ 100 * caps.monthly_cap)

  pub check_or_raise-Guarded :
      (caps : Caps) (call : Call) (worst : ℕ) (b : Books)
      → 0 < caps.monthly_cap
      → Guarded caps call worst b (check_or_raise caps call.month worst call.purpose llm_provider b)
  unfolding check_or_raise
  check_or_raise-Guarded caps call worst b metered =
      let spent = spend_this_month call.month llm_provider b.ledger in
      let metered' : leb caps.monthly_cap 0 ≡ false = ground arith in
      elim (Bool-cases (ltb 0 caps.per_call_max && ltb (100 * caps.per_call_max) worst)) [
        | inl e ↦ rw (metered', e) refl
        | inr e ↦ elim (Bool-cases (ltb (100 * caps.monthly_cap) (100 * spent + worst))) [
          | inl f ↦ rw (metered', e, f) refl
          | inr f ↦ rw (metered', e, f) (refl, ground arith)
        ]
      ]

  guarded-spend :
      {A : Type 0} (caps : Caps) (call : Call) (approx : ℕ) (answer : Answer A) (b : Books)
      (r : Rates) (checked : Option Budget × Books)
      → rates_for call.tier.model ≡ some r
      → AnswersWithin call approx answer
      → spend_this_month call.month llm_provider b.ledger ≤ caps.monthly_cap
      → Guarded caps call (worst_of r call approx) b checked
      → spend_this_month call.month llm_provider
          (guarded to_ledger call approx answer checked).1.ledger
        ≤ caps.monthly_cap
  guarded-spend caps call approx answer b r (none, b') h within below same =
      let before = ap (spend_this_month call.month llm_provider) same in
      omega (arith, before, capped-spend call b' r h)
  guarded-spend caps call approx answer b r (some current, b') h within below (same, fits) =
      let before = ap (λ (x : Books). spend_this_month call.month llm_provider x.ledger) same in
      omega (arith, before, settle-spend call approx answer b' r h within)

  -- One call, through the guard: the spend of its month stays under the cap.
  structured-le-cap :
      {A : Type 0} (caps : Caps) (call : Call) (approx : ℕ) (answer : Answer A) (b : Books)
      → 0 < caps.monthly_cap
      → AnswersWithin call approx answer
      → spend_this_month call.month llm_provider b.ledger ≤ caps.monthly_cap
      → spend_this_month call.month llm_provider
          (structured to_ledger caps call approx answer b).1.ledger
        ≤ caps.monthly_cap
  unfolding structured estimate cost_of
  structured-le-cap caps call approx answer b metered within below =
      elim (Option-cases (rates_for call.tier.model)) [
        | inl e ↦ rw e below
        | inr (r, e) ↦ rw e (
            guarded-spend caps call approx answer b r
              (check_or_raise caps call.month (worst_of r call approx) call.purpose llm_provider b)
              e within below (check_or_raise-Guarded caps call (worst_of r call approx) b metered))
      ]

  -- Where a monthly cap is set, the ledger rounds to the nearest millionth, and the answers use no
  -- more tokens than their estimates priced, none of them written to the prompt cache, no sequence
  -- of model calls in a month takes its spend over the cap.
  pub books_after-le-cap :
      {A : Type 0} (caps : Caps) (month : ℕ) (calls : List (Exchange A)) (b : Books)
      → 0 < caps.monthly_cap
      → All (IsPriced month) calls
      → spend_this_month month llm_provider b.ledger ≤ caps.monthly_cap
      → spend_this_month month llm_provider (books_after to_ledger caps calls b).ledger
        ≤ caps.monthly_cap
  unfolding books_after
  books_after-le-cap caps month [] b metered within below = below
  books_after-le-cap caps month ((call, (approx, answer)) ∷ rest) b metered ((same, fits), within)
        below =
      books_after-le-cap caps month rest (structured to_ledger caps call approx answer b).1 metered
        within
        (subst
          (λ m.
            spend_this_month m llm_provider
              (structured to_ledger caps call approx answer b).1.ledger
            ≤ caps.monthly_cap)
          same
          (structured-le-cap caps call approx answer b metered fits (
            subst (λ m. spend_this_month m llm_provider b.ledger ≤ caps.monthly_cap) (sym same)
              below)))
