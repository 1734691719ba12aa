-- ===== src/Enrichment/Client.antt =====
-- `LLMClient.structured` of apps/enrichment/llm/client.py: the one path on which a model is called.
-- What the service answers is an argument, and so is how the database rounds an amount to the scale
-- of the ledger.
use trend_engine_backend.Base.{
  ℕ, suc, ◌/◌, Bool, true, false, Option, none, some, [], ◌∷◌, ◌++◌, length, ltb, if◌then◌else◌,
  Text,
}
use trend_engine_backend.Enrichment.Pricing.{Tokens, cost_of, estimate}
use trend_engine_backend.Enrichment.Costs.{
  Outcome, succeeded, refused, invalid, errored, capped, Books, Budget, Caps, llm_provider,
  check_or_raise,
}

-- `Tier`
pub record Tier : Type 0 where
  pub model : Text
  pub max_output_tokens : ℕ

-- The answer to `messages.parse`: a ValidationError over so many characters, any other exception,
-- LLMUnavailable among them where there are no credentials, or a response with its usage, whether it declines, and what was parsed.
pub data Answer (A : Type 0) : Type 0 where
  not_valid : (truncated : Bool) → (characters : ℕ) → Answer A
  call_failed : (no_credentials : Bool) → Answer A
  response : (usage : Tokens) → (declined : Bool) → (parsed : Option A) → Answer A

-- How `structured` ends: it returns, or raises one of its exceptions.
pub data Ending (A : Type 0) : Type 0 where
  returned : A → Ending A
  unknown_model cost_cap_exceeded truncated invalid_output unavailable call_error : Ending A

abbrev pub no_tokens : Tokens
no_tokens = record {
  input_tokens = 0;
  output_tokens = 0;
  cache_read_tokens = 0;
  cache_write_tokens = 0;
}

-- What every call of `_record` shares.
pub record Call : Type 0 where
  pub month : ℕ
  pub purpose : Text
  pub tier : Tier

module _ (to_ledger : ℕ → ℕ) where
  -- `costs.record`
  abbrev pub record_cost : Call → Tokens → ℕ → ℕ → Books → Books
  record_cost call tokens cost run b = record b {
    ledger =
        b.ledger
        ++ record {
          month = call.month;
          provider = llm_provider;
          source_id = call.purpose;
          run_id = run;
          model = call.tier.model;
          units = tokens;
          estimated_usd = to_ledger cost;
        }
          ∷ [];
  }

  abbrev with_run : Call → Outcome → Tokens → ℕ → Books → Books
  with_run call outcome tokens cost b = record b {
    runs =
        b.runs
        ++ record {
          pk = suc (length b.runs);
          purpose = call.purpose;
          outcome = outcome;
          model = call.tier.model;
          tokens = tokens;
          cost_usd = cost;
        }
          ∷ [];
  }

  abbrev recorded : Call → Outcome → Tokens → Books → Option ℕ → Books
  recorded call outcome tokens b none = b
  recorded call outcome tokens b (some cost) =
      let b' = with_run call outcome tokens cost b in
      if ltb 0 cost then record_cost call tokens cost (suc (length b.runs)) b' else b'

  -- `_record`. The model is one with a price: `structured` has priced its estimate.
  unfoldable pub record_call : Call → Outcome → Tokens → Books → Books
  unfolding cost_of
  record_call call outcome tokens b =
      recorded call outcome tokens b (cost_of call.tier.model tokens)

  abbrev pub settle : {A : Type 0} → Call → ℕ → Answer A → Books → Ending A × Books
  settle call approx (not_valid cut characters) b = (
    if cut then truncated else invalid_output,
    record_call call invalid
        (record no_tokens { input_tokens = approx; output_tokens = characters / 4 }) b,
  )
  settle call approx (call_failed no_credentials) b =
      (if no_credentials then unavailable else call_error, record_call call errored no_tokens b)
  settle call approx (response usage true parsed) b =
      (invalid_output, record_call call refused usage b)
  settle call approx (response usage false none) b =
      (invalid_output, record_call call invalid usage b)
  settle call approx (response usage false (some a)) b =
      (returned a, record_call call succeeded usage b)

  abbrev pub guarded : {A : Type 0} → Call → ℕ → Answer A → Option Budget × Books → Ending A × Books
  guarded call approx answer (none, b) = (cost_cap_exceeded, record_call call capped no_tokens b)
  guarded call approx answer (some current, b) = settle call approx answer b

  abbrev estimated : {A : Type 0} → Caps → Call → ℕ → Answer A → Books → Option ℕ → Ending A × Books
  estimated caps call approx answer b none = (unknown_model, b)
  estimated caps call approx answer b (some worst) =
      guarded call approx answer (check_or_raise caps call.month worst call.purpose llm_provider b)

  -- `LLMClient.structured`, with the approximate number of input tokens.
  unfoldable pub structured : {A : Type 0} → Caps → Call → ℕ → Answer A → Books → Ending A × Books
  unfolding record_call
  structured caps call approx answer b =
      estimated caps call approx answer b
        (estimate call.tier.model approx call.tier.max_output_tokens)
