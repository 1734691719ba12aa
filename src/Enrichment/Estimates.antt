-- ===== src/Enrichment/Estimates.antt =====
-- What the estimate of apps/enrichment/llm/pricing.py covers, and that writing to the prompt cache
-- costs more.
use native.Mathlib.Nat.{mul-le-mul_left, mul-le-mul_right, add-mul, mul-add, zero-mul}
use trend_engine_backend.Base.{ℕ, ◌+◌, ◌*◌, ◌/◌, ◌≤◌, ◌<◌, ◌≡◌, ap, ◌∙◌, refl, some, Text, arith}
use trend_engine_backend.Enrichment.Pricing.{
  Rates, Plausible, Tokens, rates_for, rates_for-Plausible, price, cost_of, estimate,
}
use trend_engine_backend.Enrichment.Client.{Call, Answer, not_valid, call_failed, response}

-- What the estimate prices: so many input tokens, fresh or read from the cache, at most the tier's
-- output, and nothing written to the cache.
abbrev pub IsWithin : Call → ℕ → Tokens → Type 0
IsWithin call approx t =
    (t.input_tokens + t.cache_read_tokens ≤ approx)
    × (t.output_tokens ≤ call.tier.max_output_tokens)
    × (t.cache_write_tokens ≡ 0)

abbrev pub AnswersWithin : {A : Type 0} → Call → ℕ → Answer A → Type 0
AnswersWithin call approx (not_valid cut characters) = characters / 4 ≤ call.tier.max_output_tokens
AnswersWithin call approx (call_failed no_credentials) = Unit {0}
AnswersWithin call approx (response usage declined parsed) = IsWithin call approx usage

pub price_le :
    (r : Rates) (call : Call) (approx : ℕ) (t : Tokens)
    → r.cache_read ≤ r.input
    → IsWithin call approx t
    → price r t ≤ approx * r.input + call.tier.max_output_tokens * r.output
price_le r call approx t cheap (input, output, write) =
    let prompt = mul-le-mul_right r.input input in
    let split_up = add-mul t.input_tokens t.cache_read_tokens r.input in
    let cached = mul-le-mul_left t.cache_read_tokens cheap in
    let answer = mul-le-mul_right r.output output in
    let unwritten : t.cache_write_tokens * r.cache_write ≡ 0 =
      ap (λ k. k * r.cache_write) write ∙ zero-mul r.cache_write in
    omega (arith, prompt, split_up, cached, answer, unwritten)

-- What a call can use: a prompt of so many tokens, fresh, read from the cache or written to it, and at
-- most the tier's output.
abbrev pub IsPrompted : ℕ → ℕ → Tokens → Type 0
IsPrompted approx output t =
    (t.input_tokens + t.cache_read_tokens + t.cache_write_tokens ≤ approx)
    × (t.output_tokens ≤ output)

pub price_le-quarter_over :
    (r : Rates) (approx output : ℕ) (t : Tokens)
    → Plausible r
    → IsPrompted approx output t
    → 4 * price r t ≤ 5 * (approx * r.input + output * r.output)
price_le-quarter_over r approx output t (cheap, dear, quarter) (prompt, answer) =
    let whole = mul-le-mul_right r.input prompt in
    let split_up = add-mul (t.input_tokens + t.cache_read_tokens) t.cache_write_tokens r.input in
    let split_more = add-mul t.input_tokens t.cache_read_tokens r.input in
    let cached = mul-le-mul_left t.cache_read_tokens cheap in
    let written : 4 * (t.cache_write_tokens * r.cache_write)
        ≤ 5 * (t.cache_write_tokens * r.input) =
      omega (arith, mul-le-mul_left t.cache_write_tokens quarter) in
    let said = mul-le-mul_right r.output answer in
    omega (arith, whole, split_up, split_more, cached, written, said)

-- The longest answer to a prompt that is written to the cache whole.
abbrev pub all_written : ℕ → ℕ → Tokens
all_written n output = record {
  input_tokens = 0;
  output_tokens = output;
  cache_read_tokens = 0;
  cache_write_tokens = n;
}

-- For a model with a price, a call whose prompt takes at most the tokens that were estimated, at
-- least one, however the prompt cache serves them, and whose answer takes at most the maximum
-- costs at most five quarters of its estimate. The estimate itself is no bound: such a call with
-- the whole prompt written to the cache and the longest answer costs more.
pub estimate-lt-cost_of :
    (model : Text) (r : Rates) (n output : ℕ) (t : Tokens)
    → rates_for model ≡ some r
    → 0 < n
    → IsPrompted n output t
    → (worst actual dearest : ℕ) × (estimate model n output ≡ some worst)
      × (cost_of model t ≡ some actual)
      × (4 * actual ≤ 5 * worst)
      × IsPrompted n output (all_written n output)
      × (cost_of model (all_written n output) ≡ some dearest)
      × (worst < dearest)
unfolding estimate cost_of
estimate-lt-cost_of model r n output t h positive prompted =
    let plausible = rates_for-Plausible model r h in
    let dearer = mul-le-mul_left n plausible.1 in
    let split_up = mul-add n 1 r.input in
    (
      n * r.input + output * r.output,
      price r t,
      output * r.output + n * r.cache_write,
      rw h (ap some (omega arith)),
      rw h refl,
      price_le-quarter_over r n output t plausible prompted,
      (omega arith, omega arith),
      rw h (ap some (omega arith)),
      omega (arith, dearer, split_up),
    )
