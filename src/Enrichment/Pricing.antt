-- ===== src/Enrichment/Pricing.antt =====
-- apps/enrichment/llm/pricing.py. A rate is in cents for a million tokens, so that an amount is a
-- natural number of hundred-millionths of a dollar.
use mathlib.Core.Option.{some-injective}
use trend_engine_backend.Base.{
  subst, ℕ, ◌+◌, ◌*◌, ◌≤◌, ◌<◌, ◌≡◌, Option, none, some, if◌then◌else◌, Text, codes, eq_text, arith,
  Bool-cases, inl, inr,
}

-- `Rates`
pub record Rates : Type 0 where
  pub input : ℕ
  pub output : ℕ
  pub cache_read : ℕ
  pub cache_write : ℕ

abbrev pub haiku : Text
haiku = codes "claude-haiku-4-5"

abbrev pub sonnet : Text
sonnet = codes "claude-sonnet-5-5"

abbrev pub opus : Text
opus = codes "claude-opus-5-5"

-- `rates_for`, with RATES: none where it raises UnknownModel.
unfoldable pub rates_for : Text → Option Rates
rates_for model =
    if eq_text model haiku
    then some (record { input = 100; output = 500; cache_read = 10; cache_write = 125 })
    else if eq_text model sonnet
    then some (record { input = 200; output = 1000; cache_read = 20; cache_write = 250 })
    else if eq_text model opus
    then some (record { input = 400; output = 2000; cache_read = 20; cache_write = 500 })
    else none

pub record Tokens : Type 0 where
  pub input_tokens : ℕ
  pub output_tokens : ℕ
  pub cache_read_tokens : ℕ
  pub cache_write_tokens : ℕ

abbrev pub price : Rates → Tokens → ℕ
price r t =
    t.input_tokens * r.input
    + t.output_tokens * r.output
    + t.cache_read_tokens * r.cache_read
    + t.cache_write_tokens * r.cache_write

abbrev priced : Tokens → Option Rates → Option ℕ
priced t none = none
priced t (some r) = some (price r t)

-- `cost_of`
unfoldable pub cost_of : Text → Tokens → Option ℕ
cost_of model t = priced t (rates_for model)

-- `estimate`
unfoldable pub estimate : Text → ℕ → ℕ → Option ℕ
unfolding cost_of
estimate model input max_output = cost_of model (record {
  input_tokens = input;
  output_tokens = max_output;
  cache_read_tokens = 0;
  cache_write_tokens = 0;
})

-- A price list in which a cache read is no dearer than an input token, and a cache write is, by a
-- quarter at most.
abbrev pub Plausible : Rates → Type 0
Plausible r =
    (r.cache_read ≤ r.input) × (r.input < r.cache_write) × (4 * r.cache_write ≤ 5 * r.input)

pub rates_for-Plausible : (model : Text) (r : Rates) → rates_for model ≡ some r → Plausible r
unfolding rates_for
rates_for-Plausible model r h = elim (Bool-cases (eq_text model haiku)) [
  | inl e ↦ subst Plausible (some-injective _ r (rw e at h)) (omega arith, omega arith, omega arith)
  | inr e ↦ elim (Bool-cases (eq_text model sonnet)) [
    | inl f ↦
        subst Plausible (some-injective _ r (rw (e, f) at h))
          (omega arith, omega arith, omega arith)
    | inr f ↦ elim (Bool-cases (eq_text model opus)) [
      | inl g ↦
          subst Plausible (some-injective _ r (rw (e, f, g) at h))
            (omega arith, omega arith, omega arith)
      | inr g ↦ cc (rw (e, f, g) at h)
    ]
  ]
]
