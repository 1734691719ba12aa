-- ===== src/Enrichment/Tests.antt =====
-- Concrete calls of a model, and what the cost guard makes of them.
use trend_engine_backend.Base.{
  ℕ, ◌+◌, ◌*◌, ◌/◌, ◌≤◌, ◌<◌, ◌≡◌, refl, false, some, [], ◌∷◌, codes, arith,
}
use trend_engine_backend.Enrichment.Pricing.{Tokens, rates_for, cost_of, estimate, haiku}
use trend_engine_backend.Enrichment.Costs.{
  Books, Caps, llm_provider, spend_this_month, check_or_raise,
}
use trend_engine_backend.Enrichment.Client.{
  Call, Answer, response, structured, record_call, cost_cap_exceeded, returned,
}
use trend_engine_backend.Enrichment.Cap.{books_after, books_after-le-cap}
use trend_engine_backend.Enrichment.Estimates.{IsPrompted, all_written, estimate-lt-cost_of}

-- To the nearest millionth, halves upwards.
abbrev to_ledger : ℕ → ℕ
to_ledger x = (x + 50) / 100

to_ledger-nearest : (x : ℕ) → 100 * to_ledger x ≤ x + 50
to_ledger-nearest x = omega arith

abbrev call : Call
call = record {
  month = 1;
  purpose = codes "extraction";
  tier = record { model = haiku; max_output_tokens = 512 };
}

abbrev caps : Caps
caps = record { monthly_cap = 4000; per_call_max = 0 }

abbrev empty : Books
empty = record { runs = []; ledger = []; alerts = [] }

abbrev usage : Tokens
usage = record {
  input_tokens = 700;
  output_tokens = 200;
  cache_read_tokens = 300;
  cache_write_tokens = 0;
}

abbrev answer : Answer ℕ
answer = response usage false (some 7)

cost_run : cost_of haiku usage ≡ some 173000
unfolding cost_of rates_for
cost_run = refl

one_run : (structured to_ledger caps call 1000 answer empty).0 ≡ returned 7
unfolding structured check_or_raise spend_this_month record_call estimate cost_of rates_for
one_run = refl

-- The second call is refused: what is spent and its estimate are more than the cap.
two_runs :
    (structured to_ledger caps call 1000 answer
      (structured to_ledger caps call 1000 answer empty).1).0
    ≡ cost_cap_exceeded
unfolding structured check_or_raise spend_this_month record_call estimate cost_of rates_for
two_runs = refl

books_after-le-cap_example :
    spend_this_month 1 llm_provider
      (books_after to_ledger caps
        ((call, (1000, answer)) ∷ (call, (1000, answer)) ∷ [])
        empty).ledger
    ≤ 4000
unfolding spend_this_month
books_after-le-cap_example =
    books_after-le-cap to_ledger to_ledger-nearest caps 1
      ((call, (1000, answer)) ∷ (call, (1000, answer)) ∷ []) empty (omega arith)
      ((refl, (omega arith, omega arith, refl)), ((refl, (omega arith, omega arith, refl)), tt))
      (omega arith)

haiku_rates :
    rates_for haiku
    ≡ some (record { input = 100; output = 500; cache_read = 10; cache_write = 125 })
unfolding rates_for
haiku_rates = refl

-- A prompt that is half written to the cache, half fresh.
abbrev half_written : Tokens
half_written = record {
  input_tokens = 500;
  output_tokens = 10;
  cache_read_tokens = 0;
  cache_write_tokens = 500;
}

estimate-lt-cost_of_example :
    (worst actual dearest : ℕ) × (estimate haiku 1000 512 ≡ some worst)
    × (cost_of haiku half_written ≡ some actual)
    × (4 * actual ≤ 5 * worst)
    × IsPrompted 1000 512 (all_written 1000 512)
    × (cost_of haiku (all_written 1000 512) ≡ some dearest)
    × (worst < dearest)
estimate-lt-cost_of_example =
    estimate-lt-cost_of haiku
      (record { input = 100; output = 500; cache_read = 10; cache_write = 125 }) 1000 512
      half_written haiku_rates (omega arith) (omega arith, omega arith)
