-- ===== src/Intelligence/Tests.antt =====
-- A signal that is reviewed, and facts that are scored.
use trend_engine_backend.Base.{
  ℕ, ◌*◌, ◌≤◌, ◌≡◌, refl, ◌==◌, if◌then◌else◌, Bool, true, false, List, [], ◌∷◌, codes, arith,
}
use trend_engine_backend.Base.Int.{pos, round_ℤ, round_div}
use trend_engine_backend.Intelligence.Review.{candidate, watching, rejected, Signal, moved}
use trend_engine_backend.Intelligence.Components.{
  Fact, Log2Points, score, parts_of, weekly_items, covered_streak, momentum, acceleration,
  diversity, quality, novelty, recency, maturity, measured_trend, available,
}
use trend_engine_backend.Intelligence.Scores.{
  IsBetween, domain_score-IsBetween, measured_trend-covered,
}

abbrev signal : Signal
signal = record {
  code = codes "S1";
  state = candidate;
  is_illustrative = false;
  awaiting_operator_judgment = true;
  history = [];
}

abbrev watched : Signal
watched = record signal {
  state = watching;
  awaiting_operator_judgment = false;
  history = (codes "mark", moved (codes "S1") candidate watching []) ∷ [];
}

abbrev turned_down : Signal
turned_down = record watched {
  state = rejected;
  history =
      (codes "mark", moved (codes "S1") candidate watching [])
      ∷ (codes "operator", moved (codes "S1") watching rejected (codes "old"))
      ∷ [];
}

-- The logarithm to base two, at the powers that the runs use.
abbrev points : Log2Points
points a n = if a == n then pos 50 else pos 75

abbrev day : ℕ
day = 86400

abbrev fact : Fact
fact = record {
  item_id = 1;
  creator = codes "ann";
  route = codes "podcast";
  at = 99 * day;
  is_cited = true;
}

abbrev older : Fact
older = record fact { item_id = 2; creator = codes "bob"; at = 90 * day; is_cited = false }

abbrev facts : List Fact
facts = fact ∷ older ∷ []

abbrev weeks : List Bool
weeks = true ∷ true ∷ true ∷ true ∷ true ∷ []

scored_run :
    (score points facts [] (100 * day) (90 * day) weeks).weekly ≡ 1 ∷ 1 ∷ 0 ∷ 0 ∷ 0 ∷ 0 ∷ []
unfolding score weekly_items
scored_run = refl

facts-IsBetween :
    IsBetween 38 100 (available (score points facts [] (100 * day) (90 * day) weeks).components)
unfolding score parts_of weekly_items covered_streak momentum acceleration diversity quality novelty
    recency round_ℤ round_div
facts-IsBetween = (
  (omega arith, omega arith),
  (
    (omega arith, omega arith),
    (
      (omega arith, omega arith),
      ((omega arith, omega arith), ((omega arith, omega arith), ((omega arith, omega arith), tt))),
    ),
  ),
)

domain_score-IsBetween_example :
    (38 ≤ (score points facts [] (100 * day) (90 * day) weeks).domain_score)
    × ((score points facts [] (100 * day) (90 * day) weeks).domain_score ≤ 100)
domain_score-IsBetween_example =
    domain_score-IsBetween points facts [] (100 * day) (90 * day) weeks 38 100 (omega arith)
      facts-IsBetween

measured_run : (score points facts [] (100 * day) (90 * day) weeks).maturity_of ≡ measured_trend
unfolding score weekly_items covered_streak momentum maturity
measured_run = refl

measured_trend-covered_example : 5 ≤ covered_streak weeks
measured_trend-covered_example =
    measured_trend-covered points facts [] (100 * day) (90 * day) weeks measured_run
