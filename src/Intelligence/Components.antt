-- ===== src/Intelligence/Components.antt =====
-- The score of a signal: apps/intelligence/components.py. A quotient is kept exact until it is rounded;
-- the points that math.log2 gives are a parameter, and so are no texts: a component is its value, none
-- where it was not measured.
use trend_engine_backend.Base.{
  ℕ, zero, suc, ◌+◌, ◌-◌, ◌*◌, ◌/◌, Bool, true, false, not, Option, none, some, List, [], ◌∷◌, map,
  filter, length, any, count_of, sum_of, max_of, take, drop, min, ltb, leb, ◌==◌, if◌then◌else◌,
  Text, eq_text, is_empty, get_elem?,
}
use trend_engine_backend.Base.Int.{
  ℤ, pos, negsuc, sub_ℕ, pos_part, floor_div, round_div, round_ℤ, clamp_100,
}

-- `Fact`, with its moment in seconds.
pub record Fact : Type 0 where
  pub item_id : ℕ
  pub creator : Text
  pub route : Text
  pub at : ℕ
  pub is_cited : Bool

-- A set as the list of its members: `add`.
abbrev pub add_new_by : {A : Type 0} → (A → A → Bool) → List A → A → List A
add_new_by eq xs x = if any (eq x) xs then xs else x ∷ xs

abbrev pub set_of : {A : Type 0} → (A → A → Bool) → List A → List A
set_of eq [] = []
set_of eq (x ∷ xs) = add_new_by eq (set_of eq xs) x

abbrev pub items_of : List Fact → ℕ
items_of facts = length (set_of ◌==◌ (map (λ (f : Fact). f.item_id) facts))

abbrev pub non_empty : List Text → List Text
non_empty texts = filter (λ t. not (is_empty t)) texts

abbrev pub creators_of : List Fact → ℕ
creators_of facts = length (set_of eq_text (non_empty (map (λ (f : Fact). f.creator) facts)))

abbrev pub routes_of : List Fact → ℕ
routes_of facts = length (set_of eq_text (non_empty (map (λ (f : Fact). f.route) facts)))

abbrev pub cited_of : List Fact → ℕ
cited_of facts = count_of (λ (f : Fact). f.is_cited) facts

-- `(now - at).days`
abbrev pub days_since : ℕ → ℕ → ℤ
days_since now at = floor_div (sub_ℕ now at) 86400

abbrev pub add_at : ℕ → ℕ → List (List ℕ) → List (List ℕ)
add_at index item [] = []
add_at zero item (b ∷ bs) = add_new_by ◌==◌ b item ∷ bs
add_at (suc index) item (b ∷ bs) = b ∷ add_at index item bs

abbrev pub add_in_week : ℤ → ℕ → List (List ℕ) → List (List ℕ)
add_in_week (pos index) item buckets = add_at index item buckets
add_in_week (negsuc index) item buckets = buckets

abbrev pub fill : ℕ → List Fact → List (List ℕ) → List (List ℕ)
fill now [] buckets = buckets
fill now (f ∷ facts) buckets =
    fill now facts (add_in_week (floor_div (days_since now f.at) 7) f.item_id buckets)

abbrev pub empty_weeks : ℕ → List (List ℕ)
empty_weeks zero = []
empty_weeks (suc weeks) = [] ∷ empty_weeks weeks

-- `_weekly_items`
unfoldable pub weekly_items : List Fact → ℕ → ℕ → List ℕ
weekly_items facts now weeks = map length (fill now facts (empty_weeks weeks))

-- `_covered_streak`, of the weeks' flags.
unfoldable pub covered_streak : List Bool → ℕ
covered_streak [] = 0
covered_streak (true ∷ weeks) = suc (covered_streak weeks)
covered_streak (false ∷ weeks) = 0

-- `_component`, of a quotient.
abbrev pub component : ℤ → ℕ → Option ℕ
component a n = some (clamp_100 (round_ℤ a n))

abbrev or_zero : Option ℕ → ℕ
or_zero none = 0
or_zero (some n) = n

-- `weekly[i]`; `score` asks for six weeks, and no index beyond them.
abbrev pub week : List ℕ → ℕ → ℕ
week weekly i = or_zero (get_elem? weekly i)

-- `round (50 + 25 * math.log2 (a / n))`
abbrev pub Log2Points : Type 0
Log2Points = ℕ → ℕ → ℤ

-- `_momentum`: (current + 1) / (baseline + 1), both parts times four.
unfoldable pub momentum : Log2Points → List ℕ → ℕ → Option ℕ
momentum log2_points weekly streak =
    if ltb streak 5
    then none
    else some (
        clamp_100
          (log2_points (4 * (week weekly 0 + 1)) (sum_of (λ n. n) (take 4 (drop 1 weekly)) + 4)))

-- `_acceleration`: 50 + 12.5 * (latest - previous), twice.
unfoldable pub acceleration : List ℕ → ℕ → Option ℕ
acceleration weekly streak =
    if ltb streak 3
    then none
    else component (sub_ℕ (100 + 25 * (week weekly 0 + week weekly 2)) (50 * week weekly 1)) 2

-- `_diversity`, over twelve.
unfoldable pub diversity : List Fact → Option ℕ
diversity facts =
    component (pos (210 * min (creators_of facts) 4 + 120 * min (routes_of facts) 3)) 12

-- `_quality`
unfoldable pub quality : List Fact → Option ℕ
quality [] = none
quality (f ∷ facts) = component (pos (100 * cited_of (f ∷ facts))) (length (f ∷ facts))

-- `_novelty`
unfoldable pub novelty : ℕ → ℕ → Option ℕ
novelty first_seen_at now =
    component (sub_ℕ 100 (20 * (pos_part (days_since now first_seen_at) / 7))) 1

-- `_recency`, over twenty-six.
unfoldable pub recency : List Fact → ℕ → Option ℕ
recency [] now = none
recency (f ∷ facts) now =
    let age = pos_part (days_since now (max_of (λ (g : Fact). g.at) (f ∷ facts))) in
    if leb age 2 then component (pos 100) 1 else component (sub_ℕ 2600 (100 * (age - 2))) 26

-- `_confidence`
unfoldable pub confidence : List Fact → List Fact → ℕ
confidence supporting contradicting =
    let against = items_of contradicting in
    let items = items_of supporting in
    let value =
      min 30 (8 * items)
      + min 25 (9 * creators_of supporting)
      + (if ltb 1 (routes_of supporting) then 15 else 0)
      + min 20 (7 * cited_of supporting)
      + (if against == 0 then 10 else 0) in
    if against == 0
    then clamp_100 (pos value)
    else clamp_100 (sub_ℕ value (round_div (40 * against) (items + against)))

pub data Maturity : Type 0 where
  measured_trend recurring watch : Maturity

abbrev spread : List ℕ → Maturity
spread weekly = if leb 2 (count_of (λ n. ltb 0 n) weekly) then recurring else watch

-- `_maturity`
unfoldable pub maturity : Option ℕ → List ℕ → Maturity
maturity none weekly = spread weekly
maturity (some value) weekly = if leb 60 value then measured_trend else spread weekly

-- The values with the weights of `WEIGHTS`, less those that were not measured.
abbrev pub available : List (Option ℕ × ℕ) → List (ℕ × ℕ)
available [] = []
available ((none, weight) ∷ rest) = available rest
available ((some value, weight) ∷ rest) = (value, weight) ∷ available rest

abbrev pub total_weight : List (ℕ × ℕ) → ℕ
total_weight cs = sum_of (λ (c : ℕ × ℕ). c.1) cs

-- The weighted mean, rounded.
unfoldable pub mean : List (ℕ × ℕ) → ℕ
mean cs =
    if ltb 0 (total_weight cs)
    then round_div (sum_of (λ (c : ℕ × ℕ). c.0 * c.1) cs) (total_weight cs)
    else 0

-- `Scored`
pub record Scored : Type 0 where
  pub domain_score : ℕ
  pub components : List (Option ℕ × ℕ)
  pub weekly : List ℕ
  pub streak : ℕ
  pub weighting_share : ℕ
  pub confidence_score : ℕ
  pub maturity_of : Maturity
  pub item_count : ℕ
  pub creator_count : ℕ
  pub source_count : ℕ

-- The components of `score`, each with its weight.
unfoldable pub parts_of : Log2Points → List Fact → ℕ → ℕ → List Bool → List (Option ℕ × ℕ)
unfolding weekly_items covered_streak momentum acceleration diversity quality novelty recency
parts_of log2_points supporting now first_seen_at coverage =
    let counts = weekly_items supporting now 6 in
    let covered = covered_streak coverage in
    (momentum log2_points counts covered, 25)
    ∷ (acceleration counts covered, 20)
    ∷ (diversity supporting, 15)
    ∷ (quality supporting, 15)
    ∷ (none, 10)
    ∷ (novelty first_seen_at now, 10)
    ∷ (recency supporting now, 5)
    ∷ []

-- `score`
unfoldable pub score : Log2Points → List Fact → List Fact → ℕ → ℕ → List Bool → Scored
unfolding parts_of weekly_items covered_streak momentum mean confidence maturity
score log2_points supporting contradicting now first_seen_at coverage =
    let counts = weekly_items supporting now 6 in
    let covered = covered_streak coverage in
    let parts = parts_of log2_points supporting now first_seen_at coverage in
    record {
      domain_score = clamp_100 (pos (mean (available parts)));
      components = parts;
      weekly = counts;
      streak = covered;
      weighting_share = total_weight (available parts);
      confidence_score = confidence supporting contradicting;
      maturity_of = maturity (momentum log2_points counts covered) counts;
      item_count = items_of supporting;
      creator_count = creators_of supporting;
      source_count = routes_of supporting;
    }
