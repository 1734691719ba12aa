-- ===== src/Intelligence/Scores.antt =====
-- What the score of apps/intelligence/components.py promises: a weighted mean of what was measured, a
-- trend only where it was measured, and a confidence that contradiction lowers.
use native.Mathlib.Nat.{
  mul-le-mul_right, add-mul, mul-add, le-div_iff_mul-le, div-lt_iff_lt-mul, div-add-mod', mod-lt,
}
use trend_engine_backend.Base.{
  any, map, length, Text, eq_text, eq_text_refl, is_empty, ℕ, zero, suc, ◌+◌, ◌*◌, ◌/◌, ◌%◌, ◌≤◌,
  ◌<◌, ◌≡◌, ◌≢◌, refl, ap, Bool, true, Option, none, some, List, [], ◌∷◌, All, sum_of, ltb, ◌==◌,
  arith, Bool-cases, inl, inr,
}
use trend_engine_backend.Base.Int.{ℤ, pos, negsuc, floor_div, round_div}
use trend_engine_backend.Intelligence.Components.{
  Fact, Log2Points, measured_trend, available, total_weight, mean, non_empty, add_new_by, add_at,
  add_in_week, set_of, fill, empty_weeks, days_since, score, parts_of, weekly_items, acceleration,
  diversity, quality, novelty, recency, momentum, maturity, confidence, covered_streak,
}

le-round_div : (k a n : ℕ) → 0 < n → k * n ≤ a → k ≤ round_div a n
unfolding round_div
le-round_div k a n h l = let below = (le-div_iff_mul-le h).1 l in ground (arith, below)

round_div-le : (k a n : ℕ) → 0 < n → a ≤ k * n → round_div a n ≤ k
unfolding round_div
round_div-le k a n h l =
    let split_up = div-add-mod' a n in
    let one_more = add-mul k 1 n in
    let at_most : a / n < k + 1 = (div-lt_iff_lt-mul h).1 (omega (arith, one_more)) in
    let parity = mod-lt (a / n) {m = 2} (omega arith) in
    elim (Bool-cases (ltb (a / n) k)) [
      | inl e ↦ ground (arith, at_most, parity)
      | inr e ↦
          (let same : a / n ≡ k = ground arith in
            let full = ap (λ q. q * n) same in
            let exact : a % n ≡ 0 = omega arith in rw (exact, same) (ground arith))
    ]

-- Every measured value lies between the two.
abbrev pub IsBetween : ℕ → ℕ → List (ℕ × ℕ) → Type 0
IsBetween lo hi cs = All (λ (c : ℕ × ℕ). (lo ≤ c.0) × (c.0 ≤ hi)) cs

abbrev weighted : List (ℕ × ℕ) → ℕ
weighted cs = sum_of (λ (c : ℕ × ℕ). c.0 * c.1) cs

weighted-IsBetween :
    (lo hi : ℕ) (cs : List (ℕ × ℕ))
    → IsBetween lo hi cs
    → (lo * total_weight cs ≤ weighted cs) × (weighted cs ≤ hi * total_weight cs)
weighted-IsBetween lo hi [] h = (omega arith, omega arith)
weighted-IsBetween lo hi (c ∷ cs) ((l, u), h) =
    let (low, high) = weighted-IsBetween lo hi cs h in
    let at_least = mul-le-mul_right c.1 l in
    let at_most = mul-le-mul_right c.1 u in
    let lower = mul-add lo c.1 (total_weight cs) in
    let upper = mul-add hi c.1 (total_weight cs) in (omega arith, omega arith)

mean-IsBetween :
    (lo hi : ℕ) (cs : List (ℕ × ℕ))
    → 0 < total_weight cs
    → IsBetween lo hi cs
    → (lo ≤ mean cs) × (mean cs ≤ hi)
unfolding mean
mean-IsBetween lo hi cs h between =
    let (low, high) = weighted-IsBetween lo hi cs between in
    let weighed : ltb 0 (total_weight cs) ≡ true = ground arith in
    rw weighed (
      le-round_div lo (weighted cs) (total_weight cs) h low,
      round_div-le hi (weighted cs) (total_weight cs) h high,
    )

available-cons :
    (value : Option ℕ) (weight : ℕ) (rest : List (Option ℕ × ℕ))
    → total_weight (available rest) ≤ total_weight (available ((value, weight) ∷ rest))
available-cons none weight rest = omega arith
available-cons (some n) weight rest = omega arith

-- The diversity is always measured.
parts_of-pos :
    (log2_points : Log2Points) (supporting : List Fact) (now first_seen : ℕ) (coverage : List Bool)
    → 0 < total_weight (available (parts_of log2_points supporting now first_seen coverage))
unfolding parts_of diversity
parts_of-pos log2_points supporting now first_seen coverage =
    let counts = weekly_items supporting now 6 in
    let covered = covered_streak coverage in
    let after : List (Option ℕ × ℕ) =
      (quality supporting, 15)
      ∷ (none, 10)
      ∷ (novelty first_seen now, 10)
      ∷ (recency supporting now, 5)
      ∷ [] in
    let from_diversity : List (Option ℕ × ℕ) = (diversity supporting, 15) ∷ after in
    let from_acceleration : List (Option ℕ × ℕ) =
      (acceleration counts covered, 20) ∷ from_diversity in
    omega (
      arith,
      available-cons (momentum log2_points counts covered) 25 from_acceleration,
      available-cons (acceleration counts covered) 20 from_diversity,
    )

-- Two numbers, the greater at most 100, that bound every measured component of a signal bound its
-- score: what was not measured counts for nothing, not as zero.
pub domain_score-IsBetween :
    (log2_points : Log2Points) (supporting contradicting : List Fact) (now first_seen : ℕ)
    (coverage : List Bool) (lo hi : ℕ)
    → hi ≤ 100
    → IsBetween lo hi
        (available (score log2_points supporting contradicting now first_seen coverage).components)
    → (lo ≤ (score log2_points supporting contradicting now first_seen coverage).domain_score)
      × ((score log2_points supporting contradicting now first_seen coverage).domain_score ≤ hi)
unfolding score
domain_score-IsBetween log2_points supporting contradicting now first_seen coverage lo hi cap
      between =
    let parts = parts_of log2_points supporting now first_seen coverage in
    let (low, high) =
      mean-IsBetween lo hi (available parts)
        (parts_of-pos log2_points supporting now first_seen coverage) between in
    (ground arith, ground arith)

spread-ne-measured_trend : (weekly : List ℕ) → maturity none weekly ≢ measured_trend
unfolding maturity
spread-ne-measured_trend weekly h = ground arith

-- A score that calls a signal a measured trend rests on at least five consecutive covered weeks.
pub measured_trend-covered :
    (log2_points : Log2Points) (supporting contradicting : List Fact) (now first_seen : ℕ)
    (coverage : List Bool)
    → (score log2_points supporting contradicting now first_seen coverage).maturity_of
      ≡ measured_trend
    → 5 ≤ covered_streak coverage
unfolding score momentum maturity
measured_trend-covered log2_points supporting contradicting now first_seen coverage h =
    elim (Bool-cases (ltb (covered_streak coverage) 5)) [
      | inl e ↦ absurd (spread-ne-measured_trend (weekly_items supporting now 6) (rw e at h))
      | inr e ↦ ground arith
    ]

-- Contradicting evidence, however much, never makes the confidence greater than it is without any.
pub confidence-contradicted :
    (supporting contradicting : List Fact)
    → confidence supporting contradicting ≤ confidence supporting []
unfolding confidence
confidence-contradicted supporting contradicting = ground arith

add_new_by-twice :
    (xs : List ℕ) (x : ℕ) → add_new_by ◌==◌ (add_new_by ◌==◌ xs x) x ≡ add_new_by ◌==◌ xs x
add_new_by-twice xs x = elim (Bool-cases (any (◌==◌ x) xs)) [
  | inl e ↦ rw (e, e) refl
  | inr e ↦ rw e (ground arith)
]

add_at-twice :
    (i item : ℕ) (buckets : List (List ℕ))
    → add_at i item (add_at i item buckets) ≡ add_at i item buckets
add_at-twice i item [] = refl
add_at-twice zero item (b ∷ bs) = ap (λ x. x ∷ bs) (add_new_by-twice b item)
add_at-twice (suc i) item (b ∷ bs) = ap (◌∷◌ b) (add_at-twice i item bs)

add_in_week-twice :
    (index : ℤ) (item : ℕ) (buckets : List (List ℕ))
    → add_in_week index item (add_in_week index item buckets) ≡ add_in_week index item buckets
add_in_week-twice (pos i) item buckets = add_at-twice i item buckets
add_in_week-twice (negsuc i) item buckets = refl

set_of-twice : (x : Text) (xs : List Text) → set_of eq_text (x ∷ x ∷ xs) ≡ set_of eq_text (x ∷ xs)
set_of-twice x xs = elim (Bool-cases (any (eq_text x) (set_of eq_text xs))) [
  | inl e ↦ rw (e, e) refl
  | inr e ↦ rw e (ground (arith, eq_text_refl x))
]

names-twice :
    (t : Text) (rest : List Text)
    → length (set_of eq_text (non_empty (t ∷ t ∷ rest)))
      ≡ length (set_of eq_text (non_empty (t ∷ rest)))
names-twice t rest = elim (Bool-cases (is_empty t)) [
  | inl e ↦ rw e refl
  | inr e ↦ rw e (ap length (set_of-twice t (non_empty rest)))
]

-- A second claim of an item, of the same creator, route and moment, changes neither the weekly
-- counts of items nor the diversity.
pub weekly_items-same_item :
    (f : Fact) (cited : Bool) (facts : List Fact) (now weeks : ℕ)
    → (weekly_items (record f { is_cited = cited } ∷ f ∷ facts) now weeks
        ≡ weekly_items (f ∷ facts) now weeks)
      × (diversity (record f { is_cited = cited } ∷ f ∷ facts) ≡ diversity (f ∷ facts))
unfolding weekly_items diversity
weekly_items-same_item f cited facts now weeks = (
  ap (λ b. map length (fill now facts b))
      (add_in_week-twice (floor_div (days_since now f.at) 7) f.item_id (empty_weeks weeks)),
  rw
      (
        names-twice f.creator (map (λ (g : Fact). g.creator) facts),
        names-twice f.route (map (λ (g : Fact). g.route) facts),
      )
      refl,
)
