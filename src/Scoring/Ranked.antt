-- ===== src/Scoring/Ranked.antt =====
-- What the rank of apps/scoring/signal_rank.py promises: more evidence never lowers it, and it stays
-- within a hundred.
use trend_engine_backend.Base.{ℕ, ◌+◌, ◌*◌, ◌≤◌, ◌≡◌, refl, List, [], ◌∷◌, ◌++◌, All, arith}
use trend_engine_backend.Base.Int.{round_div}
use trend_engine_backend.Scoring.Rank.{
  RelevanceRow, RankParts, raised, raise_all, components_for, rank_score, fit_score,
}

raise_all-append :
    (best : RankParts) (rows : List RelevanceRow) (row : RelevanceRow)
    → raise_all best (rows ++ row ∷ []) ≡ raised (raise_all best rows) row
raise_all-append best [] row = refl
raise_all-append best (r ∷ rows) row = raise_all-append (raised best r) rows row

round_div_100-le : (a b : ℕ) → a ≤ b → round_div a 100 ≤ round_div b 100
unfolding round_div
round_div_100-le a b h = ground arith

round_div_40-le : (a b : ℕ) → a ≤ b → round_div a 40 ≤ round_div b 40
unfolding round_div
round_div_40-le a b h = ground arith

raised-le :
    (p : RankParts) (row : RelevanceRow)
    → (rank_score p ≤ rank_score (raised p row)) × (fit_score p ≤ fit_score (raised p row))
unfolding rank_score fit_score
raised-le p row =
    let q = raised p row in
    (
      round_div_100-le (p.domain * 60 + p.asset * 20 + p.audience * 10 + p.priority * 10)
          (q.domain * 60 + q.asset * 20 + q.audience * 10 + q.priority * 10) (omega arith),
      round_div_40-le (p.asset * 20 + p.audience * 10 + p.priority * 10)
          (q.asset * 20 + q.audience * 10 + q.priority * 10) (omega arith),
    )

-- One more row of relevance lowers neither the rank nor the fit of a signal.
pub rank_score-more_rows :
    (domain_score : ℕ) (rows : List RelevanceRow) (row : RelevanceRow)
    → (rank_score (components_for domain_score rows)
        ≤ rank_score (components_for domain_score (rows ++ row ∷ [])))
      × (fit_score (components_for domain_score rows)
          ≤ fit_score (components_for domain_score (rows ++ row ∷ [])))
unfolding components_for
rank_score-more_rows domain_score rows row =
    let best : RankParts = record {
      domain = domain_score;
      asset = 0;
      audience = 0;
      priority = 0;
    } in
    rw (raise_all-append best rows row) (raised-le (raise_all best rows) row)

abbrev pub IsPercent : RelevanceRow → Type 0
IsPercent row =
    (row.asset_component ≤ 100) × ((row.audience_component ≤ 100) × (row.priority_component ≤ 100))

abbrev ArePercent : RankParts → Type 0
ArePercent p = (p.domain ≤ 100) × ((p.asset ≤ 100) × ((p.audience ≤ 100) × (p.priority ≤ 100)))

raise_all-ArePercent :
    (best : RankParts) (rows : List RelevanceRow)
    → ArePercent best
    → All IsPercent rows
    → ArePercent (raise_all best rows)
raise_all-ArePercent best [] h all = h
raise_all-ArePercent best (row ∷ rows) (d, (a, (u, p))) ((ra, (ru, rp)), all) =
    raise_all-ArePercent (raised best row) rows (d, (ground arith, (ground arith, ground arith)))
      all

percent-le : (p : RankParts) → ArePercent p → (rank_score p ≤ 100) × (fit_score p ≤ 100)
unfolding rank_score fit_score round_div
percent-le p (d, (a, (u, q))) = (
  round_div_100-le (p.domain * 60 + p.asset * 20 + p.audience * 10 + p.priority * 10) 10000
      (omega arith),
  round_div_40-le (p.asset * 20 + p.audience * 10 + p.priority * 10) 4000 (omega arith),
)

-- Where the signal's score and every component of its rows are at most 100, so are the rank and the
-- fit.
pub rank_score-le :
    (domain_score : ℕ) (rows : List RelevanceRow)
    → domain_score ≤ 100
    → All IsPercent rows
    → (rank_score (components_for domain_score rows) ≤ 100)
      × (fit_score (components_for domain_score rows) ≤ 100)
unfolding components_for
rank_score-le domain_score rows d all =
    let best : RankParts = record {
      domain = domain_score;
      asset = 0;
      audience = 0;
      priority = 0;
    } in
    percent-le (raise_all best rows)
      (raise_all-ArePercent best rows (d, (omega arith, (omega arith, omega arith))) all)
