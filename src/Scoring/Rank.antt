-- ===== src/Scoring/Rank.antt =====
-- The client rank of apps/scoring/signal_rank.py: the four parts, the rank and the fit.
use trend_engine_backend.Base.{ℕ, ◌+◌, ◌*◌, List, [], ◌∷◌, max}
use trend_engine_backend.Base.Int.{round_div}

-- What `components_for` reads of a row of relevance, of a claim or of an observation.
pub record RelevanceRow : Type 0 where
  pub asset_component : ℕ
  pub audience_component : ℕ
  pub priority_component : ℕ

-- The values of the four components.
pub record RankParts : Type 0 where
  pub domain : ℕ
  pub asset : ℕ
  pub audience : ℕ
  pub priority : ℕ

abbrev pub raised : RankParts → RelevanceRow → RankParts
raised best row = record best {
  asset = max best.asset row.asset_component;
  audience = max best.audience row.audience_component;
  priority = max best.priority row.priority_component;
}

-- The loop over the rows.
abbrev pub raise_all : RankParts → List RelevanceRow → RankParts
raise_all best [] = best
raise_all best (row ∷ rows) = raise_all (raised best row) rows

-- `components_for`, from the signal's own score.
unfoldable pub components_for : ℕ → List RelevanceRow → RankParts
components_for domain_score rows =
    raise_all (record { domain = domain_score; asset = 0; audience = 0; priority = 0 }) rows

-- `rank_score`, with RANK_WEIGHTS
unfoldable pub rank_score : RankParts → ℕ
unfolding round_div
rank_score p = round_div (p.domain * 60 + p.asset * 20 + p.audience * 10 + p.priority * 10) 100

-- `fit_score`, with FIT_WEIGHTS
unfoldable pub fit_score : RankParts → ℕ
unfolding round_div
fit_score p = round_div (p.asset * 20 + p.audience * 10 + p.priority * 10) 40
