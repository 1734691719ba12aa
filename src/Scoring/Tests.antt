-- ===== src/Scoring/Tests.antt =====
-- One signal ranked for a client.
use trend_engine_backend.Base.{◌≤◌, ◌≡◌, refl, [], ◌∷◌, ◌++◌}
use trend_engine_backend.Base.Int.{round_div}
use trend_engine_backend.Scoring.Rank.{RelevanceRow, components_for, rank_score, fit_score}
use trend_engine_backend.Scoring.Ranked.{rank_score-more_rows}

abbrev product : RelevanceRow
product = record { asset_component = 80; audience_component = 0; priority_component = 0 }

abbrev audience : RelevanceRow
audience = record { asset_component = 30; audience_component = 55; priority_component = 0 }

-- 60% of 50, 20% of 80 and 10% of 55 are 51.5, which rounds to the even 52.
rank_run : rank_score (components_for 50 (product ∷ audience ∷ [])) ≡ 52
unfolding rank_score components_for round_div
rank_run = refl

rank_score-more_rows_example :
    (rank_score (components_for 50 (product ∷ []))
      ≤ rank_score (components_for 50 ((product ∷ []) ++ audience ∷ [])))
    × (fit_score (components_for 50 (product ∷ []))
        ≤ fit_score (components_for 50 ((product ∷ []) ++ audience ∷ [])))
rank_score-more_rows_example = rank_score-more_rows 50 (product ∷ []) audience
