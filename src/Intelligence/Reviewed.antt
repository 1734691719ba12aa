-- ===== src/Intelligence/Reviewed.antt =====
-- What no sequence of moves of apps/intelligence/review.py does to a signal.
use trend_engine_backend.Base.{◌≡◌, true, false, ◌&&◌, List, [], ◌∷◌, ◌++◌, any, Text, is_empty, ok}
use trend_engine_backend.Intelligence.Review.{
  SignalState, candidate, approved, eq_state, MoveAudit, moved, Signal, transitions, needs_reason,
  move,
}

-- Signals that moves lead to, from one that was detected or seeded.
pub data Reviewed (default : Text) : Signal → Type 0 where
  detected :
      {s : Signal}
      → s.state ≡ candidate
      → s.awaiting_operator_judgment ≡ true
      → s.history ≡ []
      → Reviewed default s
  step :
      {s s' : Signal} (to : SignalState) (actor reason : Text)
      → move default s to actor reason ≡ ok s'
      → Reviewed default s
      → Reviewed default s'

-- The path that the audit rows tell: each starts where the one before it ended, along a transition,
-- with a reason where one is needed.
pub data PathOf : List (Text × MoveAudit) → SignalState → Type 0 where
  start : PathOf [] candidate
  next :
      {rows : List (Text × MoveAudit)} {previous : SignalState} (actor : Text) (code : Text)
      (to : SignalState) (reason : Text)
      → PathOf rows previous
      → any (eq_state to) (transitions previous) ≡ true
      → (needs_reason to && is_empty reason) ≡ false
      → PathOf (rows ++ (actor, moved code previous to reason) ∷ []) to

-- What holds of a reviewed signal.
abbrev pub IsTraced : Signal → Type 0
IsTraced s =
    PathOf s.history s.state
    × ((s.awaiting_operator_judgment ≡ eq_state s.state candidate)
        × ((s.is_illustrative && eq_state s.state approved) ≡ false))
