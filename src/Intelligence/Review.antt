-- ===== src/Intelligence/Review.antt =====
-- The state machine of a signal: `move` of apps/intelligence/review.py.
use trend_engine_backend.Base.{
  Bool, true, false, ◌&&◌, ◌||◌, not, List, [], ◌∷◌, ◌++◌, any, if◌then◌else◌, Text, is_empty,
  strip, Result, ok, err,
}

-- `Signal.State`
pub data SignalState : Type 0 where
  candidate in_review watching approved rejected : SignalState

abbrev pub eq_state : SignalState → SignalState → Bool
eq_state candidate candidate = true
eq_state in_review in_review = true
eq_state watching watching = true
eq_state approved approved = true
eq_state rejected rejected = true
eq_state _ _ = false

pub data MoveAudit : Type 0 where
  moved : (signal : Text) → (previous to : SignalState) → (reason : Text) → MoveAudit

-- The columns of `Signal` that a move reads and writes, with its audit rows.
pub record Signal : Type 0 where
  pub code : Text
  pub state : SignalState
  pub is_illustrative : Bool
  pub awaiting_operator_judgment : Bool
  pub history : List (Text × MoveAudit)

-- `TRANSITIONS`
abbrev pub transitions : SignalState → List SignalState
transitions candidate = in_review ∷ approved ∷ watching ∷ rejected ∷ []
transitions in_review = approved ∷ watching ∷ rejected ∷ []
transitions watching = in_review ∷ approved ∷ rejected ∷ []
transitions approved = in_review ∷ []
transitions rejected = candidate ∷ []

-- `NEEDS_REASON`
abbrev pub needs_reason : SignalState → Bool
needs_reason to = eq_state to rejected || eq_state to candidate

-- The three messages of `ReviewError`.
pub data ReviewError : Type 0 where
  not_allowed say_why illustrative : ReviewError

-- `_audit`: the actor is the operator where none is named.
abbrev pub audit_move : Text → Text → MoveAudit → Signal → Signal
audit_move default actor row s = record s {
  history = s.history ++ (if is_empty actor then default else actor, row) ∷ [];
}

-- `move`; `default` is the word operator.
unfoldable pub move : Text → Signal → SignalState → Text → Text → Result ReviewError Signal
move default signal to actor reason =
    if not (any (eq_state to) (transitions signal.state))
    then err not_allowed
    else if needs_reason to && is_empty (strip reason)
    then err say_why
    else if signal.is_illustrative && eq_state to approved
    then err illustrative
    else ok (
        audit_move default actor (moved signal.code signal.state to (strip reason))
          (record signal { state = to; awaiting_operator_judgment = eq_state to candidate }))
