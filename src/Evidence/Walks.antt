-- ===== src/Evidence/Walks.antt =====
-- What a walk of the transcript ladder comes to: the first rung that produces a transcript, and whether
-- anything broke.
use trend_engine_backend.Base.{
  ◌≡◌, refl, Bool, true, false, ◌||◌, Option, none, some, List, [], ◌∷◌, ◌++◌, any, if◌then◌else◌,
  Text, codes, eq_text, arith, Bool-cases, inl, inr,
}
use trend_engine_backend.Evidence.Items.{
  Method, Transcript, ContentItem, unavailable, failed, skipped, Status,
}
use trend_engine_backend.Evidence.Providers.{Rung, produced, is_unavailable, has_failed, raised}
use trend_engine_backend.Evidence.Ladder.{
  terminal_step, Acquisition, is_failed, with_rung, store, after_rung, attempted, walk,
}

abbrev pub transcript_of_rung : Option Rung → Option Transcript
transcript_of_rung (some (produced t)) = some t
transcript_of_rung r = none

-- A rung broke, with `Failed` or an exception nobody expected.
abbrev pub has_broken : Option Rung → Bool
has_broken (some (has_failed why)) = true
has_broken (some (raised why)) = true
has_broken r = false

abbrev pub first_or : Option Transcript → Option Transcript → Option Transcript
first_or (some t) rest = some t
first_or none rest = rest

-- The steps of a chain before its terminal one.
abbrev pub to_end : List Text → List Text
to_end [] = []
to_end (step ∷ steps) =
    let rest = to_end steps in if eq_text step terminal_step then [] else step ∷ rest

abbrev pub stored_if : Option Transcript → ContentItem → ContentItem
stored_if none item = item
stored_if (some t) item = store item t

abbrev pub method_if : Option Transcript → Option Method
method_if none = none
method_if (some t) = some t.method

module _ (rungs : Text → Option (ContentItem → Rung)) (item : ContentItem) where
  -- The first transcript that the steps produce.
  abbrev pub first_transcript : List Text → Option Transcript
  first_transcript [] = none
  first_transcript (step ∷ steps) =
      first_or (transcript_of_rung (attempted (rungs step) item)) (first_transcript steps)

  abbrev pub any_broken : List Text → Bool
  any_broken [] = false
  any_broken (step ∷ steps) = has_broken (attempted (rungs step) item) || any_broken steps

abbrev pub broken_in : Acquisition → Bool
broken_in o = any (λ r. is_failed r.status) o.rungs

any-snoc :
    {A : Type 0} (p : A → Bool) (xs : List A) (x : A) → any p (xs ++ x ∷ []) ≡ (any p xs || p x)
any-snoc p [] x = ground arith
any-snoc p (y ∷ ys) x = ground (arith, any-snoc p ys x)

-- How a walk that starts at `o` ends, where `first` is the first transcript there is and `broken` says
-- whether a rung breaks.
abbrev pub IsWalk :
    Option Transcript → Bool → ContentItem → Acquisition → ContentItem × Acquisition → Type 0
IsWalk first broken item o (item', o') =
    (item' ≡ stored_if first item)
    × (o'.method ≡ method_if first)
    × (first ≡ none → broken_in o' ≡ (broken_in o || broken))

module _ (item : ContentItem) (step : Text) (go_on : Acquisition → ContentItem × Acquisition)
    (first : Option Transcript) (broken : Bool)
    (again : (o : Acquisition) → o.method ≡ none → IsWalk first broken item o (go_on o)) where
  passed-IsWalk :
      (status : Status) (detail : Text) (o : Acquisition)
      → o.method ≡ none
      → IsWalk first (is_failed status || broken) item o (go_on (with_rung step status detail o))
  passed-IsWalk status detail o m =
      let (same, method, any_) = again (with_rung step status detail o) m in
      (
        same,
        method,
        λ e. ground (
          arith,
          any_ e,
          any-snoc (λ r. is_failed r.status) o.rungs
              (record { step = step; status = status; detail = detail }),
        ),
      )

  after_rung-IsWalk :
      (r : Option Rung) (o : Acquisition)
      → o.method ≡ none
      → IsWalk
          (first_or (transcript_of_rung r) first)
          (has_broken r || broken)
          item
          o
          (after_rung go_on item step o r)
  after_rung-IsWalk none o m = passed-IsWalk skipped _ o m
  after_rung-IsWalk (some (is_unavailable why)) o m = passed-IsWalk unavailable _ o m
  after_rung-IsWalk (some (has_failed why)) o m = passed-IsWalk failed _ o m
  after_rung-IsWalk (some (raised why)) o m = passed-IsWalk failed _ o m
  after_rung-IsWalk (some (produced t)) o m = (refl, refl, λ e. cc)

module _ (rungs : Text → Option (ContentItem → Rung)) (item : ContentItem) where
  pub walk-IsWalk :
      (chain : List Text) (o : Acquisition)
      → o.method ≡ none
      → IsWalk
          (first_transcript rungs item (to_end chain))
          (any_broken rungs item (to_end chain))
          item
          o
          (walk rungs chain item o)
  unfolding walk
  walk-IsWalk [] o m = (refl, m, λ e. ground arith)
  walk-IsWalk (step ∷ steps) o m = elim (Bool-cases (eq_text step terminal_step)) [
    | inl e ↦
        rw (e, walk)
          (
            refl,
            m,
            λ e'. ground (
              arith,
              any-snoc (λ r. is_failed r.status) o.rungs
                  (record { step = step; status = unavailable; detail = codes "terminal rung" }),
            ),
          )
    | inr e ↦
        rw (e, walk)
          (after_rung-IsWalk item step (walk rungs steps item)
            (first_transcript rungs item (to_end steps)) (any_broken rungs item (to_end steps))
            (walk-IsWalk steps) (attempted (rungs step) item) o m)
  ]
