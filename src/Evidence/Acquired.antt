-- ===== src/Evidence/Acquired.antt =====
-- What `acquire` of apps/evidence/services/transcripts.py does to an item.
use trend_engine_backend.Base.{
  ℕ, ◌-◌, ◌≤◌, ◌≡◌, refl, sym, ap, ◌∙◌, subst, Bool, true, false, not, ◌&&◌, Option, none, some,
  List, [], ◌∷◌, ◌++◌, length, length-append, length-drop, drop, drop-append, if◌then◌else◌, Text,
  is_some, arith, Option-cases, inl, inr,
}
use trend_engine_backend.Evidence.Items.{Transcript, ContentItem, Attempt}
use trend_engine_backend.Evidence.Providers.{Rung}
use trend_engine_backend.Evidence.Ladder.{
  Acquisition, has_succeeded, is_retryable, nothing_yet, store, mark_metadata_only, walk, last_of,
  max_attempts, attempt_of, record_attempt_of, conclude, already_held, acquire_by, acquire,
  chain_for,
}
use trend_engine_backend.Evidence.Walks.{first_transcript, any_broken, to_end, IsWalk, walk-IsWalk}

-- An item without the history of its walks.
abbrev pub without_history : ContentItem → ContentItem
without_history item = record item { transcript_attempts = [] }

-- What a ladder promises of an item without a transcript, from the first transcript that a rung
-- produces and from whether one broke.
abbrev pub settled : Option Transcript → Bool → ContentItem → ContentItem
settled (some t) broken item = store item t
settled none true item = item
settled none false item = mark_metadata_only item

conclude-settled :
    (first : Option Transcript) (broken : Bool) (item : ContentItem)
    (out : ContentItem × Acquisition)
    → IsWalk first broken item nothing_yet out
    → without_history (conclude out).0 ≡ without_history (settled first broken item)
unfolding record_attempt_of
conclude-settled (some t) broken item (item', o) (same, method, broke) =
    let won : has_succeeded o ≡ true = ap is_some method in rw won (ap without_history same)
conclude-settled none true item (item', o) (same, method, broke) =
    let lost : has_succeeded o ≡ false = ap is_some method in
    let again : is_retryable o ≡ true = rw (lost, broke refl) refl in
    rw again (rw lost (ap without_history same))
conclude-settled none false item (item', o) (same, method, broke) =
    let lost : has_succeeded o ≡ false = ap is_some method in
    let never : is_retryable o ≡ false = rw (lost, broke refl) refl in
    rw (never) (rw lost (ap (λ x. without_history (mark_metadata_only x)) same))

length-last_of-le : {A : Type 0} (n : ℕ) (xs : List A) → length (last_of n xs) ≤ n
length-last_of-le n xs = omega (arith, length-drop (length xs - n) xs)

pub acquire_fresh :
    (rungs : Text → Option (ContentItem → Rung)) (item : ContentItem)
    → item.transcript ≡ none
    → acquire rungs item ≡ conclude (walk rungs (chain_for item) item nothing_yet)
unfolding acquire
acquire_fresh rungs item h = ap (acquire_by rungs item) h

-- For an item that has no transcript, the ladder is refined by this: the item keeps the first
-- transcript that a step of its chain before the terminal one produces; where none does and one
-- broke, with Failed or an unexpected exception, it stays as it was; and only where none does and
-- none broke is it marked metadata only. Its history aside nothing else changes.
pub acquire-settled :
    (rungs : Text → Option (ContentItem → Rung)) (item : ContentItem)
    → item.transcript ≡ none
    → without_history (acquire rungs item).0
      ≡ without_history (
          settled
            (first_transcript rungs item (to_end (chain_for item)))
            (any_broken rungs item (to_end (chain_for item)))
            item)
acquire-settled rungs item h =
    ap (λ out. without_history out.0) (acquire_fresh rungs item h)
    ∙ conclude-settled (first_transcript rungs item (to_end (chain_for item)))
        (any_broken rungs item (to_end (chain_for item))) item
        (walk rungs (chain_for item) item nothing_yet)
        (walk-IsWalk rungs item (chain_for item) nothing_yet refl)

-- A history that is bounded, and ends with one walk.
abbrev pub IsRecorded : ContentItem × Acquisition → Type 0
IsRecorded (item, o) =
    (length item.transcript_attempts ≤ max_attempts)
    × ((earlier : List Attempt) × (item.transcript_attempts ≡ earlier ++ attempt_of o ∷ []))

last_of-snoc :
    (xs : List Attempt) (a : Attempt)
    → (earlier : List Attempt) × (last_of max_attempts (xs ++ a ∷ []) ≡ earlier ++ a ∷ [])
last_of-snoc xs a =
    let l = length-append xs (a ∷ []) in
    (
      drop (length (xs ++ a ∷ []) - max_attempts) xs,
      drop-append (length (xs ++ a ∷ []) - max_attempts) xs (a ∷ []) (omega arith),
    )

record_attempt_of-IsRecorded :
    (item : ContentItem) (o : Acquisition) → IsRecorded (record_attempt_of item o, o)
unfolding record_attempt_of
record_attempt_of-IsRecorded item o = (
  length-last_of-le max_attempts (item.transcript_attempts ++ attempt_of o ∷ []),
  last_of-snoc item.transcript_attempts (attempt_of o),
)

conclude-IsRecorded : (out : ContentItem × Acquisition) → IsRecorded (conclude out)
conclude-IsRecorded (item, o) =
    record_attempt_of-IsRecorded
      (if not (has_succeeded o) && not (is_retryable o) then mark_metadata_only item else item) o

-- Every walk is recorded: the history of an item without a transcript holds at most ten walks
-- afterwards, and the one just made is the last of them, with its outcome and all its steps.
pub acquire-IsRecorded :
    (rungs : Text → Option (ContentItem → Rung)) (item : ContentItem)
    → item.transcript ≡ none
    → IsRecorded (acquire rungs item)
acquire-IsRecorded rungs item h =
    subst IsRecorded (sym (acquire_fresh rungs item h))
      (conclude-IsRecorded (walk rungs (chain_for item) item nothing_yet))

conclude-transcript :
    (item : ContentItem) (o : Acquisition) → (conclude (item, o)).0.transcript ≡ item.transcript
unfolding record_attempt_of mark_metadata_only
conclude-transcript item o = ground arith

-- The item holds the transcript whose method the walk names.
abbrev Held : ContentItem × Acquisition → Type 0
Held (item, o) = (t : Transcript) × (item.transcript ≡ some t) × (o.method ≡ some t.method)

conclude-Held :
    (first : Option Transcript) (broken : Bool) (item : ContentItem)
    (out : ContentItem × Acquisition)
    → IsWalk first broken item nothing_yet out
    → has_succeeded (conclude out).1 ≡ true
    → Held (conclude out)
conclude-Held none broken item (item', o) (same, method, broke) h =
    let lost : has_succeeded o ≡ false = ap is_some method in absurd (ground arith)
conclude-Held (some t) broken item (item', o) (same, method, broke) h =
    (t, conclude-transcript item' o ∙ ap (λ x. x.transcript) same, method)

pub acquire_held :
    (rungs : Text → Option (ContentItem → Rung)) (item : ContentItem) (t : Transcript)
    → item.transcript ≡ some t
    → acquire rungs item ≡ (item, already_held t)
unfolding acquire
acquire_held rungs item t h = ap (acquire_by rungs item) h

acquire-Held :
    (rungs : Text → Option (ContentItem → Rung)) (item : ContentItem)
    → has_succeeded (acquire rungs item).1 ≡ true
    → Held (acquire rungs item)
acquire-Held rungs item h = elim (Option-cases item.transcript) [
  | inr (t, e) ↦ subst Held (sym (acquire_held rungs item t e)) (t, e, refl)
  | inl e ↦
      (let fresh = acquire_fresh rungs item e in
        subst Held (sym fresh) (
          conclude-Held (first_transcript rungs item (to_end (chain_for item)))
            (any_broken rungs item (to_end (chain_for item))) item
            (walk rungs (chain_for item) item nothing_yet)
            (walk-IsWalk rungs item (chain_for item) nothing_yet refl)
            (ap (λ out. has_succeeded out.1) (sym fresh) ∙ h)))
]

-- A transcript is acquired once: after a walk that succeeded, or for an item that had one, walking
-- again, whatever the rungs would answer by then, changes nothing and names the same method.
pub acquire_once :
    (rungs later : Text → Option (ContentItem → Rung)) (item : ContentItem)
    → has_succeeded (acquire rungs item).1 ≡ true
    → ((acquire later (acquire rungs item).0).0 ≡ (acquire rungs item).0)
      × ((acquire later (acquire rungs item).0).1.method ≡ (acquire rungs item).1.method)
acquire_once rungs later item h =
    let (t, held, method) = acquire-Held rungs item h in
    let again = acquire_held later (acquire rungs item).0 t held in
    (ap (λ out. out.0) again, ap (λ out. out.1.method) again ∙ sym method)
