-- ===== src/Enrichment/Decisions.antt =====
-- That the ladder, the duplicates and the task of apps/enrichment/tasks.py that runs them leave an item's
-- decision at the gate as it is.
use trend_engine_backend.Base.{
  ℕ, ◌≡◌, refl, ap, ◌∙◌, inl, inr, Bool, true, false, not, Option, none, some, List, [], ◌∷◌, map,
  update_where, ◌==◌, if◌then◌else◌, Text, arith, Bool-cases, Option-cases,
}
use trend_engine_backend.Evidence.Items.{
  ContentItem, GateDecision, Transcript, is_duplicate, is_confirmed,
}
use trend_engine_backend.Evidence.Providers.{Rung}
use trend_engine_backend.Evidence.Ladder.{
  Acquisition, has_succeeded, is_retryable, acquire, walk, chain_for, nothing_yet, conclude,
  mark_metadata_only, record_attempt_of,
}
use trend_engine_backend.Evidence.Duplicates.{
  Match, check, canonical, marked_as, points_to, pointed_at, with_match, record_match,
  record_confirmed, mark, find_match, item_with,
}
use trend_engine_backend.Evidence.Walks.{walk-IsWalk, stored_if, first_transcript, to_end}
use trend_engine_backend.Evidence.Acquired.{acquire_fresh, acquire_held}
use trend_engine_backend.Enrichment.Tasks.{Pipeline, Services, refreshed, after_acquire, retried}

gate-update_where :
    (q : ContentItem → Bool) (f : ContentItem → ContentItem) (xs : List ContentItem)
    → ((x : ContentItem) → (f x).gate_decision ≡ x.gate_decision)
    → map (λ x. x.gate_decision) (update_where q f xs) ≡ map (λ x. x.gate_decision) xs
gate-update_where q f [] h = refl
gate-update_where q f (x ∷ xs) h =
    let rest = gate-update_where q f xs h in
    elim (Bool-cases (q x)) [
      | inl e ↦ rw e (
          ap (λ g. g ∷ map (λ y. y.gate_decision) (update_where q f xs)) (h x)
          ∙ ap (◌∷◌ x.gate_decision) rest)
      | inr e ↦ rw e (ap (◌∷◌ x.gate_decision) rest)
    ]

gate-mark :
    (duplicate keep : ContentItem) (m : Match) (items : List ContentItem)
    → map (λ x. x.gate_decision) (mark duplicate keep m items) ≡ map (λ x. x.gate_decision) items
gate-mark duplicate keep m items =
    let root = if is_confirmed m.status then (canonical items keep).pk else keep.pk in
    gate-update_where (λ i. i.pk == duplicate.pk) (marked_as root m) items (λ x. refl)

gate-record_confirmed :
    (duplicate keep : ContentItem) (m : Match) (items : List ContentItem)
    → map (λ x. x.gate_decision) (record_confirmed duplicate keep m items)
      ≡ map (λ x. x.gate_decision) items
gate-record_confirmed duplicate keep m items =
    gate-update_where (points_to duplicate.pk) (pointed_at keep.pk) (mark duplicate keep m items)
      (λ x. refl)
    ∙ gate-mark duplicate keep m items

gate-record_match :
    (item : ContentItem) (m : Match) (o : Option ContentItem) (items : List ContentItem)
    → map (λ x. x.gate_decision) (record_match item m o items) ≡ map (λ x. x.gate_decision) items
gate-record_match item m none items = refl
gate-record_match item m (some other) items = elim (Bool-cases (not (is_confirmed m.status))) [
  | inl e ↦ rw (e, record_match) (gate-mark item other m items)
  | inr e ↦ elim (Bool-cases (m.keep_id == other.pk)) [
    | inl f ↦ rw (e, f, record_match) (gate-record_confirmed item other m items)
    | inr f ↦ rw (e, f, record_match) (gate-record_confirmed other item m items)
  ]
]

gate-with_match :
    (item : ContentItem) (o : Option Match) (items : List ContentItem)
    → map (λ x. x.gate_decision) (with_match item o items) ≡ map (λ x. x.gate_decision) items
gate-with_match item none items = refl
gate-with_match item (some m) items = gate-record_match item m (item_with m.other_id items) items

gate-check :
    (hash : List Text → ℕ) (item : ContentItem) (items : List ContentItem)
    → map (λ x. x.gate_decision) (check hash item items) ≡ map (λ x. x.gate_decision) items
unfolding check
gate-check hash item items = elim (Bool-cases (is_duplicate item)) [
  | inl e ↦ rw (e, check) refl
  | inr e ↦ rw (e, check) (gate-with_match item (find_match hash item items) items)
]

gate-conclude :
    (item : ContentItem) (o : Acquisition)
    → (conclude (item, o)).0.gate_decision ≡ item.gate_decision
unfolding record_attempt_of mark_metadata_only
gate-conclude item o = ground arith

gate-stored_if :
    (first : Option Transcript) (item : ContentItem)
    → (stored_if first item).gate_decision ≡ item.gate_decision
gate-stored_if none item = refl
gate-stored_if (some t) item = refl

pub gate-acquire :
    (rungs : Text → Option (ContentItem → Rung)) (item : ContentItem)
    → (acquire rungs item).0.gate_decision ≡ item.gate_decision
gate-acquire rungs item = elim (Option-cases item.transcript) [
  | inr (t, e) ↦ ap (λ out. out.0.gate_decision) (acquire_held rungs item t e)
  | inl e ↦
      (let first = first_transcript rungs item (to_end (chain_for item)) in
        let out = walk rungs (chain_for item) item nothing_yet in
        ap (λ x. x.0.gate_decision) (acquire_fresh rungs item e)
        ∙ gate-conclude out.0 out.1
        ∙ ap (λ x. x.gate_decision) (walk-IsWalk rungs item (chain_for item) nothing_yet refl).0
        ∙ gate-stored_if first item)
]

-- The item of a check is the first of the list, before and after.
refreshed-item :
    (p : Pipeline) (items : List ContentItem) (d : GateDecision) (ds : List GateDecision)
    → map (λ x. x.gate_decision) items ≡ d ∷ ds
    → (refreshed p items).item.gate_decision ≡ d
refreshed-item p [] d ds e = cc
refreshed-item p (item ∷ others) d ds e = cc

either_item :
    (b : Bool) (p q : Pipeline) (d : GateDecision)
    → p.item.gate_decision ≡ d
    → q.item.gate_decision ≡ d
    → (if b then p else q).item.gate_decision ≡ d
either_item true p q d h k = h
either_item false p q d h k = k

pub gate-after_acquire :
    (s : Services) (retries : ℕ) (p : Pipeline) (out : ContentItem × Acquisition)
    → (after_acquire s retries p out).item.gate_decision ≡ out.0.gate_decision
gate-after_acquire s retries p (item, o) =
    either_item (has_succeeded o)
      (refreshed (record p { item = item }) (check s.hash item (item ∷ p.others)))
      (if is_retryable o
        then record p { item = item; queue = retried retries p.queue }
        else record p { item = item })
      item.gate_decision
      (refreshed-item (record p { item = item }) (check s.hash item (item ∷ p.others))
        item.gate_decision (map (λ x. x.gate_decision) p.others)
        (gate-check s.hash item (item ∷ p.others)))
      (either_item (is_retryable o) (record p { item = item; queue = retried retries p.queue })
        (record p { item = item }) item.gate_decision refl refl)
