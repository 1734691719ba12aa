-- ===== src/Enrichment/Funnel.antt =====
-- That nothing is spent past the gate of apps/enrichment/gate.py but on what it let through.
use trend_engine_backend.Base.{
  ℕ, ◌≡◌, refl, sym, ap, ◌∙◌, ◌⊎◌, inl, inr, Bool, true, false, not, ◌&&◌, Option, none, List, [],
  ◌∷◌, ◌++◌, any, any-append_right, is_empty, arith, Bool-cases,
}
use trend_engine_backend.Evidence.Items.{ContentItem, DuplicateStatus, GateDecision}
use trend_engine_backend.Evidence.Ladder.{acquire}
use trend_engine_backend.Enrichment.Costs.{Books}
use trend_engine_backend.Enrichment.Client.{Ending, returned}
use trend_engine_backend.Enrichment.Gate.{
  is_pending, passes, needs_transcript, GateVerdict, settle_verdict, language_mismatch, assess,
}
use trend_engine_backend.Enrichment.Tasks.{
  Task, assess_relevance, acquire_transcript, extract_evidence, Pipeline, Services, run,
  assess_pending, is_unanalysed, retry_analysis, after_acquire, dispatch_if, is_ok, max_retries,
}
use trend_engine_backend.Enrichment.Decisions.{gate-acquire, gate-after_acquire}

-- A task that costs more than the gate.
abbrev pub is_spending : Task → Bool
is_spending assess_relevance = false
is_spending task = true

-- The gate let the item through, or it has no transcript, no segments, no claims and no questions, and
-- nothing is queued that would cost.
abbrev pub IsEarned : Pipeline → Type 0
IsEarned p =
    (needs_transcript p.item ≡ true)
    ⊎ ((p.item.transcript ≡ none)
        × (is_empty p.rows.segments ≡ true)
        × (is_empty p.rows.claims ≡ true)
        × (is_empty p.rows.questions ≡ true)
        × (any is_spending p.queue ≡ false))

needs-same :
    (i j : ContentItem)
    → i.gate_decision ≡ j.gate_decision
    → needs_transcript j ≡ true
    → needs_transcript i ≡ true
needs-same i j e h = ap passes e ∙ h

-- What passed was assessed, so that it is not assessed again.
passes-decided : (d : GateDecision) → passes d ≡ true → is_pending d ≡ false
passes-decided GateDecision.pending h = cc
passes-decided GateDecision.relevant h = refl
passes-decided GateDecision.rejected h = refl
passes-decided GateDecision.sampled h = refl

dispatch_none :
    (b : Bool) (t : Task) (queue : List Task) → b ≡ false → dispatch_if b t queue ≡ queue
dispatch_none b t queue e = rw e refl

quiet_more :
    (queue : List Task) (b : Bool)
    → any is_spending queue ≡ false
    → any is_spending (dispatch_if b assess_relevance queue) ≡ false
quiet_more queue false h = h
quiet_more [] true h = refl
quiet_more (t ∷ ts) true h = ground (arith, quiet_more ts true)

quiet_less :
    (before after : List Task) (t : Task)
    → any is_spending (before ++ t ∷ after) ≡ false
    → any is_spending (before ++ after) ≡ false
quiet_less [] after t h = ground arith
quiet_less (u ∷ before) after t h = ground (arith, quiet_less before after t)

not_queued :
    (before after : List Task) (t : Task)
    → is_spending t ≡ true
    → any is_spending (before ++ t ∷ after) ≡ false
    → ⊥
not_queued before after t spends h =
    let found = any-append_right is_spending before (t ∷ after) (ground arith) in
    absurd (ground arith)

settle_verdict-transcript :
    (al : ℕ → Bool) (in_sample : Bool) (item : ContentItem) (x : Ending GateVerdict × Books)
    → (settle_verdict al in_sample item x).1.transcript ≡ item.transcript
settle_verdict-transcript al in_sample item (returned v, b) = refl
settle_verdict-transcript al in_sample item (ending, b) = refl

assess-transcript :
    (al : ℕ → Bool) (model : Books → Ending GateVerdict × Books) (in_sample : Bool)
    (item : ContentItem) (b : Books)
    → (assess al model in_sample item b).1.transcript ≡ item.transcript
unfolding assess
assess-transcript al model in_sample item b =
    elim (Bool-cases (not (is_pending item.gate_decision))) [
      | inl e ↦ rw (e, assess) refl
      | inr e ↦ elim (Bool-cases (language_mismatch al item)) [
        | inl f ↦ rw (e, f, assess) refl
        | inr f ↦ rw (e, f, assess) (settle_verdict-transcript al in_sample item (model b))
      ]
    ]

assess-decided :
    (al : ℕ → Bool) (model : Books → Ending GateVerdict × Books) (in_sample : Bool)
    (item : ContentItem) (b : Books)
    → is_pending item.gate_decision ≡ false
    → (assess al model in_sample item b).1 ≡ item
unfolding assess
assess-decided al model in_sample item b h = rw (h, assess) refl

module _ (s : Services) where
  -- One step of the pipeline: a task is dispatched or asked for
  -- again, one of the queue is run, or the marks of the item
  -- as a duplicate are changed by the check of another.
  pub data Step (p : Pipeline) : Pipeline → Type 0 where
    sweeps : Step p (assess_pending p)
    asks_again : (has_failed_or_stalled : Bool) → Step p (retry_analysis has_failed_or_stalled p)
    runs :
        (task : Task) (before after : List Task)
        → p.queue ≡ before ++ task ∷ after
        → Step p (run s task (record p { queue = before ++ after }))
    is_marked_ :
        (status : DuplicateStatus) (root : Option ℕ)
        → Step p
            (record p { item = record p.item { duplicate_status = status; duplicate_of = root } })

  pub data Reach (p : Pipeline) : Pipeline → Type 0 where
    here : Reach p p
    next : {q r : Pipeline} → Reach p q → Step q r → Reach p r

  IsEarned-assess : (p : Pipeline) → IsEarned p → IsEarned (run s assess_relevance p)
  unfolding run
  IsEarned-assess p (inl h) =
      let same =
        assess-decided s.is_alpha s.gate_model s.in_sample p.item p.books
          (passes-decided p.item.gate_decision h) in
      inl (ap needs_transcript same ∙ h)
  IsEarned-assess p (inr (none_, segments, claims, questions, quiet)) =
      let out = assess s.is_alpha s.gate_model s.in_sample p.item p.books in
      elim (Bool-cases (needs_transcript out.1)) [
        | inl e ↦ inl e
        | inr e ↦ inr (
          assess-transcript s.is_alpha s.gate_model s.in_sample p.item p.books ∙ none_,
          segments,
          claims,
          questions,
          ap (any is_spending) (
                dispatch_none (is_ok out.0 && needs_transcript out.1)
                  (acquire_transcript max_retries) p.queue (ground arith))
              ∙ quiet,
        )
      ]

  IsEarned-acquire :
      (retries : ℕ) (p : Pipeline)
      → needs_transcript p.item ≡ true
      → IsEarned (run s (acquire_transcript retries) p)
  unfolding run
  IsEarned-acquire retries p h = inl (
      needs-same (after_acquire s retries p (acquire s.rungs p.item)).item p.item
        (gate-after_acquire s retries p (acquire s.rungs p.item) ∙ gate-acquire s.rungs p.item) h)

  IsEarned-extract :
      (p : Pipeline) → needs_transcript p.item ≡ true → IsEarned (run s extract_evidence p)
  unfolding run
  IsEarned-extract p h = inl h

  IsEarned-taken :
      (p : Pipeline) (before after : List Task) (t : Task)
      → p.queue ≡ before ++ t ∷ after
      → IsEarned p
      → IsEarned (record p { queue = before ++ after })
  IsEarned-taken p before after t e (inl h) = inl h
  IsEarned-taken p before after t e (inr (none_, segments, claims, questions, quiet)) = inr (
    none_,
    segments,
    claims,
    questions,
    quiet_less before after t (ap (any is_spending) (sym e) ∙ quiet),
  )

  -- A task that costs is queued only for an item that passed.
  IsEarned-spending :
      (p : Pipeline) (before after : List Task) (t : Task)
      → p.queue ≡ before ++ t ∷ after
      → is_spending t ≡ true
      → IsEarned p
      → needs_transcript p.item ≡ true
  IsEarned-spending p before after t e spends (inl h) = h
  IsEarned-spending p before after t e spends (inr (none_, segments, claims, questions, quiet)) =
      absurd (not_queued before after t spends (ap (any is_spending) (sym e) ∙ quiet))

  IsEarned-run :
      (p : Pipeline) (t : Task) (before after : List Task)
      → p.queue ≡ before ++ t ∷ after
      → IsEarned p
      → IsEarned (run s t (record p { queue = before ++ after }))
  IsEarned-run p assess_relevance before after e h =
      IsEarned-assess (record p { queue = before ++ after })
        (IsEarned-taken p before after assess_relevance e h)
  IsEarned-run p (acquire_transcript retries) before after e h =
      IsEarned-acquire retries (record p { queue = before ++ after })
        (IsEarned-spending p before after (acquire_transcript retries) e refl h)
  IsEarned-run p extract_evidence before after e h =
      IsEarned-extract (record p { queue = before ++ after })
        (IsEarned-spending p before after extract_evidence e refl h)

  IsEarned-Step : (p q : Pipeline) → IsEarned p → Step p q → IsEarned q
  IsEarned-Step p q (inl h) sweeps = inl h
  IsEarned-Step p q (inr (none_, segments, claims, questions, quiet)) sweeps = inr (
    none_,
    segments,
    claims,
    questions,
    quiet_more p.queue (is_pending p.item.gate_decision) quiet,
  )
  IsEarned-Step p q (inl h) (asks_again failed) = inl h
  IsEarned-Step p q (inr (none_, segments, claims, questions, quiet)) (asks_again failed) =
      elim (Bool-cases (needs_transcript p.item)) [
        | inl e ↦ inl e
        | inr e ↦ inr (
          none_,
          segments,
          claims,
          questions,
          ap (any is_spending)
                (dispatch_none (is_unanalysed failed p) extract_evidence p.queue (ground arith))
              ∙ quiet,
        )
      ]
  IsEarned-Step p q h (runs task before after e) = IsEarned-run p task before after e h
  IsEarned-Step p q (inl h) (is_marked_ status root) = inl h
  IsEarned-Step p q (inr h) (is_marked_ status root) = inr h

  -- Nothing is spent on an item that the gate has not let through: from an item without
  -- transcript, segments, claims, questions and queued work, whatever order the tasks run in,
  -- however often its analysis is asked for again, whatever the model and the providers answer and
  -- however the marks of duplicates change, it has none of these, nor a task that costs in the
  -- queue, unless its decision is relevant or sampled.
  pub Reach-IsEarned : (p q : Pipeline) → IsEarned p → Reach p q → IsEarned q
  Reach-IsEarned p q h here = h
  Reach-IsEarned p q h (next path step) = IsEarned-Step _ q (Reach-IsEarned p _ h path) step
