-- ===== src/Enrichment/Tasks.antt =====
-- apps/enrichment/tasks.py: the tasks that lead one item from the gate over the ladder and the duplicates to
-- extraction, each put into the queue by the one before it, and views.py's retry.
use trend_engine_backend.Base.{
  ℕ, zero, suc, Bool, true, false, not, ◌&&◌, Option, List, [], ◌∷◌, ◌++◌, if◌then◌else◌, Text,
  Result, ok, err, is_some, is_empty,
}
use trend_engine_backend.Evidence.Items.{
  ContentItem, ContentSegment, is_duplicate, is_confirmed, is_transcribed,
}
use trend_engine_backend.Evidence.Providers.{Rung}
use trend_engine_backend.Evidence.Ladder.{Acquisition, has_succeeded, is_retryable, acquire}
use trend_engine_backend.Evidence.Duplicates.{check}
use trend_engine_backend.Enrichment.Costs.{Books}
use trend_engine_backend.Enrichment.Client.{Ending}
use trend_engine_backend.Enrichment.Claims.{Extraction, Rows, Uncaught, ExtractionResult}
use trend_engine_backend.Enrichment.Extract.{extract}
use trend_engine_backend.Enrichment.Gate.{
  GateVerdict, GateResult, is_pending, assess, needs_transcript,
}

-- A task of the queue, for the one item; that of the ladder with the retries it has left.
pub data Task : Type 0 where
  assess_relevance : Task
  acquire_transcript : (retries : ℕ) → Task
  extract_evidence : Task

-- The item, the others it is compared with, its rows, the books and the queue.
pub record Pipeline : Type 0 where
  pub item : ContentItem
  pub others : List ContentItem
  pub rows : Rows
  pub books : Books
  pub queue : List Task

-- What the tasks call that is not theirs.
pub record Services : Type 0 where
  pub is_alpha : ℕ → Bool
  pub gate_model : Books → Ending GateVerdict × Books
  pub in_sample : Bool
  pub rungs : Text → Option (ContentItem → Rung)
  pub hash : List Text → ℕ
  pub client : List ContentSegment → Books → Ending Extraction × Books

-- `max_retries`
abbrev pub max_retries : ℕ
max_retries = 3

abbrev pub dispatch_if : Bool → Task → List Task → List Task
dispatch_if b t queue = if b then queue ++ t ∷ [] else queue

abbrev pub is_ok : {A : Type 0} → Result Uncaught A → Bool
is_ok (ok a) = true
is_ok (err e) = false

abbrev pub after_assess : Pipeline → Result Uncaught GateResult × ContentItem × Books → Pipeline
after_assess p (r, item, b) = record p {
  item = item;
  books = b;
  queue = dispatch_if (is_ok r && needs_transcript item) (acquire_transcript max_retries) p.queue;
}

-- The item and the others after a check, which keeps their order: `refresh_from_db`.
abbrev pub refreshed : Pipeline → List ContentItem → Pipeline
refreshed p [] = p
refreshed p (item ∷ others) = record p {
  item = item;
  others = others;
  queue = dispatch_if (not (is_duplicate item)) extract_evidence p.queue;
}

abbrev pub retried : ℕ → List Task → List Task
retried zero queue = queue
retried (suc n) queue = queue ++ acquire_transcript n ∷ []

abbrev pub after_acquire : Services → ℕ → Pipeline → ContentItem × Acquisition → Pipeline
after_acquire s retries p (item, o) =
    if has_succeeded o
    then refreshed (record p { item = item }) (check s.hash item (item ∷ p.others))
    else if is_retryable o
    then record p { item = item; queue = retried retries p.queue }
    else record p { item = item }

abbrev pub after_extract : Pipeline → Result Uncaught ExtractionResult × Rows × Books → Pipeline
after_extract p (r, rows, b) = record p { rows = rows; books = b }

-- A task, run.
unfoldable pub run : Services → Task → Pipeline → Pipeline
unfolding assess acquire check extract
run s assess_relevance p =
    after_assess p (assess s.is_alpha s.gate_model s.in_sample p.item p.books)
run s (acquire_transcript retries) p = after_acquire s retries p (acquire s.rungs p.item)
run s extract_evidence p = after_extract p (extract s.client p.item p.rows p.books)

-- `assess_pending`, for the one item.
abbrev pub assess_pending : Pipeline → Pipeline
assess_pending p = record p {
  queue = dispatch_if (is_pending p.item.gate_decision) assess_relevance p.queue;
}

-- `unanalysed` of failures.py, of the one item. Whether an extraction run failed, or there is none an hour
-- after the transcript, is an argument.
abbrev pub is_unanalysed : Bool → Pipeline → Bool
is_unanalysed has_failed_or_stalled p =
    needs_transcript p.item
    && is_transcribed p.item.content_state
    && is_some p.item.transcript
    && not (is_confirmed p.item.duplicate_status)
    && is_empty p.rows.claims
    && is_empty p.rows.questions
    && has_failed_or_stalled

-- `RetryAnalysisView.post`, for the one item.
abbrev pub retry_analysis : Bool → Pipeline → Pipeline
retry_analysis has_failed_or_stalled p = record p {
  queue = dispatch_if (is_unanalysed has_failed_or_stalled p) extract_evidence p.queue;
}
