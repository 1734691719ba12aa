-- ===== src/Enrichment/Extract.antt =====
-- apps/enrichment/extraction.py: `extract`, from the segments of a transcript to stored claims and
-- questions. The model is the client of Enrichment/Client.antt, as what it does to a batch.
use trend_engine_backend.Base.{
  ℕ, zero, suc, ◌/◌, true, false, not, ◌&&◌, List, [], ◌∷◌, ◌++◌, length, take, drop, ltb,
  if◌then◌else◌, is_empty, Result, ok, err,
}
use trend_engine_backend.Evidence.Items.{
  ContentItem, ContentSegment, is_metadata_only, is_duplicate,
}
use trend_engine_backend.Evidence.Promotion.{is_promotional}
use trend_engine_backend.Enrichment.Costs.{Books}
use trend_engine_backend.Enrichment.Client.{
  Ending, returned, unknown_model, cost_cap_exceeded, truncated, invalid_output, unavailable,
  call_error,
}
use trend_engine_backend.Enrichment.Segments.{segment, seconds_at, batches}
use trend_engine_backend.Enrichment.Claims.{
  Extraction, Rows, not_skipped, metadata_only, same_conversation, already_extracted, no_transcript,
  model_failed, ExtractionResult, skip_as, Uncaught, no_price, other_error, build_segments,
  keep_claims, keep_questions,
}

abbrev pub joined : Extraction → Extraction → Extraction
joined first second = record {
  claims = first.claims ++ second.claims;
  questions = first.questions ++ second.questions;
}

abbrev pub no_parts : Extraction
no_parts = record { claims = []; questions = [] }

abbrev pub join_after : Extraction → Ending Extraction × Books → Ending Extraction × Books
join_after first (returned second, b) = (returned (joined first second), b)
join_after first (ending, b) = (ending, b)

abbrev pub and_then :
    (Books → Ending Extraction × Books) → Ending Extraction × Books → Ending Extraction × Books
and_then again (returned first, b) = join_after first (again b)
and_then again (ending, b) = (ending, b)

-- What `ask` does with the answer to a whole batch: a truncated one is halved, unless it is one segment.
abbrev pub or_halved :
    (List ContentSegment → Books → Ending Extraction × Books)
    → List ContentSegment
    → Ending Extraction × Books
    → Ending Extraction × Books
or_halved again batch (truncated, b) = elim (ltb (length batch) 2) [
  | true ↦ (truncated, b)
  | false ↦
      and_then (again (drop (length batch / 2) batch)) (again (take (length batch / 2) batch) b)
]
or_halved again batch (ending, b) = (ending, b)

module _ (client : List ContentSegment → Books → Ending Extraction × Books) where
  -- `ask`, with as much fuel as halvings may follow one another.
  unfoldable pub ask_within : ℕ → List ContentSegment → Books → Ending Extraction × Books
  ask_within zero batch b = client batch b
  ask_within (suc fuel) batch b = or_halved (ask_within fuel) batch (client batch b)

  -- `ask`
  unfoldable pub ask : List ContentSegment → Books → Ending Extraction × Books
  unfolding ask_within
  ask batch b = ask_within (length batch) batch b

  -- The loop over the batches, and the parts put together.
  unfoldable pub ask_all : List (List ContentSegment) → Books → Ending Extraction × Books
  unfolding ask
  ask_all [] b = (returned no_parts, b)
  ask_all (batch ∷ rest) b = and_then (ask_all rest) (ask batch b)

  abbrev pub stored : ContentItem → Rows → Extraction → ExtractionResult × Rows
  stored item rows result =
      let kept =
        keep_claims rows.segments (is_promotional (item.title ∷ item.description ∷ []))
          result.claims in
      let asked = keep_questions rows.segments result.questions in
      (
        record {
          claims = length kept.0;
          questions = length asked;
          dropped_unanchored = kept.1;
          skipped = not_skipped;
          failed = false;
        },
        record rows { claims = rows.claims ++ kept.0; questions = rows.questions ++ asked },
      )

  abbrev failed_result : ExtractionResult
  failed_result = record (skip_as model_failed) { failed = true }

  -- What follows the model's answers: the writes, a result that says it failed, or an exception.
  abbrev pub settle_extraction :
      ContentItem
      → Rows
      → Ending Extraction × Books
      → Result Uncaught ExtractionResult × Rows × Books
  settle_extraction item rows (returned result, b) =
      let (done, rows') = stored item rows result in (ok done, rows', b)
  settle_extraction item rows (unknown_model, b) = (err no_price, rows, b)
  settle_extraction item rows (call_error, b) = (err other_error, rows, b)
  settle_extraction item rows (cost_cap_exceeded, b) = (ok failed_result, rows, b)
  settle_extraction item rows (truncated, b) = (ok failed_result, rows, b)
  settle_extraction item rows (invalid_output, b) = (ok failed_result, rows, b)
  settle_extraction item rows (unavailable, b) = (ok failed_result, rows, b)

  abbrev pub extract_new :
      ContentItem → Rows → Books → Result Uncaught ExtractionResult × Rows × Books
  extract_new item rows b =
      if is_empty rows.segments
      then (ok (skip_as no_transcript), rows, b)
      else settle_extraction item rows (ask_all (batches rows.segments) b)

  abbrev pub counts_of : Rows → ExtractionResult
  counts_of rows = record (skip_as already_extracted) {
    claims = length rows.claims;
    questions = length rows.questions;
  }

  -- `extract`
  unfoldable pub extract :
      ContentItem → Rows → Books → Result Uncaught ExtractionResult × Rows × Books
  unfolding ask_all is_promotional keep_claims segment seconds_at
  extract item rows b =
      if is_metadata_only item
      then (ok (skip_as metadata_only), rows, b)
      else if is_duplicate item
      then (ok (skip_as same_conversation), rows, b)
      else if not (is_empty rows.claims && is_empty rows.questions)
      then (ok (counts_of rows), rows, b)
      else extract_new item (build_segments item rows) b
