-- ===== src/Enrichment/Trials.antt =====
-- Extractions of concrete transcripts.
use trend_engine_backend.Base.{
  ℕ, ◌+◌, ◌*◌, ◌/◌, ◌≤◌, ◌≡◌, refl, true, false, none, some, List, [], ◌∷◌, ◌++◌, Text, codes, ok,
  arith, ink, if◌then◌else◌, is_empty, Bool-cases, inl, inr,
}
use trend_engine_backend.Base.Int.{pos}
use trend_engine_backend.Evidence.Items.{
  relevant, transcribed, not_duplicate, unknown, ContentItem, ContentSegment, Anchor, assemblyai,
}
use trend_engine_backend.Evidence.Promotion.{is_promotional}
use trend_engine_backend.Enrichment.Pricing.{Tokens, haiku}
use trend_engine_backend.Enrichment.Costs.{Books, Caps, spend_this_month}
use trend_engine_backend.Enrichment.Client.{
  Call, Answer, response, not_valid, structured, Ending, returned, truncated,
}
use trend_engine_backend.Enrichment.Cached.{AnswersPrompt, IsQuarterOver}
use trend_engine_backend.Enrichment.Segments.{
  Chunk, last_end, cut_at, segment_loop, segment, seconds_loop, seconds_at, batch_loop, batches,
}
use trend_engine_backend.Enrichment.Segmented.{Spans, inks, segment-Spans}
use trend_engine_backend.Enrichment.Anchors.{last_before, seconds_at-last_before}
use trend_engine_backend.Enrichment.Claims.{
  Extraction, ExtractedClaim, Rows, anchored, keep_claims, not_skipped,
}
use trend_engine_backend.Enrichment.Extract.{or_halved, ask_within, ask, ask_all, extract}
use trend_engine_backend.Enrichment.Asked.{Answered, ask-or_halved, batches-Answered}
use trend_engine_backend.Enrichment.Extracted.{IsEvidenced}
use trend_engine_backend.Enrichment.Settled.{
  IsAllOrNothing, extract-IsAllOrNothing, extract-IsEvidenced,
}
use trend_engine_backend.Enrichment.Spent.{extract-IsQuarterOver}

abbrev speech : Text
speech = codes "It works. We dose five  grams daily and then some more of it."

cut_speech :
    segment speech 20
    ≡ some (
        record { start_char = 0; end_char = 20; body = codes "It works. We dose fi" }
        ∷ record { start_char = 20; end_char = 40; body = codes "ve  grams daily and" }
        ∷ record { start_char = 40; end_char = 60; body = codes "then some more of it" }
        ∷ record { start_char = 60; end_char = 61; body = codes "." }
        ∷ [])
unfolding segment segment_loop cut_at last_end
cut_speech = refl

abbrev anchors : List Anchor
anchors =
    record { millis = 0; char_index = 0 }
    ∷ record { millis = 4200; char_index = 10 }
    ∷ record { millis = 9000; char_index = 35 }
    ∷ []

segment-Spans_example :
    (chunks : List Chunk) × (segment speech 20 ≡ some chunks)
    × Spans 20 speech 0 chunks
    × (inks chunks ≡ ink speech)
segment-Spans_example = segment-Spans speech 20

seconds_at-last_before_example : seconds_at anchors 12 ≡ last_before anchors 12
seconds_at-last_before_example =
    seconds_at-last_before anchors 12
      ((omega arith, (omega arith, tt)), ((omega arith, tt), (tt, tt)))

abbrev item : ContentItem
item = record {
  pk = 1;
  route = codes "podcast";
  external_id = codes "ep1";
  url = [];
  title = codes "Creatine";
  creator = [];
  description = codes "sponsored by nobody";
  duration = unknown;
  published_at = none;
  discovered_at = 0;
  language = [];
  gate_decision = relevant;
  gate_reason = [];
  content_state = transcribed;
  acquisition_route = [];
  transcript_attempts = [];
  duplicate_of = none;
  duplicate_status = not_duplicate;
  duplicate_overlap = none;
  transcript = some (record {
    text = speech;
    anchors = anchors;
    method = assemblyai;
    quality = 80;
    cost_usd = 0;
  });
}

abbrev rows : Rows
rows = record { segments = []; claims = []; questions = [] }

abbrev empty : Books
empty = record { runs = []; ledger = []; alerts = [] }

abbrev dose_claim : Text → ExtractedClaim
dose_claim quote = record {
  segment_ordinal = pos 1;
  kind = codes "dosage";
  subject = codes "creatine";
  text = codes "Five grams a day.";
  quote = quote;
  is_cited = false;
  is_sponsored = false;
}

-- One claim that quotes the segment, and one that does not.
abbrev found : Extraction
found = record {
  claims = dose_claim (codes "five grams DAILY") ∷ dose_claim (codes "ten grams") ∷ [];
  questions = [];
}

abbrev model : List ContentSegment → Books → Ending Extraction × Books
model batch b = (returned found, b)

-- A model that is cut off at more than one segment.
abbrev short_model : List ContentSegment → Books → Ending Extraction × Books
short_model (s ∷ []) b = (returned found, b)
short_model batch b = (truncated, b)

abbrev piece : ℕ → ContentSegment
piece n = record {
  ordinal = n;
  text = speech;
  start_char = 0;
  end_char = 61;
  start_seconds = none;
  end_seconds = none;
}

one_kept :
    (extract model item rows empty).0
    ≡ ok (record {
      claims = 1;
      questions = 0;
      dropped_unanchored = 1;
      skipped = not_skipped;
      failed = false;
    })
unfolding extract ask_all ask ask_within batches batch_loop segment segment_loop cut_at last_end
    seconds_at seconds_loop keep_claims anchored is_promotional
one_kept = refl

ask-or_halved_example :
    ask short_model (piece 1 ∷ piece 2 ∷ piece 3 ∷ []) empty
    ≡ or_halved
        (ask short_model)
        (piece 1 ∷ piece 2 ∷ piece 3 ∷ [])
        (short_model (piece 1 ∷ piece 2 ∷ piece 3 ∷ []) empty)
ask-or_halved_example = ask-or_halved short_model (piece 1 ∷ piece 2 ∷ piece 3 ∷ []) empty

all_read : ask_all short_model (batches (piece 1 ∷ piece 2 ∷ piece 3 ∷ [])) empty ≡ (
  returned (record { claims = found.claims ++ (found.claims ++ found.claims); questions = [] }),
  empty,
)
unfolding ask_all ask ask_within batches batch_loop
all_read = refl

batches-Answered_example :
    Answered short_model
      (piece 1 ∷ piece 2 ∷ piece 3 ∷ [])
      empty
      (record { claims = found.claims ++ (found.claims ++ found.claims); questions = [] })
      empty
batches-Answered_example =
    batches-Answered short_model (piece 1 ∷ piece 2 ∷ piece 3 ∷ [])
      (record { claims = found.claims ++ (found.claims ++ found.claims); questions = [] }) empty
      empty all_read

extract-IsAllOrNothing_example : IsAllOrNothing model rows empty (extract model item rows empty)
extract-IsAllOrNothing_example = extract-IsAllOrNothing model item rows empty

extract-IsEvidenced_example : IsEvidenced (extract model item rows empty).1
extract-IsEvidenced_example = extract-IsEvidenced model item rows empty (tt, tt)

abbrev call : Call
call = record {
  month = 1;
  purpose = codes "extraction";
  tier = record { model = haiku; max_output_tokens = 512 };
}

abbrev caps : Caps
caps = record { monthly_cap = 4000; per_call_max = 0 }

abbrev to_ledger : ℕ → ℕ
to_ledger x = (x + 50) / 100

to_ledger-nearest : (x : ℕ) → 100 * to_ledger x ≤ x + 50
to_ledger-nearest x = omega arith

abbrev usage : Tokens
usage = record {
  input_tokens = 700;
  output_tokens = 200;
  cache_read_tokens = 0;
  cache_write_tokens = 300;
}

-- The first call is cut off, any other answers.
abbrev answer_after : List ContentSegment → Books → Answer Extraction
answer_after batch b =
    if is_empty b.runs then not_valid true 400 else response usage false (some found)

answer_after-within :
    (batch : List ContentSegment) (b : Books) → AnswersPrompt call 1000 (answer_after batch b)
answer_after-within batch b = elim (Bool-cases (is_empty b.runs)) [
  | inl e ↦ rw e (omega arith)
  | inr e ↦ rw e (omega arith, omega arith)
]

nothing_spent : IsQuarterOver caps 1 empty
unfolding spend_this_month
nothing_spent = omega arith

extract-IsQuarterOver_example :
    IsQuarterOver caps 1
      (extract
        (λ batch b. structured to_ledger caps call 1000 (answer_after batch b) b)
        item
        rows
        empty).2
extract-IsQuarterOver_example =
    extract-IsQuarterOver to_ledger to_ledger-nearest caps call (λ batch. 1000) answer_after item
      rows empty (omega arith) answer_after-within nothing_spent
