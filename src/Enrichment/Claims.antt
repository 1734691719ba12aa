-- ===== src/Enrichment/Claims.antt =====
-- What apps/enrichment/extraction.py is given by a model and what it keeps of it: the segments of an item,
-- the claims whose quotes stand in them, and the questions.
use trend_engine_backend.Base.{
  ℕ, suc, Bool, false, not, ◌&&◌, ◌||◌, Option, none, some, List, [], ◌∷◌, ◌==◌, if◌then◌else◌,
  Text, codes, eq_text, is_empty, strip, contains, normalise,
}
use trend_engine_backend.Base.Int.{ℤ, pos, negsuc}
use trend_engine_backend.Evidence.Items.{ContentItem, ContentSegment, Transcript, Anchor}
use trend_engine_backend.Enrichment.Segments.{Chunk, segment, seconds_at}

-- `ExtractedClaim`
pub record ExtractedClaim : Type 0 where
  pub segment_ordinal : ℤ
  pub kind : Text
  pub subject : Text
  pub text : Text
  pub quote : Text
  pub is_cited : Bool
  pub is_sponsored : Bool

-- `ExtractedQuestion`
pub record ExtractedQuestion : Type 0 where
  pub segment_ordinal : ℤ
  pub text : Text
  pub topic : Text

-- `Extraction`
pub record Extraction : Type 0 where
  pub claims : List ExtractedClaim
  pub questions : List ExtractedQuestion

-- `Claim.Kind`
pub data Kind : Type 0 where
  mechanism effect dosage safety comparison market : Kind

-- `candidate.kind if candidate.kind in kinds else Claim.Kind.EFFECT`
abbrev pub kind_or_effect : Text → Kind
kind_or_effect s =
    if eq_text s (codes "mechanism")
    then mechanism
    else if eq_text s (codes "dosage")
    then dosage
    else if eq_text s (codes "safety")
    then safety
    else if eq_text s (codes "comparison")
    then comparison
    else if eq_text s (codes "market")
    then market
    else effect

-- `Claim`
pub record Claim : Type 0 where
  pub segment : ContentSegment
  pub kind : Kind
  pub subject : Text
  pub text : Text
  pub quote : Text
  pub is_cited : Bool
  pub is_sponsored : Bool

-- `Question`
pub record Question : Type 0 where
  pub segment : ContentSegment
  pub text : Text
  pub topic : Text

-- The rows of one item.
pub record Rows : Type 0 where
  pub segments : List ContentSegment
  pub claims : List Claim
  pub questions : List Question

-- Why nothing was extracted.
pub data Skip : Type 0 where
  not_skipped metadata_only same_conversation already_extracted no_transcript model_failed : Skip

-- `ExtractionResult`
pub record ExtractionResult : Type 0 where
  pub claims : ℕ
  pub questions : ℕ
  pub dropped_unanchored : ℕ
  pub skipped : Skip
  pub failed : Bool

abbrev pub skip_as : Skip → ExtractionResult
skip_as why = record {
  claims = 0;
  questions = 0;
  dropped_unanchored = 0;
  skipped = why;
  failed = false;
}

-- What `extract` does not catch: a model without a price, and any other exception of the call.
pub data Uncaught : Type 0 where
  no_price other_error : Uncaught

abbrev pub segments_from : List Anchor → ℕ → List Chunk → List ContentSegment
segments_from anchors ordinal [] = []
segments_from anchors ordinal (c ∷ cs) =
    record {
      ordinal = ordinal;
      text = c.body;
      start_char = c.start_char;
      end_char = c.end_char;
      start_seconds = seconds_at anchors c.start_char;
      end_seconds = seconds_at anchors c.end_char;
    }
    ∷ segments_from anchors (suc ordinal) cs

abbrev cut_transcript : List Anchor → Option (List Chunk) → List ContentSegment
cut_transcript anchors none = []
cut_transcript anchors (some chunks) = segments_from anchors 1 chunks

abbrev pub segments_of : Option Transcript → List ContentSegment
segments_of none = []
segments_of (some t) =
    if is_empty (strip t.text) then [] else cut_transcript t.anchors (segment t.text 0)

-- `build_segments`: the rows, with the segments in them.
abbrev pub build_segments : ContentItem → Rows → Rows
build_segments item rows =
    if is_empty rows.segments then record rows { segments = segments_of item.transcript } else rows

-- `_anchored`
unfoldable pub anchored : Text → ContentSegment → Bool
anchored quote s = not (is_empty (strip quote)) && contains (normalise quote) (normalise s.text)

-- `by_ordinal.get(ordinal)`: of two with one ordinal the dictionary keeps the last.
abbrev pub numbered : List ContentSegment → ℕ → Option ContentSegment
numbered [] n = none
numbered (s ∷ ss) n =
    let later = numbered ss n in
    elim later [ some t ↦ some t | none ↦ if s.ordinal == n then some s else none ]

abbrev pub by_ordinal : List ContentSegment → ℤ → Option ContentSegment
by_ordinal ss (pos n) = numbered ss n
by_ordinal ss (negsuc n) = none

abbrev claim_in : Bool → ExtractedClaim → ContentSegment → Claim
claim_in promoted c s = record {
  segment = s;
  kind = kind_or_effect c.kind;
  subject = c.subject;
  text = c.text;
  quote = c.quote;
  is_cited = c.is_cited;
  is_sponsored = c.is_sponsored || promoted;
}

abbrev pub keep_anchored :
    Bool → ExtractedClaim → Option ContentSegment → List Claim × ℕ → List Claim × ℕ
keep_anchored promoted c none (claims, dropped) = (claims, suc dropped)
keep_anchored promoted c (some s) (claims, dropped) =
    if anchored c.quote s then (claim_in promoted c s ∷ claims, dropped) else (claims, suc dropped)

-- The loop over `result.claims`: the claims to store, and how many are dropped.
unfoldable pub keep_claims : List ContentSegment → Bool → List ExtractedClaim → List Claim × ℕ
unfolding anchored
keep_claims segments promoted [] = ([], 0)
keep_claims segments promoted (c ∷ cs) =
    keep_anchored promoted c (by_ordinal segments c.segment_ordinal)
      (keep_claims segments promoted cs)

abbrev pub question_in : ExtractedQuestion → Option ContentSegment → List Question → List Question
question_in q none rest = rest
question_in q (some s) rest = record { segment = s; text = q.text; topic = q.topic } ∷ rest

abbrev pub keep_questions : List ContentSegment → List ExtractedQuestion → List Question
keep_questions segments [] = []
keep_questions segments (q ∷ qs) =
    question_in q (by_ordinal segments q.segment_ordinal) (keep_questions segments qs)
