-- ===== src/Evidence/Items.antt =====
-- The rows of apps/evidence/models.py: a content item, its transcript and its segments.
use trend_engine_backend.Base.{ℕ, Bool, true, false, ◌&&◌, not, Option, List, Text, codes, is_some}

-- `ContentItem.ContentState`
pub data ContentState : Type 0 where
  discovered metadata transcribed : ContentState

-- `duplicate_status`
pub data DuplicateStatus : Type 0 where
  not_duplicate confirmed suspected : DuplicateStatus

-- `ContentItem.GateDecision`
pub data GateDecision : Type 0 where
  pending relevant rejected sampled : GateDecision

-- `TranscriptArtifact.Method`
pub data Method : Type 0 where
  publisher taddy creator_captions apify_subtitles assemblyai manual post_text virlo
        caption_comments :
      Method

-- The stored value of a method.
abbrev pub method_value : Method → Text
method_value publisher = codes "publisher_transcript"
method_value taddy = codes "taddy"
method_value creator_captions = codes "creator_captions"
method_value apify_subtitles = codes "apify_subtitles"
method_value assemblyai = codes "assemblyai"
method_value manual = codes "manual"
method_value post_text = codes "post_text"
method_value virlo = codes "virlo_transcript"
method_value caption_comments = codes "caption_comments"

-- `[start_seconds, char_index]`, in thousandths of a second.
pub record Anchor : Type 0 where
  pub millis : ℕ
  pub char_index : ℕ

-- `TranscriptArtifact`, and the `Transcript` that a rung returns; the cost in ten-thousandths of a
-- dollar.
pub record Transcript : Type 0 where
  pub text : Text
  pub anchors : List Anchor
  pub method : Method
  pub quality : ℕ
  pub cost_usd : ℕ

-- `ContentSegment`
pub record ContentSegment : Type 0 where
  pub ordinal : ℕ
  pub text : Text
  pub start_char : ℕ
  pub end_char : ℕ
  pub start_seconds : Option ℕ
  pub end_seconds : Option ℕ

-- `Status`
pub data Status : Type 0 where
  succeeded unavailable failed skipped : Status

-- `RungResult`
pub record RungResult : Type 0 where
  pub step : Text
  pub status : Status
  pub detail : Text

-- The words an attempt is recorded under.
pub data AttemptOutcome : Type 0 where
  was_transcribed will_retry metadata_only : AttemptOutcome

-- One entry of `transcript_attempts`, less its time.
pub record Attempt : Type 0 where
  pub method : Option Method
  pub chars : ℕ
  pub cost_usd : ℕ
  pub outcome : AttemptOutcome
  pub steps : List RungResult

-- `gate_metadata["duration"]`: a number, in thousandths, a text, or anything else.
pub data Duration : Type 0 where
  number : ℕ → Duration
  words_of : Text → Duration
  unknown : Duration

-- `ContentItem`, with the language its source is set to and its transcript; moments in seconds, the overlap as a fraction that is not rounded.
pub record ContentItem : Type 0 where
  pub pk : ℕ
  pub route : Text
  pub external_id : Text
  pub url : Text
  pub title : Text
  pub creator : Text
  pub description : Text
  pub duration : Duration
  pub published_at : Option ℕ
  pub discovered_at : ℕ
  pub language : Text
  pub gate_decision : GateDecision
  pub gate_reason : Text
  pub content_state : ContentState
  pub acquisition_route : Text
  pub transcript_attempts : List Attempt
  pub duplicate_of : Option ℕ
  pub duplicate_status : DuplicateStatus
  pub duplicate_overlap : Option (ℕ × ℕ)
  pub transcript : Option Transcript

abbrev pub is_transcribed : ContentState → Bool
is_transcribed transcribed = true
is_transcribed state = false

abbrev pub is_confirmed : DuplicateStatus → Bool
is_confirmed confirmed = true
is_confirmed status = false

-- `ContentItem.is_metadata_only`
abbrev pub is_metadata_only : ContentItem → Bool
is_metadata_only item = not (is_transcribed item.content_state)

-- `ContentItem.is_duplicate`
abbrev pub is_duplicate : ContentItem → Bool
is_duplicate item = is_confirmed item.duplicate_status && is_some item.duplicate_of
