-- ===== src/Evidence/Providers.antt =====
-- What the rungs of apps/evidence/services/transcripts.py ask of the providers, and how a rung ends.
use trend_engine_backend.Base.{ℕ, Bool, Option, List, if◌then◌else◌, Text}
use trend_engine_backend.Evidence.Items.{Method, Anchor, Transcript}

-- How a rung ends: with a transcript, with `Unavailable` or `Failed`, or with another exception.
pub data Rung : Type 0 where
  produced : Transcript → Rung
  is_unavailable : (why : Text) → Rung
  has_failed : (why : Text) → Rung
  raised : (why : Text) → Rung

-- What comes of asking a provider: `ConnectorUnavailable`, the provider's own error, which blocks or
-- does not, any other exception, or an answer.
pub data Asked (A : Type 0) : Type 0 where
  not_configured : (why : Text) → Asked A
  provider_error : (blocking : Bool) → (why : Text) → Asked A
  other_error : (why : Text) → Asked A
  answered : A → Asked A

-- `raise (Unavailable if exc.blocking else Failed)(str(exc))`, and the note in `_taddy`.
abbrev pub rung_from : {A : Type 0} → Asked A → (A → Rung) → Rung
rung_from (not_configured why) k = has_failed why
rung_from (provider_error blocking why) k = if blocking then is_unavailable why else has_failed why
rung_from (other_error why) k = raised why
rung_from (answered a) k = k a

pub record TaddyAnswer : Type 0 where
  pub plan_limited : Bool
  pub text : Text
  pub anchors : List Anchor

pub record CaptionRow : Type 0 where
  pub transcript : Text
  pub transcript_anchors : List Anchor

pub record AsrAnswer : Type 0 where
  pub text : Text
  pub anchors : List Anchor
  pub quality : ℕ
  pub cost_usd : ℕ

-- `VirloUnsupported`, or what is asked for.
pub data VirloAnswer : Type 0 where
  unsupported : (why : Text) → VirloAnswer
  speech : Text → List Anchor → VirloAnswer

-- The comments of one video, and the calls made for them.
pub record Comments : Type 0 where
  pub texts : List Text
  pub calls : ℕ

-- The providers, as the rungs see them.
pub record Providers : Type 0 where
  pub taddy_transcript : Text → Asked TaddyAnswer
  pub captions : Text → Asked (List CaptionRow)
  pub caption_price : ℕ
  pub asr_cap : Option ℕ
  pub transcribe : Text → Option ℕ → Option ℕ → Asked AsrAnswer
  pub calls_left : Option ℕ
  pub virlo_speech : Text → Text → Asked VirloAnswer
  pub virlo_comments : Text → Text → Asked Comments

-- `PRICE_PER_CALL_USD`, in ten-thousandths of a dollar.
abbrev pub price_per_call : ℕ
price_per_call = 100

abbrev pub transcript_from : Method → Text → List Anchor → ℕ → ℕ → Rung
transcript_from method text anchors quality cost =
    produced (record {
      text = text;
      anchors = anchors;
      method = method;
      quality = quality;
      cost_usd = cost;
    })
