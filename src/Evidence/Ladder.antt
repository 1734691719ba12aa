-- ===== src/Evidence/Ladder.antt =====
-- The transcript ladder of apps/evidence/services/transcripts.py, over the chains of
-- apps/connectors/chains.py. What a step of a chain is done by is an argument of the walk.
use trend_engine_backend.Base.{
  ℕ, ◌-◌, Bool, true, false, not, ◌&&◌, Option, none, some, List, [], ◌∷◌, ◌++◌, length, take, drop,
  any, if◌then◌else◌, Text, codes, eq_text, is_some,
}
use trend_engine_backend.Evidence.Items.{
  metadata, transcribed, Method, method_value, Transcript, Status, succeeded, unavailable, failed,
  skipped, RungResult, AttemptOutcome, was_transcribed, will_retry, metadata_only, Attempt,
  ContentItem, is_transcribed,
}
use trend_engine_backend.Evidence.Providers.{Rung, produced, is_unavailable, has_failed, raised}

-- `TERMINAL_STEP`
abbrev pub terminal_step : Text
terminal_step = codes "metadata_only"

-- `DEFAULT_CHAINS`
abbrev pub default_chain : Text → Option (List Text)
default_chain route =
    if eq_text route (codes "podcast")
    then some (
        codes "publisher_transcript"
        ∷ codes "taddy"
        ∷ codes "assemblyai"
        ∷ codes "manual"
        ∷ terminal_step
        ∷ [])
    else if eq_text route (codes "youtube")
    then some (
        codes "creator_captions"
        ∷ codes "apify_subtitles"
        ∷ codes "supadata"
        ∷ codes "manual"
        ∷ terminal_step
        ∷ [])
    else if eq_text route (codes "social")
    then some (codes "virlo_transcript" ∷ codes "caption_comments" ∷ terminal_step ∷ [])
    else if eq_text route (codes "research")
    then some (codes "ncbi_eutils" ∷ codes "crossref" ∷ codes "manual" ∷ [])
    else if eq_text route (codes "web")
    then some (codes "allowlist_crawler" ∷ codes "manual" ∷ terminal_step ∷ [])
    else none

abbrev or_terminal : Option (List Text) → List Text
or_terminal none = terminal_step ∷ []
or_terminal (some chain) = chain

-- `chain_for`
unfoldable pub chain_for : ContentItem → List Text
chain_for item = or_terminal (default_chain item.route)

-- `Acquisition`
pub record Acquisition : Type 0 where
  pub method : Option Method
  pub chars : ℕ
  pub cost_usd : ℕ
  pub rungs : List RungResult

abbrev pub is_failed : Status → Bool
is_failed failed = true
is_failed status = false

-- `Acquisition.succeeded`
abbrev pub has_succeeded : Acquisition → Bool
has_succeeded o = is_some o.method

-- `Acquisition.retryable`
abbrev pub is_retryable : Acquisition → Bool
is_retryable o = not (has_succeeded o) && any (λ r. is_failed r.status) o.rungs

abbrev pub nothing_yet : Acquisition
nothing_yet = record { method = none; chars = 0; cost_usd = 0; rungs = [] }

abbrev pub with_rung : Text → Status → Text → Acquisition → Acquisition
with_rung step status detail o = record o {
  rungs = o.rungs ++ record { step = step; status = status; detail = detail } ∷ [];
}

-- `_store`
abbrev pub store : ContentItem → Transcript → ContentItem
store item t = record item {
  transcript = some t;
  content_state = transcribed;
  acquisition_route = method_value t.method;
}

-- `_mark_metadata_only`
unfoldable pub mark_metadata_only : ContentItem → ContentItem
mark_metadata_only item =
    if is_transcribed item.content_state
    then item
    else record item { content_state = metadata; acquisition_route = terminal_step }

abbrev pub won : Text → Transcript → Acquisition → Acquisition
won step t o =
    with_rung step succeeded []
      (record o { method = some t.method; chars = length t.text; cost_usd = t.cost_usd })

-- What one rung adds, and whether the walk goes on.
abbrev pub after_rung :
    (Acquisition → ContentItem × Acquisition)
    → ContentItem
    → Text
    → Acquisition
    → Option Rung
    → ContentItem × Acquisition
after_rung go_on item step o none =
    go_on (with_rung step skipped (codes "no implementation registered") o)
after_rung go_on item step o (some (is_unavailable why)) =
    go_on (with_rung step unavailable (take 300 why) o)
after_rung go_on item step o (some (has_failed why)) =
    go_on (with_rung step failed (take 300 why) o)
after_rung go_on item step o (some (raised why)) = go_on (with_rung step failed (take 300 why) o)
after_rung go_on item step o (some (produced t)) = (store item t, won step t o)

abbrev pub attempted : Option (ContentItem → Rung) → ContentItem → Option Rung
attempted none item = none
attempted (some rung) item = some (rung item)

-- The loop of `acquire` over a chain.
unfoldable pub walk :
    (Text → Option (ContentItem → Rung))
    → List Text
    → ContentItem
    → Acquisition
    → ContentItem × Acquisition
walk rungs [] item o = (item, o)
walk rungs (step ∷ steps) item o = elim (eq_text step terminal_step) [
  | true ↦ (item, with_rung step unavailable (codes "terminal rung") o)
  | false ↦ after_rung (walk rungs steps item) item step o (attempted (rungs step) item)
]

abbrev pub outcome_of : Acquisition → AttemptOutcome
outcome_of o =
    if has_succeeded o
    then was_transcribed
    else if is_retryable o
    then will_retry
    else metadata_only

-- `xs[-n:]`
abbrev pub last_of {ℓ} : {A : Type ℓ} → ℕ → List A → List A
last_of n xs = drop (length xs - n) xs

-- `MAX_TRANSCRIPT_ATTEMPTS`
abbrev pub max_attempts : ℕ
max_attempts = 10

abbrev pub attempt_of : Acquisition → Attempt
attempt_of o = record {
  method = o.method;
  chars = o.chars;
  cost_usd = o.cost_usd;
  outcome = outcome_of o;
  steps = o.rungs;
}

-- `_record_attempt`
unfoldable pub record_attempt_of : ContentItem → Acquisition → ContentItem
record_attempt_of item o = record item {
  transcript_attempts = last_of max_attempts (item.transcript_attempts ++ attempt_of o ∷ []);
}

abbrev pub conclude : ContentItem × Acquisition → ContentItem × Acquisition
conclude (item, o) =
    let settled =
      if not (has_succeeded o) && not (is_retryable o) then mark_metadata_only item else item in
    (record_attempt_of settled o, o)

abbrev pub already_held : Transcript → Acquisition
already_held t = record {
  method = some t.method;
  chars = length t.text;
  cost_usd = 0;
  rungs =
      record { step = method_value t.method; status = succeeded; detail = codes "already held" }
      ∷ [];
}

abbrev pub acquire_by :
    (Text → Option (ContentItem → Rung))
    → ContentItem
    → Option Transcript
    → ContentItem × Acquisition
acquire_by rungs item (some t) = (item, already_held t)
acquire_by rungs item none = conclude (walk rungs (chain_for item) item nothing_yet)

-- `acquire`
unfoldable pub acquire :
    (Text → Option (ContentItem → Rung)) → ContentItem → ContentItem × Acquisition
unfolding walk chain_for mark_metadata_only record_attempt_of
acquire rungs item = acquire_by rungs item item.transcript
