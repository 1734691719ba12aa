-- ===== src/Enrichment/Runs.antt =====
-- One item through the gate and onto the ladder.
use trend_engine_backend.Base.{◌≡◌, refl, inr, true, false, none, some, [], ◌∷◌, ◌++◌, codes}
use trend_engine_backend.Evidence.Items.{
  ContentItem, pending, discovered, not_duplicate, unknown, Transcript, taddy,
}
use trend_engine_backend.Evidence.Providers.{produced}
use trend_engine_backend.Enrichment.Client.{returned}
use trend_engine_backend.Enrichment.Extract.{no_parts}
use trend_engine_backend.Enrichment.Gate.{GateVerdict, language_mismatch, assess}
use trend_engine_backend.Enrichment.Tasks.{
  assess_relevance, acquire_transcript, Pipeline, Services, run, assess_pending, max_retries,
}
use trend_engine_backend.Enrichment.Funnel.{
  IsEarned, Reach, here, next, sweeps, runs, Reach-IsEarned,
}

abbrev episode : ContentItem
episode = record {
  pk = 1;
  route = codes "podcast";
  external_id = codes "ep1";
  url = [];
  title = codes "Creatine";
  creator = [];
  description = [];
  duration = unknown;
  published_at = none;
  discovered_at = 0;
  language = [];
  gate_decision = pending;
  gate_reason = [];
  content_state = discovered;
  acquisition_route = [];
  transcript_attempts = [];
  duplicate_of = none;
  duplicate_status = not_duplicate;
  duplicate_overlap = none;
  transcript = none;
}

abbrev verdict : GateVerdict
verdict = record { is_relevant = true; reason = codes "creatine"; confidence = 90 }

abbrev speech : Transcript
speech = record {
  text = codes "It works.";
  anchors = [];
  method = taddy;
  quality = 90;
  cost_usd = 0;
}

abbrev services : Services
services = record {
  is_alpha = λ c. false;
  gate_model = λ b. (returned verdict, b);
  in_sample = false;
  rungs = λ step. some (λ item. produced speech);
  hash = λ words. 0;
  client = λ batch b. (returned no_parts, b);
}

abbrev start : Pipeline
start = record {
  item = episode;
  others = [];
  rows = record { segments = []; claims = []; questions = [] };
  books = record { runs = []; ledger = []; alerts = [] };
  queue = [];
}

abbrev assessed : Pipeline
assessed = run services assess_relevance (record (assess_pending start) { queue = [] })

ladder_queued : assessed.queue ≡ [] ++ acquire_transcript max_retries ∷ []
unfolding run assess language_mismatch
ladder_queued = refl

abbrev walked : Pipeline
walked = run services (acquire_transcript max_retries) (record assessed { queue = [] })

path : Reach services start walked
path =
    next (next (next here sweeps) (runs assess_relevance [] [] refl))
      (runs (acquire_transcript max_retries) [] [] ladder_queued)

Reach-IsEarned_example : IsEarned walked
Reach-IsEarned_example =
    Reach-IsEarned services start walked (inr (refl, refl, refl, refl, refl)) path
