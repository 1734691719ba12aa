-- ===== src/Evidence/Tests.antt =====
-- Walks of the transcript ladder on concrete items, and posts that are marked as paid for.
use trend_engine_backend.Base.{◌≡◌, refl, true, false, none, some, [], ◌∷◌, codes}
use trend_engine_backend.Evidence.Items.{
  pending, discovered, metadata, not_duplicate, words_of, ContentItem,
}
use trend_engine_backend.Evidence.Promotion.{is_promotional}
use trend_engine_backend.Evidence.Providers.{
  not_configured, provider_error, answered, Providers, unsupported,
}
use trend_engine_backend.Evidence.Rungs.{rung_named, duration_seconds}
use trend_engine_backend.Evidence.Ladder.{
  acquire, walk, chain_for, mark_metadata_only, has_succeeded,
}
use trend_engine_backend.Evidence.Walks.{first_transcript, any_broken, to_end}
use trend_engine_backend.Evidence.Acquired.{settled, without_history, acquire-settled, acquire_once}
use trend_engine_backend.Evidence.Unheard.{capped_item-IsMetadata}

abbrev episode : ContentItem
episode = record {
  pk = 1;
  route = codes "podcast";
  external_id = codes "ep1";
  url = codes "https://a.example/1.mp3";
  title = codes "Creatine";
  creator = [];
  description = [];
  duration = words_of (codes "14:32");
  published_at = none;
  discovered_at = 0;
  language = [];
  gate_decision = pending;
  gate_reason = [];
  content_state = discovered;
  acquisition_route = [];
  transcript_attempts = [];
  duplicate_of = none;
  duplicate_status = not_duplicate;
  duplicate_overlap = none;
  transcript = none;
}

abbrev reel : ContentItem
reel = record episode { route = codes "social"; external_id = codes "instagram:99" }

-- Taddy has nothing, AssemblyAI answers; Virlo's cap is reached.
abbrev providers : Providers
providers = record {
  taddy_transcript = λ id. answered (record { plan_limited = false; text = []; anchors = [] });
  captions = λ url. not_configured (codes "no key");
  caption_price = 40;
  asr_cap = some 50000;
  transcribe = λ url cap duration.
      answered (record { text = codes "Hello."; anchors = []; quality = 80; cost_usd = 1500 });
  calls_left = some 0;
  virlo_speech = λ platform video. answered (unsupported []);
  virlo_comments = λ platform video. provider_error false [];
}

-- The same, while AssemblyAI times out.
abbrev broken : Providers
broken = record providers {
  transcribe = λ url cap duration. provider_error false (codes "timeout");
}

duration_read : duration_seconds episode ≡ some 872000
duration_read = refl

episode_acquired : (acquire (rung_named providers) episode).1.cost_usd ≡ 1500
unfolding acquire rung_named chain_for walk
episode_acquired = refl

broken_kept : (acquire (rung_named broken) episode).0.content_state ≡ discovered
unfolding acquire rung_named chain_for walk mark_metadata_only
broken_kept = refl

tag_found : is_promotional (codes "My stack" ∷ codes "love it #AminoPartner!" ∷ []) ≡ true
unfolding is_promotional
tag_found = refl

tag_inside_word : is_promotional (codes "#adventure" ∷ codes "we use codeine" ∷ []) ≡ false
unfolding is_promotional
tag_inside_word = refl

acquire-settled_example :
    without_history (acquire (rung_named broken) episode).0
    ≡ without_history (
        settled
          (first_transcript (rung_named broken) episode (to_end (chain_for episode)))
          (any_broken (rung_named broken) episode (to_end (chain_for episode)))
          episode)
acquire-settled_example = acquire-settled (rung_named broken) episode refl

episode_succeeds : has_succeeded (acquire (rung_named providers) episode).1 ≡ true
unfolding acquire rung_named chain_for walk
episode_succeeds = refl

acquire_once_example :
    ((acquire (rung_named broken) (acquire (rung_named providers) episode).0).0
      ≡ (acquire (rung_named providers) episode).0)
    × ((acquire (rung_named broken) (acquire (rung_named providers) episode).0).1.method
        ≡ (acquire (rung_named providers) episode).1.method)
acquire_once_example =
    acquire_once (rung_named providers) (rung_named broken) episode episode_succeeds

capped_item-IsMetadata_example :
    ((acquire (rung_named providers) reel).0.content_state ≡ metadata)
    × ((acquire
          (rung_named providers)
          (record reel { external_id = codes "tiktok:99" })).0.content_state
        ≡ discovered)
capped_item-IsMetadata_example =
    capped_item-IsMetadata providers reel b'9' (codes "9") (codes "tiktok:99") refl refl refl refl
      refl refl refl
