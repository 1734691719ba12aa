-- ===== src/Evidence/Unheard.antt =====
-- A walk that learns nothing and still writes an item off: `_caption_comments` of
-- apps/evidence/services/transcripts.py catches the `Failed` of `_virlo`.
use trend_engine_backend.Base.{
  true, ℕ, ◌≡◌, refl, ap, ◌∙◌, false, none, some, [], ◌∷◌, Text, codes, strip,
}
use trend_engine_backend.Evidence.Items.{discovered, metadata, is_transcribed, ContentItem}
use trend_engine_backend.Evidence.Providers.{Providers, is_unavailable, has_failed}
use trend_engine_backend.Evidence.Rungs.{virlo_rung, caption_rung, partition_colon, rung_named}
use trend_engine_backend.Evidence.Ladder.{terminal_step, chain_for, mark_metadata_only, acquire}
use trend_engine_backend.Evidence.Walks.{first_transcript, any_broken, to_end}
use trend_engine_backend.Evidence.Acquired.{settled, acquire-settled}

mark-metadata :
    (item : ContentItem)
    → is_transcribed item.content_state ≡ false
    → (mark_metadata_only item).content_state ≡ metadata
unfolding mark_metadata_only
mark-metadata item h = rw h refl

chain_social :
    (item : ContentItem)
    → item.route ≡ codes "social"
    → chain_for item ≡ codes "virlo_transcript" ∷ codes "caption_comments" ∷ terminal_step ∷ []
unfolding chain_for
chain_social item is_social = rw is_social refl

module _ (w : Providers) (item : ContentItem) (is_social : item.route ≡ codes "social") (video : ℕ)
    (rest : Text)
    (is_instagram : partition_colon item.external_id ≡ (codes "instagram", video ∷ rest))
    (is_capped : w.calls_left ≡ some 0) (is_silent : strip item.description ≡ []) where
  virlo_unavailable :
      virlo_rung w item ≡ is_unavailable (codes "Virlo has no transcript route for instagram")
  virlo_unavailable = rw is_instagram refl

  captions_unavailable : caption_rung w item ≡ is_unavailable (codes "no caption and no comments")
  captions_unavailable = rw (is_instagram, is_capped, is_silent) refl

  no_transcript : first_transcript (rung_named w) item (to_end (chain_for item)) ≡ none
  unfolding rung_named
  no_transcript =
      rw (chain_social item is_social) (rw (virlo_unavailable, captions_unavailable) refl)

  none_broken : any_broken (rung_named w) item (to_end (chain_for item)) ≡ false
  unfolding rung_named
  none_broken = rw (chain_social item is_social) (rw (virlo_unavailable, captions_unavailable) refl)

  instagram_written_off :
      item.transcript ≡ none
      → item.content_state ≡ discovered
      → (acquire (rung_named w) item).0.content_state ≡ metadata
  instagram_written_off fresh new =
      ap (λ x. x.content_state) (acquire-settled (rung_named w) item fresh)
      ∙ ap (λ x. x.content_state)
          (ap
              (λ first.
                settled first (any_broken (rung_named w) item (to_end (chain_for item))) item)
              no_transcript
            ∙ ap (λ broken. settled none broken item) none_broken)
      ∙ mark-metadata item (ap is_transcribed new)

module _ (w : Providers) (item : ContentItem) (is_social : item.route ≡ codes "social") (video : ℕ)
    (rest : Text) (is_tiktok : partition_colon item.external_id ≡ (codes "tiktok", video ∷ rest))
    (is_capped : w.calls_left ≡ some 0) (is_silent : strip item.description ≡ []) where
  virlo_failed : virlo_rung w item ≡ has_failed (codes "Virlo's monthly cap is reached")
  virlo_failed = rw (is_tiktok, is_capped) refl

  captions_missing : caption_rung w item ≡ is_unavailable (codes "no caption and no comments")
  captions_missing = rw (is_tiktok, is_capped, is_silent) refl

  nothing_heard : first_transcript (rung_named w) item (to_end (chain_for item)) ≡ none
  unfolding rung_named
  nothing_heard = rw (chain_social item is_social) (rw (virlo_failed, captions_missing) refl)

  one_broken : any_broken (rung_named w) item (to_end (chain_for item)) ≡ true
  unfolding rung_named
  one_broken = rw (chain_social item is_social) (rw virlo_failed refl)

  tiktok_kept :
      item.transcript ≡ none → (acquire (rung_named w) item).0.content_state ≡ item.content_state
  tiktok_kept fresh =
      ap (λ x. x.content_state) (acquire-settled (rung_named w) item fresh)
      ∙ ap (λ x. x.content_state)
          (ap
              (λ first.
                settled first (any_broken (rung_named w) item (to_end (chain_for item))) item)
              nothing_heard
            ∙ ap (λ broken. settled none broken item) one_broken)

-- A walk under Virlo's reached monthly cap, for a discovered social item without a caption or a
-- transcript: an Instagram item is marked metadata only by it, while the same item with a TikTok
-- id stays discovered.
pub capped_item-IsMetadata :
    (w : Providers) (item : ContentItem) (video : ℕ) (rest tiktok : Text)
    → item.route ≡ codes "social"
    → partition_colon item.external_id ≡ (codes "instagram", video ∷ rest)
    → partition_colon tiktok ≡ (codes "tiktok", video ∷ rest)
    → w.calls_left ≡ some 0
    → strip item.description ≡ []
    → item.transcript ≡ none
    → item.content_state ≡ discovered
    → ((acquire (rung_named w) item).0.content_state ≡ metadata)
      × ((acquire (rung_named w) (record item { external_id = tiktok })).0.content_state
          ≡ discovered)
capped_item-IsMetadata w item video rest tiktok social instagram other capped silent fresh new = (
  instagram_written_off w item social video rest instagram capped silent fresh new,
  tiktok_kept w (record item { external_id = tiktok }) social video rest other capped silent fresh
      ∙ new,
)
