-- ===== src/Evidence/Rungs.antt =====
-- The rungs of apps/evidence/services/transcripts.py. What a provider answers to a call is an argument:
-- the connectors of apps/connectors are not modelled.
use trend_engine_backend.Base.{
  ℕ, zero, suc, ◌+◌, ◌-◌, ◌*◌, Bool, false, ◌&&◌, Option, none, some, List, [], ◌∷◌, ◌++◌, take,
  ltb, ◌==◌, if◌then◌else◌, Text, codes, eq_text, is_empty, is_digit, strip, split, join, has_char,
  Result, ok, err,
}
use trend_engine_backend.Evidence.Items.{Method, virlo, number, words_of, unknown, ContentItem}
use trend_engine_backend.Evidence.Providers.{
  Rung, is_unavailable, raised, Asked, not_configured, provider_error, other_error, answered,
  rung_from, TaddyAnswer, CaptionRow, AsrAnswer, VirloAnswer, unsupported, speech, Comments,
  Providers, price_per_call, transcript_from,
}

abbrev taddy_answer : TaddyAnswer → Rung
taddy_answer a =
    if a.plan_limited
    then is_unavailable (codes "Taddy holds this transcript but the plan excludes it")
    else if is_empty a.text
    then is_unavailable (codes "Taddy has no transcript for this episode")
    else transcript_from Method.taddy a.text a.anchors 90 0

-- `_taddy`
abbrev pub taddy_rung : Providers → ContentItem → Rung
taddy_rung w item = rung_from (w.taddy_transcript item.external_id) taddy_answer

abbrev no_captions : Rung
no_captions = is_unavailable (codes "no caption track published for this video")

abbrev captions_answer : ℕ → List CaptionRow → Rung
captions_answer price [] = no_captions
captions_answer price (row ∷ rows) =
    if is_empty row.transcript
    then no_captions
    else transcript_from Method.apify_subtitles row.transcript row.transcript_anchors 60 price

-- `_apify_subtitles`
abbrev pub apify_rung : Providers → ContentItem → Rung
apify_rung w item =
    if is_empty item.url
    then is_unavailable (codes "no URL to fetch captions from")
    else rung_from (w.captions item.url) (captions_answer w.caption_price)

-- A part of `MM:SS` as `int` reads it, digits only.
abbrev read_digits : ℕ → Text → Option ℕ
read_digits n [] = some n
read_digits n (x ∷ xs) =
    let rest = read_digits (10 * n + (x - b'0')) xs in if is_digit x then rest else none

abbrev read_int : Text → Option ℕ
read_int s = if is_empty s then none else read_digits 0 s

-- The loop over the parts, with `int` of each; none where one is no number.
abbrev pub clock_seconds : ℕ → List Text → Option ℕ
clock_seconds seconds [] = some seconds
clock_seconds seconds (part ∷ parts) = elim (read_int part) [
  | none ↦ none
  | some n ↦ clock_seconds (60 * seconds + n) parts
]

-- `_duration_seconds`, in thousandths.
abbrev pub duration_seconds : ContentItem → Option ℕ
duration_seconds item = elim item.duration [
  | number n ↦ some n
  | words_of s ↦
      if has_char b':' s
      then mathlib.Core.Option.map (λ n. 1000 * n) (clock_seconds 0 (split b':' s))
      else none
  | unknown ↦ none
]

abbrev asr_answer : AsrAnswer → Rung
asr_answer a =
    if is_empty a.text
    then is_unavailable (codes "AssemblyAI returned an empty transcript")
    else transcript_from Method.assemblyai a.text a.anchors a.quality a.cost_usd

-- `provider.per_run_max_usd if provider and provider.per_run_max_usd else None`
abbrev cap_of : Option ℕ → Option ℕ
cap_of none = none
cap_of (some zero) = none
cap_of (some (suc n)) = some (suc n)

-- `_assemblyai`
abbrev pub assemblyai_rung : Providers → ContentItem → Rung
assemblyai_rung w item =
    if is_empty item.url
    then is_unavailable (codes "no audio URL to transcribe")
    else rung_from (w.transcribe item.url (cap_of w.asr_cap) (duration_seconds item)) asr_answer

-- `external_id.partition(":")`: what stands before the first colon and what after it.
abbrev pub partition_colon : Text → Text × Text
partition_colon [] = ([], [])
partition_colon (x ∷ xs) =
    let rest = partition_colon xs in if x == b':' then ([], xs) else (x ∷ rest.0, rest.1)

abbrev cap_reached : Option ℕ → Bool
cap_reached none = false
cap_reached (some left) = ltb left 1

-- `_virlo`, and the call that is made with its connector.
abbrev pub through_virlo : {A : Type 0} → Providers → Asked A → Asked A
through_virlo w asked =
    if cap_reached w.calls_left
    then provider_error false (codes "Virlo's monthly cap is reached")
    else asked

abbrev speech_answer : VirloAnswer → Rung
speech_answer (unsupported why) = is_unavailable why
speech_answer (speech text anchors) =
    if is_empty (strip text)
    then is_unavailable (codes "no speech or captions in this video")
    else transcript_from virlo text anchors 60 price_per_call

-- `_video_id`, and what follows it.
abbrev with_video : ContentItem → (Text → Text → Rung) → Rung
with_video item k =
    let (platform, video) = partition_colon item.external_id in
    if is_empty video then is_unavailable (codes "not a Virlo item") else k platform video

-- `_virlo_transcript`
abbrev pub virlo_rung : Providers → ContentItem → Rung
virlo_rung w item = with_video item λ platform video.
    if eq_text platform (codes "tiktok")
    then rung_from (through_virlo w (w.virlo_speech platform video)) speech_answer
    else is_unavailable (codes "Virlo has no transcript route for " ++ platform)

-- The texts of the comments that say anything, as the loop lists them.
abbrev pub replies_from : List Text → List Text
replies_from [] = []
replies_from (c ∷ cs) =
    let rest = replies_from cs in
    if is_empty (strip c) then rest else (codes "- " ++ strip c) ∷ rest

-- The replies and their cost; none where an exception leaves the rung. `Failed` and `VirloError` are
-- caught.
abbrev pub replies_of : Asked Comments → Result Text (List Text × ℕ)
replies_of (not_configured why) = ok ([], 0)
replies_of (provider_error blocking why) = ok ([], 0)
replies_of (other_error why) = err why
replies_of (answered c) = ok (replies_from (take 20 c.texts), price_per_call * c.calls)

abbrev text_or : Text → Text → Text
text_or [] s = s
text_or (x ∷ xs) s = x ∷ xs

abbrev viewer_comments : List Text → Text
viewer_comments [] = []
viewer_comments (r ∷ rs) = codes "\n\nViewer comments:\n" ++ join (codes "\n") (r ∷ rs)

abbrev caption_text : ContentItem → List Text → Text
caption_text item replies =
    codes "[Caption and viewer comments only. The video's speech was not transcribed.]\n\n"
    ++ (codes "Caption by "
        ++ (text_or item.creator (codes "the creator")
            ++ (codes ":\n"
                ++ (text_or (strip item.description) (codes "(none)") ++ viewer_comments replies))))

abbrev caption_answer : ContentItem → Result Text (List Text × ℕ) → Rung
caption_answer item (err why) = raised why
caption_answer item (ok (replies, cost)) =
    if is_empty (strip item.description) && is_empty replies
    then is_unavailable (codes "no caption and no comments")
    else transcript_from Method.caption_comments (caption_text item replies) [] 40 cost

-- `_caption_comments`
abbrev pub caption_rung : Providers → ContentItem → Rung
caption_rung w item = with_video item λ platform video.
    caption_answer item (replies_of (through_virlo w (w.virlo_comments platform video)))

-- `RUNGS`, with `_not_implemented`; none for a step that is not there.
unfoldable pub rung_named : Providers → Text → Option (ContentItem → Rung)
rung_named w step =
    let not_built =
      some (λ item. is_unavailable (codes "the '" ++ (step ++ codes "' rung is not built yet"))) in
    if eq_text step (codes "taddy")
    then some (taddy_rung w)
    else if eq_text step (codes "apify_subtitles")
    then some (apify_rung w)
    else if eq_text step (codes "assemblyai")
    then some (assemblyai_rung w)
    else if eq_text step (codes "virlo_transcript")
    then some (virlo_rung w)
    else if eq_text step (codes "caption_comments")
    then some (caption_rung w)
    else if eq_text step (codes "publisher_transcript")
    then not_built
    else if eq_text step (codes "creator_captions")
    then not_built
    else if eq_text step (codes "supadata")
    then not_built
    else if eq_text step (codes "ncbi_eutils")
    then not_built
    else if eq_text step (codes "crossref")
    then not_built
    else if eq_text step (codes "allowlist_crawler")
    then not_built
    else if eq_text step (codes "manual")
    then not_built
    else none
