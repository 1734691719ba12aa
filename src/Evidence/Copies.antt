-- ===== src/Evidence/Copies.antt =====
-- An episode and its re-upload, with transcripts long enough to compare.
use trend_engine_backend.Base.{
  ℕ, zero, suc, ◌+◌, ◌≤◌, ◌≡◌, refl, true, none, some, List, [], ◌∷◌, ◌++◌, length, Text, codes,
  All, arith,
}
use mathlib.Core.List.{Memᴰ}
use trend_engine_backend.Evidence.Items.{
  relevant, transcribed, not_duplicate, confirmed, unknown, ContentItem, assemblyai, is_duplicate,
}
use trend_engine_backend.Evidence.Duplicates.{
  Match, shingles, is_candidate, mine_of, text_of, min_shingles, find_match, check,
}
use trend_engine_backend.Evidence.Matched.{check-loses_both}
use trend_engine_backend.Evidence.Conversations.{IsMatchWith, find_match-IsConversation}

-- A word of n letters.
abbrev word : ℕ → Text
word zero = []
word (suc n) = b'a' ∷ word n

-- Words of one letter up to n, the longest first.
abbrev speech : ℕ → Text
speech zero = []
speech (suc n) = word (suc n) ++ b' ' ∷ speech n

-- The letters of a window, counted, as its hash.
abbrev letters : List Text → ℕ
letters [] = 0
letters (w ∷ ws) = length w + letters ws

abbrev episode : ContentItem
episode = record {
  pk = 1;
  route = codes "podcast";
  external_id = [];
  url = [];
  title = [];
  creator = [];
  description = [];
  duration = unknown;
  published_at = none;
  discovered_at = 0;
  language = [];
  gate_decision = relevant;
  gate_reason = [];
  content_state = transcribed;
  acquisition_route = [];
  transcript_attempts = [];
  duplicate_of = none;
  duplicate_status = not_duplicate;
  duplicate_overlap = none;
  transcript =
      some (record {
        text = speech 55;
        anchors = [];
        method = assemblyai;
        quality = 80;
        cost_usd = 0;
      });
}

abbrev upload : ContentItem
upload = record episode { pk = 2; duplicate_of = some 1; duplicate_status = confirmed }

enough : length (shingles letters (speech 55)) ≡ 51
unfolding shingles
enough = refl

enough_le : min_shingles ≤ length (shingles letters (text_of episode))
enough_le = omega (arith, enough)

check-loses_both_example :
    All
      (λ i. (is_duplicate i ≡ true) × (i.duplicate_of ≡ some 2))
      (check letters episode (episode ∷ upload ∷ []))
check-loses_both_example =
    check-loses_both letters episode upload refl refl refl refl refl refl refl enough_le refl

-- The full episode, of which the first upload is a clip.
abbrev full : ContentItem
full = record episode {
  pk = 3;
  transcript =
      some (record {
        text = speech 70;
        anchors = [];
        method = assemblyai;
        quality = 80;
        cost_usd = 0;
      });
}

abbrev clip_match : Match
clip_match = record { other_id = 3; keep_id = 3; overlap = (51, 51); status = confirmed }

clip_run : find_match letters episode (episode ∷ full ∷ []) ≡ some clip_match
unfolding find_match shingles
clip_run = refl

find_match-IsConversation_example :
    (other : ContentItem) × (Memᴰ other (episode ∷ full ∷ []) × (is_candidate episode other ≡ true))
    × IsMatchWith letters episode (mine_of letters (text_of episode)) clip_match other
find_match-IsConversation_example =
    find_match-IsConversation letters episode (episode ∷ full ∷ []) clip_match clip_run refl
