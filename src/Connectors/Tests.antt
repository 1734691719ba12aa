-- ===== src/Connectors/Tests.antt =====
-- The rolling captions of one clip, flattened.
use trend_engine_backend.Base.{◌≡◌, refl, true, false, List, [], ◌∷◌, ◌++◌, codes, is_empty, ◌⊎◌}
use trend_engine_backend.Enrichment.Anchors.{IsSorted}
use trend_engine_backend.Connectors.Srt.{Cue, flatten, new_suffix, to_text}
use trend_engine_backend.Connectors.Flattened.{IsHeardAs, to_text-IsHeardAs}

abbrev cues : List Cue
cues =
    record { start = 4880; end = 9519; text = codes "my name is" }
    ∷ record { start = 7240; end = 10440; text = codes "My name is Dr Chris" }
    ∷ record { start = 9520; end = 12000; text = codes "dr chris and today" }
    ∷ []

flattened : (to_text cues).0 ≡ codes "my name is Dr Chris and today"
unfolding to_text flatten new_suffix
flattened = refl

anchored_at :
    (to_text cues).1
    ≡ record { millis = 4880; char_index = 0 }
      ∷ record { millis = 7240; char_index = 11 }
      ∷ record { millis = 9520; char_index = 20 }
      ∷ []
unfolding to_text flatten new_suffix
anchored_at = refl

abbrev first_two : List Cue
first_two =
    record { start = 4880; end = 9519; text = codes "my name is" }
    ∷ record { start = 7240; end = 10440; text = codes "My name is Dr Chris" }
    ∷ []

abbrev third : Cue
third = record { start = 9520; end = 12000; text = codes "dr chris and today" }

to_text-IsHeardAs_example :
    IsSorted (to_text (first_two ++ third ∷ [])).1
    × (((is_empty (new_suffix (to_text first_two).0 third.text) ≡ true)
          × (to_text (first_two ++ third ∷ []) ≡ to_text (first_two ++ [])))
        ⊎ ((is_empty (new_suffix (to_text first_two).0 third.text) ≡ false)
            × IsHeardAs third
                (new_suffix (to_text first_two).0 third.text)
                (to_text first_two)
                (to_text (first_two ++ third ∷ []))))
to_text-IsHeardAs_example = to_text-IsHeardAs first_two third []
