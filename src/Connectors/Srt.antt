-- ===== src/Connectors/Srt.antt =====
-- `to_text` of apps/connectors/srt.py, on the cues that `parse` gives. Case is that of ASCII, where
-- `casefold` keeps every character's place.
use trend_engine_backend.Base.{
  ℕ, zero, suc, ◌+◌, ◌-◌, Bool, List, [], ◌∷◌, ◌++◌, length, take, drop, min, if◌then◌else◌, Text,
  eq_text, is_empty, lower, strip, join,
}
use trend_engine_backend.Evidence.Items.{Anchor}

-- `Cue`, its times in thousandths of a second.
pub record Cue : Type 0 where
  pub start : ℕ
  pub end : ℕ
  pub text : Text

-- `tail.endswith(s)`
abbrev pub ends_with : Text → Text → Bool
ends_with s tail = eq_text s (drop (length tail - length s) tail)

-- The sizes from one down to 1: the remainder after the first at which the text's end repeats the
-- candidate's start.
abbrev pub after_overlap : ℕ → Text → Text → Text → Text
after_overlap zero tail candidate incoming = incoming
after_overlap (suc size) tail candidate incoming =
    let smaller = after_overlap size tail candidate incoming in
    if ends_with (take (suc size) candidate) tail then strip (drop (suc size) incoming) else smaller

abbrev pub suffix_from : Text → Text → Text
suffix_from tail incoming =
    after_overlap (min (length incoming) (length tail)) tail (lower incoming) incoming

-- `_new_suffix`
unfoldable pub new_suffix : Text → Text → Text
new_suffix [] incoming = incoming
new_suffix (x ∷ xs) incoming = suffix_from (lower (drop (length (x ∷ xs) - 300) (x ∷ xs))) incoming

-- What the loop of `to_text` keeps.
pub record Flat : Type 0 where
  pub parts : List Text
  pub anchors : List Anchor
  pub running : Text

abbrev pub space : Text
space = b' ' ∷ []

abbrev pub next_index : Text → ℕ
next_index running = length running + (if is_empty running then 0 else 1)

abbrev pub add_piece : Cue → Flat → Text → Flat
add_piece cue f [] = f
add_piece cue f (x ∷ xs) = record {
  parts = f.parts ++ (x ∷ xs) ∷ [];
  anchors = f.anchors ++ record { millis = cue.start; char_index = next_index f.running } ∷ [];
  running = join space (f.parts ++ (x ∷ xs) ∷ []);
}

unfoldable pub flatten : List Cue → Flat → Flat
unfolding new_suffix
flatten [] f = f
flatten (cue ∷ cues) f = flatten cues (add_piece cue f (new_suffix f.running cue.text))

abbrev pub nothing_flat : Flat
nothing_flat = record { parts = []; anchors = []; running = [] }

-- `to_text`
unfoldable pub to_text : List Cue → Text × List Anchor
unfolding flatten
to_text cues = let f = flatten cues nothing_flat in (f.running, f.anchors)
