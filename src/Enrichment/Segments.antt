-- ===== src/Enrichment/Segments.antt =====
-- How apps/enrichment/extraction.py cuts a transcript: `_segment`, `_batches` and `_seconds_at`.
use trend_engine_backend.Base.{
  ℕ, zero, suc, ◌+◌, ◌-◌, ◌*◌, ◌/◌, Bool, true, false, not, ◌&&◌, ◌||◌, Option, none, some, List,
  [], ◌∷◌, ◌++◌, length, get_elem?, take, drop, ltb, leb, ◌==◌, if◌then◌else◌, Text, is_empty,
  is_space, strip,
}
use trend_engine_backend.Evidence.Items.{Anchor, ContentSegment}

-- `(start_char, end_char, body)`
pub record Chunk : Type 0 where
  pub start_char : ℕ
  pub end_char : ℕ
  pub body : Text

abbrev is_stop : ℕ → Bool
is_stop c = (c == b'.') || ((c == b'!') || (c == b'?'))

abbrev ends_here : ℕ → Text → Bool
ends_here c [] = false
ends_here c (d ∷ ds) = is_stop c && is_space d

-- The end of the last match of `[.!?]\s` in a window, 0 where there is none.
unfoldable pub last_end : Text → ℕ
last_end [] = 0
last_end (c ∷ cs) =
    let rest = last_end cs in if ltb 0 rest then rest + 1 else if ends_here c cs then 2 else 0

-- How many characters the next chunk takes of a text: up to `size`, or to a sentence's end in the last
-- quarter of the window.
unfoldable pub cut_at : ℕ → Text → ℕ
unfolding last_end
cut_at size text =
    if leb (length text) size
    then length text
    else if ltb (3 * size) (4 * last_end (take size text))
    then last_end (take size text)
    else size

abbrev pub chunk_if : ℕ → ℕ → Text → List Chunk → List Chunk
chunk_if position end [] chunks = chunks
chunk_if position end (c ∷ cs) chunks =
    record { start_char = position; end_char = end; body = c ∷ cs } ∷ chunks

-- The loop of `_segment`, on what is left of the text from a position; none where the fuel runs out.
unfoldable pub segment_loop : ℕ → ℕ → ℕ → Text → Option (List Chunk)
segment_loop fuel size position [] = some []
segment_loop zero size position (c ∷ cs) = none
segment_loop (suc fuel) size position (c ∷ cs) =
    let n = cut_at size (c ∷ cs) in
    mathlib.Core.Option.map (chunk_if position (position + n) (strip (take n (c ∷ cs))))
      (segment_loop fuel size (position + n) (drop n (c ∷ cs)))

-- `size or SEGMENT_CHARS`
abbrev pub size_or_default : ℕ → ℕ
size_or_default zero = 1200
size_or_default (suc n) = suc n

-- `_segment`
unfoldable pub segment : Text → ℕ → Option (List Chunk)
unfolding segment_loop cut_at
segment text size = segment_loop (length text) (size_or_default size) 0 text

-- The loop of `_seconds_at`, with one more than its `high`; `best` where the fuel runs out.
unfoldable pub seconds_loop : ℕ → List Anchor → ℕ → ℕ → ℕ → Option ℕ → Option ℕ
seconds_loop zero anchors index low high best = best
seconds_loop (suc fuel) anchors index low high best =
    let mid = (low + high - 1) / 2 in
    let done = best in
    elim (ltb low high) [
      | false ↦ done
      | true ↦ elim (get_elem? anchors mid) [
        | none ↦ done
        | some a ↦ elim (leb a.char_index index) [
          | true ↦ seconds_loop fuel anchors index (suc mid) high (some a.millis)
          | false ↦ seconds_loop fuel anchors index low mid best
        ]
      ]
    ]

-- `_seconds_at`
unfoldable pub seconds_at : List Anchor → ℕ → Option ℕ
unfolding seconds_loop
seconds_at anchors index = seconds_loop (length anchors) anchors index 0 (length anchors) none

-- The loop of `_batches`: the batches that are full, the one that is open and the size of its texts.
unfoldable pub batch_loop :
    ℕ
    → List (List ContentSegment)
    → List ContentSegment
    → ℕ
    → List ContentSegment
    → List (List ContentSegment)
batch_loop limit done current size [] = done ++ current ∷ []
batch_loop limit done current size (s ∷ ss) =
    let opened = batch_loop limit (done ++ current ∷ []) (s ∷ []) (0 + length s.text) ss in
    let extended = batch_loop limit done (current ++ s ∷ []) (size + length s.text) ss in
    if not (is_empty current) && ltb limit (size + length s.text) then opened else extended

-- `BATCH_CHARS`
abbrev pub batch_chars : ℕ
batch_chars = 20000

-- `_batches`
unfoldable pub batches : List ContentSegment → List (List ContentSegment)
unfolding batch_loop
batches segments = batch_loop batch_chars [] [] 0 segments
