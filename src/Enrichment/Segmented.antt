-- ===== src/Enrichment/Segmented.antt =====
-- That `_segment` of apps/enrichment/extraction.py ends, and that its chunks hold the text.
use trend_engine_backend.Base.{
  ℕ, zero, suc, ◌+◌, ◌-◌, ◌≤◌, ◌<◌, ◌≡◌, refl, sym, ap, ◌∙◌, false, some, List, [], ◌∷◌, ◌++◌,
  length, take, drop, length-drop, Text, is_empty, strip, ink, ink-append, ink-strip, arith,
  length-take-le, take-drop, drop-drop,
}
use trend_engine_backend.Enrichment.Segments.{
  Chunk, last_end, cut_at, chunk_if, segment_loop, size_or_default, segment,
}

last_end-le : (text : Text) → last_end text ≤ length text
unfolding last_end
last_end-le [] = omega arith
last_end-le (c ∷ []) = ground arith
last_end-le (c ∷ d ∷ ds) = ground (arith, last_end-le (d ∷ ds))

-- A cut takes something, and no more than `size` or than there is.
cut_at_bounds :
    (size : ℕ) (c : ℕ) (cs : Text)
    → 0 < size
    → (0 < cut_at size (c ∷ cs))
      × (cut_at size (c ∷ cs) ≤ size)
      × (cut_at size (c ∷ cs) ≤ length (c ∷ cs))
unfolding cut_at
cut_at_bounds size c cs h =
    ground (arith, last_end-le (take size (c ∷ cs)), length-take-le size (c ∷ cs))

size_positive : (size : ℕ) → 0 < size_or_default size
size_positive zero = omega arith
size_positive (suc n) = omega arith

-- A chunk is a stretch of the text, no longer than `size`, stripped, and not blank.
abbrev pub IsSpan : ℕ → Text → Chunk → Type 0
IsSpan size text c =
    (c.start_char < c.end_char)
    × (c.end_char ≤ c.start_char + size)
    × (c.end_char ≤ length text)
    × (c.body ≡ strip (take (c.end_char - c.start_char) (drop c.start_char text)))
    × (is_empty c.body ≡ false)

-- Stretches one after the other, from a position on.
abbrev pub Spans : ℕ → Text → ℕ → List Chunk → Type 0
Spans size text position [] = Unit {0}
Spans size text position (c ∷ cs) =
    (position ≤ c.start_char) × (IsSpan size text c × Spans size text c.end_char cs)

abbrev pub inks : List Chunk → Text
inks [] = []
inks (c ∷ cs) = ink c.body ++ inks cs

Spans-later :
    (size : ℕ) (text : Text) (p q : ℕ) (chunks : List Chunk)
    → p ≤ q
    → Spans size text q chunks
    → Spans size text p chunks
Spans-later size text p q [] h s = tt
Spans-later size text p q (c ∷ cs) h (after, rest) = (omega arith, rest)

chunk_if-Spans :
    (size n : ℕ) (text : Text) (p : ℕ) (body : Text) (chunks : List Chunk)
    → 0 < n
    → n ≤ size
    → p + n ≤ length text
    → body ≡ strip (take n (drop p text))
    → Spans size text (p + n) chunks
    → Spans size text p (chunk_if p (p + n) body chunks)
chunk_if-Spans size n text p [] chunks pos small fits e s =
    Spans-later size text p (p + n) chunks (omega arith) s
chunk_if-Spans size n text p (b ∷ bs) chunks pos small fits e s =
    let same : p + n - p ≡ n = omega arith in
    (
      omega arith,
      (
        (
          omega arith,
          omega arith,
          omega arith,
          e ∙ ap (λ k. strip (take k (drop p text))) (sym same),
          refl,
        ),
        s,
      ),
    )

chunk_if-inks :
    (p e : ℕ) (body : Text) (chunks : List Chunk)
    → inks (chunk_if p e body chunks) ≡ ink body ++ inks chunks
chunk_if-inks p e [] chunks = refl
chunk_if-inks p e (b ∷ bs) chunks = refl

-- With as much fuel as there is text, and a positive size, the loop ends in spans that hold the text.
segment_loop_lem :
    (fuel size position : ℕ) (rest text : Text)
    → 0 < size
    → length rest ≤ fuel
    → rest ≡ drop position text
    → position + length rest ≡ length text
    → (chunks : List Chunk) × (segment_loop fuel size position rest ≡ some chunks)
      × Spans size text position chunks
      × (inks chunks ≡ ink rest)
unfolding segment_loop
segment_loop_lem zero size position [] text h enough e l = ([], refl, tt, refl)
segment_loop_lem (suc fuel) size position [] text h enough e l = ([], refl, tt, refl)
segment_loop_lem zero size position (c ∷ cs) text h enough e l = absurd (omega arith)
segment_loop_lem (suc fuel) size position (c ∷ cs) text h enough e l =
    let n = cut_at size (c ∷ cs) in
    let (pos, small, inside) = cut_at_bounds size c cs h in
    let left = length-drop n (c ∷ cs) in
    let e' : drop n (c ∷ cs) ≡ drop (position + n) text =
      ap (drop n) e ∙ drop-drop position n text in
    let (chunks, run, spans, same) =
      segment_loop_lem fuel size (position + n) (drop n (c ∷ cs)) text h (omega arith) e'
        (omega arith) in
    let body = strip (take n (c ∷ cs)) in
    (
      chunk_if position (position + n) body chunks,
      rw run refl,
      chunk_if-Spans size n text position body chunks pos small (omega arith)
          (ap (λ r. strip (take n r)) e) spans,
      chunk_if-inks position (position + n) body chunks
          ∙ ap (λ t. t ++ inks chunks) (ink-strip (take n (c ∷ cs)))
          ∙ ap (λ t. ink (take n (c ∷ cs)) ++ t) same
          ∙ sym (ink-append (take n (c ∷ cs)) (drop n (c ∷ cs)))
          ∙ ap ink (take-drop n (c ∷ cs)),
    )

-- The cutting of any text, at any size, ends. The chunks are stretches of the text one after the
-- other, none longer than the size, each stripped and none blank; and white space aside they hold
-- the whole text.
pub segment-Spans :
    (text : Text) (size : ℕ)
    → (chunks : List Chunk) × (segment text size ≡ some chunks)
      × Spans (size_or_default size) text 0 chunks
      × (inks chunks ≡ ink text)
unfolding segment
segment-Spans text size =
    segment_loop_lem (length text) (size_or_default size) 0 text text (size_positive size)
      (omega arith) refl (omega arith)
