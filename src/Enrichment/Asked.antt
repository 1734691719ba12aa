-- ===== src/Enrichment/Asked.antt =====
-- How `ask` of apps/enrichment/extraction.py halves what a model cuts off: that it ends, and what the
-- answers that come back have read.
use trend_engine_backend.Base.{
  ℕ, zero, suc, ◌/◌, ◌≤◌, ◌<◌, ◌≡◌, refl, sym, ap, ◌∙◌, subst, true, List, [], ◌∷◌, ◌++◌, length,
  length-drop, take, drop, ltb, arith, Bool-cases, inl, inr, length-take, take-drop,
}
use trend_engine_backend.Evidence.Items.{ContentSegment}
use trend_engine_backend.Enrichment.Costs.{Books}
use trend_engine_backend.Enrichment.Client.{
  Ending, returned, unknown_model, cost_cap_exceeded, truncated, invalid_output, unavailable,
  call_error,
}
use trend_engine_backend.Enrichment.Segments.{batches}
use trend_engine_backend.Enrichment.Batches.{concat, batches-IsBatch}
use trend_engine_backend.Enrichment.Claims.{Extraction}
use trend_engine_backend.Enrichment.Extract.{
  joined, no_parts, join_after, and_then, or_halved, ask_within, ask, ask_all,
}

-- A halved batch is asked for by whatever agrees on shorter ones.
module _ (again other : List ContentSegment → Books → Ending Extraction × Books)
    (batch : List ContentSegment)
    (same : (half : List ContentSegment) (b : Books)
      → length half < length batch
      → again half b ≡ other half b) where
  and_then-ap :
      (second : List ContentSegment) (x : Ending Extraction × Books)
      → length second < length batch
      → and_then (again second) x ≡ and_then (other second) x
  and_then-ap second (returned e, b) h = ap (join_after e) (same second b h)
  and_then-ap second (unknown_model, b) h = refl
  and_then-ap second (cost_cap_exceeded, b) h = refl
  and_then-ap second (truncated, b) h = refl
  and_then-ap second (invalid_output, b) h = refl
  and_then-ap second (unavailable, b) h = refl
  and_then-ap second (call_error, b) h = refl

  or_halved-ap : (x : Ending Extraction × Books) → or_halved again batch x ≡ or_halved other batch x
  or_halved-ap (returned e, b) = refl
  or_halved-ap (unknown_model, b) = refl
  or_halved-ap (cost_cap_exceeded, b) = refl
  or_halved-ap (invalid_output, b) = refl
  or_halved-ap (unavailable, b) = refl
  or_halved-ap (call_error, b) = refl
  or_halved-ap (truncated, b) = elim (Bool-cases (ltb (length batch) 2)) [
    | inl e ↦ rw (e, or_halved) refl
    | inr e ↦
        (let first = take (length batch / 2) batch in
          let second = drop (length batch / 2) batch in
          let more : 2 ≤ length batch = ground arith in
          let one = length-take (length batch / 2) batch (omega arith) in
          let two = length-drop (length batch / 2) batch in
          rw (e, or_halved)
            (ap (and_then (again second)) (same first b (omega arith))
              ∙ and_then-ap second (other first b) (omega arith)))
  ]

short :
    (again : List ContentSegment → Books → Ending Extraction × Books) (batch : List ContentSegment)
    (x : Ending Extraction × Books)
    → length batch ≤ 1
    → x ≡ or_halved again batch x
short again batch (returned e, b) h = refl
short again batch (unknown_model, b) h = refl
short again batch (cost_cap_exceeded, b) h = refl
short again batch (invalid_output, b) h = refl
short again batch (unavailable, b) h = refl
short again batch (call_error, b) h = refl
short again batch (truncated, b) h =
    let one : ltb (length batch) 2 ≡ true = ground arith in rw (one, or_halved) refl

module _ (client : List ContentSegment → Books → Ending Extraction × Books) where
  ask_within_enough :
      (m n : ℕ) (batch : List ContentSegment) (b : Books)
      → length batch ≤ suc m
      → length batch ≤ suc n
      → ask_within client m batch b ≡ ask_within client n batch b
  unfolding ask_within
  ask_within_enough zero zero batch b h h' = refl
  ask_within_enough zero (suc n) batch b h h' = short (ask_within client n) batch (client batch b) h
  ask_within_enough (suc m) zero batch b h h' =
      sym (short (ask_within client m) batch (client batch b) h')
  ask_within_enough (suc m) (suc n) batch b h h' =
      or_halved-ap (ask_within client m) (ask_within client n) batch
        (λ half b' l. ask_within_enough m n half b' (omega arith) (omega arith)) (client batch b)

  -- The halving of a batch that is cut off ends: as much fuel as the batch has segments is enough,
  -- so that `ask` is what its recursive definition says, a batch asked for as a whole and, where
  -- that is cut off, its two halves asked for in order, unless it is one segment.
  pub ask-or_halved :
      (batch : List ContentSegment) (b : Books)
      → ask client batch b ≡ or_halved (ask client) batch (client batch b)
  unfolding ask ask_within
  ask-or_halved batch b =
      ask_within_enough (length batch) (suc (length batch)) batch b (omega arith) (omega arith)
      ∙ or_halved-ap (ask_within client (length batch)) (ask client) batch
          (λ half b' l.
            ask_within_enough (length batch) (length half) half b' (omega arith) (omega arith))
          (client batch b)

  -- The answers to stretches of segments, one after the other, that a result is put together from.
  pub data Answered : List ContentSegment → Books → Extraction → Books → Type 0 where
    nothing : (b : Books) → Answered [] b no_parts b
    whole :
        (batch : List ContentSegment) (e : Extraction) (b b' : Books)
        → client batch b ≡ (returned e, b')
        → Answered batch b e b'
    cut_off :
        (batch : List ContentSegment) (e : Extraction) (b b' b'' : Books)
        → client batch b ≡ (truncated, b')
        → Answered batch b' e b''
        → Answered batch b e b''
    one_after :
        (first second : List ContentSegment) (e e' : Extraction) (b b' b'' : Books)
        → Answered first b e b'
        → Answered second b' e' b''
        → Answered (first ++ second) b (joined e e') b''

  join_after-returned :
      (e1 e : Extraction) (y : Ending Extraction × Books) (b' : Books)
      → join_after e1 y ≡ (returned e, b')
      → (e2 : Extraction) × (y ≡ (returned e2, b')) × (joined e1 e2 ≡ e)
  join_after-returned e1 e (returned e2, b2) b' h = (e2, cc, cc)
  join_after-returned e1 e (unknown_model, b2) b' h = cc
  join_after-returned e1 e (cost_cap_exceeded, b2) b' h = cc
  join_after-returned e1 e (truncated, b2) b' h = cc
  join_after-returned e1 e (invalid_output, b2) b' h = cc
  join_after-returned e1 e (unavailable, b2) b' h = cc
  join_after-returned e1 e (call_error, b2) b' h = cc

  and_then-returned :
      (again : Books → Ending Extraction × Books) (e : Extraction) (x : Ending Extraction × Books)
      (b' : Books)
      → and_then again x ≡ (returned e, b')
      → (e1 : Extraction) × (e2 : Extraction) × (b1 : Books) × (x ≡ (returned e1, b1))
        × (again b1 ≡ (returned e2, b'))
        × (joined e1 e2 ≡ e)
  and_then-returned again e (returned e1, b1) b' h =
      let (e2, run, same) = join_after-returned e1 e (again b1) b' h in
      (e1, e2, b1, refl, run, same)
  and_then-returned again e (unknown_model, b2) b' h = cc
  and_then-returned again e (cost_cap_exceeded, b2) b' h = cc
  and_then-returned again e (truncated, b2) b' h = cc
  and_then-returned again e (invalid_output, b2) b' h = cc
  and_then-returned again e (unavailable, b2) b' h = cc
  and_then-returned again e (call_error, b2) b' h = cc

  -- Two stretches of which the first was answered before the second.
  halves-Answered :
      (again : List ContentSegment → Books → Ending Extraction × Books)
      (first second : List ContentSegment) (x : Ending Extraction × Books) (e : Extraction)
      (b b' : Books)
      → ((e1 : Extraction) (b1 : Books) → x ≡ (returned e1, b1) → Answered first b e1 b1)
      → ((e2 : Extraction) (b1 b2 : Books)
          → again second b1 ≡ (returned e2, b2)
          → Answered second b1 e2 b2)
      → and_then (again second) x ≡ (returned e, b')
      → Answered (first ++ second) b e b'
  halves-Answered again first second x e b b' one two h =
      let (e1, e2, b1, ran, rest, same) = and_then-returned (again second) e x b' h in
      subst (λ r. Answered (first ++ second) b r b') same
        (one_after first second e1 e2 b b1 b' (one e1 b1 ran) (two e2 b1 b' rest))

  or_halved-Answered :
      (again : List ContentSegment → Books → Ending Extraction × Books)
      (batch : List ContentSegment) (x : Ending Extraction × Books) (e : Extraction) (b b' : Books)
      → ((half : List ContentSegment) (e1 : Extraction) (b1 b2 : Books)
          → again half b1 ≡ (returned e1, b2)
          → Answered half b1 e1 b2)
      → client batch b ≡ x
      → or_halved again batch x ≡ (returned e, b')
      → Answered batch b e b'
  or_halved-Answered again batch (returned e1, b1) e b b' ih ran h = whole batch e b b' (ran ∙ h)
  or_halved-Answered again batch (unknown_model, b1) e b b' ih ran h = cc
  or_halved-Answered again batch (cost_cap_exceeded, b1) e b b' ih ran h = cc
  or_halved-Answered again batch (invalid_output, b1) e b b' ih ran h = cc
  or_halved-Answered again batch (unavailable, b1) e b b' ih ran h = cc
  or_halved-Answered again batch (call_error, b1) e b b' ih ran h = cc
  or_halved-Answered again batch (truncated, b1) e b b' ih ran h =
      elim (Bool-cases (ltb (length batch) 2)) [
        | inl one ↦ (let h' = rw (one, or_halved) at h in cc)
        | inr more ↦
            (let first = take (length batch / 2) batch in
              let second = drop (length batch / 2) batch in
              let parts : first ++ second ≡ batch = take-drop (length batch / 2) batch in
              cut_off batch e b b1 b' ran (
                subst (λ ss. Answered ss b1 e b') parts
                  (halves-Answered again first second (again first b1) e b1 b'
                    (λ e1 b2. ih first e1 b1 b2) (ih second) (rw (more, or_halved) at h))))
      ]

  ask_within-Answered :
      (fuel : ℕ) (batch : List ContentSegment) (e : Extraction) (b b' : Books)
      → ask_within client fuel batch b ≡ (returned e, b')
      → Answered batch b e b'
  unfolding ask_within
  ask_within-Answered zero batch e b b' h = whole batch e b b' h
  ask_within-Answered (suc fuel) batch e b b' h =
      or_halved-Answered (ask_within client fuel) batch (client batch b) e b b'
        (λ half e1 b1 b2. ask_within-Answered fuel half e1 b1 b2) refl h

  ask_all-Answered :
      (parts : List (List ContentSegment)) (e : Extraction) (b b' : Books)
      → ask_all client parts b ≡ (returned e, b')
      → Answered (concat parts) b e b'
  unfolding ask_all ask
  ask_all-Answered [] e b b' h =
      let same : no_parts ≡ e = cc in
      let books : b ≡ b' = cc in
      subst (λ r. Answered [] b r b') same (subst (λ c. Answered [] b no_parts c) books (nothing b))
  ask_all-Answered (batch ∷ rest) e b b' h =
      halves-Answered (λ parts. ask_all client rest) batch (concat rest) (ask client batch b) e b b'
        (λ e1 b1. ask_within-Answered (length batch) batch e1 b b1)
        (λ e2 b1 b2. ask_all-Answered rest e2 b1 b2) h

  -- Where the batches of an item's segments are answered, the result is put together from answers
  -- to stretches of segments that together are exactly the item's segments, each once and in
  -- order; no truncated answer is among them.
  pub batches-Answered :
      (segments : List ContentSegment) (e : Extraction) (b b' : Books)
      → ask_all client (batches segments) b ≡ (returned e, b')
      → Answered segments b e b'
  batches-Answered segments e b b' h =
      subst (λ ss. Answered ss b e b') (batches-IsBatch segments).0
        (ask_all-Answered (batches segments) e b b' h)
