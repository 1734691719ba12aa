-- ===== src/Enrichment/Extracted.antt =====
-- What apps/enrichment/extraction.py keeps of the claims and questions that a model answers.
use mathlib.Core.Option.{some-injective}
use mathlib.Core.List.{Memᴰ}
use trend_engine_backend.Base.{
  ℕ, suc, ◌+◌, ◌≡◌, refl, sym, ◌∙◌, inl, inr, Bool, true, false, Option, none, some, List, [], ◌∷◌,
  ◌++◌, length, ◌==◌, Text, is_empty, strip, normalise, contains_append, All, arith, Bool-cases,
  Option-cases,
}
use trend_engine_backend.Base.Int.{ℤ, pos, negsuc}
use trend_engine_backend.Evidence.Items.{ContentSegment}
use trend_engine_backend.Enrichment.Claims.{
  ExtractedClaim, ExtractedQuestion, Claim, Question, Rows, numbered, by_ordinal, anchored,
  keep_anchored, keep_claims, question_in, keep_questions,
}

-- A text stands in another.
abbrev pub Occurs : Text → Text → Type 0
Occurs needle hay = (before : Text) × (after : Text) × (hay ≡ before ++ (needle ++ after))

-- A claim names a segment of the item, and quotes words that stand in it, white space and case aside.
abbrev pub IsQuoted : List ContentSegment → Claim → Type 0
IsQuoted segments c =
    Memᴰ c.segment segments
    × (is_empty (strip c.quote) ≡ false)
    × Occurs (normalise c.quote) (normalise c.segment.text)

abbrev pub IsEvidenced : Rows → Type 0
IsEvidenced rows =
    All (IsQuoted rows.segments) rows.claims
    × All (λ q. Memᴰ q.segment rows.segments) rows.questions

mem-numbered :
    (ss : List ContentSegment) (n : ℕ) (s : ContentSegment) → numbered ss n ≡ some s → Memᴰ s ss
mem-numbered [] n s h = cc
mem-numbered (t ∷ ts) n s h = elim (Option-cases (numbered ts n)) [
  | inr (u, e) ↦ Memᴰ.tail (mem-numbered ts n s (e ∙ rw e at h))
  | inl e ↦ elim (Bool-cases (t.ordinal == n)) [
    | inl same ↦ (let h' = rw (e, same) at h in Memᴰ.head (sym (some-injective t s h')))
    | inr other ↦ (let h' = rw (e, other) at h in cc)
  ]
]

mem-by_ordinal :
    (ss : List ContentSegment) (n : ℤ) (s : ContentSegment) → by_ordinal ss n ≡ some s → Memᴰ s ss
mem-by_ordinal ss (pos n) s h = mem-numbered ss n s h
mem-by_ordinal ss (negsuc n) s h = cc

anchored-Occurs :
    (quote : Text) (s : ContentSegment)
    → anchored quote s ≡ true
    → (is_empty (strip quote) ≡ false) × Occurs (normalise quote) (normalise s.text)
unfolding anchored
anchored-Occurs quote s h =
    (ground arith, contains_append (normalise quote) (normalise s.text) (ground arith))

module _ (segments : List ContentSegment) (promoted : Bool) where
  keep_anchored-IsQuoted :
      (c : ExtractedClaim) (o : Option ContentSegment) (kept : List Claim × ℕ)
      → ((s : ContentSegment) → o ≡ some s → Memᴰ s segments)
      → All (IsQuoted segments) kept.0
      → All (IsQuoted segments) (keep_anchored promoted c o kept).0
  keep_anchored-IsQuoted c none (claims, dropped) found h = h
  keep_anchored-IsQuoted c (some s) (claims, dropped) found h =
      elim (Bool-cases (anchored c.quote s)) [
        | inl e ↦
            (let (words, occurs) = anchored-Occurs c.quote s e in
              rw e ((found s refl, words, occurs), h))
        | inr e ↦ rw e h
      ]

  pub keep_claims-IsQuoted :
      (cs : List ExtractedClaim) → All (IsQuoted segments) (keep_claims segments promoted cs).0
  unfolding keep_claims
  keep_claims-IsQuoted [] = tt
  keep_claims-IsQuoted (c ∷ cs) =
      keep_anchored-IsQuoted c (by_ordinal segments c.segment_ordinal)
        (keep_claims segments promoted cs) (mem-by_ordinal segments c.segment_ordinal)
        (keep_claims-IsQuoted cs)

  keep_anchored-length :
      (c : ExtractedClaim) (o : Option ContentSegment) (kept : List Claim × ℕ) (n : ℕ)
      → length kept.0 + kept.1 ≡ n
      → length (keep_anchored promoted c o kept).0 + (keep_anchored promoted c o kept).1 ≡ suc n
  keep_anchored-length c none (claims, dropped) n h = omega arith
  keep_anchored-length c (some s) (claims, dropped) n h = ground arith

  pub keep_claims-length :
      (cs : List ExtractedClaim)
      → length (keep_claims segments promoted cs).0 + (keep_claims segments promoted cs).1
        ≡ length cs
  unfolding keep_claims
  keep_claims-length [] = omega arith
  keep_claims-length (c ∷ cs) =
      keep_anchored-length c (by_ordinal segments c.segment_ordinal)
        (keep_claims segments promoted cs) (length cs) (keep_claims-length cs)

question_in-mem :
    (segments : List ContentSegment) (q : ExtractedQuestion) (o : Option ContentSegment)
    (rest : List Question)
    → ((s : ContentSegment) → o ≡ some s → Memᴰ s segments)
    → All (λ p. Memᴰ p.segment segments) rest
    → All (λ p. Memᴰ p.segment segments) (question_in q o rest)
question_in-mem segments q none rest found h = h
question_in-mem segments q (some s) rest found h = (found s refl, h)

pub keep_questions-mem :
    (segments : List ContentSegment) (qs : List ExtractedQuestion)
    → All (λ q. Memᴰ q.segment segments) (keep_questions segments qs)
keep_questions-mem segments [] = tt
keep_questions-mem segments (q ∷ qs) =
    question_in-mem segments q (by_ordinal segments q.segment_ordinal) (keep_questions segments qs)
      (mem-by_ordinal segments q.segment_ordinal) (keep_questions-mem segments qs)
