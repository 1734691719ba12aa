-- ===== src/Enrichment/Settled.antt =====
-- How an extraction of apps/enrichment/extraction.py ends: everything is stored, or nothing.
use mathlib.Core.List.{Memᴰ}
use trend_engine_backend.Base.{
  ◌+◌, ◌≡◌, refl, sym, ap, ◌∙◌, subst, ◌⊎◌, inl, inr, true, not, ◌&&◌, List, [], ◌∷◌, ◌++◌, length,
  is_empty, All, Result, ok, arith, Bool-cases,
}
use trend_engine_backend.Evidence.Items.{
  ContentItem, ContentSegment, is_metadata_only, is_duplicate,
}
use trend_engine_backend.Evidence.Promotion.{is_promotional}
use trend_engine_backend.Enrichment.Costs.{Books}
use trend_engine_backend.Enrichment.Client.{
  Ending, returned, unknown_model, cost_cap_exceeded, truncated, invalid_output, unavailable,
  call_error,
}
use trend_engine_backend.Enrichment.Segments.{batches}
use trend_engine_backend.Enrichment.Asked.{Answered, batches-Answered}
use trend_engine_backend.Enrichment.Claims.{
  Extraction, Rows, ExtractionResult, Uncaught, keep_claims, keep_questions, build_segments,
}
use trend_engine_backend.Enrichment.Extract.{ask_all, settle_extraction, extract_new, extract}
use trend_engine_backend.Enrichment.Extracted.{
  IsQuoted, IsEvidenced, keep_claims-IsQuoted, keep_claims-length, keep_questions-mem,
}

empty_list : {A : Type 0} (xs : List A) → is_empty xs ≡ true → xs ≡ []
empty_list [] h = refl
empty_list (x ∷ xs) h = cc

no_rows-IsEvidenced : (rows : Rows) → rows.claims ≡ [] → rows.questions ≡ [] → IsEvidenced rows
no_rows-IsEvidenced rows none_yet unasked = (
  subst (All (IsQuoted rows.segments)) (sym none_yet) tt,
  subst (All (λ q. Memᴰ q.segment rows.segments)) (sym unasked) tt,
)

-- How an extraction leaves the claims and questions of an item: as they were, or as every answer to
-- its segments gives them, each claim of the answers stored or counted as dropped.
abbrev pub IsAllOrNothing :
    (List ContentSegment → Books → Ending Extraction × Books)
    → Rows
    → Books
    → Result Uncaught ExtractionResult × Rows × Books
    → Type 0
IsAllOrNothing client rows b (r, rows', b') =
    ((rows'.claims ≡ rows.claims) × (rows'.questions ≡ rows.questions))
    ⊎ ((e : Extraction) × (done : ExtractionResult) × Answered client rows'.segments b e b'
        × (r ≡ ok done)
        × (length rows'.claims ≡ done.claims)
        × (done.claims + done.dropped_unanchored ≡ length e.claims)
        × (length rows'.questions ≡ done.questions))

module _ (client : List ContentSegment → Books → Ending Extraction × Books)
    (item : ContentItem) where
  settle-IsAllOrNothing :
      (start rows : Rows) (b : Books) (x : Ending Extraction × Books)
      → rows.claims ≡ start.claims
      → rows.questions ≡ start.questions
      → start.claims ≡ []
      → start.questions ≡ []
      → ((e : Extraction) (b' : Books)
          → x ≡ (returned e, b')
          → Answered client rows.segments b e b')
      → IsAllOrNothing client start b (settle_extraction client item rows x)
  settle-IsAllOrNothing start rows b (returned e, b') claims questions none_yet unasked read =
      let promoted = is_promotional (item.title ∷ item.description ∷ []) in
      let kept = (keep_claims rows.segments promoted e.claims).0 in
      let asked = keep_questions rows.segments e.questions in
      inr (
        e,
        _,
        read e b' refl,
        refl,
        ap (λ cs. length (cs ++ kept)) (claims ∙ none_yet),
        keep_claims-length rows.segments promoted e.claims,
        ap (λ qs. length (qs ++ asked)) (questions ∙ unasked),
      )
  settle-IsAllOrNothing start rows b (unknown_model, b') claims questions none_yet unasked read =
      inl (claims, questions)
  settle-IsAllOrNothing start rows b (cost_cap_exceeded, b') claims questions none_yet unasked
        read =
      inl (claims, questions)
  settle-IsAllOrNothing start rows b (truncated, b') claims questions none_yet unasked read =
      inl (claims, questions)
  settle-IsAllOrNothing start rows b (invalid_output, b') claims questions none_yet unasked read =
      inl (claims, questions)
  settle-IsAllOrNothing start rows b (unavailable, b') claims questions none_yet unasked read =
      inl (claims, questions)
  settle-IsAllOrNothing start rows b (call_error, b') claims questions none_yet unasked read =
      inl (claims, questions)

  settle-IsEvidenced :
      (rows : Rows) (x : Ending Extraction × Books)
      → rows.claims ≡ []
      → rows.questions ≡ []
      → IsEvidenced (settle_extraction client item rows x).1
  settle-IsEvidenced rows (returned e, b') none_yet unasked =
      let promoted = is_promotional (item.title ∷ item.description ∷ []) in
      (
        subst
            (λ cs.
              All (IsQuoted rows.segments) (cs ++ (keep_claims rows.segments promoted e.claims).0))
            (sym none_yet) (keep_claims-IsQuoted rows.segments promoted e.claims),
        subst
            (λ qs.
              All (λ q. Memᴰ q.segment rows.segments)
                (qs ++ keep_questions rows.segments e.questions))
            (sym unasked) (keep_questions-mem rows.segments e.questions),
      )
  settle-IsEvidenced rows (ending, b') none_yet unasked = no_rows-IsEvidenced rows none_yet unasked

  build_segments-same :
      (rows : Rows)
      → ((build_segments item rows).claims ≡ rows.claims)
        × ((build_segments item rows).questions ≡ rows.questions)
  build_segments-same rows = elim (Bool-cases (is_empty rows.segments)) [
    | inl e ↦ rw e (refl, refl)
    | inr e ↦ rw e (refl, refl)
  ]

  extract_new-cases :
      (P : Result Uncaught ExtractionResult × Rows × Books → Type 0) (rows : Rows) (b : Books)
      → ((r : Result Uncaught ExtractionResult) → P (r, rows, b))
      → P (settle_extraction client item rows (ask_all client (batches rows.segments) b))
      → P (extract_new client item rows b)
  extract_new-cases P rows b back settled = elim (Bool-cases (is_empty rows.segments)) [
    | inl e ↦ rw (e, extract_new) (back _)
    | inr e ↦ rw (e, extract_new) settled
  ]

  -- A case for each way through `extract`: it gives the rows back, or an item without claims and
  -- questions has its segments built and is settled by the answers.
  pub extract-cases :
      (P : Result Uncaught ExtractionResult × Rows × Books → Type 0) (rows : Rows) (b : Books)
      → ((r : Result Uncaught ExtractionResult) → P (r, rows, b))
      → ((built : Rows)
          → rows.claims ≡ []
          → rows.questions ≡ []
          → built.claims ≡ rows.claims
          → built.questions ≡ rows.questions
          → ((r : Result Uncaught ExtractionResult) → P (r, built, b))
            × P (settle_extraction client item built (ask_all client (batches built.segments) b)))
      → P (extract client item rows b)
  unfolding extract
  extract-cases P rows b back settled = elim (Bool-cases (is_metadata_only item)) [
    | inl e ↦ rw e (back _)
    | inr e ↦ elim (Bool-cases (is_duplicate item)) [
      | inl f ↦ rw (e, f) (back _)
      | inr f ↦ elim (Bool-cases (not (is_empty rows.claims && is_empty rows.questions))) [
        | inl g ↦ rw (e, f, g) (back _)
        | inr g ↦
            (let none_yet = empty_list rows.claims (ground arith) in
              let unasked = empty_list rows.questions (ground arith) in
              let (claims, questions) = build_segments-same rows in
              let (back', run) =
                settled (build_segments item rows) none_yet unasked claims questions in
              rw (e, f, g) (extract_new-cases P (build_segments item rows) b back' run))
      ]
    ]
  ]

  -- An extraction is all or nothing, whatever the model does. Either the item's claims and
  -- questions stay as they were, or the answers have read all of the item's segments, each once
  -- and in order, and the extraction returns its counts, of all claims answered those stored and
  -- those dropped.
  pub extract-IsAllOrNothing :
      (rows : Rows) (b : Books) → IsAllOrNothing client rows b (extract client item rows b)
  extract-IsAllOrNothing rows b =
      extract-cases (IsAllOrNothing client rows b) rows b (λ r. inl (refl, refl))
        (λ built none_yet unasked claims questions. (
          λ r. inl (claims, questions),
          settle-IsAllOrNothing rows built b (ask_all client (batches built.segments) b) claims
              questions none_yet unasked (λ e b'. batches-Answered client built.segments e b b'),
        ))

  -- Evidence stays evidence: where every stored claim quotes words of one of the item's segments,
  -- and every question names one, an extraction leaves it so, whatever the model answers.
  pub extract-IsEvidenced :
      (rows : Rows) (b : Books) → IsEvidenced rows → IsEvidenced (extract client item rows b).1
  extract-IsEvidenced rows b h =
      extract-cases (λ out. IsEvidenced out.1) rows b (λ r. h)
        (λ built none_yet unasked claims questions. (
          λ r. no_rows-IsEvidenced built (claims ∙ none_yet) (questions ∙ unasked),
          settle-IsEvidenced built (ask_all client (batches built.segments) b) (claims ∙ none_yet)
              (questions ∙ unasked),
        ))
