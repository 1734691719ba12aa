-- ===== src/Enrichment/Spent.antt =====
-- What an extraction spends: each call of the model that `extract` makes goes through the guard of
-- apps/enrichment/llm.
use trend_engine_backend.Base.{
  ℕ, zero, suc, ◌+◌, ◌/◌, ◌*◌, ◌≤◌, ◌<◌, List, [], ◌∷◌, length, take, drop, ltb, Bool-cases, inl,
  inr,
}
use trend_engine_backend.Evidence.Items.{ContentItem, ContentSegment}
use trend_engine_backend.Enrichment.Costs.{Books, Caps}
use trend_engine_backend.Enrichment.Client.{Call, Answer, structured, Ending, returned, truncated}
use trend_engine_backend.Enrichment.Cached.{AnswersPrompt, IsQuarterOver, structured-IsQuarterOver}
use trend_engine_backend.Enrichment.Segments.{batches}
use trend_engine_backend.Enrichment.Claims.{Extraction, Rows}
use trend_engine_backend.Enrichment.Extract.{
  and_then, join_after, or_halved, ask_within, ask, ask_all, settle_extraction, extract,
}
use trend_engine_backend.Enrichment.Settled.{extract-cases}

-- What holds of the books through every call of a client.
module _ (client : List ContentSegment → Books → Ending Extraction × Books) (J : Books → Type 0)
    (keeps : (batch : List ContentSegment) (b : Books) → J b → J (client batch b).1) where
  join_after-books : (e : Extraction) (y : Ending Extraction × Books) → J y.1 → J (join_after e y).1
  join_after-books e (returned e2, b) h = h
  join_after-books e (ending, b) h = h

  and_then-books :
      (again : Books → Ending Extraction × Books) (x : Ending Extraction × Books)
      → ((b : Books) → J b → J (again b).1)
      → J x.1
      → J (and_then again x).1
  and_then-books again (returned e, b) next h = join_after-books e (again b) (next b h)
  and_then-books again (ending, b) next h = h

  or_halved-books :
      (again : List ContentSegment → Books → Ending Extraction × Books)
      (batch : List ContentSegment) (x : Ending Extraction × Books)
      → ((half : List ContentSegment) (b : Books) → J b → J (again half b).1)
      → J x.1
      → J (or_halved again batch x).1
  or_halved-books again batch (truncated, b) next h = elim (Bool-cases (ltb (length batch) 2)) [
    | inl e ↦ rw (e, or_halved) h
    | inr e ↦
        (let first = take (length batch / 2) batch in
          let second = drop (length batch / 2) batch in
          rw (e, or_halved)
            (and_then-books (again second) (again first b) (next second) (next first b h)))
  ]
  or_halved-books again batch (ending, b) next h = h

  ask_within-books :
      (fuel : ℕ) (batch : List ContentSegment) (b : Books)
      → J b
      → J (ask_within client fuel batch b).1
  unfolding ask_within
  ask_within-books zero batch b h = keeps batch b h
  ask_within-books (suc fuel) batch b h =
      or_halved-books (ask_within client fuel) batch (client batch b) (ask_within-books fuel)
        (keeps batch b h)

  ask_all-books :
      (parts : List (List ContentSegment)) (b : Books) → J b → J (ask_all client parts b).1
  unfolding ask_all ask
  ask_all-books [] b h = h
  ask_all-books (batch ∷ rest) b h =
      and_then-books (ask_all client rest) (ask client batch b) (ask_all-books rest)
        (ask_within-books (length batch) batch b h)

  settle-books :
      (item : ContentItem) (rows : Rows) (x : Ending Extraction × Books)
      → J x.1
      → J (settle_extraction client item rows x).2
  settle-books item rows (returned e, b) h = h
  settle-books item rows (ending, b) h = h

  extract-books :
      (item : ContentItem) (rows : Rows) (b : Books) → J b → J (extract client item rows b).2
  extract-books item rows b h =
      extract-cases client item (λ out. J out.2) rows b (λ r. h)
        (λ built none_yet unasked claims questions. (
          λ r. h,
          settle-books item built (ask_all client (batches built.segments) b)
              (ask_all-books (batches built.segments) b h),
        ))

module _ (to_ledger : ℕ → ℕ) (nearest : (x : ℕ) → 100 * to_ledger x ≤ x + 50) where
  -- However long a transcript is and however often its batches are halved, and however the prompt
  -- cache is read and written, an extraction leaves the spend of its month at most a quarter over
  -- the monthly cap, half a millionth of a dollar aside, if it was so before, a cap is set, the
  -- ledger rounds to the nearest millionth, no prompt takes more tokens than its estimate counted
  -- and no answer more than the tier allows.
  pub extract-IsQuarterOver :
      (caps : Caps) (call : Call) (approx : List ContentSegment → ℕ)
      (answers : List ContentSegment → Books → Answer Extraction) (item : ContentItem) (rows : Rows)
      (b : Books)
      → 0 < caps.monthly_cap
      → ((batch : List ContentSegment) (b' : Books)
          → AnswersPrompt call (approx batch) (answers batch b'))
      → IsQuarterOver caps call.month b
      → IsQuarterOver caps call.month
          (extract
            (λ batch b'. structured to_ledger caps call (approx batch) (answers batch b') b')
            item
            rows
            b).2
  extract-IsQuarterOver caps call approx answers item rows b metered within below =
      extract-books
        (λ batch b'. structured to_ledger caps call (approx batch) (answers batch b') b')
        (IsQuarterOver caps call.month)
        (λ batch b' h.
          structured-IsQuarterOver to_ledger nearest caps call (approx batch) (answers batch b') b'
            metered (within batch b') h)
        item rows b below
