-- ===== src/Enrichment/Batches.antt =====
-- What `_batches` of apps/enrichment/extraction.py makes of a transcript's segments.
use trend_engine_backend.Base.{
  ℕ, ◌+◌, ◌≤◌, ◌≡◌, refl, sym, ap, ◌∙◌, ◌⊎◌, inl, inr, false, Bool-cases, not, ◌&&◌, List, [], ◌∷◌,
  ◌++◌, append_assoc, append-nil, length, ltb, is_empty, All, sum_of, arith, All-snoc,
}
use trend_engine_backend.Evidence.Items.{ContentSegment}
use trend_engine_backend.Enrichment.Segments.{batch_loop, batch_chars, batches}

abbrev pub concat {ℓ} : {A : Type ℓ} → List (List A) → List A
concat [] = []
concat (xs ∷ xss) = xs ++ concat xss

abbrev pub chars_of : List ContentSegment → ℕ
chars_of = sum_of (λ s. length s.text)

-- A batch fits one call, or is one segment.
abbrev pub IsBatch : ℕ → List ContentSegment → Type 0
IsBatch limit batch = (chars_of batch ≤ limit) ⊎ (length batch ≤ 1)

concat-snoc :
    {A : Type 0} (xss : List (List A)) (xs : List A) → concat (xss ++ xs ∷ []) ≡ concat xss ++ xs
concat-snoc [] xs = append-nil xs
concat-snoc (ys ∷ xss) xs =
    ap (◌++◌ ys) (concat-snoc xss xs) ∙ sym (append_assoc ys (concat xss) xs)

chars_of-append : (xs ys : List ContentSegment) → chars_of (xs ++ ys) ≡ chars_of xs + chars_of ys
chars_of-append [] ys = omega arith
chars_of-append (x ∷ xs) ys = omega (arith, chars_of-append xs ys)

concat-batch_loop :
    (limit : ℕ) (done : List (List ContentSegment)) (current : List ContentSegment) (size : ℕ)
    (ss : List ContentSegment)
    → concat (batch_loop limit done current size ss) ≡ concat (done ++ current ∷ []) ++ ss
unfolding batch_loop
concat-batch_loop limit done current size [] = sym (append-nil (concat (done ++ current ∷ [])))
concat-batch_loop limit done current size (s ∷ ss) =
    elim (Bool-cases (not (is_empty current) && ltb limit (size + length s.text))) [
      | inl e ↦
          rw (e, batch_loop)
            (concat-batch_loop limit (done ++ current ∷ []) (s ∷ []) (0 + length s.text) ss
              ∙ ap (λ t. t ++ ss) (concat-snoc (done ++ current ∷ []) (s ∷ []))
              ∙ append_assoc (concat (done ++ current ∷ [])) (s ∷ []) ss)
      | inr e ↦
          rw (e, batch_loop)
            (concat-batch_loop limit done (current ++ s ∷ []) (size + length s.text) ss
              ∙ ap (λ t. t ++ ss)
                  (concat-snoc done (current ++ s ∷ [])
                    ∙ sym (append_assoc (concat done) current (s ∷ []))
                    ∙ ap (λ t. t ++ s ∷ []) (sym (concat-snoc done current)))
              ∙ append_assoc (concat (done ++ current ∷ [])) (s ∷ []) ss)
    ]

one_more :
    (limit : ℕ) (current : List ContentSegment) (s : ContentSegment)
    → (not (is_empty current) && ltb limit (chars_of current + length s.text)) ≡ false
    → IsBatch limit (current ++ s ∷ [])
one_more limit [] s h = inr (omega arith)
one_more limit (c ∷ cs) s h = inl (ground (arith, chars_of-append (c ∷ cs) (s ∷ [])))

batch_loop_bounds :
    (limit : ℕ) (done : List (List ContentSegment)) (current : List ContentSegment) (size : ℕ)
    (ss : List ContentSegment)
    → All (IsBatch limit) done
    → IsBatch limit current
    → size ≡ chars_of current
    → All (IsBatch limit) (batch_loop limit done current size ss)
unfolding batch_loop
batch_loop_bounds limit done current size [] ds d same = All-snoc (IsBatch limit) done current ds d
batch_loop_bounds limit done current size (s ∷ ss) ds d same =
    elim (Bool-cases (not (is_empty current) && ltb limit (size + length s.text))) [
      | inl e ↦
          rw (e, batch_loop)
            (batch_loop_bounds limit (done ++ current ∷ []) (s ∷ []) (0 + length s.text) ss
              (All-snoc (IsBatch limit) done current ds d) (inr (omega arith)) (omega arith))
      | inr e ↦
          rw (e, batch_loop)
            (batch_loop_bounds limit done (current ++ s ∷ []) (size + length s.text) ss ds
              (one_more limit current s (rw same at e))
              (omega (arith, chars_of-append current (s ∷ []))))
    ]

-- The batches hold every segment once and in order, and each batch has at most `BATCH_CHARS` characters
-- or is a single segment.
pub batches-IsBatch :
    (segments : List ContentSegment)
    → (concat (batches segments) ≡ segments) × All (IsBatch batch_chars) (batches segments)
unfolding batches
batches-IsBatch segments = (
  concat-batch_loop batch_chars [] [] 0 segments,
  batch_loop_bounds batch_chars [] [] 0 segments tt (inr (omega arith)) refl,
)
