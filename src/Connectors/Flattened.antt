-- ===== src/Connectors/Flattened.antt =====
-- That the anchors of `to_text` in apps/connectors/srt.py point at the speech of their cues.
use trend_engine_backend.Base.{
  ℕ, ◌+◌, ◌≤◌, ◌≡◌, refl, sym, ap, ◌∙◌, subst, true, false, List, [], ◌∷◌, ◌++◌, append_assoc,
  append-nil, length, length-append, if◌then◌else◌, Text, is_empty, join, All, arith, All-snoc,
  All-map, ◌⊎◌, inl, inr,
}
use trend_engine_backend.Evidence.Items.{Anchor}
use trend_engine_backend.Enrichment.Anchors.{IsSorted}
use trend_engine_backend.Connectors.Srt.{
  Cue, Flat, space, next_index, add_piece, flatten, nothing_flat, to_text, new_suffix,
}

abbrev Inside : Text → Anchor → Type 0
Inside text a = a.char_index ≤ length text

-- What stands between the text so far and the next part.
abbrev gap : Text → Text
gap running = if is_empty running then [] else space

abbrev IsPlaced : Flat → Type 0
IsPlaced f =
    (f.running ≡ join space f.parts)
    × (is_empty f.running ≡ is_empty f.parts)
    × IsSorted f.anchors
    × All (Inside f.running) f.anchors

join-snoc :
    (p q : Text) (ps : List Text)
    → join space ((p ∷ ps) ++ q ∷ []) ≡ join space (p ∷ ps) ++ (space ++ q)
join-snoc p q [] = refl
join-snoc p q (r ∷ ps) =
    ap (λ t. p ++ (space ++ t)) (join-snoc r q ps)
    ∙ sym (append_assoc p (space ++ join space (r ∷ ps)) (space ++ q))

IsSorted-snoc :
    (as' : List Anchor) (a : Anchor)
    → IsSorted as'
    → All (λ b. b.char_index ≤ a.char_index) as'
    → IsSorted (as' ++ a ∷ [])
IsSorted-snoc [] a s h = (tt, tt)
IsSorted-snoc (b ∷ bs) a (s, ss) (h, hs) =
    (All-snoc (λ c. b.char_index ≤ c.char_index) bs a s h, IsSorted-snoc bs a ss hs)

-- The text after a part is added.
running-snoc :
    (parts : List Text) (running piece : Text)
    → running ≡ join space parts
    → is_empty running ≡ is_empty parts
    → join space (parts ++ piece ∷ []) ≡ running ++ (gap running ++ piece)
running-snoc [] running piece e same = rw e refl
running-snoc (p ∷ ps) running piece e same =
    rw same (join-snoc p piece ps ∙ ap (λ t. t ++ (space ++ piece)) (sym e))

next_index_lem : (running : Text) → next_index running ≡ length running + length (gap running)
next_index_lem [] = refl
next_index_lem (x ∷ xs) = refl

empty-append : {A : Type 0} (xs : List A) (y : A) (ys : List A) → is_empty (xs ++ y ∷ ys) ≡ false
empty-append [] y ys = refl
empty-append (x ∷ xs) y ys = refl

-- A text and anchors that go on from others.
abbrev Extends : Flat → Flat → Type 0
Extends f g =
    (more : Text) × (later : List Anchor) × (g.running ≡ f.running ++ more)
    × (g.anchors ≡ f.anchors ++ later)

add_piece-running :
    (cue : Cue) (f : Flat) (x : ℕ) (xs : Text)
    → IsPlaced f
    → (add_piece cue f (x ∷ xs)).running ≡ f.running ++ (gap f.running ++ x ∷ xs)
add_piece-running cue f x xs (e, same, sorted, inside) =
    running-snoc f.parts f.running (x ∷ xs) e same

add_piece-IsPlaced :
    (cue : Cue) (f : Flat) (piece : Text) → IsPlaced f → IsPlaced (add_piece cue f piece)
add_piece-IsPlaced cue f [] h = h
add_piece-IsPlaced cue f (x ∷ xs) (e, same, sorted, inside) =
    let longer = add_piece-running cue f x xs (e, same, sorted, inside) in
    let a : Anchor = record { millis = cue.start; char_index = next_index f.running } in
    let total =
      ap length longer
      ∙ length-append f.running (gap f.running ++ x ∷ xs)
      ∙ ap (λ k. length f.running + k) (length-append (gap f.running) (x ∷ xs)) in
    let at = next_index_lem f.running in
    (
      refl,
      ap is_empty (longer ∙ sym (append_assoc f.running (gap f.running) (x ∷ xs)))
          ∙ empty-append (f.running ++ gap f.running) x xs
          ∙ sym (empty-append f.parts (x ∷ xs) []),
      IsSorted-snoc f.anchors a sorted (
          All-map (Inside f.running) (λ b. b.char_index ≤ next_index f.running) f.anchors
            (λ b h. ground (arith, at)) inside),
      All-snoc (Inside (add_piece cue f (x ∷ xs)).running) f.anchors a
          (All-map (Inside f.running) (Inside (add_piece cue f (x ∷ xs)).running) f.anchors
            (λ b h. omega (arith, total)) inside)
          (omega (arith, total, at)),
    )

add_piece-Extends :
    (cue : Cue) (f : Flat) (piece : Text) → IsPlaced f → Extends f (add_piece cue f piece)
add_piece-Extends cue f [] h = ([], [], sym (append-nil f.running), sym (append-nil f.anchors))
add_piece-Extends cue f (x ∷ xs) h = (
  gap f.running ++ x ∷ xs,
  record { millis = cue.start; char_index = next_index f.running } ∷ [],
  add_piece-running cue f x xs h,
  refl,
)

Extends-trans : (f g h : Flat) → Extends f g → Extends g h → Extends f h
Extends-trans f g h (m, l, e, d) (m', l', e', d') = (
  m ++ m',
  l ++ l',
  e' ∙ ap (λ t. t ++ m') e ∙ append_assoc f.running m m',
  d' ∙ ap (λ t. t ++ l') d ∙ append_assoc f.anchors l l',
)

flatten-IsPlaced :
    (cues : List Cue) (f : Flat)
    → IsPlaced f
    → IsPlaced (flatten cues f) × Extends f (flatten cues f)
unfolding flatten
flatten-IsPlaced [] f h = (h, add_piece-Extends record { start = 0; end = 0; text = [] } f [] h)
flatten-IsPlaced (cue ∷ cues) f h =
    let piece = new_suffix f.running cue.text in
    let f' = add_piece cue f piece in
    let (placed, more) = flatten-IsPlaced cues f' (add_piece-IsPlaced cue f piece h) in
    (placed, Extends-trans f f' (flatten cues f') (add_piece-Extends cue f piece h) more)

flatten-append : (xs ys : List Cue) (f : Flat) → flatten (xs ++ ys) f ≡ flatten ys (flatten xs f)
unfolding flatten
flatten-append [] ys f = refl
flatten-append (x ∷ xs) ys f = flatten-append xs ys (add_piece x f (new_suffix f.running x.text))

-- What a cue adds stands in the text right after the text of the cues before it and what separates the
-- two, and the cue's anchor, right after theirs, has its time and that very place.
abbrev pub IsHeardAs : Cue → Text → Text × List Anchor → Text × List Anchor → Type 0
IsHeardAs cue addition (before, earlier) (text, anchors) =
    (more : Text) × (later : List Anchor) × (text ≡ (before ++ gap before) ++ (addition ++ more))
    × (anchors
        ≡ earlier
          ++ record { millis = cue.start; char_index = length (before ++ gap before) } ∷ later)

abbrev flat : Flat → Text × List Anchor
flat f = (f.running, f.anchors)

-- A cue that adds nothing is as good as not there; any other is heard.
heard :
    (cue : Cue) (later : List Cue) (f : Flat) (piece : Text)
    → IsPlaced f
    → ((is_empty piece ≡ true) × (flatten later (add_piece cue f piece) ≡ flatten later f))
      ⊎ ((is_empty piece ≡ false)
          × IsHeardAs cue piece (flat f) (flat (flatten later (add_piece cue f piece))))
heard cue later f [] h = inl (refl, refl)
heard cue later f (x ∷ xs) h =
    let f' = add_piece cue f (x ∷ xs) in
    let (more, more_anchors, e, d) =
      (flatten-IsPlaced later f' (add_piece-IsPlaced cue f (x ∷ xs) h)).1 in
    let at : next_index f.running ≡ length (f.running ++ gap f.running) =
      next_index_lem f.running ∙ sym (length-append f.running (gap f.running)) in
    inr (
      refl,
      (
        more,
        more_anchors,
        e
            ∙ ap (λ t. t ++ more) (add_piece-running cue f x xs h)
            ∙ append_assoc f.running (gap f.running ++ x ∷ xs) more
            ∙ ap (λ t. f.running ++ t) (append_assoc (gap f.running) (x ∷ xs) more)
            ∙ sym (append_assoc f.running (gap f.running) ((x ∷ xs) ++ more)),
        d
            ∙ append_assoc f.anchors
                (record { millis = cue.start; char_index = next_index f.running } ∷ []) more_anchors
            ∙ ap (λ k. f.anchors ++ record { millis = cue.start; char_index = k } ∷ more_anchors)
                at,
      ),
    )

-- Wherever a cue stands among others: where it has nothing new after the text of the cues before
-- it, the flattened text and anchors are those without it. Otherwise what it adds follows that
-- text and, unless that is empty, a space, and its anchor, next after those of the cues before it,
-- has its start and exactly that place. Either way the anchors are in the order of their places.
pub to_text-IsHeardAs :
    (earlier : List Cue) (cue : Cue) (later : List Cue)
    → IsSorted (to_text (earlier ++ cue ∷ later)).1
      × (((is_empty (new_suffix (to_text earlier).0 cue.text) ≡ true)
            × (to_text (earlier ++ cue ∷ later) ≡ to_text (earlier ++ later)))
          ⊎ ((is_empty (new_suffix (to_text earlier).0 cue.text) ≡ false)
              × IsHeardAs cue
                  (new_suffix (to_text earlier).0 cue.text)
                  (to_text earlier)
                  (to_text (earlier ++ cue ∷ later))))
unfolding to_text flatten
to_text-IsHeardAs earlier cue later =
    let start : IsPlaced nothing_flat = (refl, refl, tt, tt) in
    let f = flatten earlier nothing_flat in
    let (e, same, sorted, inside) =
      (flatten-IsPlaced (earlier ++ cue ∷ later) nothing_flat start).0 in
    let whole = flatten-append earlier (cue ∷ later) nothing_flat in
    let without = flatten-append earlier later nothing_flat in
    let placed = (flatten-IsPlaced earlier nothing_flat start).0 in
    let piece = new_suffix f.running cue.text in
    (
      sorted,
      elim (heard cue later f piece placed) [
        | inl (none_new, same_flat) ↦ inl (none_new, ap flat (whole ∙ same_flat ∙ sym without))
        | inr (some_new, as_heard) ↦
            inr (some_new, subst (λ g. IsHeardAs cue piece (flat f) (flat g)) (sym whole) as_heard)
      ],
    )
