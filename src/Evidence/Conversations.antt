-- ===== src/Evidence/Conversations.antt =====
-- What a confirmed match of apps/evidence/services/duplicates.py rests on.
use mathlib.Core.List.{Memᴰ}
use mathlib.Core.Option.{some-injective}
use trend_engine_backend.Base.{
  ℕ, ◌*◌, ◌≤◌, ◌<◌, ◌≡◌, refl, sym, ap, ◌∙◌, subst, ◌⊎◌, Bool, true, false, not, ◌||◌, Option, none,
  some, List, [], ◌∷◌, mem-filter, filter, length, ltb, leb, Text, is_empty, arith, Bool-cases, inl,
  inr,
}
use trend_engine_backend.Evidence.Items.{confirmed, suspected, ContentItem}
use trend_engine_backend.Evidence.Duplicates.{
  Match, text_of, is_candidate, min_shingles, containment, below, better, shingles, confirmed_by,
  suspected_match, match_with, or_better, best_match, mine_of, find_match, title_similarity,
  durations_agree,
}

-- The item whose transcript has the more shingles is kept, the other one where they have as many.
abbrev pub KeepsLonger : ContentItem → List ℕ → ContentItem → List ℕ → Match → Type 0
KeepsLonger item mine other theirs m =
    ((m.keep_id ≡ other.pk) × (length mine ≤ length theirs))
    ⊎ ((m.keep_id ≡ item.pk) × (length theirs < length mine))

-- Two transcripts of at least fifty shingles each, of which the shorter has three fifths in the longer.
abbrev pub IsSame : List ℕ → List ℕ → Type 0
IsSame mine theirs =
    (min_shingles ≤ length mine)
    × (min_shingles ≤ length theirs)
    × (3 * (containment mine theirs).1 ≤ 5 * (containment mine theirs).0)

not_below : (p : ℕ × ℕ) → below p (3, 5) ≡ false → 3 * p.1 ≤ 5 * p.0
not_below (a, b) h = ground arith

neither : (x y : Bool) → (x || y) ≡ false → (x ≡ false) × (y ≡ false)
neither x y h = ground arith

module _ (hash : List Text → ℕ) (item : ContentItem) where
  abbrev pub IsMatchWith : List ℕ → Match → ContentItem → Type 0
  IsMatchWith mine m other =
      (m.other_id ≡ other.pk)
      × IsSame mine (shingles hash (text_of other))
      × KeepsLonger item mine other (shingles hash (text_of other)) m

  abbrev pub IsConversation : List ContentItem → List ℕ → Match → Type 0
  IsConversation items mine m =
      m.status ≡ confirmed → (other : ContentItem) × Memᴰ other items × IsMatchWith mine m other

  confirmed_by-IsMatchWith :
      (mine theirs : List ℕ) (other : ContentItem) (m : Match)
      → min_shingles ≤ length mine
      → confirmed_by item mine other theirs ≡ some m
      → (m.other_id ≡ other.pk) × IsSame mine theirs × KeepsLonger item mine other theirs m
  confirmed_by-IsMatchWith mine theirs other m enough e =
      elim (Bool-cases
        (ltb (length theirs) min_shingles || below (containment mine theirs) (3, 5))) [
          | inl f ↦ (let e' = rw (f, confirmed_by) at e in cc)
          | inr f ↦
              (let (many, shared) =
                  neither (ltb (length theirs) min_shingles)
                    (below (containment mine theirs) (3, 5)) f in
                let same = some-injective _ m (rw (f, confirmed_by) at e) in
                subst
                  (λ k.
                    (k.other_id ≡ other.pk)
                    × IsSame mine theirs
                    × KeepsLonger item mine other theirs k)
                  same
                  (
                    refl,
                    (enough, ground arith, not_below (containment mine theirs) shared),
                    elim (Bool-cases (leb (length mine) (length theirs))) [
                      | inl g ↦ rw g (inl (refl, ground arith))
                      | inr g ↦ rw g (inr (refl, ground arith))
                    ],
                  ))
        ]

  suspected_match-status :
      (other : ContentItem) (m : Match)
      → suspected_match hash item other ≡ some m
      → m.status ≡ suspected
  suspected_match-status other m e =
      elim (Bool-cases (
        below (title_similarity item.title other.title) (3, 5)
        || not (durations_agree item other))) [
          | inl f ↦ (let e' = rw (f, suspected_match) at e in cc)
          | inr f ↦ sym (ap (λ k. k.status) (some-injective _ m (rw (f, suspected_match) at e)))
        ]

  match_with-IsMatchWith :
      (mine : List ℕ) (other : ContentItem) (m : Match)
      → match_with hash item mine other ≡ some m
      → m.status ≡ confirmed
      → IsMatchWith mine m other
  match_with-IsMatchWith mine other m e is_confirmed_ =
      elim (Bool-cases (leb min_shingles (length mine))) [
        | inl f ↦ elim (Bool-cases (is_empty (text_of other))) [
          | inl g ↦ (let e' = rw (f, g, match_with) at e in cc)
          | inr g ↦
              confirmed_by-IsMatchWith mine (shingles hash (text_of other)) other m (ground arith)
                (rw (f, g, match_with) at e)
        ]
        | inr f ↦ elim (Bool-cases (is_empty (text_of item))) [
          | inl g ↦
              (let s = suspected_match-status other m (rw (f, g, match_with) at e) in
                let clash : suspected ≡ confirmed = sym s ∙ is_confirmed_ in cc)
          | inr g ↦ (let e' = rw (f, g, match_with) at e in cc)
        ]
      ]

  better-IsConversation :
      (items : List ContentItem) (mine : List ℕ) (best : Option Match) (m n : Match)
      → ((k : Match) → best ≡ some k → IsConversation items mine k)
      → IsConversation items mine m
      → better best m ≡ some n
      → IsConversation items mine n
  better-IsConversation items mine none m n so_far new e =
      subst (IsConversation items mine) (some-injective m n e) new
  better-IsConversation items mine (some best) m n so_far new e =
      elim (Bool-cases (below best.overlap m.overlap)) [
        | inl f ↦ subst (IsConversation items mine) (some-injective m n (rw f at e)) new
        | inr f ↦ so_far n (rw f at e)
      ]

  or_better-IsConversation :
      (items : List ContentItem) (mine : List ℕ) (best new : Option Match) (n : Match)
      → ((k : Match) → best ≡ some k → IsConversation items mine k)
      → ((k : Match) → new ≡ some k → IsConversation items mine k)
      → or_better hash best new ≡ some n
      → IsConversation items mine n
  or_better-IsConversation items mine best none n so_far fresh e = so_far n e
  or_better-IsConversation items mine best (some m) n so_far fresh e =
      better-IsConversation items mine best m n so_far (fresh m refl) e

  best_match-IsConversation :
      (items : List ContentItem) (mine : List ℕ) (os : List ContentItem) (best : Option Match)
      (m : Match)
      → ((o : ContentItem) → Memᴰ o os → Memᴰ o items)
      → ((k : Match) → best ≡ some k → IsConversation items mine k)
      → best_match hash item mine os best ≡ some m
      → IsConversation items mine m
  best_match-IsConversation items mine [] best m inside so_far e = so_far m e
  best_match-IsConversation items mine (o ∷ os) best m inside so_far e =
      best_match-IsConversation items mine os (or_better hash best (match_with hash item mine o)) m
        (λ x h. inside x (Memᴰ.tail h))
        (λ k.
          or_better-IsConversation items mine best (match_with hash item mine o) k so_far
            (λ n found is_sure.
              (o, inside o (Memᴰ.head refl), match_with-IsMatchWith mine o n found is_sure)))
        e

  -- A confirmed match is with another item whose date lies within the window; both transcripts
  -- have at least fifty shingles, the shorter has three fifths of its own in the longer, and the
  -- item that is kept is the one with the more of them, the other one where they have as many. No
  -- matching title confirms anything.
  pub find_match-IsConversation :
      (items : List ContentItem) (m : Match)
      → find_match hash item items ≡ some m
      → m.status ≡ confirmed
      → (other : ContentItem) × (Memᴰ other items × (is_candidate item other ≡ true))
        × IsMatchWith (mine_of hash (text_of item)) m other
  unfolding find_match
  find_match-IsConversation items m e is_sure =
      let near = filter (is_candidate item) items in
      let (other, below_, same) =
        best_match-IsConversation near (mine_of hash (text_of item)) near none m (λ o h. h)
          (λ k absurd_. cc) e is_sure in
      (other, (mem-filter (is_candidate item) other items).0 below_, same)
