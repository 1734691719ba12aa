-- ===== src/Enrichment/Anchors.antt =====
-- That the binary search of `_seconds_at` in apps/enrichment/extraction.py finds what a walk along the
-- anchors finds.
use mathlib.Core.Option.{some-injective}
use trend_engine_backend.Base.{
  ℕ, zero, suc, ◌+◌, ◌-◌, ◌/◌, ◌≤◌, ◌<◌, ◌≡◌, refl, sym, ap, ◌∙◌, subst, Option, none, some, List,
  [], ◌∷◌, length, get_elem?, take, drop, ltb, leb, if◌then◌else◌, arith, Bool-cases, inl, inr, All,
}
use trend_engine_backend.Evidence.Items.{Anchor}
use trend_engine_backend.Enrichment.Segments.{seconds_loop, seconds_at}

-- Anchors in the order of their positions.
abbrev pub IsSorted : List Anchor → Type 0
IsSorted [] = Unit {0}
IsSorted (a ∷ as') = All (λ b. a.char_index ≤ b.char_index) as' × IsSorted as'

-- The last anchor at or before a position, by a walk.
unfoldable pub last_before : List Anchor → ℕ → Option ℕ
last_before [] index = none
last_before (a ∷ as') index =
    let rest = last_before as' index in
    elim rest [ some t ↦ some t | none ↦ if leb a.char_index index then some a.millis else none ]

abbrev AtOrBefore : ℕ → List Anchor → Type 0
AtOrBefore index as' = All (λ a. a.char_index ≤ index) as'

abbrev After : ℕ → List Anchor → Type 0
After index as' = All (λ a. index < a.char_index) as'

-- The seconds of the anchor before a place in the list.
abbrev seconds_of : Option Anchor → Option ℕ
seconds_of none = none
seconds_of (some a) = some a.millis

abbrev found_at : List Anchor → ℕ → Option ℕ
found_at anchors zero = none
found_at anchors (suc k) = seconds_of (get_elem? anchors k)

last_before-none :
    (index : ℕ) (anchors : List Anchor) → After index anchors → last_before anchors index ≡ none
unfolding last_before
last_before-none index [] h = refl
last_before-none index (a ∷ as') (h, hs) = rw (last_before-none index as' hs) (ground arith)

drop_all : {A : Type 0} (xs : List A) → drop (length xs) xs ≡ []
drop_all [] = refl
drop_all (x ∷ xs) = drop_all xs

get_elem?-inside :
    {A : Type 0} (xs : List A) (i : ℕ) → i < length xs → (x : A) × (get_elem? xs i ≡ some x)
get_elem?-inside [] i h = absurd (omega arith)
get_elem?-inside (x ∷ xs) zero h = (x, refl)
get_elem?-inside (x ∷ xs) (suc i) h = get_elem?-inside xs i (omega arith)

All-get_elem? :
    {A : Type 0} (P : A → Type 0) (xs : List A) (i : ℕ) (x : A)
    → All P xs
    → get_elem? xs i ≡ some x
    → P x
All-get_elem? P [] i x h e = cc
All-get_elem? P (y ∷ ys) zero x (h, hs) e = subst P (some-injective y x e) h
All-get_elem? P (y ∷ ys) (suc i) x (h, hs) e = All-get_elem? P ys i x hs e

later_anchor :
    (a : Anchor) (as' : List Anchor) (index t : ℕ)
    → last_before as' index ≡ some t
    → last_before (a ∷ as') index ≡ some t
unfolding last_before
later_anchor a as' index t e = rw e refl

only_anchor :
    (a : Anchor) (as' : List Anchor) (index : ℕ)
    → a.char_index ≤ index
    → last_before as' index ≡ none
    → last_before (a ∷ as') index ≡ some a.millis
unfolding last_before
only_anchor a as' index h e = rw e (ground arith)

-- A walk stops at the place that splits the anchors.
last_before-split :
    (index r : ℕ) (anchors : List Anchor)
    → r ≤ length anchors
    → AtOrBefore index (take r anchors)
    → After index (drop r anchors)
    → last_before anchors index ≡ found_at anchors r
last_before-split index zero anchors inside before after = last_before-none index anchors after
last_before-split index (suc r) [] inside before after = absurd (omega arith)
last_before-split index (suc zero) (a ∷ as') inside (b, bs) after =
    only_anchor a as' index b (last_before-none index as' after)
last_before-split index (suc (suc r)) (a ∷ as') inside (p, ps) after =
    let (x, found) = get_elem?-inside as' r (omega arith) in
    let tail = last_before-split index (suc r) as' (omega arith) ps after in
    later_anchor a as' index x.millis (tail ∙ ap seconds_of found) ∙ sym (ap seconds_of found)

take_before :
    (index mid : ℕ) (anchors : List Anchor) (a : Anchor)
    → IsSorted anchors
    → get_elem? anchors mid ≡ some a
    → a.char_index ≤ index
    → AtOrBefore index (take (suc mid) anchors)
take_before index mid [] a sorted e h = cc
take_before index zero (b ∷ bs) a sorted e h =
    (subst (λ x. x.char_index ≤ index) (sym (some-injective b a e)) h, tt)
take_before index (suc mid) (b ∷ bs) a (first, sorted) e h =
    let below = All-get_elem? (λ c. b.char_index ≤ c.char_index) bs mid a first e in
    (omega arith, take_before index mid bs a sorted e h)

later-After :
    (index k : ℕ) (anchors : List Anchor)
    → index < k
    → All (λ b. k ≤ b.char_index) anchors
    → After index anchors
later-After index k [] h hs = tt
later-After index k (a ∷ as') h (l, ls) = (omega arith, later-After index k as' h ls)

drop-After :
    (index mid : ℕ) (anchors : List Anchor) (a : Anchor)
    → IsSorted anchors
    → get_elem? anchors mid ≡ some a
    → index < a.char_index
    → After index (drop mid anchors)
drop-After index mid [] a sorted e h = cc
drop-After index zero (b ∷ bs) a (first, sorted) e h =
    let h' = subst (λ x. index < x.char_index) (sym (some-injective b a e)) h in
    (h', later-After index b.char_index bs h' first)
drop-After index (suc mid) (b ∷ bs) a (first, sorted) e h = drop-After index mid bs a sorted e h

module _ (index : ℕ) (anchors : List Anchor) (sorted : IsSorted anchors) where
  met :
      (low high : ℕ) (best : Option ℕ)
      → low ≤ high
      → high ≤ length anchors
      → high ≤ low
      → AtOrBefore index (take low anchors)
      → After index (drop high anchors)
      → best ≡ found_at anchors low
      → best ≡ last_before anchors index
  met low high best order inside stop before after e =
      let same : high ≡ low = omega arith in
      e
      ∙ sym (
          last_before-split index low anchors (omega arith) before
            (subst (λ k. After index (drop k anchors)) same after))

  seconds_loop_lem :
      (fuel low high : ℕ) (best : Option ℕ)
      → low ≤ high
      → high ≤ length anchors
      → high ≤ low + fuel
      → AtOrBefore index (take low anchors)
      → After index (drop high anchors)
      → best ≡ found_at anchors low
      → seconds_loop fuel anchors index low high best ≡ last_before anchors index
  unfolding seconds_loop
  seconds_loop_lem zero low high best order inside fuel before after e =
      met low high best order inside (omega arith) before after e
  seconds_loop_lem (suc fuel) low high best order inside enough before after e =
      elim (Bool-cases (ltb low high)) [
        | inr stop ↦
            rw (stop, seconds_loop) (met low high best order inside (ground arith) before after e)
        | inl going ↦
            (let more : low < high = ground arith in
              let (a, found) = get_elem?-inside anchors ((low + high - 1) / 2) (omega arith) in
              elim (Bool-cases (leb a.char_index index)) [
                | inl left ↦
                    rw (going, found, left, seconds_loop)
                      (seconds_loop_lem fuel (suc ((low + high - 1) / 2)) high (some a.millis)
                        (omega arith) inside (omega arith)
                        (take_before index ((low + high - 1) / 2) anchors a sorted found
                          (ground arith))
                        after (sym (ap seconds_of found)))
                | inr right ↦
                    rw (going, found, right, seconds_loop)
                      (seconds_loop_lem fuel low ((low + high - 1) / 2) best (omega arith)
                        (omega arith) (omega arith) before
                        (drop-After index ((low + high - 1) / 2) anchors a sorted found
                          (ground arith))
                        e)
              ])
      ]

-- For anchors in the order of their positions, the binary search ends and gives the seconds of the
-- last anchor at or before the position, none where there is none: what a walk along the anchors
-- gives.
pub seconds_at-last_before :
    (anchors : List Anchor) (index : ℕ)
    → IsSorted anchors
    → seconds_at anchors index ≡ last_before anchors index
unfolding seconds_at
seconds_at-last_before anchors index sorted =
    seconds_loop_lem index anchors sorted (length anchors) 0 (length anchors) none (omega arith)
      (omega arith) (omega arith) tt (subst (After index) (sym (drop_all anchors)) tt) refl
