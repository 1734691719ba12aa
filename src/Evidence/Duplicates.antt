-- ===== src/Evidence/Duplicates.antt =====
-- apps/evidence/services/duplicates.py: one conversation, published more than once. Python's `hash` is an
-- argument; quotients are compared exactly; the reasons are not kept.
use trend_engine_backend.Base.{
  ℕ, zero, suc, ◌+◌, ◌-◌, ◌*◌, max, Bool, true, false, not, ◌&&◌, ◌||◌, Option, none, some, List,
  [], ◌∷◌, map, length, take, any, filter, find?, update_where, mem_nat, distinct, ltb, leb, ◌==◌,
  if◌then◌else◌, Text, eq_text, is_empty, is_digit, is_lower, lower,
}
use trend_engine_backend.Evidence.Items.{
  DuplicateStatus, confirmed, suspected, ContentItem, is_duplicate, is_confirmed,
}
use trend_engine_backend.Evidence.Rungs.{duration_seconds}

-- `[a-z0-9']`
abbrev is_word_char : ℕ → Bool
is_word_char c = is_digit c || (is_lower c || (c == 39))

-- A character in front of the first run, which is a new one where the text goes on otherwise.
abbrev onto_run : ℕ → Text → List Text → List Text
onto_run x [] runs = (x ∷ []) ∷ runs
onto_run x (y ∷ ys) [] = (x ∷ []) ∷ []
onto_run x (y ∷ ys) (run ∷ runs) =
    if is_word_char y then (x ∷ run) ∷ runs else (x ∷ []) ∷ run ∷ runs

-- `_WORD.findall`
abbrev pub find_words : Text → List Text
find_words [] = []
find_words (x ∷ xs) =
    let rest = find_words xs in if is_word_char x then onto_run x xs rest else rest

-- `words[i:i + size] for i in range(len(words) - size + 1)`
abbrev pub windows : ℕ → List Text → List (List Text)
windows size [] = []
windows size (w ∷ ws) =
    let rest = windows size ws in
    if ltb (length (w ∷ ws)) size then [] else take size (w ∷ ws) ∷ rest

-- `SHINGLE_WORDS`, `MAX_WORDS` and `MIN_SHINGLES`
abbrev pub shingle_words : ℕ
shingle_words = 5

abbrev pub max_words : ℕ
max_words = 20000

abbrev pub min_shingles : ℕ
min_shingles = 50

-- `WINDOW`, in seconds.
abbrev pub window_seconds : ℕ
window_seconds = 1209600

abbrev pub common : List ℕ → List ℕ → ℕ
common a b = length (filter (λ n. mem_nat n b) a)

-- `containment`, as a fraction.
abbrev pub containment : List ℕ → List ℕ → ℕ × ℕ
containment a b =
    if is_empty a || is_empty b
    then (0, 1)
    else if leb (length a) (length b)
    then (common a b, length a)
    else (common b a, length b)

abbrev mem_text : Text → List Text → Bool
mem_text t = any (λ u. eq_text u t)

abbrev distinct_texts : List Text → List Text
distinct_texts [] = []
distinct_texts (t ∷ ts) = let rest = distinct_texts ts in if mem_text t ts then rest else t ∷ rest

-- `title_similarity`, as a fraction.
unfoldable pub title_similarity : Text → Text → ℕ × ℕ
title_similarity a b =
    let left = distinct_texts (find_words (lower a)) in
    let right = distinct_texts (find_words (lower b)) in
    let both = length (filter (λ t. mem_text t right) left) in
    if is_empty left || is_empty right then (0, 1) else (both, length left + length right - both)

-- `p < q` of two fractions.
abbrev pub below : ℕ × ℕ → ℕ × ℕ → Bool
below (a, b) (c, d) = ltb (a * d) (c * b)

-- `Match`: the other item, the one that stays canonical, and whether the match is confirmed.
pub record Match : Type 0 where
  pub other_id : ℕ
  pub keep_id : ℕ
  pub overlap : ℕ × ℕ
  pub status : DuplicateStatus

abbrev pub text_of : ContentItem → Text
text_of item = elim item.transcript [ none ↦ [] | some t ↦ t.text ]

abbrev agree : Option ℕ → Option ℕ → Bool
agree (some (suc a)) (some (suc b)) =
    leb (20 * (suc a - suc b + (suc b - suc a))) (max (suc a) (suc b))
agree a b = false

-- `_durations_agree`
unfoldable pub durations_agree : ContentItem → ContentItem → Bool
durations_agree a b = agree (duration_seconds a) (duration_seconds b)

-- `_date`
abbrev pub date_of : ContentItem → ℕ
date_of item = elim item.published_at [ none ↦ item.discovered_at | some t ↦ t ]

abbrev near : ℕ → ℕ → Bool
near a b = leb a (b + window_seconds) && leb b (a + window_seconds)

-- `_candidates`: the other items within the window, in the order of the query.
abbrev pub is_candidate : ContentItem → ContentItem → Bool
is_candidate item other = not (other.pk == item.pk) && near (date_of item) (date_of other)

abbrev pub better : Option Match → Match → Option Match
better none m = some m
better (some best) m = if below best.overlap m.overlap then some m else some best

abbrev pub confirmed_by : ContentItem → List ℕ → ContentItem → List ℕ → Option Match
confirmed_by item mine other theirs =
    if ltb (length theirs) min_shingles || below (containment mine theirs) (3, 5)
    then none
    else some (record {
      other_id = other.pk;
      keep_id = if leb (length mine) (length theirs) then other.pk else item.pk;
      overlap = containment mine theirs;
      status = confirmed;
    })

module _ (hash : List Text → ℕ) where
  -- `shingles`
  unfoldable pub shingles : Text → List ℕ
  shingles text =
      distinct (map hash (windows shingle_words (take max_words (find_words (lower text)))))

  -- The match with an item whose transcript can be compared.
  abbrev pub confirmed_match : ContentItem → List ℕ → ContentItem → Option Match
  confirmed_match item mine other =
      if is_empty (text_of other)
      then none
      else confirmed_by item mine other (shingles (text_of other))

  abbrev pub suspected_match : ContentItem → ContentItem → Option Match
  suspected_match item other =
      if below (title_similarity item.title other.title) (3, 5) || not (durations_agree item other)
      then none
      else some (record {
        other_id = other.pk;
        keep_id = other.pk;
        overlap = title_similarity item.title other.title;
        status = suspected;
      })

  -- One turn of the loop of `find`.
  abbrev pub match_with : ContentItem → List ℕ → ContentItem → Option Match
  match_with item mine other =
      if leb min_shingles (length mine)
      then confirmed_match item mine other
      else if is_empty (text_of item)
      then suspected_match item other
      else none

  abbrev pub or_better : Option Match → Option Match → Option Match
  or_better best none = best
  or_better best (some m) = better best m

  abbrev pub best_match : ContentItem → List ℕ → List ContentItem → Option Match → Option Match
  best_match item mine [] best = best
  best_match item mine (o ∷ os) best =
      best_match item mine os (or_better best (match_with item mine o))

  abbrev pub mine_of : Text → List ℕ
  mine_of text = if is_empty text then [] else shingles text

  -- `find`
  unfoldable pub find_match : ContentItem → List ContentItem → Option Match
  find_match item items =
      best_match item (mine_of (text_of item)) (filter (is_candidate item) items) none

abbrev pub item_with : ℕ → List ContentItem → Option ContentItem
item_with pk = find? (λ i. i.pk == pk)

-- `canonical`: the keys that were seen guard the loop, so that it turns at most once for each item.
abbrev pub canonical_from : ℕ → List ℕ → List ContentItem → ContentItem → ContentItem
canonical_from zero seen items item = item
canonical_from (suc fuel) seen items item =
    elim (is_confirmed item.duplicate_status && not (mem_nat item.pk seen)) [
      | false ↦ item
      | true ↦ elim item.duplicate_of [
        | none ↦ item
        | some root ↦ elim (item_with root items) [
          | none ↦ item
          | some next ↦ canonical_from fuel (item.pk ∷ seen) items next
        ]
      ]
    ]

abbrev pub canonical : List ContentItem → ContentItem → ContentItem
canonical items item = canonical_from (suc (length items)) [] items item

abbrev pub marked_as : ℕ → Match → ContentItem → ContentItem
marked_as root m item = record item {
  duplicate_of = some root;
  duplicate_status = m.status;
  duplicate_overlap = some m.overlap;
}

-- `_mark`
abbrev pub mark : ContentItem → ContentItem → Match → List ContentItem → List ContentItem
mark duplicate keep m items =
    let root = if is_confirmed m.status then (canonical items keep).pk else keep.pk in
    update_where (λ i. i.pk == duplicate.pk) (marked_as root m) items

abbrev pub points_to : ℕ → ContentItem → Bool
points_to pk item =
    is_confirmed item.duplicate_status && elim item.duplicate_of [ none ↦ false | some k ↦ k == pk ]

abbrev pub pointed_at : ℕ → ContentItem → ContentItem
pointed_at keep item = record item { duplicate_of = some keep }

abbrev pub record_confirmed :
    ContentItem → ContentItem → Match → List ContentItem → List ContentItem
record_confirmed duplicate keep m items =
    update_where (points_to duplicate.pk) (pointed_at keep.pk) (mark duplicate keep m items)

abbrev pub record_match :
    ContentItem → Match → Option ContentItem → List ContentItem → List ContentItem
record_match item m none items = items
record_match item m (some other) items =
    if not (is_confirmed m.status)
    then mark item other m items
    else if m.keep_id == other.pk
    then record_confirmed item other m items
    else record_confirmed other item m items

abbrev pub with_match : ContentItem → Option Match → List ContentItem → List ContentItem
with_match item none items = items
with_match item (some m) items = record_match item m (item_with m.other_id items) items

-- `check`: what it leaves in the table of items.
unfoldable pub check : (List Text → ℕ) → ContentItem → List ContentItem → List ContentItem
unfolding find_match
check hash item items =
    if is_duplicate item then items else with_match item (find_match hash item items) items
