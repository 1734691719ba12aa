-- ===== src/Evidence/Matched.antt =====
-- What `find` and `check` of apps/evidence/services/duplicates.py decide.
use trend_engine_backend.Base.{
  ℕ, suc, ◌≤◌, ◌<◌, ◌≡◌, refl, sym, ap, ◌∙◌, subst, Bool, true, false, Option, none, some, List, [],
  ◌∷◌, All, length, filter, mem_nat, update_where, ltb, leb, ◌==◌, ==_refl, Text, is_empty, arith,
}
use trend_engine_backend.Evidence.Items.{
  not_duplicate, confirmed, ContentItem, is_duplicate, is_confirmed,
}
use trend_engine_backend.Evidence.Duplicates.{
  Match, text_of, is_candidate, min_shingles, common, containment, below, shingles, confirmed_by,
  confirmed_match, match_with, or_better, best_match, find_match, points_to, mine_of, item_with,
  canonical_from, canonical, mark, record_confirmed, record_match, with_match, check,
}

filter_all :
    (p : ℕ → Bool) (ns : List ℕ) → ((n : ℕ) → mem_nat n ns ≡ true → p n ≡ true) → filter p ns ≡ ns
filter_all p [] h = refl
filter_all p (n ∷ ns) h =
    let this = h n (ground (arith, ==_refl n)) in
    rw this (ap (◌∷◌ n) (filter_all p ns (λ m k. h m (ground arith))))

common_self : (ns : List ℕ) → common ns ns ≡ length ns
common_self ns = ap length (filter_all (λ n. mem_nat n ns) ns (λ n h. h))

containment_self : (ns : List ℕ) → is_empty ns ≡ false → containment ns ns ≡ (length ns, length ns)
containment_self [] h = cc
containment_self (n ∷ ns) h =
    let same : leb (length (n ∷ ns)) (length (n ∷ ns)) ≡ true = ground arith in
    rw same (ap (λ k. (k, length (n ∷ ns))) (common_self (n ∷ ns)))

nonempty : (ns : List ℕ) → 0 < length ns → is_empty ns ≡ false
nonempty [] h = absurd (omega arith)
nonempty (n ∷ ns) h = refl

-- A transcript that is long enough, matched with itself.
self-match :
    (a b : ContentItem) (ns : List ℕ)
    → min_shingles ≤ length ns
    → confirmed_by a ns b ns
      ≡ some (record {
        other_id = b.pk;
        keep_id = b.pk;
        overlap = (length ns, length ns);
        status = confirmed;
      })
self-match a b ns h =
    let long_enough : ltb (length ns) min_shingles ≡ false = ground arith in
    let all_of_it : below (length ns, length ns) (3, 5) ≡ false = ground arith in
    let as_long : leb (length ns) (length ns) ≡ true = ground arith in
    rw (containment_self ns (nonempty ns (omega arith)), long_enough, all_of_it, as_long) refl

canonical_stop :
    (fuel : ℕ) (seen : List ℕ) (items : List ContentItem) (item : ContentItem)
    → is_confirmed item.duplicate_status ≡ false
    → canonical_from (suc fuel) seen items item ≡ item
canonical_stop fuel seen items item h = rw (h, canonical_from) refl

canonical_step :
    (fuel : ℕ) (seen : List ℕ) (items : List ContentItem) (item next : ContentItem)
    (root : Option ℕ) (pk : ℕ)
    → is_confirmed item.duplicate_status ≡ true
    → mem_nat item.pk seen ≡ false
    → item.duplicate_of ≡ some pk
    → item_with pk items ≡ some next
    → canonical_from (suc fuel) seen items item ≡ canonical_from fuel (item.pk ∷ seen) items next
canonical_step fuel seen items item next root pk c new points there =
    rw (c, new, canonical_from) (simp points (rw there refl))

update_first :
    {A : Type 0} (q : A → Bool) (f : A → A) (x y : A)
    → q x ≡ true
    → q y ≡ false
    → update_where q f (x ∷ y ∷ []) ≡ f x ∷ y ∷ []
update_first q f x y hx hy = rw (hx, hy) refl

update_both :
    {A : Type 0} (q : A → Bool) (f : A → A) (x y : A)
    → q x ≡ true
    → q y ≡ true
    → update_where q f (x ∷ y ∷ []) ≡ f x ∷ f y ∷ []
update_both q f x y hx hy = rw (hx, hy) refl

filter_second :
    {A : Type 0} (q : A → Bool) (x y : A)
    → q x ≡ false
    → q y ≡ true
    → filter q (x ∷ y ∷ []) ≡ y ∷ []
filter_second q x y hx hy = rw (hx, hy) refl

points_to_lem :
    (pk : ℕ) (item : ContentItem)
    → is_confirmed item.duplicate_status ≡ true
    → item.duplicate_of ≡ some pk
    → points_to pk item ≡ true
points_to_lem pk item c points = rw (c, points_to) (simp points (rw (==_refl pk) refl))

module _ (hash : List Text → ℕ) (a b : ContentItem) (apart : (b.pk == a.pk) ≡ false)
    (apart' : (a.pk == b.pk) ≡ false) (is_root : a.duplicate_status ≡ not_duplicate)
    (is_copy : b.duplicate_status ≡ confirmed) (of_root : b.duplicate_of ≡ some a.pk)
    (same_text : text_of b ≡ text_of a) (has_text : is_empty (text_of a) ≡ false)
    (is_long : min_shingles ≤ length (shingles hash (text_of a)))
    (is_near : is_candidate a b ≡ true) where
  abbrev found : Match
  found = record {
    other_id = b.pk;
    keep_id = b.pk;
    overlap = (length (shingles hash (text_of a)), length (shingles hash (text_of a)));
    status = confirmed;
  }

  matches : match_with hash a (shingles hash (text_of a)) b ≡ some found
  matches =
      let long_enough : leb min_shingles (length (shingles hash (text_of a))) ≡ true =
        ground arith in
      let has_words : is_empty (text_of b) ≡ false = ap is_empty same_text ∙ has_text in
      rw (long_enough, match_with)
        (rw (has_words, confirmed_match)
          (ap (λ t. confirmed_by a (shingles hash (text_of a)) b (shingles hash t)) same_text
            ∙ self-match a b (shingles hash (text_of a)) is_long))

  pair-match : find_match hash a (a ∷ b ∷ []) ≡ some found
  unfolding find_match
  pair-match =
      let not_itself : is_candidate a a ≡ false = rw (==_refl a.pk, is_candidate) refl in
      let mine : mine_of hash (text_of a) ≡ shingles hash (text_of a) =
        rw (has_text, mine_of) refl in
      ap (λ os. best_match hash a (mine_of hash (text_of a)) os none)
        (filter_second (is_candidate a) a b not_itself is_near)
      ∙ ap (λ ns. or_better hash none (match_with hash a ns b)) mine
      ∙ ap (or_better hash none) matches

  root-pk : (canonical (a ∷ b ∷ []) b).pk ≡ a.pk
  root-pk =
      let here : item_with a.pk (a ∷ b ∷ []) ≡ some a = rw (==_refl a.pk, item_with) refl in
      ap (λ i. i.pk)
        (canonical_step 2 [] (a ∷ b ∷ []) b a none a.pk (ap is_confirmed is_copy) refl of_root here
          ∙ canonical_stop 1 (b.pk ∷ []) (a ∷ b ∷ []) a (ap is_confirmed is_root))

  abbrev as_copy : ContentItem → ContentItem
  as_copy i = record i {
    duplicate_of = some (canonical (a ∷ b ∷ []) b).pk;
    duplicate_status = confirmed;
    duplicate_overlap = some found.overlap;
  }

  abbrev demoted : ContentItem
  demoted = as_copy a

  -- A confirmed duplicate of the second of the two.
  abbrev IsCopy : ContentItem → Type 0
  IsCopy i = (is_duplicate i ≡ true) × (i.duplicate_of ≡ some b.pk)

  lost : All IsCopy (record_confirmed a b found (a ∷ b ∷ []))
  lost =
      let f = λ (i : ContentItem). record i { duplicate_of = some b.pk } in
      let marked : mark a b found (a ∷ b ∷ []) ≡ demoted ∷ b ∷ [] =
        update_first (λ i. i.pk == a.pk) as_copy a b (==_refl a.pk) apart in
      let pointed : update_where (points_to a.pk) f (demoted ∷ b ∷ []) ≡ f demoted ∷ f b ∷ [] =
        update_both (points_to a.pk) f demoted b (points_to_lem a.pk demoted refl (ap some root-pk))
          (points_to_lem a.pk b (ap is_confirmed is_copy) of_root) in
      subst (All IsCopy) (sym (ap (update_where (points_to a.pk) f) marked ∙ pointed))
        ((refl, refl), ((rw (ap is_confirmed is_copy) refl, refl), tt))

  -- Of two items alone, a re-upload marked as the copy of the first, with transcripts of one text,
  -- long enough to compare, and dates within the window: checking the first one again leaves both
  -- confirmed duplicates of the second, the second a duplicate of itself.
  pub check-loses_both :
      All (λ i. (is_duplicate i ≡ true) × (i.duplicate_of ≡ some b.pk)) (check hash a (a ∷ b ∷ []))
  unfolding check
  check-loses_both =
      let fresh : is_duplicate a ≡ false = rw (ap is_confirmed is_root, is_duplicate) refl in
      let there : item_with b.pk (a ∷ b ∷ []) ≡ some b =
        rw (apart', ==_refl b.pk, item_with) refl in
      let kept : record_match a found (some b) (a ∷ b ∷ [])
          ≡ record_confirmed a b found (a ∷ b ∷ []) =
        rw (==_refl b.pk, record_match) refl in
      let run : check hash a (a ∷ b ∷ []) ≡ record_confirmed a b found (a ∷ b ∷ []) =
        rw (fresh, check)
          (ap (λ m. with_match a m (a ∷ b ∷ [])) pair-match
            ∙ ap (λ o. record_match a found o (a ∷ b ∷ [])) there
            ∙ kept) in
      subst (All IsCopy) (sym run) lost
