-- ===== src/Scoring/Grounded.antt =====
-- That what `validate` of apps/scoring/recommendations.py keeps is grounded.
use mathlib.Core.Option.{some-injective}
use mathlib.Core.List.{Memᴰ}
use trend_engine_backend.Base.{
  ℕ, suc, ◌≤◌, ◌≡◌, refl, sym, ap, ◌∙◌, subst, true, false, not, ◌&&◌, ◌||◌, some, List, [], ◌∷◌,
  ◌++◌, length, any, any-append, any-append_right, mem_nat, distinct, filter, take, ◌==◌, ==_iff,
  ==_refl, Text, eq_text, is_empty, lower, strip, ok, ok-injective, All, arith, Bool-cases,
  Option-cases, inl, inr, All-filter, All-map, All-append, All-filter_of, All-snoc, length-take-le,
}
use trend_engine_backend.Scoring.Recommend.{
  Action, Content, Validation, Grounds, owners, owner_or_brand, kept_of, keep_action, keep_actions,
  canonical_name, keep_products, cite_actions, max_actions, validated, validate,
}

abbrev pub AllIn : List ℕ → List ℕ → Type 0
AllIn allowed ids = All (λ i. mem_nat i allowed ≡ true) ids

-- An action says something, is one of the known owners', and rests on evidence of the signal, some of
-- it.
abbrev pub IsGroundedAction : Grounds → Action → Type 0
IsGroundedAction g a =
    (is_empty a.action ≡ false)
    × (any (λ o. eq_text o a.owner) owners ≡ true)
    × AllIn g.claim_ids a.claim_ids
    × AllIn g.observation_ids a.observation_ids
    × ((is_empty a.claim_ids && is_empty a.observation_ids) ≡ false)

-- What a recommendation may say: why it matters, between one and four grounded actions, products of the
-- client's own, and claims of the signal, all those of its actions among them.
abbrev pub IsGrounded : Grounds → Content → Type 0
IsGrounded g c =
    (is_empty c.why_it_matters ≡ false)
    × (is_empty c.actions ≡ false)
    × (length c.actions ≤ max_actions)
    × All (IsGroundedAction g) c.actions
    × All (λ p. Memᴰ p g.product_names) c.products
    × AllIn g.claim_ids c.cited_claim_ids
    × All (λ a. AllIn c.cited_claim_ids a.claim_ids) c.actions

owner-known : (s : Text) → any (λ o. eq_text o (owner_or_brand s)) owners ≡ true
owner-known s = elim (Bool-cases (any (λ o. eq_text o s) owners)) [
  | inl e ↦ rw (e, owner_or_brand) e
  | inr e ↦ rw (e, owner_or_brand) refl
]

module _ (g : Grounds) where
  keep_action-IsGrounded :
      (a : Action) (rest : List Action) (v : Validation)
      → All (IsGroundedAction g) rest
      → All (IsGroundedAction g) (keep_action g a (rest, v)).0
  keep_action-IsGrounded a rest v h =
      let kept = kept_of g.claim_ids a.claim_ids in
      let kept_obs = kept_of g.observation_ids a.observation_ids in
      elim (Bool-cases ((is_empty kept && is_empty kept_obs) || is_empty (strip a.action))) [
        | inl e ↦ rw (e, keep_action) h
        | inr e ↦
            rw (e, keep_action)
              (
                (
                  ground arith,
                  owner-known (strip a.owner),
                  All-filter (λ i. mem_nat i g.claim_ids) (distinct a.claim_ids),
                  All-filter (λ i. mem_nat i g.observation_ids) (distinct a.observation_ids),
                  ground arith,
                ),
                h,
              )
      ]

  keep_actions-IsGrounded : (as' : List Action) → All (IsGroundedAction g) (keep_actions g as').0
  keep_actions-IsGrounded [] = tt
  keep_actions-IsGrounded (a ∷ as') =
      keep_action-IsGrounded a (keep_actions g as').0 (keep_actions g as').1
        (keep_actions-IsGrounded as')

  keep_action-length :
      (a : Action) (rest : List Action) (v : Validation)
      → length (keep_action g a (rest, v)).0 ≤ suc (length rest)
  keep_action-length a rest v =
      elim (Bool-cases (
        (is_empty (kept_of g.claim_ids a.claim_ids)
          && is_empty (kept_of g.observation_ids a.observation_ids))
        || is_empty (strip a.action))) [
          | inl e ↦ rw (e, keep_action) (omega arith)
          | inr e ↦ rw (e, keep_action) (omega arith)
        ]

  keep_actions-length : (as' : List Action) → length (keep_actions g as').0 ≤ length as'
  keep_actions-length [] = omega arith
  keep_actions-length (a ∷ as') = omega (
    arith,
    keep_action-length a (keep_actions g as').0 (keep_actions g as').1,
    keep_actions-length as',
  )

mem-canonical_name :
    (names : List Text) (name m : Text) → canonical_name names name ≡ some m → Memᴰ m names
mem-canonical_name [] name m h = cc
mem-canonical_name (n ∷ ns) name m h = elim (Option-cases (canonical_name ns name)) [
  | inr (k, e) ↦ Memᴰ.tail (mem-canonical_name ns name m (e ∙ rw e at h))
  | inl e ↦ elim (Bool-cases (eq_text (lower n) name)) [
    | inl same ↦ (let h' = rw (e, same) at h in Memᴰ.head (sym (some-injective n m h')))
    | inr other ↦ (let h' = rw (e, other) at h in cc)
  ]
]

keep_products-mem :
    (names ps : List Text) (products unknown : List Text)
    → All (λ p. Memᴰ p names) products
    → All (λ p. Memᴰ p names) (keep_products names ps (products, unknown)).0
keep_products-mem names [] products unknown h = h
keep_products-mem names (p ∷ ps) products unknown h =
    elim (Option-cases (canonical_name names (lower (strip p)))) [
      | inl e ↦ rw (e, keep_products) (keep_products-mem names ps products (unknown ++ p ∷ []) h)
      | inr (m, e) ↦ elim (Bool-cases (any (λ q. eq_text q m) products)) [
        | inl f ↦ rw (e, f, keep_products) (keep_products-mem names ps products unknown h)
        | inr f ↦
            rw (e, f, keep_products)
              (keep_products-mem names ps (products ++ m ∷ []) unknown (
                All-snoc (λ q. Memᴰ q names) products m h
                  (mem-canonical_name names (lower (strip p)) m e)))
      ]
    ]

cite_actions-AllIn :
    (allowed : List ℕ) (as' : List Action) (cited : List ℕ)
    → AllIn allowed cited
    → All (λ a. AllIn allowed a.claim_ids) as'
    → AllIn allowed (cite_actions as' cited)
cite_actions-AllIn allowed [] cited h hs = h
cite_actions-AllIn allowed (a ∷ as') cited h (k, ks) =
    cite_actions-AllIn allowed as' (cited ++ filter (λ i. not (mem_nat i cited)) a.claim_ids)
      (All-append (λ i. mem_nat i allowed ≡ true) cited
        (filter (λ i. not (mem_nat i cited)) a.claim_ids) h
        (All-filter_of (λ i. mem_nat i allowed ≡ true) (λ i. not (mem_nat i cited)) a.claim_ids k))
      ks

cite_actions-keeps :
    (as' : List Action) (cited : List ℕ) (i : ℕ)
    → mem_nat i cited ≡ true
    → mem_nat i (cite_actions as' cited) ≡ true
cite_actions-keeps [] cited i h = h
cite_actions-keeps (a ∷ as') cited i h =
    cite_actions-keeps as' (cited ++ filter (λ j. not (mem_nat j cited)) a.claim_ids) i
      (any-append (λ m. m == i) cited (filter (λ j. not (mem_nat j cited)) a.claim_ids) h)

mem-filter_new :
    (cited ids : List ℕ) (i : ℕ)
    → mem_nat i cited ≡ false
    → mem_nat i ids ≡ true
    → mem_nat i (filter (λ j. not (mem_nat j cited)) ids) ≡ true
mem-filter_new cited [] i new h = cc
mem-filter_new cited (j ∷ js) i new h = elim (Bool-cases (j == i)) [
  | inl e ↦
      (let same : i ≡ j = ground (arith, ==_iff j i) in
        let new' : mem_nat j cited ≡ false = subst (λ k. mem_nat k cited ≡ false) same new in
        rw (new', e) refl)
  | inr e ↦
      (let rest = mem-filter_new cited js i new (rw e at h) in
        elim (Bool-cases (mem_nat j cited)) [ inl f ↦ rw f rest | inr f ↦ rw (f, e) rest ])
]

-- What is cited, with the numbers of a list that are not, has all of the list.
cited_one :
    (cited ids : List ℕ) (i : ℕ)
    → mem_nat i ids ≡ true
    → mem_nat i (cited ++ filter (λ j. not (mem_nat j cited)) ids) ≡ true
cited_one cited ids i h = elim (Bool-cases (mem_nat i cited)) [
  | inl e ↦ any-append (λ m. m == i) cited (filter (λ j. not (mem_nat j cited)) ids) e
  | inr e ↦
      any-append_right (λ m. m == i) cited (filter (λ j. not (mem_nat j cited)) ids)
        (mem-filter_new cited ids i e h)
]

AllIn-each :
    (allowed ids : List ℕ)
    → ((i : ℕ) → mem_nat i ids ≡ true → mem_nat i allowed ≡ true)
    → AllIn allowed ids
AllIn-each allowed [] h = tt
AllIn-each allowed (i ∷ ids) h =
    (h i (ground (arith, ==_refl i)), AllIn-each allowed ids (λ j m. h j (ground arith)))

cite_actions-each :
    (as' : List Action) (cited : List ℕ) → All (λ a. AllIn (cite_actions as' cited) a.claim_ids) as'
cite_actions-each [] cited = tt
cite_actions-each (a ∷ as') cited =
    let now = cited ++ filter (λ j. not (mem_nat j cited)) a.claim_ids in
    (
      AllIn-each (cite_actions as' now) a.claim_ids
          (λ i m. cite_actions-keeps as' now i (cited_one cited a.claim_ids i m)),
      cite_actions-each as' now,
    )

validated-IsGrounded :
    (g : Grounds) (raw content : Content) (v : Validation) (kept : List Action × Validation)
    (found : List Text × List Text)
    → All (IsGroundedAction g) kept.0
    → length kept.0 ≤ max_actions
    → All (λ p. Memᴰ p g.product_names) found.0
    → validated g raw kept found ≡ ok (content, v)
    → IsGrounded g content
validated-IsGrounded g raw content v ([], v0) found acts few prods e = cc
validated-IsGrounded g raw content v (a ∷ as', v0) (products, unknown) acts few prods e =
    elim (Bool-cases (is_empty (strip raw.why_it_matters))) [
      | inl f ↦ (let e' = rw (f, validated) at e in cc)
      | inr f ↦
          (let cited = kept_of g.claim_ids raw.cited_claim_ids in
            let same = ok-injective _ (content, v) (rw (f, validated) at e) in
            subst (IsGrounded g) (ap (λ p. p.0) same) (
              f,
              refl,
              few,
              acts,
              prods,
              cite_actions-AllIn g.claim_ids (a ∷ as') cited
                  (All-filter (λ i. mem_nat i g.claim_ids) (distinct raw.cited_claim_ids))
                  (All-map (IsGroundedAction g) (λ b. AllIn g.claim_ids b.claim_ids) (a ∷ as')
                    (λ b h. h.2) acts),
              cite_actions-each (a ∷ as') cited,
            ))
    ]

-- Whatever a model or an operator proposes, what the validation lets through is grounded: it says why it
-- matters, has between one and four actions, each with an owner of the list and evidence of the signal
-- behind it, names products of the client's profile only, and cites claims of the signal only, those of
-- its actions among them.
pub validate-IsGrounded :
    (g : Grounds) (raw content : Content) (v : Validation)
    → validate g raw ≡ ok (content, v)
    → IsGrounded g content
unfolding validate
validate-IsGrounded g raw content v e =
    let four = length-take-le max_actions raw.actions in
    let fewer = keep_actions-length g (take max_actions raw.actions) in
    validated-IsGrounded g raw content v (keep_actions g (take max_actions raw.actions))
      (keep_products g.product_names raw.products ([], []))
      (keep_actions-IsGrounded g (take max_actions raw.actions)) (omega arith)
      (keep_products-mem g.product_names raw.products [] [] tt) e
