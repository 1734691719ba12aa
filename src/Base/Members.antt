-- ===== src/Base/Members.antt =====
-- What the Boolean filters and searches select.
use mathlib.Core.Path.{◌≡◌, sym, ap, ◌∙◌}
use mathlib.Core.Logic.{◌↔◌, inl, inr}
use mathlib.Core.Bool.{Bool, true}
use mathlib.Core.Option.{some}
use mathlib.Core.List.Memᴰ
use mathlib.Core.List.{List, [], ◌∷◌, Memᴰ}
use native.Mathlib.Omega.{arith}
use trend_engine_backend.Base.Tests.{if◌then◌else◌, Bool-cases}
use trend_engine_backend.Base.Lists.{filter, find?}

module _ {ℓ} {A : Type ℓ} (p : A → Bool) where
  filter_sound : (x : A) (ys : List A) → Memᴰ x (filter p ys) → Memᴰ x ys × (p x ≡ true)
  filter_sound x [] m = absurd (Memᴰ.not-nil m)
  filter_sound x (y ∷ ys) m = elim (Bool-cases (p y)) [
    | inl e ↦ elim (Memᴰ.cases_cons (rw e at m)) [
      | inl q ↦ (Memᴰ.head q, ap p q ∙ e)
      | inr t ↦ (let (below, passes) = filter_sound x ys t in (Memᴰ.tail below, passes))
    ]
    | inr e ↦ (let (below, passes) = filter_sound x ys (rw e at m) in (Memᴰ.tail below, passes))
  ]

  filter_complete : (x : A) (ys : List A) → Memᴰ x ys → p x ≡ true → Memᴰ x (filter p ys)
  filter_complete x [] m h = absurd (Memᴰ.not-nil m)
  filter_complete x (y ∷ ys) m h = elim (Memᴰ.cases_cons m) [
    | inl q ↦ rw ((ap p (sym q) ∙ h), if◌then◌else◌) (Memᴰ.head q)
    | inr t ↦ elim (Bool-cases (p y)) [
      | inl e ↦ rw e (Memᴰ.tail (filter_complete x ys t h))
      | inr e ↦ rw e (filter_complete x ys t h)
    ]
  ]

  -- A filter selects the members that pass its test, and no others.
  pub mem-filter : (x : A) (ys : List A) → Memᴰ x (filter p ys) ↔ (Memᴰ x ys × (p x ≡ true))
  mem-filter x ys = (filter_sound x ys, λ m. filter_complete x ys m.0 m.1)

  -- A search that succeeds has found a member that passes its test.
  pub find?-eq-some : (x : A) (ys : List A) → find? p ys ≡ some x → Memᴰ x ys × (p x ≡ true)
  find?-eq-some x [] h = cc
  find?-eq-some x (y ∷ ys) h = elim (Bool-cases (p y)) [
    | inl e ↦ (let q : y ≡ x = ground arith in (Memᴰ.head (sym q), ap p (sym q) ∙ e))
    | inr e ↦ (let (m, passes) = find?-eq-some x ys (rw e at h) in (Memᴰ.tail m, passes))
  ]
