-- ===== src/Base/Counts.antt =====
-- Counting the rows that pass a test, through updates and insertions; members of an updated list.
use mathlib.Core.List.Memᴰ
use mathlib.Core.List.{List, [], ◌∷◌, ◌++◌, Memᴰ}
use mathlib.Core.Path.{◌≡◌, refl}
use mathlib.Core.Logic.{◌⊎◌, inl, inr}
use mathlib.Core.Bool.{Bool, true, false}
use Prim.Native.Nat.{◌+◌, ◌≤◌}
use native.Mathlib.Omega.{arith}
use trend_engine_backend.Base.Tests.{if◌then◌else◌}
use trend_engine_backend.Base.Lists.{any, count_of, filter, update_where}

module _ {ℓ} {A : Type ℓ} (p : A → Bool) where
  pub count_of-append : (xs ys : List A) → count_of p (xs ++ ys) ≡ count_of p xs + count_of p ys
  count_of-append [] ys = omega arith
  count_of-append (x ∷ xs) ys = omega (arith, count_of-append xs ys)

  pub count_of-eq-zero : (xs : List A) → any p xs ≡ false → count_of p xs ≡ 0
  count_of-eq-zero [] h = refl
  count_of-eq-zero (x ∷ xs) h = ground (arith, count_of-eq-zero xs)

  -- An update that makes no row pass which did not pass before.
  pub count_of-update_where-le :
      (q : A → Bool) (f : A → A) (xs : List A)
      → ((x : A) → q x ≡ true → p (f x) ≡ true → p x ≡ true)
      → count_of p (update_where q f xs) ≤ count_of p xs
  count_of-update_where-le q f [] h = omega arith
  count_of-update_where-le q f (x ∷ xs) h = ground (arith, h x, count_of-update_where-le q f xs h)

  pub any-filter : (q : A → Bool) (xs : List A) → any p (filter q xs) ≡ true → any p xs ≡ true
  any-filter q [] h = cc
  any-filter q (x ∷ xs) h = ground (arith, any-filter q xs)

  pub any-append : (xs ys : List A) → any p xs ≡ true → any p (xs ++ ys) ≡ true
  any-append [] ys h = cc
  any-append (x ∷ xs) ys h = ground (arith, any-append xs ys)

  pub any-append_right : (xs ys : List A) → any p ys ≡ true → any p (xs ++ ys) ≡ true
  any-append_right [] ys h = h
  any-append_right (x ∷ xs) ys h = ground (arith, any-append_right xs ys h)

  pub any-false_mem : (x : A) (xs : List A) → Memᴰ x xs → any p xs ≡ false → p x ≡ false
  any-false_mem x [] m h = absurd (Memᴰ.not-nil m)
  any-false_mem x (y ∷ ys) m h = elim (Memᴰ.cases_cons m) [
    | inl e ↦ rw e (ground arith)
    | inr t ↦ any-false_mem x ys t (ground arith)
  ]

  pub any_of_mem : (x : A) (xs : List A) → Memᴰ x xs → p x ≡ true → any p xs ≡ true
  any_of_mem x [] m h = absurd (Memᴰ.not-nil m)
  any_of_mem x (y ∷ ys) m h = elim (Memᴰ.cases_cons m) [
    | inl e ↦ (let e' : p y ≡ true = rw (← e) h in ground arith)
    | inr t ↦ ground (arith, any_of_mem x ys t h)
  ]

module _ {ℓ} {A : Type ℓ} where
  -- A member of an updated list comes from a member of the list.
  pub mem-update_where :
      (q : A → Bool) (f : A → A) (y : A) (xs : List A)
      → Memᴰ y (update_where q f xs)
      → (x : A) × Memᴰ x xs × (y ≡ (if q x then f x else x))
  mem-update_where q f y [] m = absurd (Memᴰ.not-nil m)
  mem-update_where q f y (x ∷ xs) m = elim (Memᴰ.cases_cons m) [
    | inl e ↦ (x, Memᴰ.head refl, e)
    | inr t ↦ (let (z, below, e) = mem-update_where q f y xs t in (z, Memᴰ.tail below, e))
  ]

  pub mem-append_one : (x y : A) (xs : List A) → Memᴰ x (xs ++ y ∷ []) → (Memᴰ x xs) ⊎ (x ≡ y)
  mem-append_one x y [] m = elim (Memᴰ.cases_cons m) [
    | inl e ↦ inr e
    | inr t ↦ absurd (Memᴰ.not-nil t)
  ]
  mem-append_one x y (z ∷ zs) m = elim (Memᴰ.cases_cons m) [
    | inl e ↦ inl (Memᴰ.head e)
    | inr t ↦ elim (mem-append_one x y zs t) [ inl below ↦ inl (Memᴰ.tail below) | inr e ↦ inr e ]
  ]

module _ {ℓ} {A : Type ℓ} (p q : A → Bool) (f : A → A) where
  -- An update that makes rows fail, and one that passed before among them.
  pub count_of-update_where-lt :
      (x : A) (xs : List A)
      → ((y : A) → q y ≡ true → p (f y) ≡ false)
      → Memᴰ x xs
      → q x ≡ true
      → p x ≡ true
      → count_of p (update_where q f xs) + 1 ≤ count_of p xs
  count_of-update_where-lt x [] fails m hq hp = absurd (Memᴰ.not-nil m)
  count_of-update_where-lt x (y ∷ ys) fails m hq hp = elim (Memᴰ.cases_cons m) [
    | inl e ↦
        (let hq' : q y ≡ true = rw (← e) hq in
          let hp' : p y ≡ true = rw (← e) hp in
          ground (
            arith,
            fails y,
            count_of-update_where-le p q f ys (λ z hz e'. ground (arith, fails z)),
          ))
    | inr t ↦ ground (arith, fails y, count_of-update_where-lt x ys fails t hq hp)
  ]
