-- ===== src/Base/Words.antt =====
-- Words, joins and occurrences in a text: `s.split()`, `" ".join(parts)` and `needle in hay`.
use Prim.Native.Nat.{ℕ}
use mathlib.Core.Path.{◌≡◌, refl, ap, sym, ◌∙◌}
use mathlib.Core.Logic.{inl, inr}
use mathlib.Core.Bool.{Bool, true, ◌||◌, not}
use mathlib.Core.List.{List, [], ◌∷◌, ◌++◌}
use native.Mathlib.Omega.{arith}
use trend_engine_backend.Base.Tests.{if◌then◌else◌, Bool-cases}
use trend_engine_backend.Base.Lists.{filter}
use trend_engine_backend.Base.Strings.{
  Text, is_space, is_empty, lower, starts_with, lstrip, rstrip, strip,
}

-- A character in front of the first word, which is a new one where the text goes on with a space.
abbrev pub onto_word : ℕ → Text → List Text → List Text
onto_word x [] parts = (x ∷ []) ∷ parts
onto_word x (y ∷ ys) [] = (x ∷ []) ∷ []
onto_word x (y ∷ ys) (part ∷ parts) =
    if is_space y then (x ∷ []) ∷ part ∷ parts else (x ∷ part) ∷ parts

-- `s.split()`
abbrev pub words : Text → List Text
words [] = []
words (x ∷ xs) = let rest = words xs in if is_space x then rest else onto_word x xs rest

-- `sep.join(parts)`
abbrev pub join : Text → List Text → Text
join sep [] = []
join sep (part ∷ []) = part
join sep (part ∷ next ∷ parts) = part ++ (sep ++ join sep (next ∷ parts))

-- `needle in hay`
abbrev pub contains : Text → Text → Bool
contains needle [] = is_empty needle
contains needle (x ∷ xs) = starts_with needle (x ∷ xs) || contains needle xs

-- `" ".join(s.split()).casefold()`, for ASCII.
abbrev pub normalise : Text → Text
normalise s = lower (join (b' ' ∷ []) (words s))

pub starts_with_append : (p s : Text) → starts_with p s ≡ true → (rest : Text) × (s ≡ p ++ rest)
starts_with_append [] s h = (s, refl)
starts_with_append (p ∷ ps) [] h = cc
starts_with_append (p ∷ ps) (x ∷ xs) h =
    let (rest, e) = starts_with_append ps xs (ground arith) in
    let same : x ≡ p = ground arith in (rest, rw (same, e) refl)

-- What `in` finds stands in the text.
pub contains_append :
    (needle hay : Text)
    → contains needle hay ≡ true
    → (before after : Text) × (hay ≡ before ++ (needle ++ after))
contains_append [] [] h = ([], [], refl)
contains_append (n ∷ ns) [] h = cc
contains_append needle (x ∷ xs) h = elim (Bool-cases (starts_with needle (x ∷ xs))) [
  | inl e ↦ (let (rest, same) = starts_with_append needle (x ∷ xs) e in ([], rest, same))
  | inr e ↦
      (let (before, after, same) = contains_append needle xs (rw e at h) in
        (x ∷ before, after, ap (◌∷◌ x) same))
]

-- The characters of a text that are no white space.
abbrev pub ink : Text → Text
ink = filter (λ c. not (is_space c))

pub ink-append : (s t : Text) → ink (s ++ t) ≡ ink s ++ ink t
ink-append [] t = refl
ink-append (x ∷ s) t = elim (Bool-cases (is_space x)) [
  | inl e ↦ rw e (ink-append s t)
  | inr e ↦ rw e (ap (◌∷◌ x) (ink-append s t))
]

ink-lstrip : (s : Text) → ink (lstrip s) ≡ ink s
ink-lstrip [] = refl
ink-lstrip (x ∷ xs) = elim (Bool-cases (is_space x)) [
  | inl e ↦ rw e (ink-lstrip xs)
  | inr e ↦ rw (e, e) refl
]

nil_of_empty : (s : Text) → is_empty s ≡ true → s ≡ []
nil_of_empty [] h = refl
nil_of_empty (x ∷ xs) h = cc

ink-rstrip : (s : Text) → ink (rstrip s) ≡ ink s
ink-rstrip [] = refl
ink-rstrip (x ∷ xs) = elim (Bool-cases (is_space x)) [
  | inr e ↦ rw (e, e) (ap (◌∷◌ x) (ink-rstrip xs))
  | inl e ↦ elim (Bool-cases (is_empty (rstrip xs))) [
    | inl f ↦ rw (e, f) (sym (ap ink (nil_of_empty (rstrip xs) f)) ∙ ink-rstrip xs)
    | inr f ↦ rw (e, f) (rw e (ink-rstrip xs))
  ]
]

-- Stripping loses white space only.
pub ink-strip : (s : Text) → ink (strip s) ≡ ink s
ink-strip s = ink-rstrip (lstrip s) ∙ ink-lstrip s
