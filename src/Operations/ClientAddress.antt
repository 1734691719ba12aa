-- ===== src/Operations/ClientAddress.antt =====
-- Which part of X-Forwarded-For `client_ip` of apps/operations/throttle.py believes.
use trend_engine_backend.Base.{
  ℕ, ◌+◌, ◌-◌, ◌≤◌, ◌≡◌, refl, ap, Bool, not, List, [], ◌∷◌, ◌++◌, map, filter, length,
  length-append, get_elem?, ◌==◌, Text, is_empty, strip, split, onto_first, arith, Bool-cases, inl,
  inr,
}
use native.Mathlib.Nat.{suc-add}
use trend_engine_backend.Operations.Throttle.{client_ip, hops}

onto_first-append :
    (x : ℕ) (p : Text) (ps qs : List Text)
    → onto_first x ((p ∷ ps) ++ qs) ≡ onto_first x (p ∷ ps) ++ qs
onto_first-append x p ps qs = refl

split-not_nil : (c : ℕ) (s : Text) → (p : Text) × (ps : List Text) × (split c s ≡ p ∷ ps)
split-not_nil c [] = ([], [], refl)
split-not_nil c (x ∷ xs) = elim (Bool-cases (x == c)) [
  | inl e ↦ ([], split c xs, rw e)
  | inr e ↦ (let (p, ps, h) = split-not_nil c xs in (x ∷ p, ps, rw (e, h)))
]

split-append : (c : ℕ) (a b : Text) → split c (a ++ c ∷ b) ≡ split c a ++ split c b
split-append c [] b = ground arith
split-append c (x ∷ a) b = elim (Bool-cases (x == c)) [
  | inl e ↦ rw e (ap (◌∷◌ []) (split-append c a b))
  | inr e ↦ (let (p, ps, h) = split-not_nil c a in rw (e, split-append c a b, h))
]

map-append_list :
    {A B : Type 0} (f : A → B) (xs ys : List A) → map f (xs ++ ys) ≡ map f xs ++ map f ys
map-append_list f [] ys = refl
map-append_list f (x ∷ xs) ys = ap (◌∷◌ (f x)) (map-append_list f xs ys)

filter-append :
    {A : Type 0} (p : A → Bool) (xs ys : List A) → filter p (xs ++ ys) ≡ filter p xs ++ filter p ys
filter-append p [] ys = refl
filter-append p (x ∷ xs) ys = elim (Bool-cases (p x)) [
  | inl e ↦ rw e (ap (◌∷◌ x) (filter-append p xs ys))
  | inr e ↦ rw e (filter-append p xs ys)
]

hops-append : (forged rest : Text) → hops (forged ++ b',' ∷ rest) ≡ hops forged ++ hops rest
hops-append forged rest =
    rw (split-append b',' forged rest, map-append_list strip (split b',' forged) (split b',' rest))
      (filter-append (λ part. not (is_empty part)) (map strip (split b',' forged))
        (map strip (split b',' rest)))

get_elem?-append_right :
    {A : Type 0} (xs ys : List A) (i : ℕ) → get_elem? (xs ++ ys) (length xs + i) ≡ get_elem? ys i
get_elem?-append_right [] ys i = ap (get_elem? ys) (omega arith)
get_elem?-append_right (x ∷ xs) ys i = rw suc-add (get_elem?-append_right xs ys i)

-- Counted from the right, nothing that stands to the left of the trusted hops matters.
from_the_right :
    {A : Type 0} (depth : ℕ) (xs ys : List A)
    → depth ≤ length ys
    → get_elem? (xs ++ ys) (length (xs ++ ys) - depth) ≡ get_elem? ys (length ys - depth)
from_the_right depth xs ys h =
    let e : length (xs ++ ys) - depth ≡ length xs + (length ys - depth) =
      omega (arith, length-append xs ys) in
    rw e (get_elem?-append_right xs ys (length ys - depth))

-- Where the trusted proxies append at least as many hops as are trusted, the address that the
-- throttle keys on is the same whatever the caller wrote in front of them.
pub client_ip_unforgeable :
    (depth : ℕ) (remote forged appended : Text)
    → depth ≤ length (hops appended)
    → client_ip depth remote (forged ++ b',' ∷ appended) ≡ client_ip depth remote appended
unfolding client_ip
client_ip_unforgeable depth remote forged appended h =
    let longer : depth ≤ length (hops forged ++ hops appended) =
      omega (arith, length-append (hops forged) (hops appended)) in
    rw (hops-append forged appended)
      (ground (arith, from_the_right depth (hops forged) (hops appended) h))
