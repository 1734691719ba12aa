-- ===== src/Base/Strings.antt =====
-- Python's texts as lists of code points, with the methods of `str` that the program calls. Case and
-- character classes are those of ASCII.
use Prim.Native.Nat.{ℕ, ◌+◌, ◌-◌, ◌≤◌}
use Prim.Native.Char.{code}
use Prim.Native.String.{String}
use mathlib.Core.Path.{◌≡◌, refl}
use mathlib.Core.Logic.{◌↔◌}
use mathlib.Core.Bool.{Bool, true, false, ◌&&◌, ◌||◌, not}
use mathlib.Core.List.{List, [], ◌∷◌, map}
use native.Mathlib.Omega.{arith}
use trend_engine_backend.Base.Tests.{leb, ◌==◌, if◌then◌else◌}
use trend_engine_backend.Base.Lists.{length, all, any, filter}

abbrev pub Text : Type 0
Text = List ℕ

-- A literal's code points.
abbrev pub codes : String → Text
codes String.[] = []
codes (String.◌∷◌ c s) = code c ∷ codes s

abbrev pub eq_text : Text → Text → Bool
eq_text [] [] = true
eq_text [] (b ∷ bs) = false
eq_text (a ∷ as') [] = false
eq_text (a ∷ as') (b ∷ bs) = (a == b) && eq_text as' bs

abbrev pub is_empty {ℓ} : {A : Type ℓ} → List A → Bool
is_empty [] = true
is_empty (a ∷ as') = false

-- What `str.strip` and `str.isspace` take for white space.
abbrev pub is_space : ℕ → Bool
is_space c = (leb 9 c && leb c 13) || (leb 28 c && leb c 32)

abbrev pub is_digit : ℕ → Bool
is_digit c = leb b'0' c && leb c b'9'

abbrev pub is_upper : ℕ → Bool
is_upper c = leb b'A' c && leb c b'Z'

abbrev pub is_lower : ℕ → Bool
is_lower c = leb b'a' c && leb c b'z'

abbrev pub is_alnum : ℕ → Bool
is_alnum c = is_digit c || (is_upper c || is_lower c)

abbrev pub lower_char : ℕ → ℕ
lower_char c = if is_upper c then c + 32 else c

abbrev pub upper_char : ℕ → ℕ
upper_char c = if is_lower c then c - 32 else c

abbrev pub lower : Text → Text
lower = map lower_char

abbrev pub upper : Text → Text
upper = map upper_char

-- `s.isdigit()`: at least one character, and digits only.
abbrev pub isdigit : Text → Bool
isdigit s = not (is_empty s) && all is_digit s

-- `s.replace(c, "")`
abbrev pub remove_char : ℕ → Text → Text
remove_char c = filter (λ x. not (x == c))

abbrev pub lstrip : Text → Text
lstrip [] = []
lstrip (x ∷ xs) = let rest = lstrip xs in if is_space x then rest else x ∷ xs

abbrev pub rstrip : Text → Text
rstrip [] = []
rstrip (x ∷ xs) = let rest = rstrip xs in if is_space x && is_empty rest then [] else x ∷ rest

abbrev pub strip : Text → Text
strip s = rstrip (lstrip s)

-- Puts a character in front of the first part.
abbrev pub onto_first : ℕ → List Text → List Text
onto_first x [] = (x ∷ []) ∷ []
onto_first x (part ∷ parts) = (x ∷ part) ∷ parts

-- `s.split(c)` for a separator of one character.
abbrev pub split : ℕ → Text → List Text
split c [] = [] ∷ []
split c (x ∷ xs) = if x == c then [] ∷ split c xs else onto_first x (split c xs)

-- `c in s` for one character.
abbrev pub has_char : ℕ → Text → Bool
has_char c = any (λ x. x == c)

abbrev pub starts_with : Text → Text → Bool
starts_with [] s = true
starts_with (p ∷ ps) [] = false
starts_with (p ∷ ps) (x ∷ xs) = (p == x) && starts_with ps xs

pub eq_text_refl : (s : Text) → eq_text s s ≡ true
eq_text_refl [] = refl
eq_text_refl (x ∷ xs) = ground (arith, eq_text_refl xs)

pub eq_text_iff : (s t : Text) → (eq_text s t ≡ true) ↔ (s ≡ t)
eq_text_iff [] [] = ground arith
eq_text_iff [] (b ∷ bs) = ground arith
eq_text_iff (a ∷ as') [] = ground arith
eq_text_iff (a ∷ as') (b ∷ bs) = ground (arith, eq_text_iff as' bs)

pub length-rstrip-le : (s : Text) → length (rstrip s) ≤ length s
length-rstrip-le [] = omega arith
length-rstrip-le (x ∷ xs) = ground (arith, length-rstrip-le xs)

pub length-lstrip-le : (s : Text) → length (lstrip s) ≤ length s
length-lstrip-le [] = omega arith
length-lstrip-le (x ∷ xs) = ground (arith, length-lstrip-le xs)

pub length-strip-le : (s : Text) → length (strip s) ≤ length s
length-strip-le s = omega (arith, length-rstrip-le (lstrip s), length-lstrip-le s)
