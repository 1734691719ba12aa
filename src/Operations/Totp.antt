-- ===== src/Operations/Totp.antt =====
-- apps/operations/totp.py: which code is accepted, and the normal form of a recovery code. What pyotp
-- computes is a parameter.
use trend_engine_backend.Base.{
  ℕ, ◌||◌, not, Option, none, some, List, [], ◌∷◌, if◌then◌else◌, Text, eq_text, is_empty, isdigit,
  strip, upper, remove_char,
}
use trend_engine_backend.Base.Int.{ℤ, pos, negsuc, ◌+ℤ◌, leb_ℤ, floor_div}

abbrev pub step_seconds : ℕ
step_seconds = 30

-- `pyotp.TOTP(secret).at(at)`
abbrev pub Generator : Type 0
Generator = Text → ℤ → Text

-- `current_counter`
unfoldable pub current_counter : ℤ → ℤ
current_counter at = floor_div at step_seconds

-- `code.strip().replace(" ", "").replace("-", "")`
abbrev pub cleaned : Text → Text
cleaned code = remove_char b'-' (remove_char b' ' (strip code))

-- `now + (offset * STEP_SECONDS)` for the offsets of VALID_WINDOW.
abbrev pub window : ℕ → List ℤ
window now = (pos now +ℤ negsuc 29) ∷ (pos now +ℤ pos 0) ∷ (pos now +ℤ pos 30) ∷ []

-- The loop of `verify`, over the moments of the window.
unfoldable pub verify_at : Generator → Text → Text → ℤ → List ℤ → Option ℤ
unfolding current_counter
verify_at generate secret code last [] = none
verify_at generate secret code last (at ∷ ats) =
    let rest = verify_at generate secret code last ats in
    if leb_ℤ (current_counter at) last
    then rest
    else if eq_text (generate secret at) code
    then some (current_counter at)
    else rest

-- `verify`
unfoldable pub verify : Generator → Text → Text → ℤ → ℕ → Option ℤ
unfolding verify_at
verify generate secret code last now =
    if is_empty secret || is_empty code
    then none
    else if not (isdigit (cleaned code))
    then none
    else verify_at generate secret (cleaned code) last (window now)

-- `normalise_recovery_code`
unfoldable pub normalise_recovery_code : Text → Text
normalise_recovery_code code = remove_char b'-' (remove_char b' ' (upper (strip code)))
