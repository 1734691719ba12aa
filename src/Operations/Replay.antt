-- ===== src/Operations/Replay.antt =====
-- That no code of apps/operations/totp.py is accepted twice.
use mathlib.Core.List.{Memᴰ}
use trend_engine_backend.Base.{
  ℕ, ◌≡◌, refl, inl, inr, true, some, List, [], ◌∷◌, Text, eq_text, arith, Bool-cases,
}
use trend_engine_backend.Base.Int.{ℤ, ◌<ℤ◌, leb_ℤ}
use trend_engine_backend.Operations.Totp.{
  Generator, current_counter, cleaned, window, verify_at, verify,
}

-- A moment of the list at which the code is right, with its counter, beyond the last one.
abbrev pub Accepts : Generator → Text → Text → ℤ → List ℤ → ℤ → Type 0
Accepts generate secret code last ats counter =
    (at : ℤ) × Memᴰ at ats
    × (current_counter at ≡ counter)
    × (eq_text (generate secret at) code ≡ true)
    × (last <ℤ counter)

verify_at_sound :
    (generate : Generator) (secret code : Text) (last : ℤ) (ats : List ℤ) (counter : ℤ)
    → verify_at generate secret code last ats ≡ some counter
    → Accepts generate secret code last ats counter
unfolding verify_at
verify_at_sound generate secret code last [] counter h = cc
verify_at_sound generate secret code last (at ∷ ats) counter h =
    elim (Bool-cases (leb_ℤ (current_counter at) last)) [
      | inl old ↦
          (let (t, m, c, e, l) =
              verify_at_sound generate secret code last ats counter (rw old at h) in
            (t, Memᴰ.tail m, c, e, l))
      | inr new ↦ elim (Bool-cases (eq_text (generate secret at) code)) [
        | inl right ↦ (at, Memᴰ.head refl, ground arith, right, ground arith)
        | inr wrong ↦
            (let (t, m, c, e, l) =
                verify_at_sound generate secret code last ats counter (rw (new, wrong) at h) in
              (t, Memᴰ.tail m, c, e, l))
      ]
    ]

-- A code that verify accepts is the one that the authenticator shows at a moment of the window,
-- and its counter lies beyond the last one.
pub verify_sound :
    (generate : Generator) (secret code : Text) (last : ℤ) (now : ℕ) (counter : ℤ)
    → verify generate secret code last now ≡ some counter
    → Accepts generate secret (cleaned code) last (window now) counter
unfolding verify
verify_sound generate secret code last now counter h =
    verify_at_sound generate secret (cleaned code) last (window now) counter (ground arith)
