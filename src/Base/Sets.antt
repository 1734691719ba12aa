-- ===== src/Base/Sets.antt =====
-- Numbers without repetition: `dict.fromkeys` and sets.
use Prim.Native.Nat.{ℕ}
use mathlib.Core.Bool.{Bool, true, false}
use mathlib.Core.List.{List, [], ◌∷◌}
use trend_engine_backend.Base.Tests.{◌==◌}
use trend_engine_backend.Base.Lists.{any}

abbrev pub mem_nat : ℕ → List ℕ → Bool
mem_nat n = any (λ m. m == n)

-- `list(dict.fromkeys(ids))`, less what was seen.
abbrev pub distinct_from : List ℕ → List ℕ → List ℕ
distinct_from seen [] = []
distinct_from seen (n ∷ ns) = elim (mem_nat n seen) [
  | true ↦ distinct_from seen ns
  | false ↦ n ∷ distinct_from (n ∷ seen) ns
]

abbrev pub distinct : List ℕ → List ℕ
distinct ns = distinct_from [] ns
