-- ===== src/Text/Truth.antt =====
-- Python's truth of a text: the empty one is false, like None.
use dpi_engine_python.Prelude.{◌≡◌, ◌≢◌, refl, Bool, true, false, Option, none, some, [], ◌∷◌}
use dpi_engine_python.Text.Trim.{Str}

abbrev pub truthy : Option Str → Bool
truthy (some (c ∷ cs)) = true
truthy _ = false

-- `s or None`
abbrev pub or_none : Str → Option Str
or_none [] = none
or_none (c ∷ cs) = some (c ∷ cs)

pub or_none-eq : (x s : Str) → or_none x ≡ some s → (s ≡ x) × (s ≢ [])
or_none-eq [] s h = absurd (cc)
or_none-eq (c ∷ cs) s h = (cc, λ e. cc)

pub or_none_filled : (s : Str) → s ≢ [] → or_none s ≡ some s
or_none_filled [] ne = absurd (ne refl)
or_none_filled (c ∷ cs) ne = refl
