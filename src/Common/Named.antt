-- ===== src/Common/Named.antt =====
-- Objects whose keys are names, as association lists.
use Prim.Native.String.{String}
use mathlib.Core.Path.{◌≡◌, refl}
use mathlib.Core.Option.{Option, none, some}
use mathlib.Core.List.{List, [], ◌∷◌}
use text.Mathlib.TextEquality.{eq_iff}
use native.Mathlib.Omega.{arith}
use lawn_eve_intel_dashboard.Common.Tests.{str_eq, if◌then◌else◌}

-- `obj[name]` and `obj[name] = v`.
unfoldable pub named {ℓ} : {V : Type ℓ} → String → List (String × V) → Option V
named name [] = none
named name (d ∷ ds) = if str_eq d.0 name then some d.1 else named name ds

unfoldable pub put_named {ℓ} : {V : Type ℓ} → String → V → List (String × V) → List (String × V)
put_named name v [] = (name, v) ∷ []
put_named name v (d ∷ ds) = if str_eq d.0 name then (name, v) ∷ ds else d ∷ put_named name v ds

pub named-put_named :
    {V : Type 0} (name s : String) (v : V) (ds : List (String × V))
    → named s (put_named name v ds) ≡ (if str_eq name s then some v else named s ds)
unfolding named put_named
named-put_named name s v [] = refl
named-put_named name s v (d ∷ ds) =
    ground (arith, eq_iff name s, eq_iff d.0 name, eq_iff d.0 s, named-put_named name s v ds)
