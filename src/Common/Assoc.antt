-- ===== src/Common/Assoc.antt =====
-- Objects whose keys are ids, as association lists.
use Prim.Native.Nat.{ℕ}
use mathlib.Core.Path.{◌≡◌, refl}
use mathlib.Core.Option.{Option, none, some}
use mathlib.Core.List.{List, [], ◌∷◌}
use native.Mathlib.Omega.{arith}
use lawn_eve_intel_dashboard.Common.Tests.{◌==◌, if◌then◌else◌}

module _ {ℓ} {V : Type ℓ} where
  -- `obj[id] = value`: a key that is there keeps its place.
  unfoldable pub insert : ℕ → V → List (ℕ × V) → List (ℕ × V)
  insert id value [] = (id, value) ∷ []
  insert id value (entry ∷ obj) =
      if entry.0 == id then (id, value) ∷ obj else entry ∷ insert id value obj

  -- `obj[id]`.
  unfoldable pub lookup : ℕ → List (ℕ × V) → Option V
  lookup id [] = none
  lookup id (entry ∷ obj) = if entry.0 == id then some entry.1 else lookup id obj

  pub lookup-insert :
      (id asked : ℕ) (value : V) (obj : List (ℕ × V))
      → lookup asked (insert id value obj) ≡ (if id == asked then some value else lookup asked obj)
  unfolding lookup insert
  lookup-insert id asked value [] = refl
  lookup-insert id asked value (entry ∷ obj) = ground (arith, lookup-insert id asked value obj)
