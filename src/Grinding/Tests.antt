-- ===== src/Grinding/Tests.antt =====
-- GrindingPlan.jsx: two systems, of which one is falling.
use lawn_eve_intel_dashboard.Common.{
  ℕ, zero, suc, ◌+◌, ◌-◌, ◌*◌, ◌/◌, ◌%◌, ◌^◌, ◌≤◌, ◌<◌, compare, Ordering, String, ◌≡◌, refl, sym,
  ap, ◌∙◌, ◌≢◌, ◌↔◌, ◌⊎◌, inl, inr, Bool, true, false, not, ◌&&◌, ◌||◌, Option, none, some, List,
  [], ◌∷◌, ◌++◌, map, flat_map, append-nil, append_assoc, Perm, arith, eq_iff, eq_refl, ltb, leb,
  ◌==◌, str_eq, if◌then◌else◌, ==_iff, ==_refl, Bool-cases, Option-cases, or_else, first_some,
  length, filter, any, somes, All, length-append, filter-append, filter-filter, filter-not-perm,
  All-filter, filter-All, swap_front-perm, any-filter, filter-filter_self, filter_ext, take,
}
use lawn_eve_intel_dashboard.Common.Int.{ℤ, pos, negsuc}
use lawn_eve_intel_dashboard.MapStyle.{SovView}
use lawn_eve_intel_dashboard.Grinding.{
  Point, Planned, compute_24h_change, plan_system, targets, set_target,
}

abbrev at : ℕ → ℕ → Point
at hours adm = record { timestamp = hours * 3600000; adm = adm }

history : compute_24h_change (100 * 3600000) (at 70 45 ∷ at 75 41 ∷ at 80 40 ∷ []) 38 ≡ negsuc 2
unfolding compute_24h_change
history = refl

-- Without a point of the last day the oldest one counts.
stale : compute_24h_change (200 * 3600000) (at 70 45 ∷ at 75 41 ∷ []) 41 ≡ negsuc 3
unfolding compute_24h_change
stale = refl

abbrev held : ℕ → SovView
held adm = record { alliance_name = some "LAWN"; is_friendly = true; is_host = false; adm = adm }

abbrev plan : List Planned
plan =
    map (plan_system (λ old new. ltb new old) 0 ((1, held 30) ∷ (2, held 15) ∷ []) [])
      ((record { system_id = 1; name = "UDVW-O" }) ∷ (record { system_id = 2; name = "A-1" }) ∷ [])

scores : map (λ p. p.score) (targets plan) ≡ pos 1225 ∷ pos 850 ∷ []
unfolding targets plan_system lawn_eve_intel_dashboard.Common.Int.◌+ℤ◌
    lawn_eve_intel_dashboard.Common.Int.◌-ℤ◌
scores = refl

clamped : set_target 3 (some (some 99)) [] ≡ (3, 60) ∷ []
unfolding set_target
clamped = refl
