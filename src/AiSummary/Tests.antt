-- ===== src/AiSummary/Tests.antt =====
-- Two requests, the first one replaced by the second.
use lawn_eve_intel_dashboard.Common.{◌≡◌, refl, true, false}
use lawn_eve_intel_dashboard.AiSummary.{
  State, abort_error, init, reset, generate, settle, asks, Reach, start, after, is_inert,
}
use lawn_eve_intel_dashboard.AiSummary.Runs.{settle_stale}
use lawn_eve_intel_dashboard.AiSummary.Stuck.{here, reset_stuck}

abbrev twice : State
twice = generate (generate init)

twice-Reach : Reach twice
twice-Reach = after (after start asks) asks

settle_stale_example :
    ((settle 0 abort_error twice).summary ≡ twice.summary)
    × ((settle 0 abort_error twice).error ≡ twice.error)
    × ((settle 0 abort_error twice).generating ≡ twice.generating)
    × ((settle 0 abort_error twice).active ≡ twice.active)
settle_stale_example =
    settle_stale twice 0 abort_error twice-Reach (unfold generate init in refl)
      (unfold generate init in refl) (unfold generate init in (λ e. cc))

reset_stuck_example : is_inert (reset (generate init)) false ≡ true
reset_stuck_example =
    reset_stuck (generate init) (reset (generate init)) 0 false (after start asks)
      (unfold generate init in refl) here
