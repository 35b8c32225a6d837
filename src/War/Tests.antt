-- ===== src/War/Tests.antt =====
-- warHelpers.js and WarPage.jsx: a war of two classes of losses.
use lawn_eve_intel_dashboard.War.Board.{hull_table}
use lawn_eve_intel_dashboard.War.Totals.{AddsUp, hull_table-AddsUp}
use native.Mathlib.Nat.{div-add-mod, mod-lt, mul_assoc}
use lawn_eve_intel_dashboard.War.Amounts.{
  IsNearest, format_isk, format_isk_bounds, value_of, half_digit, unit_of, format_duration,
  lasting_text, amount_text,
}
use lawn_eve_intel_dashboard.Common.{
  ◌+◌, ◌*◌, ◌/◌, ◌≤◌, arith, ℕ, ◌≡◌, refl, true, false, none, some, [], ◌∷◌,
}
use lawn_eve_intel_dashboard.Common.Text.{codes}
use lawn_eve_intel_dashboard.War.{
  a, b, Losses, ShipClasses, hull_totals, ordered_hull_classes, period_label, side_meta,
}
use lawn_eve_intel_dashboard.War.Page.{WarState, assign_side, refused, wars_arrived}

abbrev one : Losses
one = record { count = 2; isk = 30 }

abbrev classes : ShipClasses
classes a = ("pod", one) ∷ ("barge", one) ∷ []
classes b = ("super", one) ∷ ("pod", one) ∷ []

three_classes : ordered_hull_classes classes ≡ "super" ∷ "pod" ∷ "barge" ∷ []
unfolding ordered_hull_classes
three_classes = refl

totals : (hull_totals classes a).isk ≡ 60
unfolding hull_totals
totals = refl

day : period_label false (codes "2026-08-06") ≡ codes "08/06"
unfolding period_label
day = refl

unaligned : (side_meta (λ k. none) none).short ≡ "NEUTRAL"
unfolding side_meta
unaligned = refl

abbrev page : WarState ℕ
page = record {
  wars = [];
  war_key = none;
  shown = none;
  battles = [];
  unclassified = [];
  kills = [];
  loading = true;
  error = none;
  roster_busy = none;
  roster_error = none;
  sso_enabled = false;
  password = codes "pw";
  stored_password = none;
}

conflict : (assign_side 9 (refused 409 none) page).roster_error ≡ some (codes "Error 409")
unfolding assign_side
conflict = refl

first_war : (wars_arrived (some (codes "w1" ∷ codes "w2" ∷ [])) page).war_key ≡ some (codes "w1")
unfolding wars_arrived
first_war = refl

-- To the nearest number, up if two are as near.
abbrev nearest : ℕ → ℕ → ℕ
nearest n d = (2 * n + d) / (2 * d)

nearest-IsNearest : IsNearest nearest
nearest-IsNearest = record {
  above = λ n d p.
      let parts = div-add-mod (2 * n + d) (2 * d) in
      let less = mod-lt (2 * n + d) {m = 2 * d} (omega arith) in
      let order = mul_assoc 2 d (nearest n d) in omega arith;
  below = λ n d p.
      let parts = div-add-mod (2 * n + d) (2 * d) in
      let order = mul_assoc 2 d (nearest n d) in omega arith;
}

-- The last amount below a billion.
abbrev nearly : ℕ
nearly = 999999999

format_isk_bounds_example :
    (nearly ≤ value_of (format_isk nearest nearly) + half_digit (format_isk nearest nearly))
    × (value_of (format_isk nearest nearly) ≤ nearly + half_digit (format_isk nearest nearly))
    × (unit_of (format_isk nearest nearly) ≤ nearly)
format_isk_bounds_example = format_isk_bounds nearest nearly nearest-IsNearest

thousand_millions : amount_text (format_isk nearest nearly) ≡ codes "1000.0M"
unfolding amount_text format_isk
thousand_millions = refl

sixty_minutes : lasting_text (format_duration 1197) ≡ codes "1h 60m"
unfolding lasting_text format_duration
sixty_minutes = refl

hull_table-AddsUp_example :
    AddsUp (λ r. r.a) (hull_table classes).rows (hull_table classes).a_total
    × AddsUp (λ r. r.b) (hull_table classes).rows (hull_table classes).b_total
hull_table-AddsUp_example = hull_table-AddsUp classes (refl, (refl, tt)) (refl, (refl, tt))
