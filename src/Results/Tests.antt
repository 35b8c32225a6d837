-- ===== src/Results/Tests.antt =====
-- The results of the parsers, on small inputs.
use lawn_eve_intel_dashboard.Common.{◌≡◌, refl, if◌then◌else◌, some, [], ◌++◌}
use lawn_eve_intel_dashboard.Common.Text.{codes, join}
use lawn_eve_intel_dashboard.Results.{StandingCount, standing_counts, dot, risk_cell, rated}
use lawn_eve_intel_dashboard.Results.Counts.{only_unresolved, standings, standing_counts-join}

abbrev mixed : StandingCount
mixed = record { unknown = 3; friendly = 0; lawn = 2; unresolved = 1 }

standing_counts-join_example : standing_counts mixed ≡ (
    if only_unresolved mixed then dot ++ join dot (standings mixed) else join dot (standings mixed))
standing_counts-join_example = standing_counts-join mixed

read : standing_counts mixed ≡ codes "3 unknown · 2 lawn · 1 unresolved"
unfolding standing_counts
read = refl

leading_dot :
    standing_counts (record { unknown = 0; friendly = 0; lawn = 0; unresolved = 4 })
    ≡ codes " · 4 unresolved"
unfolding standing_counts
leading_dot = refl

newbie :
    risk_cell
      (λ n. codes "1.0k")
      (some (record {
        tier = codes "newbie";
        label = codes "NEWBIE";
        roles = [];
        kills = 1012;
        isk_eff = 0;
        danger = 0;
      }))
    ≡ rated (codes "NEWBIE") [] (some (codes "1.0k kills"))
unfolding risk_cell
newbie = refl
