-- ===== src/Usage/Charts.antt =====
-- AnalyticsPage.jsx: the bars of the statistics. A height and a width is a part in a hundred, times
-- the largest number of the chart.
use lawn_eve_intel_dashboard.Common.{
  ℕ, ◌*◌, Bool, Option, none, some, List, [], ◌∷◌, map, leb, if◌then◌else◌,
}
use lawn_eve_intel_dashboard.Common.Text.{Text}

-- `Math.max(1, ...values)`.
unfoldable pub top_of : List ℕ → ℕ
top_of [] = 1
top_of (n ∷ ns) = if leb n (top_of ns) then top_of ns else n

pub record ChartBar : Type 0 where
  pub height : ℕ
  pub lit : Bool

abbrev pub chart_bar : ℕ → ℕ → ChartBar
chart_bar max n = record {
  height = if leb (2 * max) (n * 100) then n * 100 else 2 * max;
  lit = leb 1 n;
}

-- `BarChart`; `none` is the label of an empty one.
unfoldable pub bar_chart : List ℕ → Option (List ChartBar)
unfolding top_of
bar_chart [] = none
bar_chart (n ∷ ns) = some (map (chart_bar (top_of (n ∷ ns))) (n ∷ ns))

pub record PathRow : Type 0 where
  pub path : Text
  pub views : ℕ

pub record PathBar : Type 0 where
  pub path : Text
  pub views : ℕ
  pub width : ℕ

abbrev pub path_bar : PathRow → PathBar
path_bar r = record { path = r.path; views = r.views; width = r.views * 100 }

-- `PathList`: the rows, over the largest number of views.
unfoldable pub path_list : List PathRow → ℕ × List PathBar
unfolding top_of
path_list rs = (top_of (map (λ r. r.views) rs), map path_bar rs)
