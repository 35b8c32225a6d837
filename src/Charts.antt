-- ===== src/Charts.antt =====
-- frontend/src/components: Sparkline.jsx, AdmTrends.jsx and ActivityHeatmap.jsx. ADM values are
-- tenths. A coordinate of a curve is a fraction, before it is printed with one digit.
mod Tests
pub mod Curves
pub mod Trends
use lawn_eve_intel_dashboard.Common.{
  ℕ, zero, suc, ◌+◌, ◌-◌, ◌*◌, Option, none, some, List, [], ◌∷◌, length,
}
use lawn_eve_intel_dashboard.Common.Int.{ℤ, sub_ℕ}
use lawn_eve_intel_dashboard.Grinding.{AdmColor, get_adm_color, Point}

-- The place of a snapshot: `x` over one less than the number of snapshots, `y` over 60.
pub record Spot : Type 0 where
  pub x : ℕ
  pub y : ℤ

abbrev pub pad : ℕ
pad = 2

-- A curve in a picture of the given width and height, which are at least 4.
abbrev pub inner : ℕ → ℕ
inner size = size - pad * 2

-- `pad + h - (adm / 6) * h`.
abbrev pub y_of : ℕ → ℕ → ℤ
y_of height adm = sub_ℕ ((pad + inner height) * 60) (adm * inner height)

-- `pad + (i / (n - 1)) * w`.
abbrev pub x_of : ℕ → ℕ → ℕ → ℕ
x_of width n i = pad * (n - 1) + i * inner width

unfoldable pub spots : ℕ → ℕ → ℕ → ℕ → List Point → List Spot
spots width height n i [] = []
spots width height n i (p ∷ ps) =
    record { x = x_of width n i; y = y_of height p.adm } ∷ spots width height n (suc i) ps

abbrev pub last_adm : ℕ → List Point → ℕ
last_adm adm [] = adm
last_adm adm (p ∷ ps) = last_adm p.adm ps

pub data Sparkline : Type 0 where
  empty : Sparkline
  dot : ℤ → AdmColor → Sparkline
  curve : List Spot → AdmColor → Sparkline

-- `Sparkline`.
unfoldable pub sparkline : ℕ → ℕ → List Point → Sparkline
unfolding spots get_adm_color
sparkline width height [] = empty
sparkline width height (p ∷ []) = dot (y_of height p.adm) (get_adm_color p.adm)
sparkline width height (p ∷ q ∷ ps) =
    curve (spots width height (length (p ∷ q ∷ ps)) 0 (p ∷ q ∷ ps))
      (get_adm_color (last_adm q.adm ps))
