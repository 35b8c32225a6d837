-- ===== src/Charts/Curves.antt =====
-- Sparkline.jsx: the curve stays in its picture.
use native.Mathlib.Nat.{mul-le-mul_right}
use lawn_eve_intel_dashboard.Common.{
  ℕ, suc, ◌+◌, ◌-◌, ◌*◌, ◌≤◌, ◌≡◌, List, [], ◌∷◌, All, length, arith,
}
use lawn_eve_intel_dashboard.Common.Int.{pos_part, neg_part}
use lawn_eve_intel_dashboard.Grinding.{Point}
use lawn_eve_intel_dashboard.Charts.{
  Spot, spots, sparkline, pad, inner, x_of, y_of, Sparkline, empty, dot, curve,
}

-- From `pad` to `size - pad`, over a denominator.
abbrev pub Within : ℕ → ℕ → ℕ → Type 0
Within size den n = (pad * den ≤ n) × (n ≤ (size - pad) * den)

abbrev pub InBox : ℕ → ℕ → ℕ → Spot → Type 0
InBox width height n s =
    Within width (n - 1) s.x × (neg_part s.y ≡ 0) × Within height 60 (pos_part s.y)

y_of-Within :
    (height adm : ℕ)
    → 4 ≤ height
    → adm ≤ 60
    → (neg_part (y_of height adm) ≡ 0) × Within height 60 (pos_part (y_of height adm))
y_of-Within height adm h a = ground (arith, mul-le-mul_right {m = adm} {n = 60} (inner height) a)

left_side : (m x : ℕ) → pad * m ≤ pad * m + x
left_side m x = omega arith

right_side : (m i w : ℕ) → i ≤ m → pad * m + i * w ≤ (w + 2) * m
right_side m i w h = grind (arith, mul-le-mul_right w h)

widths : (width : ℕ) → 4 ≤ width → width - pad ≡ inner width + 2
widths width h = omega arith

x_of-Within : (width n i : ℕ) → 4 ≤ width → suc i ≤ n → Within width (n - 1) (x_of width n i)
x_of-Within width n i h k = (
  left_side (n - 1) (i * inner width),
  rw (widths width h) (right_side (n - 1) i (inner width) (omega arith)),
)

spots-InBox :
    (width height n i : ℕ) (ps : List Point)
    → 4 ≤ width
    → 4 ≤ height
    → i + length ps ≤ n
    → All (λ p. p.adm ≤ 60) ps
    → All (InBox width height n) (spots width height n i ps)
unfolding spots
spots-InBox width height n i [] w h k a = tt
spots-InBox width height n i (p ∷ ps) w h k a = (
  (
    x_of-Within width n i w (omega arith),
    (y_of-Within height p.adm h a.0).0,
    (y_of-Within height p.adm h a.0).1,
  ),
  spots-InBox width height n (suc i) ps w h (omega arith) a.1,
)

abbrev pub Drawn : ℕ → ℕ → ℕ → Sparkline → Type 0
Drawn width height n empty = n ≡ 0
Drawn width height n (dot y color) = (n ≡ 1) × (neg_part y ≡ 0) × Within height 60 (pos_part y)
Drawn width height n (curve ss color) = (length ss ≡ n) × All (InBox width height n) ss

length-spots :
    (width height n i : ℕ) (ps : List Point) → length (spots width height n i ps) ≡ length ps
unfolding spots
length-spots width height n i [] = omega arith
length-spots width height n i (p ∷ ps) = omega (arith, length-spots width height n (suc i) ps)

-- In a picture of width and height 4 at least: no snapshot draws nothing, one draws a dot, and more
-- draw a curve with a place for each; if no ADM is above 6.0, all of it stays 2 away from the sides.
pub sparkline-Drawn :
    (width height : ℕ) (history : List Point)
    → 4 ≤ width
    → 4 ≤ height
    → All (λ p. p.adm ≤ 60) history
    → Drawn width height (length history) (sparkline width height history)
unfolding sparkline
sparkline-Drawn width height [] w h a = omega arith
sparkline-Drawn width height (p ∷ []) w h a =
    (omega arith, (y_of-Within height p.adm h a.0).0, (y_of-Within height p.adm h a.0).1)
sparkline-Drawn width height (p ∷ q ∷ ps) w h a = (
  length-spots width height _ 0 (p ∷ q ∷ ps),
  spots-InBox width height _ 0 (p ∷ q ∷ ps) w h (omega arith) a,
)
