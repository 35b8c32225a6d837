-- ===== src/War/Chart.antt =====
-- frontend/src/components/war/WarBarChart.jsx: the bars of both sides and the labels below them.
use lawn_eve_intel_dashboard.Common.{
  ℕ, suc, ◌+◌, ◌*◌, ◌/◌, ◌%◌, ◌≤◌, ◌<◌, ◌≡◌, refl, sym, ◌∙◌, Bool, true, false, Option, none, some,
  List, [], ◌∷◌, map, leb, ◌==◌, ==_iff, if◌then◌else◌, arith, Bool-cases, inl, inr, length, somes,
  All,
}
use native.Mathlib.Nat.{suc-mod, zero-mod, mod_self, mod-lt, mod-eq_of_lt}
use lawn_eve_intel_dashboard.Common.Text.{Text}
use lawn_eve_intel_dashboard.War.{period_label}

-- A period with the numbers of the metric that is shown; one that is missing is 0.
pub record Period : Type 0 where
  pub period : Text
  pub by_month : Bool
  pub a : ℕ
  pub b : ℕ

-- The larger of two numbers, and the largest number of a chart, at least 1.
abbrev pub max_of : ℕ → ℕ → ℕ
max_of m n = if leb m n then n else m

unfoldable pub highest : List Period → ℕ
highest [] = 1
highest (p ∷ ps) = max_of (max_of p.a p.b) (highest ps)

-- The height of a bar in a hundred, as a fraction with `max` below: at least 2, unless it is 0.
unfoldable pub bar_height : ℕ → ℕ → ℕ
bar_height max n = max_of (if n == 0 then 0 else 2 * max) (n * 100)

pub record Bars : Type 0 where
  pub a : ℕ
  pub b : ℕ

abbrev pub bars_of : ℕ → Period → Bars
bars_of max p = record { a = bar_height max p.a; b = bar_height max p.b }

unfoldable pub bars : List Period → List Bars
unfolding highest bar_height
bars ps = map (bars_of (highest ps)) ps

-- `labelEvery`.
abbrev pub label_every : ℕ → ℕ
label_every n = (n + 11) / 12

-- The labels from the i-th period on.
abbrev pub labels_from : ℕ → ℕ → List Period → List (Option Text)
labels_from every i [] = []
labels_from every i (p ∷ ps) =
    (if i % every == 0 then some (period_label p.by_month p.period) else none)
    ∷ labels_from every (suc i) ps

-- The text below each bar, where there is one.
unfoldable pub labels : List Period → List (Option Text)
unfolding period_label
labels ps = labels_from (label_every (length ps)) 0 ps

abbrev distance : ℕ → ℕ → ℕ
distance e r = if r == 0 then e else r

next_of : (e r : ℕ) → (r + 1 == e) ≡ true → suc r % e ≡ 0
next_of e r h = let p : suc r ≡ e = ground arith in rw p (mod_self e)

mod_next : (e i : ℕ) → 0 < e → suc i % e ≡ (if i % e + 1 == e then 0 else i % e + 1)
mod_next e i h = elim (Bool-cases (i % e + 1 == e)) [
  | inl last ↦ rw (last, suc-mod i e) (next_of e (i % e) last)
  | inr inner ↦ rw (inner, suc-mod i e) (mod-eq_of_lt (ground (arith, mod-lt i h)) ∙ omega arith)
]

distance_next : (e r : ℕ) → distance e (if r + 1 == e then 0 else r + 1) ≡ r + 1
distance_next e r = elim (Bool-cases (r + 1 == e)) [
  | inl last ↦ rw last (sym ((==_iff (r + 1) e).0 last))
  | inr inner ↦ rw inner (ground arith)
]

suc_times : (c e : ℕ) → suc c * e ≡ e + c * e
suc_times c e = grind arith

length-somes_if :
    (b : Bool) (t : Text) (ts : List (Option Text))
    → length (somes ((if b then some t else none) ∷ ts))
      ≡ (if b then suc (length (somes ts)) else length (somes ts))
length-somes_if true t ts = refl
length-somes_if false t ts = refl

-- One period more, whose label is shown if `r` is 0.
step :
    (e r c n : ℕ)
    → r < e
    → c * e + 1 ≤ n + distance e (if r + 1 == e then 0 else r + 1)
    → (if r == 0 then suc c else c) * e + 1 ≤ suc n + distance e r
step e r c n h k =
    let k' : c * e + 1 ≤ n + (r + 1) = rw (← distance_next e r) k in
    elim (Bool-cases (r == 0)) [
      | inl first ↦ rw first (omega (arith, (==_iff r 0).0 first, suc_times c e))
      | inr later ↦ rw later (omega arith)
    ]

labels_from-length :
    (e i : ℕ) (ps : List Period)
    → 0 < e
    → length (somes (labels_from e i ps)) * e + 1 ≤ length ps + distance e (i % e)
labels_from-length e i [] h = ground arith
labels_from-length e i (p ∷ ps) h =
    rw (length-somes_if (i % e == 0) (period_label p.by_month p.period) (labels_from e (suc i) ps))
      (step e (i % e) (length (somes (labels_from e (suc i) ps))) (length ps) (mod-lt i h)
        (rw (← mod_next e i h) (labels_from-length e (suc i) ps h)))

at_most_twelve : (e c n : ℕ) → n ≤ 12 * e → c * e + 1 ≤ n + e → c ≤ 12
at_most_twelve e c n h k = grind arith

from_start : (e c n : ℕ) → c * e + 1 ≤ n + distance e (0 % e) → c * e + 1 ≤ n + e
from_start e c n h = let h' = rw (zero-mod e) at h in h'

labels-le : (ps : List Period) → length (somes (labels ps)) ≤ 12
unfolding labels
labels-le [] = omega arith
labels-le (p ∷ ps) =
    let e = label_every (length (p ∷ ps)) in
    let c = length (somes (labels_from e 0 (p ∷ ps))) in
    at_most_twelve e c (length (p ∷ ps)) (omega arith)
      (from_start e c (length (p ∷ ps)) (labels_from-length e 0 (p ∷ ps) (omega arith)))

length-labels_from : (e i : ℕ) (ps : List Period) → length (labels_from e i ps) ≡ length ps
length-labels_from e i [] = refl
length-labels_from e i (p ∷ ps) = omega (arith, length-labels_from e (suc i) ps)

weaken :
    (m n : ℕ) (ps : List Period)
    → m ≤ n
    → All (λ p. (p.a ≤ m) × (p.b ≤ m)) ps
    → All (λ p. (p.a ≤ n) × (p.b ≤ n)) ps
weaken m n [] h k = tt
weaken m n (p ∷ ps) h k = ((omega arith, omega arith), weaken m n ps h k.1)

-- The largest number is at least 1, and at least every number of the chart.
highest-ge :
    (ps : List Period) → (1 ≤ highest ps) × All (λ p. (p.a ≤ highest ps) × (p.b ≤ highest ps)) ps
unfolding highest
highest-ge [] = (omega arith, tt)
highest-ge (p ∷ ps) =
    let h = highest-ge ps in
    (
      ground (arith, h.0),
      ((ground arith, ground arith), weaken (highest ps) _ ps (ground arith) h.1),
    )

bar_height-le : (m n : ℕ) → 1 ≤ m → n ≤ m → bar_height m n ≤ 100 * m
unfolding bar_height
bar_height-le m n h k = ground arith

bars-le :
    (m : ℕ) (ps : List Period)
    → 1 ≤ m
    → All (λ p. (p.a ≤ m) × (p.b ≤ m)) ps
    → All (λ x. (x.a ≤ 100 * m) × (x.b ≤ 100 * m)) (map (bars_of m) ps)
bars-le m [] h k = tt
bars-le m (p ∷ ps) h k =
    ((bar_height-le m p.a h k.0.0, bar_height-le m p.b h k.0.1), bars-le m ps h k.1)

-- There are at most 12 labels, whatever the length of the chart, and a place for a label below each
-- bar; and no bar is higher than its half of the chart.
pub labels_bounds :
    (ps : List Period)
    → (length (somes (labels ps)) ≤ 12)
      × (length (labels ps) ≡ length ps)
      × All (λ x. (x.a ≤ 100 * highest ps) × (x.b ≤ 100 * highest ps)) (bars ps)
unfolding labels bars
labels_bounds ps = (
  labels-le ps,
  length-labels_from (label_every (length ps)) 0 ps,
  bars-le (highest ps) ps (highest-ge ps).0 (highest-ge ps).1,
)
