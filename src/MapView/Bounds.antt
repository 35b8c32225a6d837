-- ===== src/MapView/Bounds.antt =====
-- mapHelpers.js: the box of a constellation and the view box against the systems in them.
use lawn_eve_intel_dashboard.Common.{
  ℕ, ◌*◌, String, ◌≡◌, refl, ◌≢◌, Option, none, some, List, [], ◌∷◌, map, arith, filter, All,
}
use lawn_eve_intel_dashboard.Common.Int.{ℤ, pos, ◌+ℤ◌, ◌-ℤ◌, ◌≤ℤ◌, add-parts, minus-parts}
use lawn_eve_intel_dashboard.Config.{MapPos, Layout}
use lawn_eve_intel_dashboard.MapView.{
  min_of, max_of, Rect, box_around, positions, is_member, box_of, constellation_bounds, Mode,
  subway, map_mode, margin_of, view_box_of, view_box_for,
}

-- The point lies in the box, at least `pad` away from each of its sides.
pub record Inside (pad : ℕ) (r : Rect) (p : MapPos) : Type 0 where
  pub left : r.x +ℤ pos pad ≤ℤ p.x
  pub right : p.x +ℤ pos pad ≤ℤ r.x +ℤ r.width
  pub top : r.y +ℤ pos pad ≤ℤ p.y
  pub bottom : p.y +ℤ pos pad ≤ℤ r.y +ℤ r.height

-- The first box lies in the second one.
pub record Within (r s : Rect) : Type 0 where
  pub left : s.x ≤ℤ r.x
  pub right : r.x +ℤ r.width ≤ℤ s.x +ℤ s.width
  pub top : s.y ≤ℤ r.y
  pub bottom : r.y +ℤ r.height ≤ℤ s.y +ℤ s.height

-- The box has all the points inside, and is the smallest one that has.
pub record Least (pad : ℕ) (ps : List MapPos) (r : Rect) : Type 0 where
  pub encloses : All (Inside pad r) ps
  pub least : (s : Rect) → All (Inside pad s) ps → Within r s

module _ (f : MapPos → ℤ) where
  low : MapPos → List MapPos → ℤ
  low p ps = min_of (f p) (map f ps)

  high : MapPos → List MapPos → ℤ
  high p ps = max_of (f p) (map f ps)

  -- What is at most every coordinate is at most the least one.
  low-greatest :
      (s : ℤ) (p : MapPos) (ps : List MapPos) → s ≤ℤ f p → All (λ q. s ≤ℤ f q) ps → s ≤ℤ low p ps
  unfolding low min_of
  low-greatest s p [] h hs = h
  low-greatest s p (q ∷ ps) h hs = ground (arith, hs.0, low-greatest s p ps h hs.1)

  high-least :
      (s : ℤ) (p : MapPos) (ps : List MapPos) → f p ≤ℤ s → All (λ q. f q ≤ℤ s) ps → high p ps ≤ℤ s
  unfolding high max_of
  high-least s p [] h hs = h
  high-least s p (q ∷ ps) h hs = ground (arith, hs.0, high-least s p ps h hs.1)

  low-first : (p : MapPos) (ps : List MapPos) → low p ps ≤ℤ f p
  unfolding low min_of
  low-first p [] = omega arith
  low-first p (q ∷ ps) = ground (arith, low-first p ps)

  high-first : (p : MapPos) (ps : List MapPos) → f p ≤ℤ high p ps
  unfolding high max_of
  high-first p [] = omega arith
  high-first p (q ∷ ps) = ground (arith, high-first p ps)

  below-All :
      (s t : ℤ) (ps : List MapPos) → s ≤ℤ t → All (λ q. t ≤ℤ f q) ps → All (λ q. s ≤ℤ f q) ps
  below-All s t [] h hs = tt
  below-All s t (q ∷ ps) h hs = (omega (arith, hs.0), below-All s t ps h hs.1)

  above-All :
      (s t : ℤ) (ps : List MapPos) → t ≤ℤ s → All (λ q. f q ≤ℤ t) ps → All (λ q. f q ≤ℤ s) ps
  above-All s t [] h hs = tt
  above-All s t (q ∷ ps) h hs = (omega (arith, hs.0), above-All s t ps h hs.1)

  low-All : (p : MapPos) (ps : List MapPos) → All (λ q. low p ps ≤ℤ f q) ps
  unfolding low min_of
  low-All p [] = tt
  low-All p (q ∷ ps) =
      (ground arith, below-All (low p (q ∷ ps)) (low p ps) ps (ground arith) (low-All p ps))

  high-All : (p : MapPos) (ps : List MapPos) → All (λ q. f q ≤ℤ high p ps) ps
  unfolding high max_of
  high-All p [] = tt
  high-All p (q ∷ ps) =
      (ground arith, above-All (high p (q ∷ ps)) (high p ps) ps (ground arith) (high-All p ps))

-- The near side of a box, and its far side.
abbrev near_side : ℤ → ℕ → ℤ
near_side m pad = m -ℤ pos pad

abbrev far_side : ℤ → ℤ → ℕ → ℤ
far_side m M pad = (m -ℤ pos pad) +ℤ (M -ℤ m +ℤ pos (pad * 2))

near_side-le : (m c : ℤ) (pad : ℕ) → m ≤ℤ c → near_side m pad +ℤ pos pad ≤ℤ c
near_side-le m c pad h = omega (arith, minus-parts m (pos pad), add-parts (m -ℤ pos pad) (pos pad))

far_side-le : (m M c : ℤ) (pad : ℕ) → c ≤ℤ M → c +ℤ pos pad ≤ℤ far_side m M pad
far_side-le m M c pad h = omega (
  arith,
  minus-parts m (pos pad),
  add-parts (m -ℤ pos pad) (M -ℤ m +ℤ pos (pad * 2)),
  minus-parts M m,
  add-parts (M -ℤ m) (pos (pad * 2)),
  add-parts c (pos pad),
)

add_pad-cancel : (s c : ℤ) (pad : ℕ) → s +ℤ pos pad ≤ℤ c → s ≤ℤ near_side c pad
add_pad-cancel s c pad h = omega (arith, minus-parts c (pos pad), add-parts s (pos pad))

far_side-tight : (m M far : ℤ) (pad : ℕ) → M ≤ℤ near_side far pad → far_side m M pad ≤ℤ far
far_side-tight m M far pad h = omega (
  arith,
  minus-parts m (pos pad),
  add-parts (m -ℤ pos pad) (M -ℤ m +ℤ pos (pad * 2)),
  minus-parts M m,
  add-parts (M -ℤ m) (pos (pad * 2)),
  minus-parts far (pos pad),
)

All-Inside :
    (p : MapPos) (ps qs : List MapPos) (pad : ℕ) (r : Rect)
    → r.x ≡ near_side (low (λ q. q.x) p ps) pad
    → r.x +ℤ r.width ≡ far_side (low (λ q. q.x) p ps) (high (λ q. q.x) p ps) pad
    → r.y ≡ near_side (low (λ q. q.y) p ps) pad
    → r.y +ℤ r.height ≡ far_side (low (λ q. q.y) p ps) (high (λ q. q.y) p ps) pad
    → All (λ q. low (λ q. q.x) p ps ≤ℤ q.x) qs
    → All (λ q. q.x ≤ℤ high (λ q. q.x) p ps) qs
    → All (λ q. low (λ q. q.y) p ps ≤ℤ q.y) qs
    → All (λ q. q.y ≤ℤ high (λ q. q.y) p ps) qs
    → All (Inside pad r) qs
All-Inside p ps [] pad r a b c d h i j k = tt
All-Inside p ps (q ∷ qs) pad r a b c d h i j k = (
  record {
    left = rw a (near_side-le _ q.x pad h.0);
    right = rw b (far_side-le _ _ q.x pad i.0);
    top = rw c (near_side-le _ q.y pad j.0);
    bottom = rw d (far_side-le _ _ q.y pad k.0);
  },
  All-Inside p ps qs pad r a b c d h.1 i.1 j.1 k.1,
)

-- What the points inside a box say of its sides.
sides :
    (s : Rect) (pad : ℕ) (qs : List MapPos)
    → All (Inside pad s) qs
    → All (λ q. s.x +ℤ pos pad ≤ℤ q.x) qs
      × All (λ q. q.x ≤ℤ near_side (s.x +ℤ s.width) pad) qs
      × All (λ q. s.y +ℤ pos pad ≤ℤ q.y) qs
      × All (λ q. q.y ≤ℤ near_side (s.y +ℤ s.height) pad) qs
sides s pad [] h = (tt, tt, tt, tt)
sides s pad (q ∷ qs) h =
    let (a, b, c, d) = sides s pad qs h.1 in
    (
      (h.0.left, a),
      (add_pad-cancel q.x (s.x +ℤ s.width) pad h.0.right, b),
      (h.0.top, c),
      (add_pad-cancel q.y (s.y +ℤ s.height) pad h.0.bottom, d),
    )

box_around-Least :
    (pad : ℕ) (p : MapPos) (ps : List MapPos) → Least pad (p ∷ ps) (box_around pad p ps)
unfolding box_around low high
box_around-Least pad p ps = record {
  encloses =
      All-Inside p ps (p ∷ ps) pad (box_around pad p ps) refl refl refl refl
        (low-first (λ q. q.x) p ps, low-All (λ q. q.x) p ps)
        (high-first (λ q. q.x) p ps, high-All (λ q. q.x) p ps)
        (low-first (λ q. q.y) p ps, low-All (λ q. q.y) p ps)
        (high-first (λ q. q.y) p ps, high-All (λ q. q.y) p ps);
  least = λ s h.
      let (a, b, c, d) = sides s pad (p ∷ ps) h in
      record {
        left = add_pad-cancel s.x _ pad (low-greatest (λ q. q.x) (s.x +ℤ pos pad) p ps a.0 a.1);
        right = far_side-tight _ _ (s.x +ℤ s.width) pad (high-least (λ q. q.x) _ p ps b.0 b.1);
        top = add_pad-cancel s.y _ pad (low-greatest (λ q. q.y) (s.y +ℤ pos pad) p ps c.0 c.1);
        bottom = far_side-tight _ _ (s.y +ℤ s.height) pad (high-least (λ q. q.y) _ p ps d.0 d.1);
      };
}

-- No box for no points, else the least one.
abbrev pub LeastOf : ℕ → List MapPos → Option Rect → Type 0
LeastOf pad [] o = o ≡ none
LeastOf pad (p ∷ ps) o = (r : Rect) × (o ≡ some r) × Least pad (p ∷ ps) r

box_of-LeastOf : (pad : ℕ) (ps : List MapPos) → LeastOf pad ps (box_of pad ps)
box_of-LeastOf pad [] = refl
box_of-LeastOf pad (p ∷ ps) = (_, refl, box_around-Least pad p ps)

-- The box of a constellation is there when a system of ours is in the constellation, and is then
-- the smallest one that has all those systems inside, 30 away from its sides.
pub constellation_bounds-LeastOf :
    (layout : Layout) (name : String)
    → LeastOf 30 (filter (is_member name) (positions layout)) (constellation_bounds layout name)
unfolding constellation_bounds
constellation_bounds-LeastOf layout name =
    box_of-LeastOf 30 (filter (is_member name) (positions layout))

-- The view box of a layout with a system in it is the smallest one that has every system inside,
-- with the margin of the mode.
pub view_box_for-Least :
    (layout : Layout) (mode : Mode)
    → positions layout ≢ []
    → Least (margin_of mode) (positions layout) (view_box_for layout mode)
unfolding view_box_for view_box_of
view_box_for-Least [] mode h = absurd (h refl)
view_box_for-Least (e ∷ layout) subway h = box_around-Least 40 e.1 (positions layout)
view_box_for-Least (e ∷ layout) map_mode h = box_around-Least 30 e.1 (positions layout)
