-- ===== src/MapStyle/Gestures.antt =====
-- ConstellationMap.jsx: panning and pinching the map by touch. Coordinates are whole numbers, and a
-- scale is of any type of numbers with the operations that the code uses.
use lawn_eve_intel_dashboard.Common.{
  ℕ, ◌+◌, ◌*◌, Bool, true, false, ◌||◌, List, [], ◌∷◌, ltb, if◌then◌else◌,
}
use lawn_eve_intel_dashboard.Common.Int.{ℤ, pos, pos_part, neg_part, ◌+ℤ◌, ◌-ℤ◌}

-- A number, or NaN.
pub data Float (N : Type 0) : Type 0 where
  num : N → Float N
  nan : Float N

-- The numbers of a scale: their order, one half, 1 and 5, the square root of a whole number, and the
-- quotient and the product, which can be NaN.
pub record Numbers : Type 1 where
  pub N : Type 0
  pub le : N → N → Bool
  pub half : N
  pub one : N
  pub five : N
  pub root : ℕ → N
  pub quotient : N → N → Float N
  pub product : N → N → Float N

pub record Touch : Type 0 where
  pub x : ℤ
  pub y : ℤ

-- `touchStateRef.current`; of a pinch, the square of `lastDist`.
pub record Pan : Type 0 where
  pub start_x : ℤ
  pub start_y : ℤ
  pub last_x : ℤ
  pub last_y : ℤ
  pub moved : Bool

pub data TouchState : Type 0 where
  idle : TouchState
  pan : Pan → TouchState
  pinch : ℕ → TouchState

abbrev pub magnitude : ℤ → ℕ
magnitude z = pos_part z + neg_part z

-- The square of the way from one place to another.
abbrev pub square_dist : ℤ → ℤ → ℤ → ℤ → ℕ
square_dist ax ay bx by =
    magnitude (ax -ℤ bx) * magnitude (ax -ℤ bx) + magnitude (ay -ℤ by) * magnitude (ay -ℤ by)

module _ (S : Numbers) where
  -- `Math.max` and `Math.min`, which are NaN if an argument is.
  abbrev pub math_max : S.N → Float S.N → Float S.N
  math_max a nan = nan
  math_max a (num b) = num (if S.le a b then b else a)

  abbrev pub math_min : S.N → Float S.N → Float S.N
  math_min a nan = nan
  math_min a (num b) = num (if S.le a b then a else b)

  abbrev pub times : Float S.N → Float S.N → Float S.N
  times nan b = nan
  times (num a) nan = nan
  times (num a) (num b) = S.product a b

  -- `touchTransform`, the touch in progress, and whether a tooltip is open.
  pub record Gesture : Type 0 where
    pub touch : TouchState
    pub scale : Float S.N
    pub x : ℤ
    pub y : ℤ
    pub has_tooltip : Bool

  -- The map as it is first drawn, and `Reset View`.
  unfoldable pub untouched : Bool → Gesture
  untouched tip = record {
    touch = idle;
    scale = num S.one;
    x = pos 0;
    y = pos 0;
    has_tooltip = tip;
  }

  unfoldable pub reset_view : Gesture → Gesture
  reset_view g = record g { scale = num S.one; x = pos 0; y = pos 0 }

  -- `handleTouchStart`.
  unfoldable pub touch_start : List Touch → Gesture → Gesture
  touch_start (t ∷ []) g = record g {
    touch =
        pan (record { start_x = t.x; start_y = t.y; last_x = t.x; last_y = t.y; moved = false });
  }
  touch_start (t ∷ u ∷ []) g = record g { touch = pinch (square_dist t.x t.y u.x u.y) }
  touch_start _ g = g

  -- The pan moves the map once it has left the circle of radius 5 around its start, and closes the
  -- tooltip as it leaves it.
  abbrev pub drag : Pan → Touch → Gesture → Gesture
  drag p t g = record g {
    touch = pan (record p { last_x = t.x; last_y = t.y; moved = true });
    x = g.x +ℤ (t.x -ℤ p.last_x);
    y = g.y +ℤ (t.y -ℤ p.last_y);
    has_tooltip = if p.moved then g.has_tooltip else false;
  }

  unfoldable pub move_pan : Pan → Touch → Gesture → Gesture
  unfolding ◌+ℤ◌ ◌-ℤ◌
  move_pan p t g =
      if p.moved || ltb 25 (square_dist t.x t.y p.start_x p.start_y) then drag p t g else g

  -- The pinch scales by the ratio of the distances, between a half and 5.
  unfoldable pub move_pinch : ℕ → ℕ → Gesture → Gesture
  move_pinch last dist g = record g {
    touch = pinch dist;
    scale =
        math_min S.five (math_max S.half (times g.scale (S.quotient (S.root dist) (S.root last))));
  }

  abbrev pub move_touches : TouchState → List Touch → Gesture → Gesture
  move_touches (pan p) (t ∷ []) g = move_pan p t g
  move_touches (pinch last) (t ∷ u ∷ []) g = move_pinch last (square_dist t.x t.y u.x u.y) g
  move_touches _ _ g = g

  -- `handleTouchMove`.
  unfoldable pub touch_move : List Touch → Gesture → Gesture
  unfolding move_pan move_pinch ◌-ℤ◌
  touch_move ts g = move_touches g.touch ts g

  -- `handleTouchEnd`.
  unfoldable pub touch_end : Gesture → Gesture
  touch_end g = record g { touch = idle }
