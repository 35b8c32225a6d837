-- ===== src/MapView.antt =====
-- frontend/src/utils/mapHelpers.js: what ConstellationMap derives from a layout. Coordinates are
-- whole numbers here. The colour of a constellation is the place of its entry in REGION_PALETTE.
mod Tests
pub mod Groups
pub mod Bounds
pub mod Hash
pub mod Gates
use lawn_eve_intel_dashboard.Common.{
  ℕ, ◌+◌, ◌-◌, ◌*◌, ◌%◌, String, Bool, not, ◌&&◌, ◌||◌, Option, none, some, List, [], ◌∷◌, map, ltb,
  str_eq, if◌then◌else◌, or_else, filter,
}
use lawn_eve_intel_dashboard.Common.Text.{Text}
use lawn_eve_intel_dashboard.Common.Int.{ℤ, pos, negsuc, ◌+ℤ◌, ◌-ℤ◌, leb_ℤ}
use lawn_eve_intel_dashboard.Common.Named.{named, put_named}
use lawn_eve_intel_dashboard.Config.{MapPos, Layout, Connection}

abbrev pub min_ℤ : ℤ → ℤ → ℤ
min_ℤ a b = if leb_ℤ a b then a else b

abbrev pub max_ℤ : ℤ → ℤ → ℤ
max_ℤ a b = if leb_ℤ a b then b else a

-- `Math.min(a, ...as)` and `Math.max(a, ...as)`.
pub min_of : ℤ → List ℤ → ℤ
min_of a [] = a
min_of a (b ∷ bs) = min_ℤ b (min_of a bs)

pub max_of : ℤ → List ℤ → ℤ
max_of a [] = a
max_of a (b ∷ bs) = max_ℤ b (max_of a bs)

pub record Rect : Type 0 where
  pub x : ℤ
  pub y : ℤ
  pub width : ℤ
  pub height : ℤ

-- The box around the points, with `pad` on every side.
unfoldable pub box_around : ℕ → MapPos → List MapPos → Rect
unfolding min_of max_of
box_around pad p ps =
    let min_x = min_of p.x (map (λ q. q.x) ps) in
    let min_y = min_of p.y (map (λ q. q.y) ps) in
    record {
      x = min_x -ℤ pos pad;
      y = min_y -ℤ pos pad;
      width = max_of p.x (map (λ q. q.x) ps) -ℤ min_x +ℤ pos (pad * 2);
      height = max_of p.y (map (λ q. q.y) ps) -ℤ min_y +ℤ pos (pad * 2);
    }

abbrev pub positions : Layout → List MapPos
positions = map (λ e. e.1)

abbrev pub is_member : String → MapPos → Bool
is_member name p = p.lawn && str_eq p.constellation name

abbrev pub box_of : ℕ → List MapPos → Option Rect
box_of pad [] = none
box_of pad (p ∷ ps) = some (box_around pad p ps)

-- `constellationBounds`.
unfoldable pub constellation_bounds : Layout → String → Option Rect
unfolding box_around
constellation_bounds layout name = box_of 30 (filter (is_member name) (positions layout))

pub data Mode : Type 0 where
  subway map_mode : Mode

abbrev pub margin_of : Mode → ℕ
margin_of subway = 40
margin_of map_mode = 30

-- `viewBoxFor`: the numbers of `vb`, the last two of which are also `w` and `h`.
unfoldable pub view_box_of : Mode → List MapPos → Rect
unfolding box_around
view_box_of subway [] = record { x = negsuc 9; y = negsuc 29; width = pos 1180; height = pos 1000 }
view_box_of map_mode [] = record {
  x = negsuc 39;
  y = negsuc 19;
  width = pos 1220;
  height = pos 790;
}
view_box_of mode (p ∷ ps) = box_around (margin_of mode) p ps

unfoldable pub view_box_for : Layout → Mode → Rect
unfolding view_box_of
view_box_for layout mode = view_box_of mode (positions layout)

-- `hashStr`: the 32 bits of `h`, read as an unsigned number.
pub hash_step : ℕ → ℕ → ℕ
hash_step h c = ((h * 32) % 4294967296 + (4294967296 - h) + c) % 4294967296

pub hash_bits : Text → ℕ → ℕ
unfolding hash_step
hash_bits [] h = h
hash_bits (c ∷ s) h = hash_bits s (hash_step h c)

-- `Math.abs` of the 32 bits as a signed number.
abbrev pub abs_bits : ℕ → ℕ
abs_bits u = if ltb u 2147483648 then u else 4294967296 - u

unfoldable pub hash_str : Text → ℕ
unfolding hash_bits
hash_str s = abs_bits (hash_bits s 0)

abbrev pub palette_size : ℕ
palette_size = 15

-- `constellationColor`: a missing name has a colour of its own.
unfoldable pub constellation_color : Text → Option ℕ
unfolding hash_str
constellation_color [] = none
constellation_color (c ∷ s) = some (hash_str (c ∷ s) % palette_size)

-- `p.note || p.constellation`.
abbrev pub note_of : MapPos → String
note_of p = or_else p.note p.constellation

abbrev pub is_label : String → Bool
is_label note = not (str_eq note "") && not (str_eq note "neighbor")

abbrev pub leads_out : Connection → Bool
leads_out c = str_eq c.kind "regional" || str_eq c.kind "cross"

abbrev pub put_label : String → String → List (String × String) → List (String × String)
put_label name note dests = if is_label note then put_named name note dests else dests

abbrev pub label_ends :
    Connection → Option MapPos → Option MapPos → List (String × String) → List (String × String)
label_ends c none lb dests = dests
label_ends c (some la) none dests = dests
label_ends c (some la) (some lb) dests =
    if la.lawn && not lb.lawn
    then put_label c.from (note_of lb) dests
    else if lb.lawn && not la.lawn
    then put_label c.to (note_of la) dests
    else dests

pub gates_loop : Layout → List Connection → List (String × String) → List (String × String)
unfolding named put_named
gates_loop layout [] dests = dests
gates_loop layout (c ∷ cs) dests =
    gates_loop layout cs
      (if leads_out c then label_ends c (named c.from layout) (named c.to layout) dests else dests)

-- `gatewayDestinations`.
unfoldable pub gateway_destinations : Layout → List Connection → List (String × String)
unfolding gates_loop
gateway_destinations layout cs = gates_loop layout cs []
